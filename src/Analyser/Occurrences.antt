-- ===== src/Analyser/Occurrences.antt =====
-- internal/analyser/declarations.go and usages.go: usages are complete, and the writes among them
-- are the declarations.
use mathlib.Core.List.Memᴰ
use mathlib.Core.List.{map-append}
use gols_bash.Prelude.{
  ◌≡◌, refl, ap, ◌∙◌, ◌≢◌, ◌↔◌, inl, inr, Bool, Option, none, some, List, [], ◌∷◌, ◌++◌, map, Str,
  str_eq, str_eq_iff, select, Memᴰ, Memᴰ-append, Memᴰ-cons, Bool-cases,
}
use gols_bash.Syntax.{Lit, Node, func_decl, assign, call_expr, param_exp, other_node, File, Walker}
use gols_bash.Analyser.Symbols.{
  DeclarationKind, declaration_function, declaration_variable, Declaration, UsageKind, usage_read,
  usage_write, Usage, find_declarations, find_usages, sole_lit, is_write,
}
use gols_bash.Analyser.SymbolLaws.{
  mentions, mention, usage_at, used_by, used_at, declared_at, declared_name, flat,
  find_declarations-flat, find_usages-flat,
}

mem-flat {ℓ κ} :
    {A : Type ℓ} {B : Type κ} (f : A → List B) (xs : List A) (y : B)
    → Memᴰ y (flat f xs) ↔ ((x : A) × Memᴰ x xs × Memᴰ y (f x))
mem-flat f [] y = (λ m. absurd (Memᴰ.not-nil m), λ (x, m, _). absurd (Memᴰ.not-nil m))
mem-flat f (x ∷ xs) y = (
  λ m. elim ((Memᴰ-append y (f x) (flat f xs)).0 m) [
    | inl here ↦ (x, Memᴰ.head refl, here)
    | inr later ↦ let (z, mz, my) = (mem-flat f xs y).0 later in (z, Memᴰ.tail mz, my)
  ],
  λ (z, mz, my). elim ((Memᴰ-cons z x xs).0 mz) [
    | inl e ↦ (Memᴰ-append y (f x) (flat f xs)).1 (inl (rw (← e) my))
    | inr later ↦ (Memᴰ-append y (f x) (flat f xs)).1 (inr ((mem-flat f xs y).1 (z, later, my)))
  ],
)

mem-used_by :
    (name : Str) (o : Option (UsageKind × Lit)) (u : Usage)
    → Memᴰ u (used_by name o)
      ↔ ((k : UsageKind) × (l : Lit) × (o ≡ some (k, l)) × (l.value ≡ name) × (u ≡ usage_at k l))
mem-used_by name none u = (λ m. absurd (Memᴰ.not-nil m), λ (k, l, e, _, _). cc)
mem-used_by name (some (k, l)) u = (
  λ m. elim (Bool-cases (str_eq l.value name)) [
    | inl e ↦ (k, l, refl, (str_eq_iff l.value name).0 e, Memᴰ.eq_of_singleton (rw e at m))
    | inr e ↦ absurd (Memᴰ.not-nil (rw e at m))
  ],
  λ (k', l', e, v, q).
      let same : l ≡ l' = cc in
      let same_value : l.value ≡ name = ap (λ (x : Lit). x.value) same ∙ v in
      let entry : u ≡ usage_at k l = cc in
      rw ((str_eq_iff l.value name).1 same_value) (Memᴰ.head entry),
)

module _ (w : Walker) (file : File) (name : Str) (named : name ≢ []) where
  -- For a name that is not empty, `FindUsages` returns a usage exactly where a node of the file
  -- mentions the name: with the kind of the mention and the place of its literal.
  pub mem-find_usages :
      (u : Usage)
      → Memᴰ u (find_usages w (some file) name) ↔ (
          (n : Node) × (k : UsageKind) × (l : Lit) × Memᴰ n file.nodes
          × (mentions n ≡ some (k, l))
          × (l.value ≡ name)
          × (u ≡ usage_at k l))
  mem-find_usages u = rw (find_usages-flat w file name named) (
    λ m.
        let (n, mn, mu) = (mem-flat (used_at name) file.nodes u).0 m in
        let (k, l, e, v, q) = (mem-used_by name (mentions n) u).0 mu in (n, k, l, mn, e, v, q),
    λ (n, k, l, mn, e, v, q).
        (mem-flat (used_at name) file.nodes u).1
          (n, mn, (mem-used_by name (mentions n) u).1 (k, l, e, v, q)),
  )

abbrev pub as_write : Declaration → Usage
as_write d = record { name = d.name; kind = usage_write; pos = d.pos; stop = d.stop }

select-append {ℓ} :
    {A : Type ℓ} (p : A → Bool) (xs ys : List A) → select p (xs ++ ys) ≡ select p xs ++ select p ys
select-append p [] ys = refl
select-append p (x ∷ xs) ys = elim (Bool-cases (p x)) [
  | inl e ↦ rw (e, select-append p xs ys)
  | inr e ↦ rw (e, select-append p xs ys)
]

writes_of_name :
    (name : Str) (k : DeclarationKind) (v : Option Lit)
    → select is_write (used_by name (mention usage_write v))
      ≡ map as_write (select (λ d. str_eq d.name name) (declared_name k v))
writes_of_name name k none = refl
writes_of_name name k (some l) = elim (Bool-cases (str_eq l.value name)) [
  | inl e ↦ rw (e, (str_eq_iff l.value name).0 e)
  | inr e ↦ rw e
]

reads_of_name :
    (name : Str) (v : Option Lit) → select is_write (used_by name (mention usage_read v)) ≡ []
reads_of_name name none = refl
reads_of_name name (some l) = elim (Bool-cases (str_eq l.value name)) [
  | inl e ↦ rw e
  | inr e ↦ rw e
]

writes_at :
    (name : Str) (n : Node)
    → select is_write (used_at name n)
      ≡ map as_write (select (λ d. str_eq d.name name) (declared_at n))
writes_at name (func_decl v) = writes_of_name name declaration_function v.name
writes_at name (assign v) = writes_of_name name declaration_variable v
writes_at name (call_expr []) = refl
writes_at name (call_expr (arg0 ∷ args)) = reads_of_name name (sole_lit arg0.parts)
writes_at name (param_exp v) = reads_of_name name v
writes_at name other_node = refl

writes-flat :
    (name : Str) (ns : List Node)
    → select is_write (flat (used_at name) ns)
      ≡ map as_write (select (λ d. str_eq d.name name) (flat declared_at ns))
writes-flat name [] = refl
writes-flat name (n ∷ ns) = rw (
  select-append is_write (used_at name n) (flat (used_at name) ns),
  select-append (λ d. str_eq d.name name) (declared_at n) (flat declared_at ns),
  map-append,
  writes_at name n,
  writes-flat name ns,
)

-- The write usages of a name are the declarations of that name, in the same order and at the same
-- places.
pub writes-eq-declarations :
    (w : Walker) (file : File) (name : Str)
    → name ≢ []
    → select is_write (find_usages w (some file) name)
      ≡ map as_write (select (λ d. str_eq d.name name) (find_declarations w (some file)))
writes-eq-declarations w file name h =
    rw (find_usages-flat w file name h, find_declarations-flat w file) (writes-flat name file.nodes)
