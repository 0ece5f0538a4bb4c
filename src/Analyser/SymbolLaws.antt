-- ===== src/Analyser/SymbolLaws.antt =====
-- internal/analyser/declarations.go and usages.go: what the two searches return, node by node.
use mathlib.Core.List.{foldl}
use gols_bash.Prelude.{
  ◌≡◌, refl, sym, ◌∙◌, ◌≢◌, inl, inr, Bool, true, false, Option, none, some, List, [], ◌∷◌, ◌++◌,
  Str, str_eq, str_eq_iff, if◌then◌else◌, arith, append-nil, append_assoc, Bool-cases, Option-cases,
}
use gols_bash.Syntax.{
  Lit, Word, Node, func_decl, assign, call_expr, param_exp, other_node, File, Walker,
}
use gols_bash.Analyser.Symbols.{
  DeclarationKind, declaration_function, declaration_variable, Declaration, declaration_step,
  UsageKind, usage_read, usage_write, Usage, add, add_if, sole_lit, usage_step, find_declarations,
  find_usages,
}

-- The name that a node writes or reads: that of a function declaration or an assignment, that of
-- the parameter of an expansion, and the command of a call whose first word is one plain literal.
abbrev pub mention : UsageKind → Option Lit → Option (UsageKind × Lit)
mention k none = none
mention k (some l) = some (k, l)

abbrev pub mention_call : List Word → Option (UsageKind × Lit)
mention_call [] = none
mention_call (arg0 ∷ _) = mention usage_read (sole_lit arg0.parts)

abbrev pub mentions : Node → Option (UsageKind × Lit)
mentions (func_decl v) = mention usage_write v.name
mentions (assign v) = mention usage_write v
mentions (call_expr args) = mention_call args
mentions (param_exp v) = mention usage_read v
mentions other_node = none

abbrev pub usage_at : UsageKind → Lit → Usage
usage_at k l = record { name = l.value; kind = k; pos = l.pos; stop = l.stop }

-- What one node adds to the usages of a name.
abbrev pub used_by : Str → Option (UsageKind × Lit) → List Usage
used_by name none = []
used_by name (some (k, l)) = if str_eq l.value name then usage_at k l ∷ [] else []

abbrev pub used_at : Str → Node → List Usage
used_at name n = used_by name (mentions n)

-- What one node declares.
abbrev pub declared_name : DeclarationKind → Option Lit → List Declaration
declared_name k none = []
declared_name k (some l) = record { name = l.value; kind = k; pos = l.pos; stop = l.stop } ∷ []

abbrev pub declared_at : Node → List Declaration
declared_at (func_decl v) = declared_name declaration_function v.name
declared_at (assign v) = declared_name declaration_variable v
declared_at (call_expr args) = []
declared_at (param_exp v) = []
declared_at other_node = []

abbrev pub flat {ℓ κ} : {A : Type ℓ} {B : Type κ} → (A → List B) → List A → List B
flat f [] = []
flat f (x ∷ xs) = f x ++ flat f xs

foldl-flat {ℓ κ} :
    {A : Type ℓ} {B : Type κ} (step : List B → A → List B) (f : A → List B)
    → ((out : List B) (x : A) → step out x ≡ out ++ f x)
    → (out : List B) (xs : List A) → foldl step out xs ≡ out ++ flat f xs
foldl-flat step f h out [] = rw append-nil
foldl-flat step f h out (x ∷ xs) =
    rw (foldl-flat step f h (step out x) xs, h out x) (append_assoc out (f x) (flat f xs))

declaration_step-eq :
    (out : List Declaration) (n : Node) → (declaration_step out n).0 ≡ out ++ declared_at n
unfolding declaration_step
declaration_step-eq out (func_decl v) = elim (Option-cases v.name) [
  | inl e ↦ rw (e, append-nil)
  | inr (l, e) ↦ rw e
]
declaration_step-eq out (assign none) = rw append-nil
declaration_step-eq out (assign (some l)) = refl
declaration_step-eq out _ = rw append-nil

declaration_step-true : (out : List Declaration) (n : Node) → (declaration_step out n).1 ≡ true
unfolding declaration_step
declaration_step-true out (func_decl v) = ground arith
declaration_step-true out (assign v) = ground arith
declaration_step-true out _ = refl

add_if-eq :
    (name : Str) (out : List Usage) (k : UsageKind) (v : Option Lit)
    → (add_if name out k v).0 ≡ out ++ used_by name (mention k v)
unfolding add
add_if-eq name out k none = rw append-nil
add_if-eq name out k (some l) = elim (Bool-cases (str_eq l.value name)) [
  | inl e ↦ rw (e, (str_eq_iff l.value name).0 e)
  | inr e ↦ rw (e, append-nil)
]

add_if-true :
    (name : Str) (out : List Usage) (k : UsageKind) (v : Option Lit)
    → (add_if name out k v).1 ≡ true
add_if-true name out k none = refl
add_if-true name out k (some l) = ground arith

usage_step-eq :
    (name : Str) (out : List Usage) (n : Node) → (usage_step name out n).0 ≡ out ++ used_at name n
unfolding usage_step
usage_step-eq name out (func_decl v) = add_if-eq name out usage_write v.name
usage_step-eq name out (assign v) = add_if-eq name out usage_write v
usage_step-eq name out (call_expr []) = rw append-nil
usage_step-eq name out (call_expr (arg0 ∷ args)) =
    add_if-eq name out usage_read (sole_lit arg0.parts)
usage_step-eq name out (param_exp v) = add_if-eq name out usage_read v
usage_step-eq name out other_node = rw append-nil

usage_step-true : (name : Str) (out : List Usage) (n : Node) → (usage_step name out n).1 ≡ true
unfolding usage_step
usage_step-true name out (func_decl v) = add_if-true name out usage_write v.name
usage_step-true name out (assign v) = add_if-true name out usage_write v
usage_step-true name out (call_expr []) = refl
usage_step-true name out (call_expr (arg0 ∷ args)) =
    add_if-true name out usage_read (sole_lit arg0.parts)
usage_step-true name out (param_exp v) = add_if-true name out usage_read v
usage_step-true name out other_node = refl

module _ (w : Walker) where
  -- A callback that never prunes sees every node.
  pub walk_all :
      (S : Type 0) (f : S → Node → S × Bool) (s : S) (file : File)
      → ((t : S) (n : Node) → (f t n).1 ≡ true)
      → w.walk S f s file ≡ foldl (λ t n. (f t n).0) s file.nodes
  walk_all S f s file all =
      w.walk_lem S f s file (λ t n m e. absurd (true-false (sym (all t n) ∙ e)))
    where
      true-false : true ≡ false → ⊥
      true-false e = cc

  pub find_declarations-flat :
      (file : File) → find_declarations w (some file) ≡ flat declared_at file.nodes
  unfolding find_declarations
  find_declarations-flat file =
      walk_all (List Declaration) declaration_step [] file declaration_step-true
      ∙ foldl-flat (λ t n. (declaration_step t n).0) declared_at declaration_step-eq [] file.nodes

  pub find_usages-flat :
      (file : File) (name : Str)
      → name ≢ []
      → find_usages w (some file) name ≡ flat (used_at name) file.nodes
  unfolding find_usages
  find_usages-flat file [] h = absurd (h refl)
  find_usages-flat file (b ∷ name) h =
      walk_all (List Usage) (usage_step (b ∷ name)) [] file (usage_step-true (b ∷ name))
      ∙ foldl-flat (λ t n. (usage_step (b ∷ name) t n).0) (used_at (b ∷ name))
          (usage_step-eq (b ∷ name)) [] file.nodes
