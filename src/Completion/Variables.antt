-- ===== src/Completion/Variables.antt =====
-- internal/server/completion.go, `localVariables` and `completionVariablesOnly`: the variables of a
-- document.
use mathlib.Core.List.{foldl}
use mathlib.Core.List.Memᴰ
use gols_bash.Prelude.{
  ◌≡◌, refl, sym, ap, ◌∙◌, ◌↔◌, ◌⊎◌, inl, inr, true, Option, none, some, List, [], ◌∷◌, ◌++◌, Str,
  str_lt, mem-sort_slice, Memᴰ, Memᴰ-append,
}
use gols_bash.Syntax.{Lit, Node, func_decl, assign, call_expr, param_exp, other_node, File, Walker}
use gols_bash.Analyser.Symbols.{
  Declaration, declaration_variable, declaration_function, find_declarations,
}
use gols_bash.Analyser.SymbolLaws.{
  walk_all, declared_at, declared_name, flat, find_declarations-flat,
}
use gols_bash.Data.Executables.{mem-see}
use gols_bash.Completion.{variables_step, local_variables}

-- The variable `x` is declared.
abbrev pub IsVariable : Str → List Declaration → Type 0
IsVariable x ds = (d : Declaration) × (Memᴰ d ds × (d.kind ≡ declaration_variable) × (d.name ≡ x))

IsVariable-append :
    (x : Str) (ds es : List Declaration)
    → IsVariable x (ds ++ es) ↔ (IsVariable x ds ⊎ IsVariable x es)
IsVariable-append x ds es = (
  λ (d, (m, k, n)). elim ((Memᴰ-append d ds es).0 m) [
    | inl i ↦ inl (d, (i, k, n))
    | inr i ↦ inr (d, (i, k, n))
  ],
  λ c. elim c [
    | inl (d, (i, k, n)) ↦ (d, ((Memᴰ-append d ds es).1 (inl i), k, n))
    | inr (d, (i, k, n)) ↦ (d, ((Memᴰ-append d ds es).1 (inr i), k, n))
  ],
)

no_variable : (x : Str) → IsVariable x [] → ⊥
no_variable x (d, (m, k, n)) = Memᴰ.not-nil m

function_is_none : declaration_function ≡ declaration_variable → ⊥
function_is_none e = cc

no_function : (x : Str) (l : Option Lit) → IsVariable x (declared_name declaration_function l) → ⊥
no_function x none v = no_variable x v
no_function x (some l) (d, (m, k, n)) =
    function_is_none (sym (ap (λ e. e.kind) (Memᴰ.eq_of_singleton m)) ∙ k)

-- A node that declares no variable leaves the names as they are.
no_more :
    (x : Str) (seen : List Str) (ds : List Declaration)
    → (IsVariable x ds → ⊥)
    → Memᴰ x seen ↔ (Memᴰ x seen ⊎ IsVariable x ds)
no_more x seen ds h = (inl, λ c. elim c [ inl i ↦ i | inr v ↦ absurd (h v) ])

abbrev variable_of : Lit → Declaration
variable_of l = record { name = l.value; kind = declaration_variable; pos = l.pos; stop = l.stop }

mem-variables_step :
    (x : Str) (seen : List Str) (n : Node)
    → Memᴰ x (variables_step seen n).0 ↔ (Memᴰ x seen ⊎ IsVariable x (declared_at n))
unfolding variables_step
mem-variables_step x seen (func_decl v) =
    no_more x seen (declared_name declaration_function v.name) (no_function x v.name)
mem-variables_step x seen (assign none) = no_more x seen [] (no_variable x)
mem-variables_step x seen (assign (some l)) =
    let added = mem-see seen l.value x in
    (
      λ m. elim (added.0 m) [
        | inl i ↦ inl i
        | inr e ↦ inr (variable_of l, (Memᴰ.head refl, refl, sym e))
      ],
      λ c. elim c [
        | inl i ↦ added.1 (inl i)
        | inr (d, (m, k, n)) ↦ added.1 (inr (sym n ∙ ap (λ e. e.name) (Memᴰ.eq_of_singleton m)))
      ],
    )
mem-variables_step x seen (call_expr args) = no_more x seen [] (no_variable x)
mem-variables_step x seen (param_exp v) = no_more x seen [] (no_variable x)
mem-variables_step x seen other_node = no_more x seen [] (no_variable x)

mem-variables_fold :
    (x : Str) (seen : List Str) (nodes : List Node)
    → Memᴰ x (foldl (λ t n. (variables_step t n).0) seen nodes)
      ↔ (Memᴰ x seen ⊎ IsVariable x (flat declared_at nodes))
mem-variables_fold x seen [] = no_more x seen [] (no_variable x)
mem-variables_fold x seen (n ∷ nodes) =
    let later = mem-variables_fold x (variables_step seen n).0 nodes in
    let now = mem-variables_step x seen n in
    let split = IsVariable-append x (declared_at n) (flat declared_at nodes) in
    (
      λ m. elim (later.0 m) [
        | inl i ↦ elim (now.0 i) [ inl j ↦ inl j | inr v ↦ inr (split.1 (inl v)) ]
        | inr v ↦ inr (split.1 (inr v))
      ],
      λ c. later.1 (elim c [
        | inl i ↦ inl (now.1 (inl i))
        | inr v ↦ elim (split.0 v) [ inl here ↦ inl (now.1 (inr here)) | inr there ↦ inr there ]
      ]),
    )

variables_step-true : (seen : List Str) (n : Node) → (variables_step seen n).1 ≡ true
unfolding variables_step
variables_step-true seen (assign none) = refl
variables_step-true seen (assign (some l)) = refl
variables_step-true seen _ = refl

-- `localVariables` names exactly the variables that `FindDeclarations` finds.
pub mem-local_variables :
    (w : Walker) (file : File) (x : Str)
    → Memᴰ x (local_variables w (some file)) ↔ IsVariable x (find_declarations w (some file))
unfolding local_variables
mem-local_variables w file x =
    let names = w.walk (List Str) variables_step [] file in
    let sorted = mem-sort_slice str_lt x names in
    let walked = walk_all w (List Str) variables_step [] file variables_step-true in
    let folded = mem-variables_fold x [] file.nodes in
    rw (find_declarations-flat w file) (
      λ m. elim (folded.0 (rw walked at (sorted.0 m))) [
        | inl i ↦ absurd (Memᴰ.not-nil i)
        | inr v ↦ v
      ],
      λ v. sorted.1 (rw walked (folded.1 (inr v))),
    )
