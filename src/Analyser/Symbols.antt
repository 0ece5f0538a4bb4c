-- ===== src/Analyser/Symbols.antt =====
-- internal/analyser/declarations.go and usages.go: the callbacks given to `Walk`, and the results.
use gols_bash.Prelude.{
  Bool, true, false, Option, none, some, List, [], ◌∷◌, ◌++◌, Str, str_eq, if◌then◌else◌,
}
use gols_bash.Syntax.{
  Pos, Lit, lit, WordPart, Node, func_decl, assign, call_expr, param_exp, other_node, File, Walker,
}

pub data DeclarationKind : Type 0 where
  declaration_function declaration_variable : DeclarationKind

pub record Declaration : Type 0 where
  pub name : Str
  pub kind : DeclarationKind
  pub pos : Pos
  pub stop : Pos

unfoldable pub declaration_of : DeclarationKind → Lit → Declaration
declaration_of k l = record { name = l.value; kind = k; pos = l.pos; stop = l.stop }

-- The callback of `FindDeclarations`; it never prunes.
unfoldable pub declaration_step : List Declaration → Node → List Declaration × Bool
unfolding declaration_of
declaration_step out (func_decl v) = elim v.name [
  | none ↦ (out, true)
  | some l ↦ (out ++ declaration_of declaration_function l ∷ [], true)
]
declaration_step out (assign name) = elim name [
  | none ↦ (out, true)
  | some l ↦ (out ++ declaration_of declaration_variable l ∷ [], true)
]
declaration_step out (call_expr args) = (out, true)
declaration_step out (param_exp param) = (out, true)
declaration_step out other_node = (out, true)

pub data UsageKind : Type 0 where
  usage_read usage_write : UsageKind

pub record Usage : Type 0 where
  pub name : Str
  pub kind : UsageKind
  pub pos : Pos
  pub stop : Pos

-- The closure `add` of `FindUsages`.
unfoldable pub add : Str → List Usage → UsageKind → Lit → List Usage
add name out kind l = out ++ (record { name = name; kind = kind; pos = l.pos; stop = l.stop }) ∷ []

abbrev pub add_if : Str → List Usage → UsageKind → Option Lit → List Usage × Bool
add_if name out kind none = (out, true)
add_if name out kind (some l) =
    if str_eq l.value name then (add name out kind l, true) else (out, true)

-- The literal of a word that is one literal: `len(Parts) == 1` and the type assertion on it.
abbrev pub sole_lit : List WordPart → Option Lit
sole_lit (lit l ∷ []) = some l
sole_lit _ = none

-- The callback of `FindUsages`; it never prunes.
unfoldable pub usage_step : Str → List Usage → Node → List Usage × Bool
unfolding add
usage_step name out (func_decl v) = add_if name out usage_write v.name
usage_step name out (assign v) = add_if name out usage_write v
usage_step name out (call_expr []) = (out, true)
usage_step name out (call_expr (arg0 ∷ _)) = add_if name out usage_read (sole_lit arg0.parts)
usage_step name out (param_exp v) = add_if name out usage_read v
usage_step name out other_node = (out, true)

-- `usage.Kind == UsageWrite`.
abbrev pub is_write : Usage → Bool
is_write u = elim u.kind [ usage_write ↦ true | usage_read ↦ false ]

-- A nil file is `none`.
module _ (w : Walker) where
  unfoldable pub find_declarations : Option File → List Declaration
  find_declarations none = []
  find_declarations (some file) = w.walk (List Declaration) declaration_step [] file

  unfoldable pub find_usages : Option File → Str → List Usage
  find_usages none name = []
  find_usages (some file) [] = []
  find_usages (some file) (b ∷ name) = w.walk (List Usage) (usage_step (b ∷ name)) [] file
