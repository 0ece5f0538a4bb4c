-- ===== src/Requests/Definition.antt =====
-- internal/server/definition.go.
use gols_bash.Prelude.{
  ℕ, Bool, true, false, not, ◌||◌, ◌&&◌, Option, none, some, List, [], ◌∷◌, Str, str_eq, str_lt,
  sort_slice, ltb, leb, if◌then◌else◌,
}
use gols_bash.Syntax.{
  Pos, Word, Node, func_decl, assign, call_expr, param_exp, other_node, File, Walker,
}
use gols_bash.System.{Paths, Disk}
use gols_bash.Lsp.{word_at_offset}
use gols_bash.Positions.{Position, range_to_lsp, offset_for_position}
use gols_bash.Analyser.Symbols.{Declaration, find_declarations}
use gols_bash.Analyser.Index.{
  DeclarationHit, single_lit, is_source, source_path, is_file, reachable_declarations,
}
use gols_bash.Documents.{Document}
use gols_bash.Protocol.{Location}
use gols_bash.State.{Server}
use gols_bash.Requests.{or_empty, text_for_uri}

unfoldable pub pos_contains_offset : Pos → Pos → ℕ → Bool
pos_contains_offset start stop off = leb start.offset off && ltb off stop.offset

-- The argument of one call, if it is `source arg` or `. arg` with both words plain literals and the
-- offset inside the argument.
unfoldable pub source_argument : ℕ → List Word → Option Str
unfolding single_lit pos_contains_offset
source_argument off [] = none
source_argument off (a0 ∷ []) = none
source_argument off (a0 ∷ a1 ∷ more) = elim (single_lit (some a0)) [
  | none ↦ none
  | some cmd ↦ if not (is_source cmd) then none else elim (single_lit (some a1)) [
    | none ↦ none
    | some arg ↦ if not (pos_contains_offset a1.pos a1.stop off) then none else some arg
  ]
]

-- One call of the callback on a call expression.
unfoldable pub target_of_call : ℕ → List Word → Str × Bool
unfolding source_argument
target_of_call off args = elim (source_argument off args) [
  | none ↦ ([], true)
  | some arg ↦ (arg, false)
]

-- The callback; the state is `target`.
unfoldable pub target_step : ℕ → Str → Node → Str × Bool
unfolding target_of_call
target_step off (b ∷ target) n = (b ∷ target, false)
target_step off [] (call_expr args) = target_of_call off args
target_step off [] (func_decl v) = ([], true)
target_step off [] (assign v) = ([], true)
target_step off [] (param_exp v) = ([], true)
target_step off [] other_node = ([], true)

-- `sortedDeclarationHits`
unfoldable pub hit_less : DeclarationHit → DeclarationHit → Bool
hit_less g h =
    if not (str_eq g.uri h.uri)
    then str_lt g.uri h.uri
    else ltb g.declaration.pos.offset h.declaration.pos.offset

unfoldable pub sorted_declaration_hits : List DeclarationHit → List DeclarationHit
unfolding hit_less sort_slice
sorted_declaration_hits hits = sort_slice hit_less hits

-- The loop over the declarations of the document.
unfoldable pub own_declaration : Str → List Declaration → Option Declaration
own_declaration word [] = none
own_declaration word (d ∷ decls) =
    let rest = own_declaration word decls in if str_eq d.name word then some d else rest

-- The loop over the declarations elsewhere.
unfoldable pub other_declaration : Str → Str → List DeclarationHit → Option DeclarationHit
other_declaration u word [] = none
other_declaration u word (h ∷ hits) =
    let rest = other_declaration u word hits in
    if str_eq h.uri u || not (str_eq h.declaration.name word) then rest else some h

module _ (w : Walker) (p : Paths) (disk : Disk) (s : Server) where
  unfoldable pub source_definition : Document → File → ℕ → Option Location
  unfolding target_step
  source_definition d ast off =
      let target = w.walk Str (target_step off) [] ast in
      let path = source_path p disk d.uri target in
      elim target [
        | [] ↦ none
        | _ ∷ _ ↦
            if not (is_file p disk path)
            then none
            else some (record {
              uri = p.uri_file path;
              range = record {
                start = record { line = 0; character = 0 };
                stop = record { line = 0; character = 0 };
              };
            })
      ]

  unfoldable pub declaration_location : Str → Str → Declaration → Location
  declaration_location u text decl = record {
    uri = u;
    range = range_to_lsp s.pos_encoding text decl.pos decl.stop;
  }

  -- From the word on.
  unfoldable pub word_definition : Document → File → Str → Option Location
  unfolding sorted_declaration_hits own_declaration other_declaration declaration_location
  word_definition d ast word = elim (own_declaration word (find_declarations w (some ast))) [
    | some decl ↦ some (declaration_location d.uri d.text decl)
    | none ↦
        elim (other_declaration d.uri word
          (sorted_declaration_hits (or_empty (reachable_declarations w p disk s.index d.uri)))) [
            | none ↦ none
            | some h ↦ some (declaration_location h.uri (text_for_uri p disk s h.uri) h.declaration)
          ]
  ]

  -- At most one location, where nil is `none`.
  unfoldable pub definition : Option Document → Position → Option Location
  unfolding source_definition word_definition
  definition none pos = none
  definition (some d) pos = elim d.ast [
    | none ↦ none
    | some ast ↦ elim (offset_for_position s.pos_encoding d.text pos.line pos.character) [
      | none ↦ none
      | some off ↦ elim (source_definition d ast off) [
        | some loc ↦ some loc
        | none ↦
            let word = (word_at_offset d.text off).word in
            elim word [ [] ↦ none | b ∷ rest ↦ word_definition d ast (b ∷ rest) ]
      ]
    ]
  ]
