-- ===== src/Requests/Hover.antt =====
-- internal/server/hover.go.
use gols_bash.Prelude.{
  Bool, false, Option, none, some, List, [], ◌∷◌, ◌++◌, Str, bytes, str_eq, pos, if◌then◌else◌,
}
use gols_bash.Syntax.{
  FuncDecl, Node, func_decl, assign, call_expr, param_exp, other_node, File, Walker,
}
use gols_bash.System.{Paths, Disk}
use gols_bash.Positions.{Position}
use gols_bash.Analyser.Symbols.{DeclarationKind, declaration_function, declaration_variable}
use gols_bash.Analyser.Index.{DeclarationHit, reachable_declarations}
use gols_bash.Documents.{Document}
use gols_bash.Data.{is_builtin, is_reserved_word}
use gols_bash.ShellCheck.{itoa}
use gols_bash.State.{Server}
use gols_bash.Requests.{or_empty, word_under}
use gols_bash.Requests.Definition.{sorted_declaration_hits}

-- " — ", with the em dash in UTF-8.
abbrev em_dash : Str
em_dash = 32 ∷ 0xE2 ∷ 0x80 ∷ 0x94 ∷ 32 ∷ []

abbrev bold : Str → Str
bold word = bytes "**" ++ word ++ bytes "**" ++ em_dash

unfoldable pub hover_declaration_kind : DeclarationKind → Str
hover_declaration_kind declaration_variable = bytes "variable"
hover_declaration_kind declaration_function = bytes "function"

abbrev function_named : Str → FuncDecl → Bool
function_named name fn = elim fn.name [ none ↦ false | some l ↦ str_eq l.value name ]

-- The loop over the statements.
unfoldable pub named_function : Str → List Node → Option FuncDecl
named_function name [] = none
named_function name (func_decl fn ∷ stmts) =
    let rest = named_function name stmts in if function_named name fn then some fn else rest
named_function name (assign l ∷ stmts) = named_function name stmts
named_function name (call_expr args ∷ stmts) = named_function name stmts
named_function name (param_exp l ∷ stmts) = named_function name stmts
named_function name (other_node ∷ stmts) = named_function name stmts

unfoldable pub find_local_function : Option File → Str → Option FuncDecl
unfolding named_function
find_local_function none name = none
find_local_function (some file) name = named_function name file.stmts

unfoldable pub named_hit : Str → List DeclarationHit → Option DeclarationHit
named_hit word [] = none
named_hit word (h ∷ hits) =
    let rest = named_hit word hits in if str_eq h.declaration.name word then some h else rest

module _ (w : Walker) (p : Paths) (disk : Disk) (s : Server) where
  unfoldable pub find_workspace_declaration : Document → Str → Option DeclarationHit
  unfolding named_hit
  find_workspace_declaration d word =
      named_hit word
        (sorted_declaration_hits (or_empty (reachable_declarations w p disk s.index d.uri)))

  unfoldable pub hover_markdown_for : Str → Document → Str
  unfolding find_local_function find_workspace_declaration hover_declaration_kind
  hover_markdown_for word d =
      if is_reserved_word word
      then bold word ++ bytes "bash reserved word"
      else if is_builtin word
      then bold word
        ++ bytes "bash builtin"
        ++ (10 ∷ 10 ∷ [])
        ++ bytes "Run `help "
        ++ word
        ++ bytes "` for full documentation."
      else elim (find_local_function d.ast word) [
        | some fn ↦
            bold word
            ++ bytes "local function (declared at line "
            ++ itoa (pos fn.pos.line)
            ++ bytes ")"
        | none ↦ elim (find_workspace_declaration d word) [
          | none ↦ []
          | some hit ↦
              bold word
              ++ bytes "workspace "
              ++ hover_declaration_kind hit.declaration.kind
              ++ bytes " (declared in `"
              ++ p.base (p.filename hit.uri)
              ++ bytes "` at line "
              ++ itoa (pos hit.declaration.pos.line)
              ++ bytes ")"
        ]
      ]

  -- The markdown, where nil is `none`.
  unfoldable pub hover : Option Document → Position → Option Str
  unfolding hover_markdown_for
  hover none at_pos = none
  hover (some d) at_pos = elim (word_under s.pos_encoding d.text at_pos) [
    | none ↦ none
    | some word ↦ elim (hover_markdown_for word.word d) [ [] ↦ none | b ∷ md ↦ some (b ∷ md) ]
  ]
