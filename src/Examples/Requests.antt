-- ===== src/Examples/Requests.antt =====
-- internal/server/rename_test.go and references_crossfile_test.go: /b.sh is open, and calls what
-- /a.sh assigns.
use mathlib.Core.Option
use gols_bash.Prelude.{
  ◌≡◌, refl, ◌↔◌, true, some, none, List, [], ◌∷◌, Str, bytes, get, str_eq, contains, Memᴰ,
}
use gols_bash.Syntax.{File, Node, Lit}
use gols_bash.Lsp.{
  Word, is_word_char, word_end, word_start, utf8_rune_info, utf16_len, line_start, column_loop,
  word_at_offset, offset_for_position as offset_utf16,
}
use gols_bash.Positions.{range_to_lsp, Position, Range, pos_for_offset, offset_for_position}
use gols_bash.Analyser.Symbols.{
  find_declarations, declaration_step, UsageKind, usage_read, usage_step, find_usages,
  find_declarations, declaration_step,
}
use gols_bash.Analyser.Reachable.{search_loop, expand, visit}
use gols_bash.Analyser.SymbolLaws.{mentions, usage_at}
use gols_bash.Analyser.Index.{
  DeclarationHit, reachable_declarations, declaration_hits, file_declarations, UsageHit,
  reachable_uris, reachable_usages, usage_hits, file_usages, source_neighbours,
}
use gols_bash.Analyser.Index.Hits.{IsKept}
use gols_bash.Analyser.Index.References.{IsOccurrence}
use gols_bash.Documents.{Document}
use gols_bash.Protocol.{Location, TextEdit}
use gols_bash.State.{Server, new_server}
use gols_bash.Requests.{word_under, text_for_uri}
use gols_bash.Requests.Identifier.{IsIdentifier, is_valid_identifier, is_valid_identifier_iff}
use gols_bash.Requests.References.{references, highlight, DocumentHighlight}
use gols_bash.Requests.Located.{highlighted, references_correct, highlight_correct}
use gols_bash.Requests.Rename.{rename, has_declaration, edit_for, prepare_rename}
use gols_bash.Requests.Rename.Edits.{IsDeclared, Occurs, result_edits, rename_correct}
use gols_bash.Requests.Definition.{word_definition, definition}
use gols_bash.Requests.Defined.{IsAnswer, word_definition_correct}
use gols_bash.Data.{builtins, reserved_words}
use gols_bash.Requests.Hover.{hover_markdown_for}
use gols_bash.Requests.Hovered.{HasFunction, IsDeclaredWord, hover_markdown_for_empty}
use gols_bash.Requests.Symbols.{SymbolInformation, workspace_symbols}
use gols_bash.Requests.Found.{AllInOrder, Answers, shown, workspace_symbols_correct}
use gols_bash.Requests.Prepared.{rename-prepare_rename}
use gols_bash.Examples.World.{lit_at, flat_walker, plain_paths, plain_disk, file_b}
use gols_bash.Examples.Analyser.{a_sh, b_sh, two_files, two_files-IsMap}

abbrev pub b_doc : Document
b_doc = record {
  uri = b_sh;
  lang = bytes "sh";
  version = 1;
  text = bytes "x";
  ast = some file_b;
  parse_err = none;
}

abbrev pub server : Server
server = record new_server { docs = (b_sh, b_doc) ∷ []; index = two_files }

abbrev origin : Position
origin = record { line = 0; character = 0 }

abbrev x_word : Word
x_word = record { word = bytes "x"; start = 0; stop = 1 }

on_x : word_under server.pos_encoding b_doc.text origin ≡ some x_word
unfolding new_server word_under offset_for_position offset_utf16 word_at_offset line_start
    is_word_char word_end word_start
on_x = refl

abbrev y_name : Str
y_name = bytes "y_1"

y_valid : is_valid_identifier y_name ≡ true
unfolding is_valid_identifier
y_valid = refl

is_valid_identifier_iff_example : (is_valid_identifier y_name ≡ true) ↔ IsIdentifier y_name
is_valid_identifier_iff_example = is_valid_identifier_iff y_name

abbrev y_edit : TextEdit
y_edit =
    edit_for flat_walker plain_paths plain_disk server y_name
      (record { uri = b_sh; usage = usage_at usage_read (lit_at 0 (bytes "x")) })

rename_correct_example :
    Memᴰ y_edit (
      result_edits
        (rename flat_walker plain_paths plain_disk server (some b_doc) origin y_name)
        b_sh)
    ↔ (IsDeclared flat_walker plain_paths plain_disk server two_files-IsMap b_doc (bytes "x")
        × ((h : UsageHit) × Occurs flat_walker plain_paths plain_disk server two_files-IsMap b_doc
              (bytes "x")
              h
            × (h.uri ≡ b_sh)
            × (y_edit ≡ record {
              range =
                  range_to_lsp server.pos_encoding
                    (text_for_uri plain_paths plain_disk server h.uri)
                    h.usage.pos
                    h.usage.stop;
              new_text = y_name;
            })))
rename_correct_example =
    rename_correct flat_walker plain_paths plain_disk server two_files-IsMap b_doc origin y_name
      file_b x_word y_valid refl on_x b_sh y_edit

references_correct_example :
    (locs : List Location) × (references flat_walker plain_paths plain_disk server
        (some b_doc)
        origin
        true
      ≡ some locs)
    × ((l : Location)
        → Memᴰ l locs ↔ (
            (h : UsageHit) × IsOccurrence plain_paths plain_disk flat_walker two_files
              two_files-IsMap b_sh
              (bytes "x")
              h
            × IsKept true h.usage
            × (l ≡ record {
              uri = h.uri;
              range =
                  range_to_lsp server.pos_encoding
                    (text_for_uri plain_paths plain_disk server h.uri)
                    h.usage.pos
                    h.usage.stop;
            })))
references_correct_example =
    references_correct flat_walker plain_paths plain_disk server b_doc origin file_b x_word refl
      on_x two_files-IsMap true

highlight_correct_example :
    (hs : List DocumentHighlight) × (highlight flat_walker plain_paths plain_disk server
        (some b_doc)
        origin
      ≡ some hs)
    × ((x : DocumentHighlight)
        → Memᴰ x hs ↔ (
            (n : Node) × (k : UsageKind) × (l : Lit) × Memᴰ n file_b.nodes
            × (mentions n ≡ some (k, l))
            × (l.value ≡ bytes "x")
            × (x ≡ highlighted server.pos_encoding b_doc.text k l)))
highlight_correct_example =
    highlight_correct flat_walker plain_paths plain_disk server b_doc origin file_b x_word refl on_x

abbrev x_range : Range
x_range = record { start = origin; stop = record { line = 0; character = 1 } }

x_prepared :
    prepare_rename flat_walker plain_paths plain_disk server (some b_doc) origin ≡ some x_range
unfolding new_server prepare_rename offset_for_position offset_utf16 word_at_offset
    is_valid_identifier str_eq has_declaration reachable_usages usage_hits file_usages find_usages
    usage_step reachable_uris source_neighbours search_loop expand visit get contains pos_for_offset
    utf16_len line_start column_loop is_word_char word_end word_start utf8_rune_info
x_prepared = refl

rename-prepare_rename_example :
    (u : Str) × (e : TextEdit) × Memᴰ e
      (result_edits (rename flat_walker plain_paths plain_disk server (some b_doc) origin y_name) u)
rename-prepare_rename_example =
    rename-prepare_rename flat_walker plain_paths plain_disk server b_doc origin two_files-IsMap
      x_range y_name x_prepared y_valid

word_definition_correct_example :
    IsAnswer flat_walker plain_paths plain_disk server two_files-IsMap b_doc file_b
      (bytes "x")
      (word_definition flat_walker plain_paths plain_disk server b_doc file_b (bytes "x"))
word_definition_correct_example =
    word_definition_correct flat_walker plain_paths plain_disk server two_files-IsMap b_doc file_b
      (bytes "x")

-- The word x of /b.sh is assigned in /a.sh.
test_definition :
    Option.map
      (λ l. l.uri)
      (definition flat_walker plain_paths plain_disk server (some b_doc) origin)
    ≡ some a_sh
unfolding definition offset_for_position new_server offset_utf16 line_start word_at_offset
    is_word_char word_end word_start find_declarations declaration_step reachable_declarations
    search_loop expand visit source_neighbours reachable_uris str_eq contains get declaration_hits
    file_declarations
test_definition = refl

hover_markdown_for_empty_example :
    (hover_markdown_for flat_walker plain_paths plain_disk server (bytes "y") b_doc ≡ []) ↔ (
      (Memᴰ (bytes "y") reserved_words → ⊥)
      × (Memᴰ (bytes "y") builtins → ⊥)
      × ((file : File) → b_doc.ast ≡ some file → HasFunction file.stmts (bytes "y") → ⊥)
      × ((h : DeclarationHit)
          → IsDeclaredWord flat_walker plain_paths plain_disk server two_files-IsMap b_doc
              (bytes "y")
              h
          → ⊥))
hover_markdown_for_empty_example =
    hover_markdown_for_empty flat_walker plain_paths plain_disk server two_files-IsMap b_doc
      (bytes "y")

workspace_symbols_correct_example :
    AllInOrder (workspace_symbols flat_walker plain_paths plain_disk server (bytes "x"))
    × ((x : SymbolInformation)
        → Memᴰ x (workspace_symbols flat_walker plain_paths plain_disk server (bytes "x")) ↔ (
            (h : DeclarationHit) × (file : File) × (get two_files.entries h.uri ≡ some file)
            × Memᴰ h.declaration (find_declarations flat_walker (some file))
            × Answers flat_walker plain_paths plain_disk server (bytes "x") h
            × (x ≡ shown flat_walker plain_paths plain_disk server h)))
workspace_symbols_correct_example =
    workspace_symbols_correct flat_walker plain_paths plain_disk server (bytes "x") two_files-IsMap
