-- ===== src/Examples/Completion.antt =====
-- internal/server/completion_test.go: the variable of a document, completed after a dollar sign; and
-- the bytes of a snippet.
use gols_bash.Prelude.{
  ℕ, ◌≢◌, false, str_eq, str_lt, contains, ◌≡◌, refl, ◌↔◌, inl, true, Option, some, none, List, [],
  ◌∷◌, Str, bytes, has_prefix, Memᴰ, IsAscending, arith,
}
use gols_bash.Syntax.{File, assign}
use gols_bash.System.{DirEntry, Disk}
use gols_bash.Data.Executables.{executables_from_path}
use gols_bash.Data.Executables.OnPath.{IsIn, executables_from_path_correct}
use gols_bash.Lsp.{
  rune_step, utf8_rune_info, utf16_len, line_start, column_loop,
  offset_for_position as offset_utf16,
}
use gols_bash.Positions.{Position, offset_for_position}
use gols_bash.Analyser.Symbols.{find_declarations}
use gols_bash.Documents.{Document}
use gols_bash.State.{new_server}
use gols_bash.Completion.{
  Candidate, CompletionItem, completion_prefix, prefix_start, is_completion_word_byte,
  completion_item, completion,
}
use gols_bash.Completion.Offered.{IsFirst, prefix_at, start_at, candidates_at, completion_correct}
use gols_bash.Completion.Variables.{IsVariable}
use gols_bash.Completion.Dollar.{IsAfterDollar, completion_of_variables}
use gols_bash.Examples.World.{lit_at, flat_walker, plain_paths, plain_disk}

abbrev x_file : File
x_file = record { nodes = assign (some (lit_at 0 (bytes "xy"))) ∷ []; stmts = [] }

-- The text is $x.
abbrev dollar_doc : Document
dollar_doc = record {
  uri = bytes "/a.sh";
  lang = bytes "sh";
  version = 1;
  text = bytes "$x";
  ast = some x_file;
  parse_err = none;
}

abbrev at_end : Position
at_end = record { line = 0; character = 2 }

at_two : offset_for_position new_server.pos_encoding dollar_doc.text 0 2 ≡ some 2
unfolding new_server offset_for_position offset_utf16 line_start column_loop utf8_rune_info
    utf16_len rune_step
at_two = refl

abbrev found_items : Option (List CompletionItem)
found_items = completion flat_walker plain_paths plain_disk [] new_server (some dollar_doc) at_end

abbrev typed : Str
typed = prefix_at flat_walker plain_paths plain_disk [] new_server dollar_doc at_end 2 at_two

abbrev typed_at : ℕ
typed_at = start_at flat_walker plain_paths plain_disk [] new_server dollar_doc at_end 2 at_two

abbrev offered : List Candidate
offered = candidates_at flat_walker plain_paths plain_disk [] new_server dollar_doc at_end 2 at_two

completion_correct_example :
    (items : List CompletionItem) × (found_items ≡ some items)
    × IsAscending (λ x. x.label) items
    × ((item : CompletionItem)
        → Memᴰ item items ↔ (
            (c : Candidate) × (IsFirst c offered
              × (has_prefix c.label typed ≡ true)
              × (item ≡ completion_item new_server dollar_doc at_end typed typed_at c))))
completion_correct_example =
    completion_correct flat_walker plain_paths plain_disk [] new_server dollar_doc at_end 2 at_two

after_dollar : IsAfterDollar dollar_doc.text typed_at
unfolding completion_prefix prefix_start is_completion_word_byte
after_dollar = inl (omega arith, refl)

completion_of_variables_example :
    (items : List CompletionItem) × (found_items ≡ some items)
    × ((name : Str)
        → ((item : CompletionItem) × Memᴰ item items × (item.label ≡ name)) ↔ (
            (has_prefix name typed ≡ true)
            × IsVariable name (find_declarations flat_walker (some x_file))))
completion_of_variables_example =
    completion_of_variables flat_walker plain_paths plain_disk [] new_server dollar_doc at_end 2
      at_two x_file refl after_dollar

-- The line feeds and tabs of the snippets are bytes.
snippet_bytes : bytes "then\n\t$0" ≡ b't' ∷ b'h' ∷ b'e' ∷ b'n' ∷ 10 ∷ 9 ∷ b'$' ∷ b'0' ∷ []
snippet_bytes = refl

-- internal/data/executables_test.go: two programs, a file that nobody may execute and a directory.
abbrev with_mode : Str → ℕ → DirEntry
with_mode name mode = record { name = name; has_type = false; info = some (true, mode) }

abbrev bin_disk : Disk
bin_disk = record plain_disk {
  read_dir = λ dir. some (
      with_mode (bytes "tool") 493
      ∷ with_mode (bytes "notes") 420
      ∷ with_mode (bytes "make") 448
      ∷ record { name = bytes "sub"; has_type = true; info = some (false, 493) }
      ∷ []);
}

two_programs :
    executables_from_path plain_paths bin_disk (bytes "/bin") ≡ bytes "make" ∷ bytes "tool" ∷ []
unfolding executables_from_path str_lt contains str_eq
two_programs = refl

executables_from_path_correct_example :
    IsAscending (λ x. x) (executables_from_path plain_paths bin_disk (bytes "/bin"))
    × ((name : Str)
        → Memᴰ name (executables_from_path plain_paths bin_disk (bytes "/bin"))
          ↔ ((bytes "/bin" ≢ []) × IsIn bin_disk name (bytes "/bin" ∷ [])))
executables_from_path_correct_example =
    executables_from_path_correct plain_paths bin_disk (bytes "/bin")
