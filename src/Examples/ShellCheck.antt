-- ===== src/Examples/ShellCheck.antt =====
-- internal/server/diagnostics_test.go: one comment of ShellCheck with a fix.
use gols_bash.Prelude.{
  ℕ, suc, AreRunes, ◌+◌, arith, ◌≡◌, ◌≢◌, refl, false, none, some, List, [], ◌∷◌, ◌++◌, Str, bytes,
  pos, negsuc, str_eq, get, put, Memᴰ, length, runes, is_rune, encode_rune, encode_runes,
  is_positive, to_uint,
}
use gols_bash.Lsp.{utf16_len, utf8_rune_info}
use gols_bash.Lsp.Lines.{newlines}
use gols_bash.Lsp.Columns.{HasNoNewline}
use gols_bash.Positions.{utf16, utf32, pos_for_offset}
use gols_bash.Protocol.{Diagnostic, CodeAction, quick_fix}
use gols_bash.State.{new_server, new_shellcheck_runner}
use gols_bash.ShellCheck.{
  Comment, Process, no_error, not_found, before, shellcheck_position, shellcheck_source_range,
  shellcheck_code_action, comment_diagnostic, lint, linted, no_result,
}
use gols_bash.ShellCheck.Ranges.{shellcheck_source_range_ordered}
use gols_bash.ShellCheck.Columns.{shellcheck_position-pos_for_offset}
use gols_bash.ShellCheck.Lint.{Repairs, lint_stays_off}
use gols_bash.Diagnostics.{document_diagnostics, code_actions_for}
use gols_bash.Diagnostics.Published.{document_diagnostics-Repairs}
use gols_bash.Examples.Requests.{b_doc}
use gols_bash.Examples.Analyser.{b_sh}

abbrev comment : Comment
comment = record {
  line = pos 1;
  end_line = pos 1;
  column = pos 1;
  end_column = pos 2;
  level = bytes "info";
  code = pos 2086;
  message = bytes "Double quote";
  fix = some (
      record {
        line = pos 1;
        end_line = pos 1;
        column = pos 1;
        end_column = pos 1;
        replacement = bytes "\"";
      }
      ∷ []);
}

-- A program that always reports the comment, and one that is not there.
abbrev pub reports : Process
reports = record {
  run_command = λ path args input. record { err = no_error; stdout = bytes "{}"; stderr = [] };
  decode_comments = λ raw. some (comment ∷ []);
}

abbrev missing : Process
missing = record {
  run_command = λ path args input. record { err = not_found; stdout = []; stderr = [] };
  decode_comments = λ raw. none;
}

shellcheck_source_range_ordered_example :
    before
      (shellcheck_source_range (bytes "x") utf16 (pos 1) (pos 2) (pos 1) (negsuc 0)).stop
      (shellcheck_source_range (bytes "x") utf16 (pos 1) (pos 2) (pos 1) (negsuc 0)).start
    ≡ false
shellcheck_source_range_ordered_example =
    shellcheck_source_range_ordered (bytes "x") utf16 (pos 1) (pos 2) (pos 1) (negsuc 0)

not_utf32 : utf16 ≢ utf32
not_utf32 e = cc

-- A line end, a G clef, which takes four bytes and two UTF-16 units, and an x.
abbrev line_end : Str
line_end = 10 ∷ []

abbrev clef : List ℕ
clef = 0x1D11E ∷ []

clef_one_line : HasNoNewline (encode_runes clef)
unfolding encode_runes encode_rune is_rune
clef_one_line = (λ e. omega arith, (λ e. omega arith, (λ e. omega arith, (λ e. omega arith, tt))))

x_one_line : HasNoNewline (encode_runes (bytes "x"))
unfolding encode_runes encode_rune is_rune
x_one_line = (λ e. omega arith, tt)

clef_x-AreRunes : AreRunes (clef ++ bytes "x")
unfolding is_rune
clef_x-AreRunes = (refl, (refl, tt))

shellcheck_position-pos_for_offset_example :
    shellcheck_position
      (line_end ++ (encode_runes clef ++ (encode_runes (bytes "x") ++ [])))
      utf16
      (pos (suc (newlines line_end)))
      (pos (suc (length clef)))
    ≡ pos_for_offset utf16
        (line_end ++ (encode_runes clef ++ (encode_runes (bytes "x") ++ [])))
        (length line_end + length (encode_runes clef))
shellcheck_position-pos_for_offset_example =
    shellcheck_position-pos_for_offset utf16 line_end clef (bytes "x") [] not_utf32 refl tt
      clef_x-AreRunes clef_one_line x_one_line

test_clef :
    shellcheck_position (10 ∷ 0xF0 ∷ 0x9D ∷ 0x84 ∷ 0x9E ∷ 120 ∷ []) utf16 (pos 2) (pos 2)
    ≡ record { line = 1; character = 2 }
unfolding shellcheck_position is_positive to_uint runes utf16_len encode_runes utf8_rune_info
test_clef = refl

abbrev diagnostic : Diagnostic
diagnostic = comment_diagnostic (bytes "x") utf16 comment

abbrev action : CodeAction
action = record {
  title = bytes "Apply fix for SC2086";
  kind = quick_fix;
  diagnostics = diagnostic ∷ [];
  edit = record {
    changes =
        (
          b_sh,
          record {
            range = shellcheck_source_range (bytes "x") utf16 (pos 1) (pos 1) (pos 1) (pos 1);
            new_text = bytes "\"";
          }
              ∷ [],
        )
        ∷ [];
  };
}

action_offered :
    Memᴰ action (code_actions_for (document_diagnostics reports new_server b_doc).0 b_sh [])
unfolding new_server code_actions_for get document_diagnostics lint shellcheck_code_action put
    str_eq
action_offered = Memᴰ.head refl

document_diagnostics-Repairs_example :
    Repairs b_sh (document_diagnostics reports new_server b_doc).1 action
document_diagnostics-Repairs_example =
    document_diagnostics-Repairs reports new_server b_doc [] action action_offered

lint_stays_off_example :
    lint reports utf16
      (lint missing utf16 (new_shellcheck_runner (bytes "shellcheck") []) b_doc).0
      b_doc
    ≡ (
      (lint missing utf16 (new_shellcheck_runner (bytes "shellcheck") []) b_doc).0,
      linted no_result,
    )
lint_stays_off_example =
    lint_stays_off missing reports utf16 utf16 (new_shellcheck_runner (bytes "shellcheck") []) b_doc
      b_doc refl
