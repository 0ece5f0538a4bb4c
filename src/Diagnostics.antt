-- ===== src/Diagnostics.antt =====
-- internal/server/diagnostics.go and code_action.go: the diagnostics of one document and the code
-- actions that go with them.
pub mod Published
use gols_bash.Prelude.{
  ℕ, Bool, true, false, not, ◌||◌, Option, none, some, List, [], ◌∷◌, ◌++◌, Str, bytes, get, put,
  delete, if◌then◌else◌,
}
use gols_bash.Syntax.{Pos, ParseError, at_pos, other_error}
use gols_bash.Positions.{PositionEncoding, Position, pos_to_lsp}
use gols_bash.Documents.{Document}
use gols_bash.Protocol.{
  Severity, error, Diagnostic, CodeAction, CodeActionKind, quick_fix, other_kind,
}
use gols_bash.State.{Server, ShellCheckRunner}
use gols_bash.Requests.{or_empty}
use gols_bash.ShellCheck.{DiagnosticResult, Process, LintResult, linted, lint_failed, lint}

abbrev bash_error : Position → Str → Diagnostic
bash_error pos message = record {
  range = record { start = pos; stop = pos };
  severity = error;
  code = [];
  href = [];
  source = bytes "bash";
  message = message;
}

unfoldable pub parse_diagnostics : PositionEncoding → Str → Option ParseError → List Diagnostic
parse_diagnostics enc text none = []
parse_diagnostics enc text (some (other_error message)) =
    bash_error (record { line = 0; character = 0 }) message ∷ []
parse_diagnostics enc text (some (at_pos pos message)) =
    bash_error (pos_to_lsp enc text pos) message ∷ []

unfoldable pub set_code_actions : Server → Str → List CodeAction → Server
set_code_actions s u [] = record s { code_actions = delete s.code_actions u }
set_code_actions s u (a ∷ actions) = record s { code_actions = put s.code_actions u (a ∷ actions) }

-- The end of `documentDiagnostics`, once ShellCheck has answered.
unfoldable pub take_lint : Server → Document → LintResult → Server × List Diagnostic
unfolding set_code_actions
take_lint s d lint_failed = (set_code_actions s d.uri [], [])
take_lint s d (linted result) = (set_code_actions s d.uri result.code_actions, result.diagnostics)

unfoldable pub document_diagnostics : Process → Server → Document → Server × List Diagnostic
unfolding parse_diagnostics take_lint
document_diagnostics process s d = elim (parse_diagnostics s.pos_encoding d.text d.parse_err) [
  | x ∷ rest ↦ (set_code_actions s d.uri [], x ∷ rest)
  | [] ↦ elim s.shellcheck [
    | none ↦ (set_code_actions s d.uri [], [])
    | some runner ↦
        let (runner', result) = lint process s.pos_encoding runner d in
        take_lint (record s { shellcheck = some runner' }) d result
  ]
]

abbrev is_quick_fix : CodeActionKind → Bool
is_quick_fix quick_fix = true
is_quick_fix (other_kind k) = false

abbrev some_quick_fix : List CodeActionKind → Bool
some_quick_fix [] = false
some_quick_fix (kind ∷ only) = is_quick_fix kind || some_quick_fix only

unfoldable pub allows_quick_fix : List CodeActionKind → Bool
allows_quick_fix [] = true
allows_quick_fix (kind ∷ only) = some_quick_fix (kind ∷ only)

unfoldable pub code_actions_for : Server → Str → List CodeActionKind → List CodeAction
unfolding allows_quick_fix
code_actions_for s u only =
    if not (allows_quick_fix only) then [] else or_empty (get s.code_actions u)
