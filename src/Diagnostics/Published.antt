-- ===== src/Diagnostics/Published.antt =====
-- internal/server/diagnostics.go and code_action.go: what is published for a document and what the
-- client is offered for it afterwards.
use mathlib.Core.List.Memᴰ
use gols_bash.Prelude.{
  false, ◌≡◌, refl, ◌⊎◌, inl, inr, some, List, [], ◌∷◌, ◌++◌, Str, bytes, str_eq, str_eq_refl, get,
  get-put, get-delete, if◌then◌else◌, arith, Memᴰ, Bool-cases, Option-cases, List-cases,
}
use gols_bash.Positions.{PositionEncoding}
use gols_bash.Documents.{Document}
use gols_bash.Protocol.{Diagnostic, CodeAction, CodeActionKind}
use gols_bash.State.{Server, ShellCheckRunner}
use gols_bash.Requests.{or_empty}
use gols_bash.ShellCheck.{
  DiagnosticResult, Process, Output, LintResult, linted, lint_failed, no_result,
  shellcheck_diagnostics, lint,
}
use gols_bash.ShellCheck.Lint.{Repairs, comments_loop-Repairs}
use gols_bash.Diagnostics.{
  parse_diagnostics, set_code_actions, take_lint, document_diagnostics, allows_quick_fix,
  code_actions_for,
}

-- Only the code actions of one document are set.
pub set_code_actions-get :
    (s : Server) (u : Str) (actions : List CodeAction) (v : Str)
    → or_empty (get (set_code_actions s u actions).code_actions v)
      ≡ (if str_eq u v then actions else or_empty (get s.code_actions v))
unfolding set_code_actions
set_code_actions-get s u [] v = ground (arith, get-delete s.code_actions u v)
set_code_actions-get s u (a ∷ actions) v = ground (arith, get-put s.code_actions u (a ∷ actions) v)

abbrev pub result_of : LintResult → DiagnosticResult
result_of (linted r) = r
result_of lint_failed = no_result

shellcheck_diagnostics-Repairs :
    (process : Process) (u text : Str) (enc : PositionEncoding) (raw : Str) (a : CodeAction)
    → Memᴰ a (result_of (shellcheck_diagnostics process u text enc raw)).code_actions
    → Repairs u (result_of (shellcheck_diagnostics process u text enc raw)).diagnostics a
unfolding shellcheck_diagnostics
shellcheck_diagnostics-Repairs process u text enc raw a m =
    elim (Option-cases (process.decode_comments raw)) [
      | inl q ↦ absurd (Memᴰ.not-nil (rw (shellcheck_diagnostics, q) at m))
      | inr (comments, q) ↦
          rw (shellcheck_diagnostics, q)
            (comments_loop-Repairs u text enc comments a (rw (shellcheck_diagnostics, q) at m))
    ]

abbrev output : Process → ShellCheckRunner → Document → Output
output process r d =
    process.run_command r.path ((bytes "--format=json1" ∷ r.args) ++ bytes "-" ∷ []) d.text

-- Every answer of ShellCheck is empty, or is what its output says.
lint_cases :
    (process : Process) (enc : PositionEncoding) (r : ShellCheckRunner) (d : Document)
    → (result_of (lint process enc r d).1 ≡ no_result)
      ⊎ ((lint process enc r d).1
          ≡ shellcheck_diagnostics process d.uri d.text enc (output process r d).stdout)
unfolding lint
lint_cases process enc r d = ground arith

lint-Repairs :
    (process : Process) (enc : PositionEncoding) (r : ShellCheckRunner) (d : Document)
    (a : CodeAction)
    → Memᴰ a (result_of (lint process enc r d).1).code_actions
    → Repairs d.uri (result_of (lint process enc r d).1).diagnostics a
lint-Repairs process enc r d a m = elim (lint_cases process enc r d) [
  | inl q ↦ absurd (Memᴰ.not-nil (rw q at m))
  | inr q ↦ rw q (
      shellcheck_diagnostics-Repairs process d.uri d.text enc (output process r d).stdout a
        (rw q at m))
]

-- The code actions that a step leaves for one document, and what it publishes.
abbrev pub Published : Str → Server × List Diagnostic → Type 0
Published u out =
    (a : CodeAction) → Memᴰ a (or_empty (get out.0.code_actions u)) → Repairs u out.1 a

set_none-Published :
    (s : Server) (u : Str) (diags : List Diagnostic) → Published u (set_code_actions s u [], diags)
set_none-Published s u diags a m =
    absurd (Memᴰ.not-nil (rw (set_code_actions-get s u [] u, str_eq_refl u) at m))

take_lint-Published :
    (s : Server) (d : Document) (result : LintResult)
    → ((a : CodeAction)
        → Memᴰ a (result_of result).code_actions
        → Repairs d.uri (result_of result).diagnostics a)
    → Published d.uri (take_lint s d result)
unfolding take_lint
take_lint-Published s d lint_failed h a m = set_none-Published s d.uri [] a m
take_lint-Published s d (linted r) h a m =
    h a (rw (set_code_actions-get s d.uri r.code_actions d.uri, str_eq_refl d.uri) at m)

pub document_diagnostics-Published :
    (process : Process) (s : Server) (d : Document)
    → Published d.uri (document_diagnostics process s d)
unfolding document_diagnostics
document_diagnostics-Published process s d =
    elim (List-cases (parse_diagnostics s.pos_encoding d.text d.parse_err)) [
      | inr (x, rest, q) ↦ rw (document_diagnostics, q) (set_none-Published s d.uri (x ∷ rest))
      | inl q ↦ elim (Option-cases s.shellcheck) [
        | inl n ↦ rw (document_diagnostics, q, n) (set_none-Published s d.uri [])
        | inr (r, n) ↦
            let (r', result) = lint process s.pos_encoding r d in
            rw (document_diagnostics, q, n)
              (take_lint-Published (record s { shellcheck = some r' }) d result
                (lint-Repairs process s.pos_encoding r d))
      ]
    ]

pub code_actions_for-stored :
    (s : Server) (u : Str) (only : List CodeActionKind) (a : CodeAction)
    → Memᴰ a (code_actions_for s u only)
    → Memᴰ a (or_empty (get s.code_actions u))
unfolding code_actions_for
code_actions_for-stored s u only a m = elim (Bool-cases (allows_quick_fix only)) [
  | inl t ↦ rw (code_actions_for, t) at m
  | inr f ↦ absurd (Memᴰ.not-nil (rw (code_actions_for, f) at m))
]

-- Once the diagnostics of a document have been computed, every code action that the client is
-- offered for it repairs exactly one of the diagnostics just published, is a quick fix, and edits
-- no other document, whatever the kinds that the client asks for.
pub document_diagnostics-Repairs :
    (process : Process) (s : Server) (d : Document) (only : List CodeActionKind) (a : CodeAction)
    → Memᴰ a (code_actions_for (document_diagnostics process s d).0 d.uri only)
    → Repairs d.uri (document_diagnostics process s d).1 a
document_diagnostics-Repairs process s d only a m =
    let (s', diags) = document_diagnostics process s d in
    document_diagnostics-Published process s d a (code_actions_for-stored s' d.uri only a m)

-- The documents and the index are the same in two states.
abbrev pub SameFiles : Server → Server → Type 0
SameFiles s t =
    (s.docs ≡ t.docs)
    × (s.index ≡ t.index)
    × (s.shutdown ≡ t.shutdown)
    × (s.exited ≡ t.exited)
    × (s.abnormal_exit ≡ t.abnormal_exit)

pub set_code_actions-SameFiles :
    (s : Server) (u : Str) (actions : List CodeAction) → SameFiles (set_code_actions s u actions) s
unfolding set_code_actions
set_code_actions-SameFiles s u [] = (refl, refl, refl, refl, refl)
set_code_actions-SameFiles s u (a ∷ actions) = (refl, refl, refl, refl, refl)

pub document_diagnostics-SameFiles :
    (process : Process) (s : Server) (d : Document)
    → SameFiles (document_diagnostics process s d).0 s
unfolding document_diagnostics take_lint set_code_actions
document_diagnostics-SameFiles process s d = ground arith

take_lint-away :
    (s : Server) (d : Document) (result : LintResult) (v : Str)
    → str_eq d.uri v ≡ false
    → or_empty (get (take_lint s d result).0.code_actions v) ≡ or_empty (get s.code_actions v)
unfolding take_lint
take_lint-away s d lint_failed v ne = rw (set_code_actions-get s d.uri [] v, ne)
take_lint-away s d (linted r) v ne = rw (set_code_actions-get s d.uri r.code_actions v, ne)

-- The code actions of other documents stay.
pub document_diagnostics-away :
    (process : Process) (s : Server) (d : Document) (v : Str)
    → str_eq d.uri v ≡ false
    → or_empty (get (document_diagnostics process s d).0.code_actions v)
      ≡ or_empty (get s.code_actions v)
unfolding document_diagnostics
document_diagnostics-away process s d v ne =
    elim (List-cases (parse_diagnostics s.pos_encoding d.text d.parse_err)) [
      | inr (x, rest, q) ↦ rw (document_diagnostics, q, set_code_actions-get s d.uri [] v, ne)
      | inl q ↦ elim (Option-cases s.shellcheck) [
        | inl n ↦ rw (document_diagnostics, q, n, set_code_actions-get s d.uri [] v, ne)
        | inr (r, n) ↦
            let (r', result) = lint process s.pos_encoding r d in
            rw (document_diagnostics, q, n)
              (take_lint-away (record s { shellcheck = some r' }) d result v ne)
      ]
    ]
