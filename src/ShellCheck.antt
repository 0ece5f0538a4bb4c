-- ===== src/ShellCheck.antt =====
-- internal/server/diagnostics.go: what ShellCheck reports, turned into diagnostics and code actions.
-- The process and the decoding of its JSON are parameters.
pub mod Ranges
pub mod Columns
pub mod Lint
use gols_bash.Prelude.{
  ℕ, zero, suc, ◌-◌, ◌+◌, ◌/◌, ◌%◌, Bool, true, false, not, ◌||◌, ◌&&◌, Option, none, some, List,
  [], ◌∷◌, ◌++◌, map, Str, bytes, str_eq, ℤ, pos, negsuc, is_positive, add_one, to_uint, runes,
  encode_runes, ltb, leb, ◌==◌, if◌then◌else◌, length, get_or, take,
}
use gols_bash.Lsp.{newline, utf16_len}
use gols_bash.Positions.{PositionEncoding, utf8, utf16, utf32, Position, Range, at}
use gols_bash.Documents.{Document}
use gols_bash.Protocol.{
  Severity, error, warning, information, hint, Diagnostic, TextEdit, quick_fix, CodeAction,
}
use gols_bash.State.{ShellCheckRunner}

unfoldable pub shellcheck_severity : Str → Severity
shellcheck_severity level =
    if str_eq level (bytes "error")
    then error
    else if str_eq level (bytes "warning")
    then warning
    else if str_eq level (bytes "info")
    then information
    else if str_eq level (bytes "style")
    then hint
    else warning

-- `strings.Split(text, "\n")`: the first line and the others.
unfoldable pub split_lines : Str → Str × List Str
split_lines [] = ([], [])
split_lines (b ∷ text) =
    let (line, rest) = split_lines text in
    if b == newline then ([], line ∷ rest) else (b ∷ line, rest)

-- A number below 1 counts as 1.
abbrev pub at_least_one : ℤ → ℕ
at_least_one n = if is_positive n then to_uint n else 1

unfoldable pub shellcheck_position : Str → PositionEncoding → ℤ → ℤ → Position
unfolding split_lines
shellcheck_position text enc line column =
    let line0 = at_least_one line - 1 in
    let code_points = at_least_one column - 1 in
    let fallback = at line0 code_points in
    let (first, others) = split_lines text in
    let lines = first ∷ others in
    let line_runes = runes (get_or lines line0 []) in
    let prefix = encode_runes (take code_points line_runes) in
    if ltb (length lines) (at_least_one line)
    then fallback
    else if ltb (length line_runes) code_points
    then fallback
    else elim enc [
      | utf8 ↦ at line0 (length prefix)
      | utf32 ↦ at line0 code_points
      | utf16 ↦ at line0 (utf16_len prefix)
    ]

-- p comes before q.
abbrev pub before : Position → Position → Bool
before p q = ltb p.line q.line || p.line == q.line && ltb p.character q.character

unfoldable pub shellcheck_source_range : Str → PositionEncoding → ℤ → ℤ → ℤ → ℤ → Range
shellcheck_source_range text enc line column end_line end_column =
    let start = shellcheck_position text enc line column in
    let last_line = if is_positive end_line then end_line else line in
    let last_column = if is_positive end_column then end_column else add_one column in
    let stop = shellcheck_position text enc last_line last_column in
    record { start = start; stop = if before stop start then start else stop }

pub record Replacement : Type 0 where
  pub line : ℤ
  pub end_line : ℤ
  pub column : ℤ
  pub end_column : ℤ
  pub replacement : Str

pub record Comment : Type 0 where
  pub line : ℤ
  pub end_line : ℤ
  pub column : ℤ
  pub end_column : ℤ
  pub level : Str
  pub code : ℤ
  pub message : Str
  -- The replacements of the fix, if there is one.
  pub fix : Option (List Replacement)

-- The digits of a number; each division by 10 makes it smaller, so the number is fuel enough.
abbrev decimal : ℕ → ℕ → Str
decimal zero n = (48 + n % 10) ∷ []
decimal (suc fuel) n =
    let rest = decimal fuel (n / 10) in
    if ltb n 10 then (48 + n) ∷ [] else rest ++ (48 + n % 10) ∷ []

-- `strconv.Itoa`
unfoldable pub itoa : ℤ → Str
itoa (pos n) = decimal n n
itoa (negsuc n) = b'-' ∷ decimal (suc n) (suc n)

unfoldable pub shellcheck_range : Str → PositionEncoding → Comment → Range
shellcheck_range text enc c =
    shellcheck_source_range text enc c.line c.column c.end_line c.end_column

unfoldable pub replacement_edit : Str → PositionEncoding → Replacement → TextEdit
replacement_edit text enc r = record {
  range = shellcheck_source_range text enc r.line r.column r.end_line r.end_column;
  new_text = r.replacement;
}

unfoldable pub shellcheck_code_action :
    Str → Str → PositionEncoding → Str → Diagnostic → Comment → Option CodeAction
unfolding replacement_edit
shellcheck_code_action u text enc code diag c = elim c.fix [
  | none ↦ none
  | some replacements ↦ elim replacements [
    | [] ↦ none
    | r ∷ rest ↦ some (record {
      title = bytes "Apply fix for " ++ code;
      kind = quick_fix;
      diagnostics = diag ∷ [];
      edit = record { changes = (u, map (replacement_edit text enc) (r ∷ rest)) ∷ [] };
    })
  ]
]

pub record DiagnosticResult : Type 0 where
  pub diagnostics : List Diagnostic
  pub code_actions : List CodeAction

abbrev pub no_result : DiagnosticResult
no_result = record { diagnostics = []; code_actions = [] }

unfoldable pub comment_diagnostic : Str → PositionEncoding → Comment → Diagnostic
unfolding itoa
comment_diagnostic text enc c =
    let code = bytes "SC" ++ itoa c.code in
    record {
      range = shellcheck_range text enc c;
      severity = shellcheck_severity c.level;
      code = code;
      href = bytes "https://www.shellcheck.net/wiki/" ++ code;
      source = bytes "shellcheck";
      message = c.message;
    }

-- The loop over the comments, for what they append to both lists.
unfoldable pub comments_loop : Str → Str → PositionEncoding → List Comment → DiagnosticResult
unfolding comment_diagnostic
comments_loop u text enc [] = no_result
comments_loop u text enc (c ∷ comments) =
    let diag = comment_diagnostic text enc c in
    let rest = comments_loop u text enc comments in
    record {
      diagnostics = diag ∷ rest.diagnostics;
      code_actions = elim (shellcheck_code_action u text enc (bytes "SC" ++ itoa c.code) diag c) [
        | none ↦ rest.code_actions
        | some action ↦ action ∷ rest.code_actions
      ];
    }

-- How `cmd.Run` ends: without an error, because the program is not found, or with another error.
pub data RunError : Type 0 where
  no_error not_found : RunError
  failed : Str → RunError

pub record Output : Type 0 where
  pub err : RunError
  pub stdout : Str
  pub stderr : Str

pub record Process : Type 0 where
  -- The program, its arguments and its standard input.
  pub run_command : Str → List Str → Str → Output
  -- `json.Unmarshal` into `shellCheckOutput`, `none` for an error.
  pub decode_comments : Str → Option (List Comment)

-- The text of an error is only logged.
pub data LintResult : Type 0 where
  linted : DiagnosticResult → LintResult
  lint_failed : LintResult

unfoldable pub shellcheck_diagnostics : Process → Str → Str → PositionEncoding → Str → LintResult
unfolding comments_loop
shellcheck_diagnostics process u text enc raw = elim (process.decode_comments raw) [
  | none ↦ lint_failed
  | some comments ↦ linted (comments_loop u text enc comments)
]

-- `lint`; the runner of the server always has an encoding.
unfoldable pub lint :
    Process → PositionEncoding → ShellCheckRunner → Document → ShellCheckRunner × LintResult
unfolding shellcheck_diagnostics
lint process enc r d =
    let args = (bytes "--format=json1" ∷ r.args) ++ bytes "-" ∷ [] in
    let out = process.run_command r.path args d.text in
    let answer = shellcheck_diagnostics process d.uri d.text enc out.stdout in
    if r.disabled then (r, linted no_result) else elim out.err [
      | not_found ↦ (record r { disabled = true }, linted no_result)
      | no_error ↦ (r, elim out.stdout [ [] ↦ linted no_result | _ ∷ _ ↦ answer ])
      | failed e ↦ (r, elim out.stdout [ [] ↦ lint_failed | _ ∷ _ ↦ answer ])
    ]
