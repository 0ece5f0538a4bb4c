-- ===== src/Formatting.antt =====
-- internal/server/formatting.go. The printer is a parameter.
pub mod Indents
use gols_bash.Prelude.{
  ℕ, ◌-◌, ◌^◌, Bool, Option, none, some, List, [], ◌∷◌, Str, ◌==◌, if◌then◌else◌,
}
use gols_bash.Syntax.{File}
use gols_bash.System.{Paths, Disk}
use gols_bash.Positions.{Position}
use gols_bash.Documents.{Document}
use gols_bash.Protocol.{TextEdit}
use gols_bash.State.{Server}
use gols_bash.EditorConfig.{editor_config_indent}

-- `protocol.FormattingOptions`, as far as it is read.
pub record FormattingOptions : Type 0 where
  pub insert_spaces : Bool
  pub tab_size : ℕ

-- `syntax.NewPrinter(syntax.Indent(n)).Print`, `none` for an error.
abbrev pub Printer : Type 0
Printer = ℕ → File → Option Str

pub data FormatResult : Type 0 where
  not_formatted print_failed : FormatResult
  formatted : List TextEdit → FormatResult

abbrev pub client_indent : FormattingOptions → ℕ
client_indent opts =
    if opts.insert_spaces then (if opts.tab_size == 0 then 4 else opts.tab_size) else 0

-- The chain of conditions that sets `indent`.
unfoldable pub format_indent : Paths → Disk → Server → Document → FormattingOptions → ℕ
format_indent p disk s d opts = elim s.settings.format_indent_spaces [
  | some configured ↦ configured
  | none ↦ elim (editor_config_indent p disk (p.filename d.uri)) [
    | some indent ↦ indent
    | none ↦ client_indent opts
  ]
]

abbrev pub whole_text : Str → TextEdit
whole_text text = record {
  range = record {
    start = record { line = 0; character = 0 };
    stop = record { line = 2 ^ 32 - 1; character = 2 ^ 32 - 1 };
  };
  new_text = text;
}

unfoldable pub format_document :
    Printer → Paths → Disk → Server → Option Document → FormattingOptions → FormatResult
unfolding format_indent
format_document print p disk s none opts = not_formatted
format_document print p disk s (some d) opts = elim d.ast [
  | none ↦ not_formatted
  | some ast ↦ elim d.parse_err [
    | some _ ↦ not_formatted
    | none ↦ elim (print (format_indent p disk s d opts) ast) [
      | none ↦ print_failed
      | some text ↦ formatted (whole_text text ∷ [])
    ]
  ]
]
