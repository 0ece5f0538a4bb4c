-- ===== src/Protocol.antt =====
-- The messages of the language server protocol, as far as the server fills or reads them. They
-- mirror go.lsp.dev/protocol, which is not modelled itself.
use gols_bash.Prelude.{List, Str, Map}
use gols_bash.Positions.{Range}

pub data Severity : Type 0 where
  error warning information hint : Severity

pub record Diagnostic : Type 0 where
  pub range : Range
  pub severity : Severity
  pub code : Str
  pub href : Str
  pub source : Str
  pub message : Str

pub record TextEdit : Type 0 where
  pub range : Range
  pub new_text : Str

pub record WorkspaceEdit : Type 0 where
  pub changes : Map (List TextEdit)

pub data CodeActionKind : Type 0 where
  quick_fix : CodeActionKind
  other_kind : Str → CodeActionKind

pub record CodeAction : Type 0 where
  pub title : Str
  pub kind : CodeActionKind
  pub diagnostics : List Diagnostic
  pub edit : WorkspaceEdit

pub record Location : Type 0 where
  pub uri : Str
  pub range : Range
