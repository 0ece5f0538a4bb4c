-- ===== src/Messages.antt =====
-- internal/server/server.go: the messages that `handle` takes, one constructor for each method, and
-- what it sends. The parameters of a message are those that `json.Unmarshal` gives, `none` for an
-- error; where a handler decodes them itself, they are the raw bytes.
use gols_bash.Prelude.{ℕ, Bool, Option, List, Str}
use gols_bash.Positions.{Position, Range}
use gols_bash.Documents.{TextDocumentItem}
use gols_bash.Protocol.{TextEdit, WorkspaceEdit, CodeAction, CodeActionKind, Location}
use gols_bash.Workspace.{FileEvent}
use gols_bash.Settings.{Publication}
use gols_bash.State.{Server}
use gols_bash.Initialize.{InitializeResult}
use gols_bash.Completion.{CompletionItem}
use gols_bash.Formatting.{FormattingOptions}
use gols_bash.Requests.References.{DocumentHighlight}
use gols_bash.Requests.Symbols.{DocumentSymbol, SymbolInformation}

-- `changes` are the texts of the content changes.
pub record DidChangeParams : Type 0 where
  pub uri : Str
  pub version : ℕ
  pub changes : List Str

pub record DidSaveParams : Type 0 where
  pub uri : Str
  pub text : Option Str

pub record CodeActionParams : Type 0 where
  pub uri : Str
  pub only : List CodeActionKind

pub record PositionParams : Type 0 where
  pub uri : Str
  pub position : Position

pub record FormattingParams : Type 0 where
  pub uri : Str
  pub options : FormattingOptions

pub record RenameParams : Type 0 where
  pub uri : Str
  pub position : Position
  pub new_name : Str

pub record ReferenceParams : Type 0 where
  pub uri : Str
  pub position : Position
  pub include_declaration : Bool

pub data Message : Type 0 where
  initialize_request : Str → Message
  initialized_notification shutdown exit : Message
  workspace_did_change_configuration : Str → Message
  workspace_did_change_watched_files : Option (List (Option FileEvent)) → Message
  text_document_did_open : Option TextDocumentItem → Message
  text_document_did_change : Option DidChangeParams → Message
  text_document_did_save : Option DidSaveParams → Message
  text_document_did_close : Option Str → Message
  text_document_code_action : Option CodeActionParams → Message
  text_document_completion : Option PositionParams → Message
  completion_item_resolve : Option CompletionItem → Message
  text_document_formatting : Option FormattingParams → Message
  text_document_rename : Option RenameParams → Message
  text_document_prepare_rename : Option PositionParams → Message
  text_document_document_highlight : Option PositionParams → Message
  text_document_references : Option ReferenceParams → Message
  text_document_hover : Option PositionParams → Message
  text_document_definition : Option PositionParams → Message
  text_document_document_symbol : Option Str → Message
  workspace_symbol : Option Str → Message
  other_method : Str → Message

pub data Payload : Type 0 where
  null : Payload
  initialize_payload : InitializeResult → Payload
  code_actions_payload : List CodeAction → Payload
  completion_list : List CompletionItem → Payload
  completion_item_payload : CompletionItem → Payload
  text_edits : List TextEdit → Payload
  workspace_edit : WorkspaceEdit → Payload
  range_payload : Option Range → Payload
  highlights : List DocumentHighlight → Payload
  locations : List Location → Payload
  hover_payload : Option Str → Payload
  document_symbols_payload : List DocumentSymbol → Payload
  symbol_informations : List SymbolInformation → Payload

-- `unmarshal_error` and `print_failure` are errors of other packages, passed on.
pub data ReplyError : Type 0 where
  invalid_request method_not_found invalid_params unmarshal_error print_failure : ReplyError

pub data Reply : Type 0 where
  result : Payload → Reply
  failure : ReplyError → Reply

-- What `goBackground` starts.
pub data Task : Type 0 where
  scan_task register_task : Task

-- What a handler leaves and sends. It publishes before it replies.
pub record Outcome : Type 0 where
  pub state : Server
  pub reply : Reply
  pub published : List Publication
  pub background : List Task
