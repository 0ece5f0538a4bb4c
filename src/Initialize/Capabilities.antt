-- ===== src/Initialize/Capabilities.antt =====
-- internal/server/initialize.go and code_action.go: the reply to the `initialize` request.
use gols_bash.Prelude.{Bool, true, List, [], ◌∷◌, ◌++◌, Str, bytes}
use gols_bash.Positions.{PositionEncoding, utf8, utf16, utf32}
use gols_bash.Protocol.{CodeActionKind, quick_fix}

-- `String` of `PositionEncoding`.
unfoldable pub encoding_string : PositionEncoding → Str
encoding_string utf8 = bytes "utf-8"
encoding_string utf32 = bytes "utf-32"
encoding_string utf16 = bytes "utf-16"

-- `json.Marshal` of a text that needs no escapes puts it in quotes.
unfoldable pub marshal_json : PositionEncoding → Str
unfolding encoding_string
marshal_json enc = bytes "\"" ++ encoding_string enc ++ bytes "\""

pub data SyncKind : Type 0 where
  none_kind incremental full : SyncKind

-- The options of the protocol, as far as the reply sets them.
pub record SyncOptions : Type 0 where
  pub open_close : Bool
  pub change : SyncKind
  pub save_includes_text : Bool

pub record CompletionOptions : Type 0 where
  pub resolve_provider : Bool
  pub trigger_characters : List Str

pub record CodeActionOptions : Type 0 where
  pub code_action_kinds : List CodeActionKind

pub record RenameOptions : Type 0 where
  pub prepare_provider : Bool

pub record ServerCapabilities : Type 0 where
  pub text_document_sync : SyncOptions
  pub code_action_provider : CodeActionOptions
  pub completion_provider : CompletionOptions
  pub document_symbol_provider : Bool
  pub workspace_symbol_provider : Bool
  pub document_formatting_provider : Bool
  pub definition_provider : Bool
  pub hover_provider : Bool
  pub references_provider : Bool
  pub document_highlight_provider : Bool
  pub rename_provider : RenameOptions
  pub position_encoding : PositionEncoding

pub record ServerInfo : Type 0 where
  pub name : Str
  pub version : Str

pub record InitializeResult : Type 0 where
  pub capabilities : ServerCapabilities
  pub server_info : ServerInfo

unfoldable pub code_action_options : CodeActionOptions
code_action_options = record { code_action_kinds = quick_fix ∷ [] }

-- As JSON the reply leaves the encoding out where it is UTF-16, by `omitempty` on a zero value; in the
-- protocol its absence means UTF-16.
unfoldable pub initialize_result : PositionEncoding → InitializeResult
unfolding code_action_options
initialize_result enc = record {
  capabilities = record {
    text_document_sync = record { open_close = true; change = full; save_includes_text = true };
    completion_provider = record {
      resolve_provider = true;
      trigger_characters = bytes "$" ∷ bytes "{" ∷ bytes "-" ∷ [];
    };
    code_action_provider = code_action_options;
    document_symbol_provider = true;
    workspace_symbol_provider = true;
    document_formatting_provider = true;
    definition_provider = true;
    hover_provider = true;
    references_provider = true;
    document_highlight_provider = true;
    rename_provider = record { prepare_provider = true };
    position_encoding = enc;
  };
  server_info = record { name = bytes "gols-bash"; version = bytes "0.0.0" };
}
