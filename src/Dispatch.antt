-- ===== src/Dispatch.antt =====
-- internal/server/server.go, `handle`: what the server does with each message. jsonrpc2 hands it one
-- message at a time.
pub mod Files
pub mod Sessions
pub mod Queries
pub mod Background
use gols_bash.Prelude.{
  ℕ, Bool, true, false, not, ◌&&◌, Option, none, some, List, [], ◌∷◌, Str, get, if◌then◌else◌,
}
use gols_bash.Syntax.{Walker}
use gols_bash.System.{Paths, Disk}
use gols_bash.Documents.{Parser, TextDocumentItem, Document, is_file_uri}
use gols_bash.Protocol.{Location}
use gols_bash.State.{Server}
use gols_bash.ShellCheck.{Process}
use gols_bash.Diagnostics.{document_diagnostics, set_code_actions, code_actions_for}
use gols_bash.Settings.{SettingsJson, Publication, did_change_configuration}
use gols_bash.Initialize.{InitializeJson, initialize}
use gols_bash.Workspace.{
  open_document, update_document, save_document, close_document, watched_changes,
}
use gols_bash.Requests.{or_empty}
use gols_bash.Requests.References.{references, highlight}
use gols_bash.Requests.Rename.{RenameResult, invalid_name, edited, rename, prepare_rename}
use gols_bash.Requests.Hover.{hover}
use gols_bash.Requests.Definition.{definition}
use gols_bash.Requests.Symbols.{document_symbols, workspace_symbols}
use gols_bash.Completion.{completion}
use gols_bash.Formatting.{
  Printer, FormatResult, not_formatted, print_failed, formatted, format_document,
}
use gols_bash.Messages.{
  DidChangeParams, Message, initialize_request, initialized_notification, shutdown, exit,
  workspace_did_change_configuration, workspace_did_change_watched_files, text_document_did_open,
  text_document_did_change, text_document_did_save, text_document_did_close,
  text_document_code_action, text_document_completion, completion_item_resolve,
  text_document_formatting, text_document_rename, text_document_prepare_rename,
  text_document_document_highlight, text_document_references, text_document_hover,
  text_document_definition, text_document_document_symbol, workspace_symbol, other_method, Payload,
  null, initialize_payload, code_actions_payload, completion_list, completion_item_payload,
  text_edits, workspace_edit, range_payload, highlights, locations, hover_payload,
  document_symbols_payload, symbol_informations, ReplyError, invalid_request, method_not_found,
  invalid_params, unmarshal_error, print_failure, Reply, result, failure, Task, scan_task,
  register_task, Outcome,
}

-- All that the handlers ask of other packages but the file system, which each message finds anew.
pub record World : Type 1 where
  pub walker : Walker
  pub parse : Parser
  pub paths : Paths
  -- `os.Getenv("PATH")`
  pub path : Str
  pub print : Printer
  pub process : Process
  pub initialize_json : InitializeJson
  pub settings_json : SettingsJson

abbrev pub reply_with : Server → Reply → Outcome
reply_with s reply = record { state = s; reply = reply; published = []; background = [] }

-- A reply that changes nothing, on parameters that may not decode.
abbrev pub query {ℓ} : {A : Type ℓ} → Server → Option A → (A → Reply) → Outcome
query s none answer = reply_with s (failure unmarshal_error)
query s (some params) answer = reply_with s (answer params)

unfoldable pub signal_exit : Server → Server
signal_exit s = record s { exited = true }

abbrev pub is_exit : Message → Bool
is_exit exit = true
is_exit _ = false

abbrev at_most_one : Option Location → List Location
at_most_one none = []
at_most_one (some l) = l ∷ []

abbrev pub last_change : List Str → Option Str
last_change [] = none
last_change (text ∷ []) = some text
last_change (text ∷ next ∷ rest) = last_change (next ∷ rest)

abbrev format_reply : FormatResult → Reply
format_reply not_formatted = result (text_edits [])
format_reply print_failed = failure print_failure
format_reply (formatted edits) = result (text_edits edits)

abbrev rename_reply : RenameResult → Reply
rename_reply invalid_name = failure invalid_params
rename_reply (edited edit) = result (workspace_edit edit)

module _ (world : World) where
  -- `publishDiagnostics` of `documentDiagnostics`, and the empty reply.
  unfoldable pub publish_document : Server × Document → Outcome
  publish_document (s, d) =
      let (s', diags) = document_diagnostics world.process s d in
      record {
        state = s';
        reply = result null;
        published = record { uri = d.uri; version = d.version; diagnostics = diags } ∷ [];
        background = [];
      }

  -- `none` where `reparse` panics.
  unfoldable pub handle_did_open : Server → Option TextDocumentItem → Option Outcome
  unfolding publish_document
  handle_did_open s none = some (reply_with s (failure unmarshal_error))
  handle_did_open s (some item) =
      if not (is_file_uri world.paths item.uri)
      then none
      else some (publish_document (open_document world.parse world.paths s item))

  unfoldable pub publish_updated : Server × Option Document → Outcome
  unfolding publish_document
  publish_updated (s, none) = reply_with s (result null)
  publish_updated (s, some d) = publish_document (s, d)

  -- `last` is the last of the content changes.
  unfoldable pub change_to : Server → DidChangeParams → (last : Option Str) → Outcome
  unfolding publish_updated
  change_to s params none = reply_with s (result null)
  change_to s params (some text) =
      publish_updated (update_document world.parse world.paths s params.uri params.version text)

  unfoldable pub handle_did_change : Server → Option DidChangeParams → Outcome
  unfolding change_to
  handle_did_change s none = reply_with s (failure unmarshal_error)
  handle_did_change s (some params) = change_to s params (last_change params.changes)

  module _ (disk : Disk) where
    unfoldable pub handle_did_close : Server → Option Str → Outcome
    unfolding set_code_actions
    handle_did_close s none = reply_with s (failure unmarshal_error)
    handle_did_close s (some u) =
        let closed = close_document world.parse world.paths disk s u in
        record {
          state = set_code_actions closed u [];
          reply = result null;
          published = record { uri = u; version = 0; diagnostics = [] } ∷ [];
          background = [];
        }

    -- The requests, which only read the state.
    unfoldable pub answer : Server → Message → Outcome
    answer s (text_document_code_action params) =
        query s params (λ c. result (code_actions_payload (code_actions_for s c.uri c.only)))
    answer s (text_document_completion params) = query s params (λ c. result (
        completion_list (
          or_empty
            (completion world.walker world.paths disk world.path s (get s.docs c.uri) c.position))))
    answer s (completion_item_resolve params) =
        query s params (λ item. result (completion_item_payload item))
    answer s (text_document_formatting params) = query s params (λ f.
        format_reply (format_document world.print world.paths disk s (get s.docs f.uri) f.options))
    answer s (text_document_rename params) = query s params (λ r.
        rename_reply
          (rename world.walker world.paths disk s (get s.docs r.uri) r.position r.new_name))
    answer s (text_document_prepare_rename params) = query s params (λ r. result (
        range_payload
          (prepare_rename world.walker world.paths disk s (get s.docs r.uri) r.position)))
    answer s (text_document_document_highlight params) = query s params (λ h. result (
        highlights
          (or_empty (highlight world.walker world.paths disk s (get s.docs h.uri) h.position))))
    answer s (text_document_references params) = query s params (λ r. result (
        locations (
          or_empty (
            references world.walker world.paths disk s (get s.docs r.uri) r.position
              r.include_declaration))))
    answer s (text_document_hover params) = query s params (λ h.
        result
          (hover_payload (hover world.walker world.paths disk s (get s.docs h.uri) h.position)))
    answer s (text_document_definition params) = query s params (λ d. result (
        locations
          (at_most_one (definition world.walker world.paths disk s (get s.docs d.uri) d.position))))
    answer s (text_document_document_symbol params) = query s params (λ u. result (
        document_symbols_payload (document_symbols world.walker world.paths disk s (get s.docs u))))
    answer s (workspace_symbol params) = query s params (λ text.
        result (symbol_informations (workspace_symbols world.walker world.paths disk s text)))
    answer s _ = reply_with s (failure method_not_found)

    -- The switch over the methods. `written` says that the reply reaches the client; `none` is a
    -- panic.
    unfoldable pub dispatch : Bool → Server → Message → Option Outcome
    unfolding signal_exit handle_did_open handle_did_change handle_did_close answer
    dispatch written s (initialize_request raw) =
        elim (initialize world.initialize_json world.paths s raw) [
          | none ↦ none
          | some (s', reply) ↦ some (reply_with s' (result (initialize_payload reply)))
        ]
    dispatch written s initialized_notification = some (record {
      state = s;
      reply = result null;
      published = [];
      background =
          if not written
          then []
          else scan_task ∷ (if s.dynamic_watched_files then register_task ∷ [] else []);
    })
    dispatch written s (workspace_did_change_configuration raw) =
        let (s', sent) = did_change_configuration world.settings_json world.process s raw in
        some (record { state = s'; reply = result null; published = sent; background = [] })
    dispatch written s (workspace_did_change_watched_files none) = some (reply_with s (result null))
    dispatch written s (workspace_did_change_watched_files (some changes)) =
        some (reply_with (watched_changes world.parse world.paths disk s changes) (result null))
    dispatch written s shutdown =
        some
          (reply_with (record s { shutdown = if written then true else s.shutdown }) (result null))
    dispatch written s exit =
        some (reply_with (signal_exit (record s { abnormal_exit = not s.shutdown })) (result null))
    dispatch written s (text_document_did_open params) = handle_did_open s params
    dispatch written s (text_document_did_change params) = some (handle_did_change s params)
    dispatch written s (text_document_did_save none) = some (reply_with s (failure unmarshal_error))
    dispatch written s (text_document_did_save (some params)) = some (
        reply_with (save_document world.parse world.paths s params.uri params.text).0 (result null))
    dispatch written s (text_document_did_close params) = some (handle_did_close s params)
    dispatch written s request = some (answer s request)

    unfoldable pub handle : Bool → Server → Message → Option Outcome
    unfolding dispatch
    handle written s message =
        if s.shutdown && not (is_exit message)
        then some (reply_with s (failure invalid_request))
        else dispatch written s message
