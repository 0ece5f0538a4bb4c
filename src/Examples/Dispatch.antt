-- ===== src/Examples/Dispatch.antt =====
-- internal/server/server_test.go: a session that opens a document, changes it and ends the server.
use mathlib.Core.Option
use gols_bash.Prelude.{
  has_prefix, drop, length, if◌then◌else◌, ◌≡◌, refl, true, false, Option, none, some, List, [],
  ◌∷◌, ◌++◌, Str, bytes, get, put, str_eq,
}
use gols_bash.System.{Paths}
use gols_bash.Analyser.Index.{add_or_replace}
use gols_bash.Documents.{Document, update_doc, is_file_uri}
use gols_bash.State.{Server, new_server}
use gols_bash.Initialize.{InitializeResult, initialize}
use gols_bash.Workspace.{index_parse, index_workspace_path, open_document, update_document}
use gols_bash.Diagnostics.{document_diagnostics}
use gols_bash.ShellCheck.{lint, shellcheck_code_action}
use gols_bash.Workspace.Events.View.{Buffer, buffer_at}
use gols_bash.Workspace.Events.Flags.{Flags, flags_of}
use gols_bash.Messages.{
  initialize_request, initialized_notification, null, shutdown, exit, text_document_did_open,
  text_document_did_change, Outcome, result, failure, invalid_request, initialize_payload,
}
use gols_bash.Dispatch.{World, handle, dispatch}
use gols_bash.Dispatch.Queries.{Announced, tasks, initialize_handshake}
use gols_bash.Dispatch.Sessions.{Input, received, visited, session}
use gols_bash.Syntax.{File}
use gols_bash.Dispatch.Sessions.Panics.{session_file_uris}
use gols_bash.Dispatch.Sessions.Told.{told, session_indexed, session-told}
use gols_bash.Dispatch.Sessions.Lifecycle.{exit_status, shutdown_then_exit}
use gols_bash.Run.{exit_signalled, conn_done, run_result, main_status}
use gols_bash.Examples.World.{flat_walker, plain_paths, plain_disk, plain_parse}
use gols_bash.Examples.Requests.{server}
use gols_bash.Examples.ShellCheck.{reports}
use gols_bash.Examples.Settings.{settings_json, utf8_json}

abbrev world : World
world = record {
  walker = flat_walker;
  parse = plain_parse;
  paths = plain_paths;
  path = [];
  print = λ indent file. none;
  process = reports;
  initialize_json = utf8_json;
  settings_json = settings_json;
}

abbrev a_sh : Str
a_sh = bytes "/a.sh"

abbrev opened : Input
opened = received plain_disk true (
    text_document_did_open
      (some (record { uri = a_sh; language_id = bytes "sh"; version = 1; text = bytes "x" })))

abbrev edited : Input
edited = received plain_disk true (
    text_document_did_change
      (some (record { uri = a_sh; version = 2; changes = bytes "z" ∷ bytes "y" ∷ [] })))

abbrev inputs : List Input
inputs = opened ∷ visited plain_disk a_sh ∷ edited ∷ []

abbrev or_new : Option Server → Server
or_new none = new_server
or_new (some s) = s

abbrev after : Server
after = or_new (session world new_server inputs)

goes_through : session world new_server inputs ≡ some after
unfolding session new_server handle dispatch get put str_eq is_file_uri index_workspace_path
    document_diagnostics open_document lint shellcheck_code_action
goes_through = refl

abbrev doc : Document
doc = record {
  uri = a_sh;
  lang = bytes "sh";
  version = 2;
  text = bytes "y";
  ast = (plain_parse (bytes "y") a_sh).0;
  parse_err = none;
}

leaves_doc : get after.docs a_sh ≡ some doc
unfolding session new_server handle dispatch get put str_eq is_file_uri index_workspace_path
    document_diagnostics open_document lint shellcheck_code_action update_document update_doc
leaves_doc = refl

session_indexed_example :
    (doc.uri ≡ a_sh)
    × (get after.index.entries a_sh ≡ (plain_parse doc.text a_sh).0)
    × (doc.parse_err ≡ (plain_parse doc.text a_sh).1)
session_indexed_example = session_indexed world inputs after a_sh doc goes_through leaves_doc

session-told_example :
    ◌≡◌ {A = Flags × Option Buffer}
      (flags_of after, buffer_at after a_sh)
      (told a_sh (flags_of new_server, buffer_at new_server a_sh) inputs)
session-told_example = session-told world inputs new_server after a_sh goes_through

abbrev asked : Input
asked = received plain_disk true shutdown

abbrev finished : Server
finished = or_new (session world new_server ((asked ∷ []) ++ received plain_disk false exit ∷ []))

finishes :
    session world new_server ((asked ∷ []) ++ received plain_disk false exit ∷ []) ≡ some finished
unfolding session new_server handle dispatch
finishes = refl

exit_status_example :
    (finished.exited ≡ true)
    × (main_status false true (run_result finished exit_signalled) ≡ 0)
    × (main_status false true (run_result finished (conn_done (some (bytes "EOF")))) ≡ 0)
exit_status_example =
    exit_status world (asked ∷ []) plain_disk false finished (some (bytes "EOF")) finishes

shutdown_then_exit_example :
    (t : Server) × (session world server (asked ∷ (inputs ++ received plain_disk true exit ∷ []))
      ≡ some t)
    × (t.exited ≡ true)
    × (t.docs ≡ server.docs)
    × (main_status false true (run_result t exit_signalled) ≡ 0)
shutdown_then_exit_example = shutdown_then_exit world server plain_disk plain_disk true inputs refl

abbrev or_silent : Option Outcome → Outcome
or_silent none = record {
  state = new_server;
  reply = failure invalid_request;
  published = [];
  background = [];
}
or_silent (some out) = out

abbrev greeted : Outcome
greeted = or_silent (handle world plain_disk true server (initialize_request []))

greets : handle world plain_disk true server (initialize_request []) ≡ some greeted
unfolding handle dispatch initialize new_server str_eq
greets = refl

is_up : server.shutdown ≡ false
unfolding new_server
is_up = refl

initialize_handshake_example :
    (reply : InitializeResult) × (greeted.reply ≡ result (initialize_payload reply))
    × (reply.capabilities.position_encoding ≡ greeted.state.pos_encoding)
    × Announced world plain_disk true server [] greeted.state.pos_encoding
    × (handle world plain_disk true greeted.state initialized_notification
        ≡ some (record {
          state = greeted.state;
          reply = result null;
          published = [];
          background = tasks world plain_disk true server [];
        }))
initialize_handshake_example =
    initialize_handshake world plain_disk true server [] greeted is_up greets

-- Paths where the URI of a file is its path after file://, and no other URI is one of a file.
abbrev file_paths : Paths
file_paths = record plain_paths {
  filename = drop 7;
  uri_file = λ path. bytes "file://" ++ path;
  parse_scheme =
      λ u. some (if has_prefix u (bytes "file://") then bytes "file" else bytes "untitled");
}

abbrev file_world : World
file_world = record world { paths = file_paths }

uri_file-is_file_uri : (path : Str) → is_file_uri file_paths (file_paths.uri_file path) ≡ true
unfolding is_file_uri str_eq has_prefix
uri_file-is_file_uri path = refl

-- A document is opened, and the scan visits it and a second file.
abbrev file_inputs : List Input
file_inputs =
    received plain_disk true (
      text_document_did_open (
        some (record {
          uri = bytes "file:///a.sh";
          language_id = bytes "sh";
          version = 1;
          text = bytes "x";
        })))
    ∷ visited plain_disk a_sh
    ∷ visited plain_disk (bytes "/b.sh")
    ∷ []

abbrev file_end : Server
file_end = or_new (session file_world new_server file_inputs)

files_are_there : session file_world new_server file_inputs ≡ some file_end
unfolding session new_server handle dispatch get put str_eq has_prefix is_file_uri
    index_workspace_path document_diagnostics open_document lint shellcheck_code_action
files_are_there = refl

session_file_uris_example :
    ((u : Str) (d : Document) → get file_end.docs u ≡ some d → is_file_uri file_paths u ≡ true)
    × ((u : Str) (f : File)
        → get file_end.index.entries u ≡ some f
        → is_file_uri file_paths u ≡ true)
session_file_uris_example =
    session_file_uris file_world uri_file-is_file_uri file_inputs file_end files_are_there

-- A URI that is not one of a file ends the session.
test_untitled :
    session file_world new_server (
      received plain_disk true (
        text_document_did_open (
          some (record {
            uri = bytes "untitled:1";
            language_id = bytes "sh";
            version = 1;
            text = bytes "x";
          })))
      ∷ [])
    ≡ none
unfolding session new_server handle dispatch str_eq has_prefix is_file_uri
test_untitled = refl

-- The scan has indexed the second file.
test_indexed :
    Option.map (λ (f : File). length f.nodes) (get file_end.index.entries (bytes "file:///b.sh"))
    ≡ some 1
unfolding session new_server handle dispatch get put str_eq has_prefix is_file_uri
    index_workspace_path document_diagnostics open_document lint shellcheck_code_action
    add_or_replace index_parse
test_indexed = refl
