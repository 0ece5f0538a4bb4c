-- ===== src/State.antt =====
-- internal/server/server.go: the state of `bashServer`, and the settings of configuration.go. Locks,
-- the logger and the connection are left out; each handler is one step.
use gols_bash.Prelude.{ℕ, Bool, false, true, Option, none, some, List, [], Str, bytes, Map}
use gols_bash.Positions.{PositionEncoding, utf16}
use gols_bash.Documents.{Document}
use gols_bash.Analyser.Index.{Index, new_index}
use gols_bash.Protocol.{CodeAction}

pub record ServerSettings : Type 0 where
  pub shellcheck_path : Str
  pub shellcheck_arguments : List Str
  pub format_indent_spaces : Option ℕ
  pub workspace_scan_enabled : Bool

unfoldable pub default_settings : ServerSettings
default_settings = record {
  shellcheck_path = bytes "shellcheck";
  shellcheck_arguments = [];
  format_indent_spaces = none;
  workspace_scan_enabled = true;
}

-- `shellCheckRunner` of diagnostics.go.
pub record ShellCheckRunner : Type 0 where
  pub path : Str
  pub args : List Str
  pub disabled : Bool

unfoldable pub new_shellcheck_runner : Str → List Str → ShellCheckRunner
new_shellcheck_runner path args = record { path = path; args = args; disabled = false }

-- `shellcheck` is nil, or the `lint` method of a runner. `exited` says that `signalExit` has run.
pub record Server : Type 0 where
  pub docs : Map Document
  pub pos_encoding : PositionEncoding
  pub index : Index
  pub code_actions : Map (List CodeAction)
  pub settings : ServerSettings
  pub shellcheck : Option ShellCheckRunner
  pub workspace_roots : List Str
  pub dynamic_watched_files : Bool
  pub shutdown : Bool
  pub abnormal_exit : Bool
  pub exited : Bool

-- The server that `Run` builds.
unfoldable pub new_server : Server
unfolding default_settings new_shellcheck_runner new_index
new_server =
    let settings = default_settings in
    record {
      docs = [];
      pos_encoding = utf16;
      index = new_index;
      code_actions = [];
      settings = settings;
      shellcheck =
          some (new_shellcheck_runner settings.shellcheck_path settings.shellcheck_arguments);
      workspace_roots = [];
      dynamic_watched_files = false;
      shutdown = false;
      abnormal_exit = false;
      exited = false;
    }
