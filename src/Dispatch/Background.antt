-- ===== src/Dispatch/Background.antt =====
-- internal/server/workspace.go, `registerFileWatchers` and `goBackground`: what the tasks do that the
-- `initialized` message starts.
use gols_bash.Prelude.{ℕ, ◌+◌, Bool, true, not, Option, List, [], ◌∷◌, Str, bytes, if◌then◌else◌}
use gols_bash.System.{Disk}
use gols_bash.State.{Server}
use gols_bash.Analyser.Scanner.Walk.{Tree, Scan}
use gols_bash.Workspace.Scan.{scan_workspaces}
use gols_bash.Messages.{Task, scan_task, register_task}
use gols_bash.Dispatch.{World}

-- `protocol.WatchKind`.
abbrev watch_create : ℕ
watch_create = 1

abbrev watch_change : ℕ
watch_change = 2

abbrev watch_delete : ℕ
watch_delete = 4

pub record FileSystemWatcher : Type 0 where
  pub glob_pattern : Str
  pub kind : ℕ

pub record Registration : Type 0 where
  pub id : Str
  pub method : Str
  pub watchers : List FileSystemWatcher

-- The calls to the client; an error of the call is only logged.
unfoldable pub register_file_watchers : (can_call : Bool) → List Registration
register_file_watchers can_call =
    if not can_call
    then []
    else record {
      id = bytes "gols-bash-watch-shell-files";
      method = bytes "workspace/didChangeWatchedFiles";
      watchers =
          record { glob_pattern = bytes "**/*"; kind = watch_create + watch_change + watch_delete }
          ∷ [];
    }
      ∷ []

-- `Run` gives the server a connection to call on.
unfoldable pub run_task :
    World → Disk → (Str → Option Tree) → Scan Server → Task → Scan Server × List Registration
unfolding register_file_watchers
run_task world disk found scan scan_task =
    (scan_workspaces world.parse world.paths disk found scan, [])
run_task world disk found scan register_task = (scan, register_file_watchers true)
