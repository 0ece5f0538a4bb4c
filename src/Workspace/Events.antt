-- ===== src/Workspace/Events.antt =====
-- internal/server/workspace.go: the operations in any order, as the client, the scanner and the file
-- watcher send them, each on the file system as it then is.
pub mod Open
pub mod Closed
pub mod View
pub mod Flags
pub mod FileUris
use gols_bash.Prelude.{ℕ, Option, none, some, List, [], ◌∷◌, Str, if◌then◌else◌, str_eq}
use gols_bash.System.{Paths, Disk}
use gols_bash.Documents.{Parser, TextDocumentItem}
use gols_bash.State.{Server}
use gols_bash.Workspace.{
  FileEvent, open_document, update_document, save_document, close_document, index_workspace_path,
  watched_changes,
}

pub data Event : Type 0 where
  did_open : TextDocumentItem → Event
  did_change : Str → ℕ → Str → Event
  did_save : Str → Option Str → Event
  did_close : Str → Event
  scanned : Str → Event
  watched : List (Option FileEvent) → Event

module _ (parse : Parser) (p : Paths) where
  unfoldable pub handle_event : Disk → Server → Event → Server
  handle_event disk s (did_open item) = (open_document parse p s item).0
  handle_event disk s (did_change u version text) = (update_document parse p s u version text).0
  handle_event disk s (did_save u text) = (save_document parse p s u text).0
  handle_event disk s (did_close u) = close_document parse p disk s u
  handle_event disk s (scanned path) = index_workspace_path parse p disk s path
  handle_event disk s (watched changes) = watched_changes parse p disk s changes

  unfoldable pub run : Server → List (Disk × Event) → Server
  unfolding handle_event
  run s [] = s
  run s ((disk, event) ∷ rest) = run (handle_event disk s event) rest
