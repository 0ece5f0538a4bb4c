-- ===== src/Workspace/Events/Flags.antt =====
-- internal/server/workspace.go: its operations and the flags of the end of a server.
use gols_bash.Prelude.{ℕ, ◌≡◌, refl, ◌∙◌, Bool, Option, none, some, List, [], ◌∷◌, Str, arith}
use gols_bash.System.{Paths, Disk}
use gols_bash.Documents.{Parser, update_doc, save_doc, close_doc}
use gols_bash.State.{Server}
use gols_bash.Workspace.{
  FileEvent, open_document, update_document, save_document, close_document, index_workspace_path,
  follow, watched_change, watched_changes, refresh_workspace_file, remove_workspace_file,
}
use gols_bash.Workspace.Events.{
  Event, did_open, did_change, did_save, did_close, scanned, watched, handle_event,
}

-- The flags of the end of a server: `shutdown`, `exited` and `abnormal_exit`.
abbrev pub Flags : Type 0
Flags = Bool × Bool × Bool

abbrev pub flags_of : Server → Flags
flags_of s = (s.shutdown, s.exited, s.abnormal_exit)

module _ (parse : Parser) (p : Paths) (disk : Disk) where
  flags-update :
      (s : Server) (u : Str) (version : ℕ) (text : Str)
      → flags_of (update_document parse p s u version text).0 ≡ flags_of s
  unfolding update_document follow update_doc
  flags-update s u version text = ground arith

  flags-save :
      (s : Server) (u : Str) (text : Option Str)
      → flags_of (save_document parse p s u text).0 ≡ flags_of s
  unfolding save_document follow save_doc
  flags-save s u text = ground arith

  flags-close : (s : Server) (u : Str) → flags_of (close_document parse p disk s u) ≡ flags_of s
  unfolding close_document close_doc
  flags-close s u = ground arith

  flags-scan :
      (s : Server) (path : Str) → flags_of (index_workspace_path parse p disk s path) ≡ flags_of s
  unfolding index_workspace_path
  flags-scan s path = ground arith

  flags-watched_change :
      (s : Server) (change : FileEvent)
      → flags_of (watched_change parse p disk s change) ≡ flags_of s
  unfolding watched_change refresh_workspace_file remove_workspace_file
  flags-watched_change s change = ground arith

  flags-watched :
      (s : Server) (changes : List (Option FileEvent))
      → flags_of (watched_changes parse p disk s changes) ≡ flags_of s
  unfolding watched_changes
  flags-watched s [] = refl
  flags-watched s (none ∷ rest) = flags-watched s rest
  flags-watched s (some change ∷ rest) =
      flags-watched (watched_change parse p disk s change) rest ∙ flags-watched_change s change

  pub flags-handle_event :
      (s : Server) (e : Event) → flags_of (handle_event parse p disk s e) ≡ flags_of s
  unfolding handle_event open_document
  flags-handle_event s (did_open item) = refl
  flags-handle_event s (did_change u version text) = flags-update s u version text
  flags-handle_event s (did_save u text) = flags-save s u text
  flags-handle_event s (did_close u) = flags-close s u
  flags-handle_event s (scanned path) = flags-scan s path
  flags-handle_event s (watched changes) = flags-watched s changes
