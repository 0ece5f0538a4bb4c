-- ===== src/Workspace/Events/View.antt =====
-- internal/server/documents.go: the store against what the client has said, an abstract view that
-- knows only texts and versions.
use mathlib.Core.Option
use gols_bash.Prelude.{
  ℕ, ◌≡◌, refl, ap, ◌∙◌, Option, none, some, List, [], ◌∷◌, Str, Map, str_eq, str_eq_iff, get, put,
  delete, get-delete, get-put, if◌then◌else◌, arith, Option-cases, inl, inr,
}
use gols_bash.System.{Paths, Disk}
use gols_bash.Documents.{Parser, TextDocumentItem, Document, reparse, open_doc}
use gols_bash.State.{Server}
use gols_bash.Workspace.{
  FileEvent, open_document, update_document, save_document, close_document, index_workspace_path,
  watched_change, watched_changes, refresh_workspace_file, remove_workspace_file,
}
use gols_bash.Workspace.Steps.{
  update_closed, update_open, save_closed, save_open, save_as_is, close_closed, close-eq-refresh,
}
use gols_bash.Workspace.Events.{
  Event, did_open, did_change, did_save, did_close, scanned, watched, handle_event, run,
}

-- A buffer as the client knows it: its version and its text.
abbrev pub Buffer : Type 0
Buffer = ℕ × Str

-- What one event says of the buffer at `u`.
abbrev pub buffer_step : Str → Option Buffer → Event → Option Buffer
buffer_step u cur (did_open item) =
    if str_eq item.uri u then some (item.version, item.text) else cur
buffer_step u cur (did_change v version text) =
    if str_eq v u then Option.map (λ _. (version, text)) cur else cur
buffer_step u cur (did_save v none) = cur
buffer_step u cur (did_save v (some text)) =
    if str_eq v u then Option.map (λ b. (b.0, text)) cur else cur
buffer_step u cur (did_close v) = if str_eq v u then none else cur
buffer_step u cur (scanned path) = cur
buffer_step u cur (watched changes) = cur

abbrev pub buffer_run : Str → Option Buffer → List (Disk × Event) → Option Buffer
buffer_run u cur [] = cur
buffer_run u cur ((_, e) ∷ rest) = buffer_run u (buffer_step u cur e) rest

-- The same view of the server's store.
abbrev pub buffer_of : Option Document → Option Buffer
buffer_of none = none
buffer_of (some d) = some (d.version, d.text)

abbrev pub buffer_at : Server → Str → Option Buffer
buffer_at s u = buffer_of (get s.docs u)

module _ (parse : Parser) (p : Paths) (disk : Disk) where
  docs-scanned :
      (s : Server) (path : Str) → (index_workspace_path parse p disk s path).docs ≡ s.docs
  unfolding index_workspace_path
  docs-scanned s path = ground arith

  docs-refresh : (s : Server) (u : Str) → (refresh_workspace_file parse p disk s u).docs ≡ s.docs
  unfolding refresh_workspace_file
  docs-refresh s u = ground arith

  docs-remove : (s : Server) (u : Str) → (remove_workspace_file parse p disk s u).docs ≡ s.docs
  unfolding remove_workspace_file
  docs-remove s u = ground arith

  docs-watched_change :
      (s : Server) (change : FileEvent) → (watched_change parse p disk s change).docs ≡ s.docs
  unfolding watched_change
  docs-watched_change s change = ground (arith, docs-refresh s change.uri, docs-remove s change.uri)

  docs-watched :
      (s : Server) (changes : List (Option FileEvent))
      → (watched_changes parse p disk s changes).docs ≡ s.docs
  unfolding watched_changes
  docs-watched s [] = refl
  docs-watched s (none ∷ rest) = docs-watched s rest
  docs-watched s (some change ∷ rest) =
      docs-watched (watched_change parse p disk s change) rest ∙ docs-watched_change s change

  buffer-put :
      (docs : Map Document) (v : Str) (d : Document) (u : Str)
      → buffer_of (get (put docs v d) u)
        ≡ (if str_eq v u then some (d.version, d.text) else buffer_of (get docs u))
  buffer-put docs v d u = ground (arith, get-put docs v d u)

  buffer-delete :
      (docs : Map Document) (v u : Str)
      → buffer_of (get (delete docs v) u) ≡ (if str_eq v u then none else buffer_of (get docs u))
  buffer-delete docs v u = ground (arith, get-delete docs v u)

  docs-close :
      (s : Server) (v : Str) (d : Document)
      → get s.docs v ≡ some d
      → (close_document parse p disk s v).docs ≡ delete s.docs v
  docs-close s v d e =
      rw (close-eq-refresh parse p disk s v d e)
        (docs-refresh (record s { docs = delete s.docs v }) v)

  buffer-open :
      (s : Server) (u : Str) (item : TextDocumentItem)
      → buffer_at (open_document parse p s item).0 u ≡ buffer_step u (buffer_at s u) (did_open item)
  unfolding open_document open_doc reparse
  buffer-open s u item =
      buffer-put s.docs item.uri
        (reparse parse p (record {
          uri = item.uri;
          lang = item.language_id;
          version = item.version;
          text = item.text;
          ast = none;
          parse_err = none;
        }))
        u

  buffer-change :
      (s : Server) (u v : Str) (version : ℕ) (text : Str)
      → buffer_at (update_document parse p s v version text).0 u
        ≡ buffer_step u (buffer_at s u) (did_change v version text)
  buffer-change s u v version text = elim (Option-cases (get s.docs v)) [
    | inl e ↦ rw (update_closed parse p s v version text e) (ground (arith, str_eq_iff v u))
    | inr (d, e) ↦ rw (update_open parse p s v version text d e) (
        unfold reparse in
        ground (
          arith,
          str_eq_iff v u,
          buffer-put s.docs v (reparse parse p (record d { version = version; text = text })) u,
        ))
  ]

  buffer-save :
      (s : Server) (u v : Str) (text : Option Str)
      → buffer_at (save_document parse p s v text).0 u
        ≡ buffer_step u (buffer_at s u) (did_save v text)
  buffer-save s u v none = elim (Option-cases (get s.docs v)) [
    | inl e ↦ rw (save_closed parse p s v none e)
    | inr (d, e) ↦ rw (save_as_is parse p s v d e)
  ]
  buffer-save s u v (some text) = elim (Option-cases (get s.docs v)) [
    | inl e ↦ rw (save_closed parse p s v (some text) e) (ground (arith, str_eq_iff v u))
    | inr (d, e) ↦ rw (save_open parse p s v text d e) (
        unfold reparse in
        ground (
          arith,
          str_eq_iff v u,
          buffer-put s.docs v (reparse parse p (record d { text = text })) u,
        ))
  ]

  buffer-close :
      (s : Server) (u v : Str)
      → buffer_at (close_document parse p disk s v) u ≡ buffer_step u (buffer_at s u) (did_close v)
  buffer-close s u v = elim (Option-cases (get s.docs v)) [
    | inl e ↦ rw (close_closed parse p disk s v e) (ground (arith, str_eq_iff v u))
    | inr (d, e) ↦
        ap (λ docs. buffer_of (get docs u)) (docs-close s v d e) ∙ buffer-delete s.docs v u
  ]

  pub buffer-step :
      (s : Server) (u : Str) (e : Event)
      → buffer_at (handle_event parse p disk s e) u ≡ buffer_step u (buffer_at s u) e
  unfolding handle_event
  buffer-step s u (did_open item) = buffer-open s u item
  buffer-step s u (did_change v version text) = buffer-change s u v version text
  buffer-step s u (did_save v none) = buffer-save s u v none
  buffer-step s u (did_save v (some text)) = buffer-save s u v (some text)
  buffer-step s u (did_close v) = buffer-close s u v
  buffer-step s u (scanned path) = ap (λ docs. buffer_of (get docs u)) (docs-scanned s path)
  buffer-step s u (watched changes) = ap (λ docs. buffer_of (get docs u)) (docs-watched s changes)

-- After any sequence of events the store holds, for every URI, the version and the text that the
-- client's own messages leave there: events for the scanner and the file watcher, changes and saves
-- of documents that are not open, and events for other documents leave no trace.
pub buffer-run :
    (parse : Parser) (p : Paths) (s : Server) (u : Str) (events : List (Disk × Event))
    → buffer_at (run parse p s events) u ≡ buffer_run u (buffer_at s u) events
unfolding run
buffer-run parse p s u [] = refl
buffer-run parse p s u ((disk, e) ∷ rest) =
    buffer-run parse p (handle_event parse p disk s e) u rest
    ∙ ap (λ b. buffer_run u b rest) (buffer-step parse p disk s u e)
