-- ===== src/Workspace/Events/Open.antt =====
-- internal/server/workspace.go: open documents, through any sequence of events.
use gols_bash.Prelude.{◌≡◌, ap, ◌∙◌, Option, none, some, List, [], ◌∷◌, Str, get}
use gols_bash.Syntax.{File, ParseError}
use gols_bash.System.{Paths, Disk}
use gols_bash.Documents.{Parser, Document}
use gols_bash.State.{Server, new_server}
use gols_bash.Workspace.{
  FileEvent, FileChangeType, created, changed, deleted, other_change, watched_change,
  watched_changes,
}
use gols_bash.Workspace.Coherence.{
  IsCoherent, open_document-IsCoherent, update_document-IsCoherent, save_document-IsCoherent,
  close_document-IsCoherent, refresh-IsCoherent, remove-IsCoherent, index_workspace_path-IsCoherent,
}
use gols_bash.Workspace.Events.{
  Event, did_open, did_change, did_save, did_close, scanned, watched, handle_event, run,
}

module _ (parse : Parser) (p : Paths) where
  by_kind :
      (disk : Disk) (s : Server) (kind : FileChangeType) (u : Str)
      → IsCoherent parse p s
      → IsCoherent parse p (watched_change parse p disk s (record { kind = kind; uri = u }))
  unfolding watched_change
  by_kind disk s created u h = refresh-IsCoherent parse p disk s u h
  by_kind disk s changed u h = refresh-IsCoherent parse p disk s u h
  by_kind disk s deleted u h = remove-IsCoherent parse p disk s u h
  by_kind disk s (other_change n) u h = h

  watched_change-IsCoherent :
      (disk : Disk) (s : Server) (change : FileEvent)
      → IsCoherent parse p s
      → IsCoherent parse p (watched_change parse p disk s change)
  watched_change-IsCoherent disk s change h = by_kind disk s change.kind change.uri h

  watched_changes-IsCoherent :
      (disk : Disk) (s : Server) (changes : List (Option FileEvent))
      → IsCoherent parse p s
      → IsCoherent parse p (watched_changes parse p disk s changes)
  unfolding watched_changes
  watched_changes-IsCoherent disk s [] h = h
  watched_changes-IsCoherent disk s (none ∷ rest) h = watched_changes-IsCoherent disk s rest h
  watched_changes-IsCoherent disk s (some change ∷ rest) h =
      watched_changes-IsCoherent disk (watched_change parse p disk s change) rest
        (watched_change-IsCoherent disk s change h)

  pub handle_event-IsCoherent :
      (disk : Disk) (s : Server) (e : Event)
      → IsCoherent parse p s
      → IsCoherent parse p (handle_event parse p disk s e)
  unfolding handle_event
  handle_event-IsCoherent disk s (did_open item) h = open_document-IsCoherent parse p s item h
  handle_event-IsCoherent disk s (did_change u version text) h =
      update_document-IsCoherent parse p s u version text h
  handle_event-IsCoherent disk s (did_save u text) h = save_document-IsCoherent parse p s u text h
  handle_event-IsCoherent disk s (did_close u) h = close_document-IsCoherent parse p disk s u h
  handle_event-IsCoherent disk s (scanned path) h =
      index_workspace_path-IsCoherent parse p disk s path h
  handle_event-IsCoherent disk s (watched changes) h = watched_changes-IsCoherent disk s changes h

  run-IsCoherent :
      (s : Server) (events : List (Disk × Event))
      → IsCoherent parse p s
      → IsCoherent parse p (run parse p s events)
  unfolding run
  run-IsCoherent s [] h = h
  run-IsCoherent s ((disk, e) ∷ rest) h =
      run-IsCoherent (handle_event parse p disk s e) rest (handle_event-IsCoherent disk s e h)

  pub new_server-IsCoherent : IsCoherent parse p new_server
  unfolding new_server
  new_server-IsCoherent = record {
    docs_unique = tt;
    index_unique = tt;
    documents = λ u d g. unfold get in cc g;
    indexed = λ u d g. unfold get in cc g;
  }

  -- Whatever the client, the scanner and the file watcher have sent since the start, in whatever
  -- order and however the files on disk changed, the index holds for every open document what the
  -- parser makes of its current text.
  pub open_indexed :
      (events : List (Disk × Event)) (u : Str) (d : Document)
      → get (run parse p new_server events).docs u ≡ some d
      → (d.uri ≡ u)
        × (get (run parse p new_server events).index.entries u ≡ (parse d.text (p.filename u)).0)
        × (d.parse_err ≡ (parse d.text (p.filename u)).1)
  open_indexed events u d g =
      let inv = run-IsCoherent new_server events new_server-IsCoherent in
      let doc = inv.documents u d g in
      (
        doc.own_uri,
        inv.indexed u d g ∙ ap (λ (r : Option File × Option ParseError). r.0) doc.parsed,
        ap (λ (r : Option File × Option ParseError). r.1) doc.parsed,
      )
