-- ===== src/Workspace/Events/FileUris.antt =====
-- internal/server/documents.go and workspace.go: the URIs of open documents and of indexed files.
use gols_bash.Prelude.{
  ℕ, ◌≡◌, refl, ◌∙◌, true, Option, none, some, List, [], ◌∷◌, Str, str_eq_iff, Str-cases, get, put,
  delete, get-put, get-delete, arith, inl, inr, Option-cases,
}
use gols_bash.Syntax.{File}
use gols_bash.System.{Paths, Disk}
use gols_bash.Analyser.Index.{add_or_replace, remove}
use gols_bash.Analyser.Index.Laws.{get-add_or_replace, get-remove}
use gols_bash.Documents.{Parser, TextDocumentItem, Document, is_file_uri, reparse, open_doc}
use gols_bash.State.{Server}
use gols_bash.Workspace.{
  FileEvent, FileChangeType, created, changed, deleted, other_change, open_document,
  update_document, save_document, close_document, index_workspace_path, watched_change,
  watched_changes, refresh_workspace_file, remove_workspace_file, workspace_file_path, index_parse,
}
use gols_bash.Workspace.Steps.{
  stored, updated, saved, update_closed, update_open, save_closed, save_open, save_as_is, on_disk,
  refresh_closed, refresh_open, close_closed, remove_open, remove_closed, close-eq-refresh,
  scan_open, scan_readable, scan_unreadable,
}
use gols_bash.Workspace.Coherence.{IsCoherent}
use gols_bash.Workspace.Events.{
  Event, did_open, did_change, did_save, did_close, scanned, watched, handle_event,
}

module _ (p : Paths) where
  -- Every open document and every indexed file is at the URI of a file.
  pub record FileUris (s : Server) : Type 0 where
    pub open_uris : (u : Str) (d : Document) → get s.docs u ≡ some d → is_file_uri p u ≡ true
    pub indexed_uris :
        (u : Str) (f : File) → get s.index.entries u ≡ some f → is_file_uri p u ≡ true

  -- The one event that brings a URI in from outside is that of opening a document.
  abbrev pub OpensFile : Event → Type 0
  OpensFile (did_open item) = is_file_uri p item.uri ≡ true
  OpensFile _ = Unit

  index_set :
      (s : Server) (u : Str) (file : Option File)
      → ((f : File) → file ≡ some f → is_file_uri p u ≡ true)
      → FileUris s
      → FileUris (record s { index = add_or_replace s.index u file })
  index_set s u file new h = record {
    open_uris = h.open_uris;
    indexed_uris = λ v f g. elim (Str-cases u v) [
      | inl same ↦
          let there : file ≡ some f =
            ground (arith, get-add_or_replace s.index u file v, str_eq_iff u v) in
          rw (← same) (new f there)
      | inr apart ↦ h.indexed_uris v f (ground (arith, get-add_or_replace s.index u file v))
    ];
  }

  index_remove :
      (s : Server) (u : Str) → FileUris s → FileUris (record s { index = remove s.index u })
  index_remove s u h = record {
    open_uris = h.open_uris;
    indexed_uris = λ v f g. h.indexed_uris v f (ground (arith, get-remove s.index u v));
  }

  docs_put :
      (s : Server) (u : Str) (d : Document)
      → is_file_uri p u ≡ true
      → FileUris s
      → FileUris (record s { docs = put s.docs u d })
  docs_put s u d is_file h = record {
    open_uris = λ v e g. elim (Str-cases u v) [
      | inl same ↦ rw (← same) is_file
      | inr apart ↦ h.open_uris v e (ground (arith, get-put s.docs u d v))
    ];
    indexed_uris = h.indexed_uris;
  }

  docs_delete : (s : Server) (u : Str) → FileUris s → FileUris (record s { docs = delete s.docs u })
  docs_delete s u h = record {
    open_uris = λ v e g. h.open_uris v e (ground (arith, get-delete s.docs u v));
    indexed_uris = h.indexed_uris;
  }

  module _ (parse : Parser) where
    store :
        (s : Server) (u : Str) (d : Document)
        → is_file_uri p u ≡ true
        → d.uri ≡ u
        → FileUris s
        → FileUris (stored parse p s u d)
    store s u d is_file own h =
        index_set (record s { docs = put s.docs u d }) d.uri d.ast (λ f e. rw own is_file)
          (docs_put s u d is_file h)

    open-FileUris :
        (s : Server) (item : TextDocumentItem)
        → is_file_uri p item.uri ≡ true
        → FileUris s
        → FileUris (open_document parse p s item).0
    unfolding open_document open_doc reparse
    open-FileUris s item is_file h =
        store s item.uri (open_document parse p s item).1 is_file refl h

    reparse-uri : (d : Document) → (reparse parse p d).uri ≡ d.uri
    unfolding reparse
    reparse-uri d = refl

    update-FileUris :
        (s : Server) (u : Str) (version : ℕ) (text : Str)
        → IsCoherent parse p s
        → FileUris s
        → FileUris (update_document parse p s u version text).0
    update-FileUris s u version text c h = elim (Option-cases (get s.docs u)) [
      | inl e ↦ rw (update_closed parse p s u version text e) h
      | inr (d, e) ↦
          let own =
            reparse-uri (record d { version = version; text = text })
            ∙ (c.documents u d e).own_uri in
          rw (update_open parse p s u version text d e)
            (store s u (updated parse p s u d version text) (h.open_uris u d e) own h)
    ]

    save-FileUris :
        (s : Server) (u : Str) (text : Option Str)
        → IsCoherent parse p s
        → FileUris s
        → FileUris (save_document parse p s u text).0
    save-FileUris s u none c h = elim (Option-cases (get s.docs u)) [
      | inl e ↦ rw (save_closed parse p s u none e) h
      | inr (d, e) ↦
          let own = (c.documents u d e).own_uri in
          rw (save_as_is parse p s u d e)
            (index_set s d.uri d.ast (λ f q. rw own (h.open_uris u d e)) h)
    ]
    save-FileUris s u (some text) c h = elim (Option-cases (get s.docs u)) [
      | inl e ↦ rw (save_closed parse p s u (some text) e) h
      | inr (d, e) ↦
          let own = reparse-uri (record d { text = text }) ∙ (c.documents u d e).own_uri in
          rw (save_open parse p s u text d e)
            (store s u (saved parse p s u d text) (h.open_uris u d e) own h)
    ]

    -- Only the URI of a file has a path in the workspace.
    path_is_file :
        (s : Server) (u path : Str)
        → workspace_file_path parse p s u ≡ some path
        → is_file_uri p u ≡ true
    unfolding workspace_file_path is_file_uri
    path_is_file s u path e = ground arith

    module _ (disk : Disk) where
      disk_is_file :
          (s : Server) (u : Str) (f : File)
          → on_disk parse p disk s u ≡ some f
          → is_file_uri p u ≡ true
      disk_is_file s u f e = elim (Option-cases (workspace_file_path parse p s u)) [
        | inl n ↦ absurd (ground arith)
        | inr (path, n) ↦ path_is_file s u path n
      ]

      refresh-FileUris :
          (s : Server) (u : Str) → FileUris s → FileUris (refresh_workspace_file parse p disk s u)
      refresh-FileUris s u h = elim (Option-cases (get s.docs u)) [
        | inl e ↦
            rw (refresh_closed parse p disk s u e)
              (index_set s u (on_disk parse p disk s u) (disk_is_file s u) h)
        | inr (d, e) ↦ rw (refresh_open parse p disk s u d e) h
      ]

      remove-FileUris :
          (s : Server) (u : Str) → FileUris s → FileUris (remove_workspace_file parse p disk s u)
      remove-FileUris s u h = elim (Option-cases (get s.docs u)) [
        | inl e ↦ elim (Option-cases (workspace_file_path parse p s u)) [
          | inl n ↦ rw (remove_closed parse p disk s u e, n) h
          | inr (path, n) ↦ rw (remove_closed parse p disk s u e, n) (index_remove s u h)
        ]
        | inr (d, e) ↦ rw (remove_open parse p disk s u d e) h
      ]

      close-FileUris :
          (s : Server) (u : Str) → FileUris s → FileUris (close_document parse p disk s u)
      close-FileUris s u h = elim (Option-cases (get s.docs u)) [
        | inl e ↦ rw (close_closed parse p disk s u e) h
        | inr (d, e) ↦
            rw (close-eq-refresh parse p disk s u d e)
              (refresh-FileUris (record s { docs = delete s.docs u }) u (docs_delete s u h))
      ]

      by_kind :
          (s : Server) (kind : FileChangeType) (u : Str)
          → FileUris s
          → FileUris (watched_change parse p disk s (record { kind = kind; uri = u }))
      unfolding watched_change
      by_kind s created u h = refresh-FileUris s u h
      by_kind s changed u h = refresh-FileUris s u h
      by_kind s deleted u h = remove-FileUris s u h
      by_kind s (other_change n) u h = h

      watched-FileUris :
          (s : Server) (changes : List (Option FileEvent))
          → FileUris s
          → FileUris (watched_changes parse p disk s changes)
      unfolding watched_changes
      watched-FileUris s [] h = h
      watched-FileUris s (none ∷ rest) h = watched-FileUris s rest h
      watched-FileUris s (some change ∷ rest) h =
          watched-FileUris (watched_change parse p disk s change) rest
            (by_kind s change.kind change.uri h)

      -- `uri.File` makes the URI of a file.
      module _ (uri_file_lem : (path : Str) → is_file_uri p (p.uri_file path) ≡ true) where
        scan-FileUris :
            (s : Server) (path : Str)
            → FileUris s
            → FileUris (index_workspace_path parse p disk s path)
        scan-FileUris s path h = elim (Option-cases (get s.docs (p.uri_file path))) [
          | inl e ↦ elim (Option-cases (disk.read_file path)) [
            | inl n ↦ rw (scan_unreadable parse p disk s path e n) h
            | inr (src, n) ↦ rw (scan_readable parse p disk s path src e n) (
                index_set s (p.uri_file path) (index_parse parse p path src)
                  (λ f q. uri_file_lem path) h)
          ]
          | inr (d, e) ↦ rw (scan_open parse p disk s path d e) h
        ]

        pub handle_event-FileUris :
            (s : Server) (e : Event)
            → OpensFile e
            → IsCoherent parse p s
            → FileUris s
            → FileUris (handle_event parse p disk s e)
        unfolding handle_event
        handle_event-FileUris s (did_open item) o c h = open-FileUris s item o h
        handle_event-FileUris s (did_change u version text) o c h =
            update-FileUris s u version text c h
        handle_event-FileUris s (did_save u text) o c h = save-FileUris s u text c h
        handle_event-FileUris s (did_close u) o c h = close-FileUris s u h
        handle_event-FileUris s (scanned path) o c h = scan-FileUris s path h
        handle_event-FileUris s (watched changes) o c h = watched-FileUris s changes h
