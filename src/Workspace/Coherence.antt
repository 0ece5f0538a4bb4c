-- ===== src/Workspace/Coherence.antt =====
-- internal/server/workspace.go: whatever happens on disk, an open document and the index agree.
use gols_bash.Prelude.{
  ℕ, ◌≡◌, refl, false, Option, none, some, Str, str_eq, str_eq_iff, Str-cases, get, put, delete,
  get-delete, get-put, IsMap, delete-IsMap, put-IsMap, arith, Option-cases, inl, inr,
}
use gols_bash.Syntax.{File}
use gols_bash.System.{Paths, Disk}
use gols_bash.Analyser.Index.{Index, add_or_replace, remove}
use gols_bash.Analyser.Index.Laws.{
  get-add_or_replace, get-remove, add_or_replace-IsMap, remove-IsMap,
}
use gols_bash.Documents.{Parser, TextDocumentItem, Document, reparse, open_doc}
use gols_bash.State.{Server}
use gols_bash.Workspace.Steps.{
  stored, update_closed, update_open, save_closed, save_open, save_as_is, on_disk, refresh_closed,
  refresh_open, close_closed, remove_open, remove_closed, close-eq-refresh, scan_open,
  scan_readable, scan_unreadable,
}
use gols_bash.Workspace.{
  index_parse, open_document, update_document, save_document, workspace_file_path, close_document,
  index_workspace_path, refresh_workspace_file, remove_workspace_file,
}

module _ (parse : Parser) (p : Paths) where
  -- A document as the store keeps it at `u`: under its own URI, with the parser's results for its
  -- text.
  pub record IsParsed (u : Str) (d : Document) : Type 0 where
    pub own_uri : d.uri ≡ u
    pub parsed : (d.ast, d.parse_err) ≡ parse d.text (p.filename u)

  pub record IsCoherent (s : Server) : Type 0 where
    pub docs_unique : IsMap s.docs
    pub index_unique : IsMap s.index.entries
    pub documents : (u : Str) (d : Document) → get s.docs u ≡ some d → IsParsed u d
    pub indexed : (u : Str) (d : Document) → get s.docs u ≡ some d → get s.index.entries u ≡ d.ast

  -- To put a parsed document at its URI, in both maps, keeps a server coherent.
  put-IsCoherent :
      (s : Server) (u : Str) (d : Document)
      → IsParsed u d
      → IsCoherent s
      → IsCoherent (record s { docs = put s.docs u d; index = add_or_replace s.index d.uri d.ast })
  put-IsCoherent s u d q h = record {
    docs_unique = put-IsMap s.docs u d h.docs_unique;
    index_unique = add_or_replace-IsMap s.index d.uri d.ast h.index_unique;
    documents = λ v e g. elim (Str-cases u v) [
      | inl same ↦
          let d_e : d ≡ e = ground (arith, get-put s.docs u d v, str_eq_iff u v) in
          rw (← same, ← d_e) q
      | inr ne ↦ h.documents v e (ground (arith, get-put s.docs u d v))
    ];
    indexed = λ v e g. ground (
      arith,
      get-put s.docs u d v,
      get-add_or_replace s.index d.uri d.ast v,
      str_eq_iff u v,
      str_eq_iff d.uri v,
      h.indexed v e,
    );
  }

  -- To change the index at a URI that is not open keeps a server coherent.
  index-IsCoherent :
      (s : Server) (u : Str) (i : Index)
      → get s.docs u ≡ none
      → IsMap i.entries
      → ((v : Str) → str_eq u v ≡ false → get i.entries v ≡ get s.index.entries v)
      → IsCoherent s
      → IsCoherent (record s { index = i })
  index-IsCoherent s u i closed unique away h = record {
    docs_unique = h.docs_unique;
    index_unique = unique;
    documents = h.documents;
    indexed = λ v e g. ground (arith, str_eq_iff u v, away v, h.indexed v e);
  }

  set-IsCoherent :
      (s : Server) (u : Str) (file : Option File)
      → get s.docs u ≡ none
      → IsCoherent s
      → IsCoherent (record s { index = add_or_replace s.index u file })
  set-IsCoherent s u file closed h =
      index-IsCoherent s u (add_or_replace s.index u file) closed
        (add_or_replace-IsMap s.index u file h.index_unique)
        (λ v ne. ground (arith, get-add_or_replace s.index u file v)) h

  drop-IsCoherent :
      (s : Server) (u : Str)
      → get s.docs u ≡ none
      → IsCoherent s
      → IsCoherent (record s { index = remove s.index u })
  drop-IsCoherent s u closed h =
      index-IsCoherent s u (remove s.index u) closed (remove-IsMap s.index u h.index_unique)
        (λ v ne. ground (arith, get-remove s.index u v)) h

  -- To close a document leaves the index as it was, which may be stale at that URI only.
  close-IsCoherent :
      (s : Server) (u : Str) → IsCoherent s → IsCoherent (record s { docs = delete s.docs u })
  close-IsCoherent s u h = record {
    docs_unique = delete-IsMap s.docs u h.docs_unique;
    index_unique = h.index_unique;
    documents = λ v e g. h.documents v e (ground (arith, get-delete s.docs u v));
    indexed = λ v e g. h.indexed v e (ground (arith, get-delete s.docs u v));
  }

  reparse-IsParsed : (u : Str) (d : Document) → d.uri ≡ u → IsParsed u (reparse parse p d)
  unfolding reparse
  reparse-IsParsed u d e = record { own_uri = e; parsed = rw e }

  stored-IsCoherent :
      (s : Server) (u : Str) (d : Document)
      → d.uri ≡ u
      → IsCoherent s
      → IsCoherent (stored parse p s u (reparse parse p d))
  stored-IsCoherent s u d e h = put-IsCoherent s u (reparse parse p d) (reparse-IsParsed u d e) h

  pub open_document-IsCoherent :
      (s : Server) (item : TextDocumentItem)
      → IsCoherent s
      → IsCoherent (open_document parse p s item).0
  unfolding open_document open_doc
  open_document-IsCoherent s item h =
      stored-IsCoherent s item.uri
        (record {
          uri = item.uri;
          lang = item.language_id;
          version = item.version;
          text = item.text;
          ast = none;
          parse_err = none;
        })
        refl h

  pub update_document-IsCoherent :
      (s : Server) (u : Str) (version : ℕ) (text : Str)
      → IsCoherent s
      → IsCoherent (update_document parse p s u version text).0
  update_document-IsCoherent s u version text h = elim (Option-cases (get s.docs u)) [
    | inl e ↦ rw (update_closed parse p s u version text e) h
    | inr (d, e) ↦ rw (update_open parse p s u version text d e) (
        stored-IsCoherent s u (record d { version = version; text = text })
          (h.documents u d e).own_uri h)
  ]

  -- To index a document once more changes nothing that the index says.
  reindex-IsCoherent :
      (s : Server) (u : Str) (d : Document)
      → get s.docs u ≡ some d
      → IsCoherent s
      → IsCoherent (record s { index = add_or_replace s.index d.uri d.ast })
  reindex-IsCoherent s u d g h =
      let own = (h.documents u d g).own_uri in
      record {
        docs_unique = h.docs_unique;
        index_unique = add_or_replace-IsMap s.index d.uri d.ast h.index_unique;
        documents = h.documents;
        indexed = λ v e q.
            ground
              (arith, get-add_or_replace s.index d.uri d.ast v, str_eq_iff d.uri v, h.indexed v e);
      }

  pub save_document-IsCoherent :
      (s : Server) (u : Str) (text : Option Str)
      → IsCoherent s
      → IsCoherent (save_document parse p s u text).0
  save_document-IsCoherent s u none h = elim (Option-cases (get s.docs u)) [
    | inl e ↦ rw (save_closed parse p s u none e) h
    | inr (d, e) ↦ rw (save_as_is parse p s u d e) (reindex-IsCoherent s u d e h)
  ]
  save_document-IsCoherent s u (some text) h = elim (Option-cases (get s.docs u)) [
    | inl e ↦ rw (save_closed parse p s u (some text) e) h
    | inr (d, e) ↦
        rw (save_open parse p s u text d e)
          (stored-IsCoherent s u (record d { text = text }) (h.documents u d e).own_uri h)
  ]

  module _ (disk : Disk) where
    pub refresh-IsCoherent :
        (s : Server) (u : Str) → IsCoherent s → IsCoherent (refresh_workspace_file parse p disk s u)
    refresh-IsCoherent s u h = elim (Option-cases (get s.docs u)) [
      | inl e ↦
          rw (refresh_closed parse p disk s u e) (set-IsCoherent s u (on_disk parse p disk s u) e h)
      | inr (d, e) ↦ rw (refresh_open parse p disk s u d e) h
    ]

    pub remove-IsCoherent :
        (s : Server) (u : Str) → IsCoherent s → IsCoherent (remove_workspace_file parse p disk s u)
    remove-IsCoherent s u h = elim (Option-cases (get s.docs u)) [
      | inl e ↦ elim (Option-cases (workspace_file_path parse p s u)) [
        | inl n ↦ rw (remove_closed parse p disk s u e, n) h
        | inr (path, n) ↦ rw (remove_closed parse p disk s u e, n) (drop-IsCoherent s u e h)
      ]
      | inr (d, e) ↦ rw (remove_open parse p disk s u d e) h
    ]

    pub close_document-IsCoherent :
        (s : Server) (u : Str) → IsCoherent s → IsCoherent (close_document parse p disk s u)
    close_document-IsCoherent s u h = elim (Option-cases (get s.docs u)) [
      | inl e ↦ rw (close_closed parse p disk s u e) h
      | inr (d, e) ↦
          rw (close-eq-refresh parse p disk s u d e)
            (refresh-IsCoherent (record s { docs = delete s.docs u }) u (close-IsCoherent s u h))
    ]

    pub index_workspace_path-IsCoherent :
        (s : Server) (path : Str)
        → IsCoherent s
        → IsCoherent (index_workspace_path parse p disk s path)
    index_workspace_path-IsCoherent s path h = elim (Option-cases (get s.docs (p.uri_file path))) [
      | inl e ↦ elim (Option-cases (disk.read_file path)) [
        | inl n ↦ rw (scan_unreadable parse p disk s path e n) h
        | inr (src, n) ↦
            rw (scan_readable parse p disk s path src e n)
              (set-IsCoherent s (p.uri_file path) (index_parse parse p path src) e h)
      ]
      | inr (d, e) ↦ rw (scan_open parse p disk s path d e) h
    ]
