-- ===== src/Workspace.antt =====
-- internal/server/workspace.go, and `indexParse` of server.go: documents and the index change
-- together. `workspaceMu` makes each of these operations one step; `disk` is the file system as the
-- operation finds it.
pub mod Steps
pub mod Coherence
pub mod Events
pub mod Scan
use gols_bash.Prelude.{
  ℕ, ◌≡◌, Bool, true, false, not, ◌&&◌, ◌||◌, Option, none, some, List, [], ◌∷◌, ◌++◌, Str, bytes,
  str_eq, has_prefix, Map, get, if◌then◌else◌,
}
use gols_bash.Syntax.{File}
use gols_bash.System.{Paths, Disk}
use gols_bash.Analyser.Index.{Index, add_or_replace, remove}
use gols_bash.Analyser.Scanner.{is_shell_path}
use gols_bash.Documents.{
  Parser, TextDocumentItem, Document, open_doc, update_doc, save_doc, close_doc,
}
use gols_bash.State.{Server}

pub data FileChangeType : Type 0 where
  created changed deleted : FileChangeType
  other_change : ℕ → FileChangeType

pub record FileEvent : Type 0 where
  pub kind : FileChangeType
  pub uri : Str

module _ (parse : Parser) (p : Paths) where
  -- `indexParse`: the file that the parser recovers, if any.
  unfoldable pub index_parse : Str → Str → Option File
  index_parse name src = (parse src name).0

  unfoldable pub open_document : Server → TextDocumentItem → Server × Document
  unfolding open_doc
  open_document s item =
      let (docs, d) = open_doc parse p s.docs item in
      (record s { docs = docs; index = add_or_replace s.index d.uri d.ast }, d)

  -- The index follows a document that the store returns.
  unfoldable pub follow : Server → Map Document × Option Document → Server × Option Document
  follow s (docs, found) = elim found [
    | none ↦ (record s { docs = docs }, none)
    | some d ↦ (record s { docs = docs; index = add_or_replace s.index d.uri d.ast }, some d)
  ]

  unfoldable pub update_document : Server → Str → ℕ → Str → Server × Option Document
  unfolding follow
  update_document s u version text = follow s (update_doc parse p s.docs u version text)

  unfoldable pub save_document : Server → Str → Option Str → Server × Option Document
  unfolding follow
  save_document s u text = follow s (save_doc parse p s.docs u text)

  -- The first root that holds the path.
  unfoldable pub in_some_root : List Str → Str → Bool
  in_some_root [] path = false
  in_some_root (root ∷ roots) path =
      let rest = in_some_root roots path in
      elim (p.abs_path root) [
        | none ↦ rest
        | some abs_root ↦ elim (p.rel_path abs_root path) [
          | none ↦ rest
          | some rel ↦
              if not (str_eq rel (bytes "..")) && not (has_prefix rel (bytes ".." ++ p.separator))
              then true
              else rest
        ]
      ]

  unfoldable pub workspace_file_path : Server → Str → Option Str
  unfolding in_some_root
  workspace_file_path s u = elim (p.parse_scheme u) [
    | none ↦ none
    | some scheme ↦
        if not (str_eq scheme (bytes "file")) then none else elim (p.abs_path (p.filename u)) [
          | none ↦ none
          | some path ↦ if in_some_root s.workspace_roots path then some path else none
        ]
  ]

  module _ (disk : Disk) where
    unfoldable pub close_document : Server → Str → Server
    close_document s u =
        let (docs, closed) = close_doc s.docs u in
        let s' : Server = record s { docs = docs } in
        let dropped : Server = record s' { index = remove s'.index u } in
        if not closed then s else elim (workspace_file_path s' u) [
          | none ↦ dropped
          | some path ↦
              if not (is_shell_path p disk path) then dropped else elim (disk.read_file path) [
                | none ↦ dropped
                | some src ↦ record s' { index = add_or_replace s'.index u (index_parse path src) }
              ]
        ]

    -- The visit of the workspace scanner.
    unfoldable pub index_workspace_path : Server → Str → Server
    index_workspace_path s path =
        let u = p.uri_file path in
        elim (get s.docs u) [
          | some _ ↦ s
          | none ↦ elim (disk.read_file path) [
            | none ↦ s
            | some src ↦ record s { index = add_or_replace s.index u (index_parse path src) }
          ]
        ]

    unfoldable pub refresh_workspace_file : Server → Str → Server
    refresh_workspace_file s u =
        let dropped : Server = record s { index = remove s.index u } in
        elim (get s.docs u) [
          | some _ ↦ s
          | none ↦ elim (workspace_file_path s u) [
            | none ↦ dropped
            | some path ↦
                if not (is_shell_path p disk path) then dropped else elim (disk.read_file path) [
                  | none ↦ dropped
                  | some src ↦ record s { index = add_or_replace s.index u (index_parse path src) }
                ]
          ]
        ]

    unfoldable pub remove_workspace_file : Server → Str → Server
    remove_workspace_file s u = elim (get s.docs u) [
      | some _ ↦ s
      | none ↦ elim (workspace_file_path s u) [
        | none ↦ s
        | some _ ↦ record s { index = remove s.index u }
      ]
    ]

    unfoldable pub watched_change : Server → FileEvent → Server
    unfolding refresh_workspace_file remove_workspace_file
    watched_change s change = elim change.kind [
      | created ↦ refresh_workspace_file s change.uri
      | changed ↦ refresh_workspace_file s change.uri
      | deleted ↦ remove_workspace_file s change.uri
      | other_change _ ↦ s
    ]

    -- The loop of `handleDidChangeWatchedFiles`; a nil entry is `none`.
    unfoldable pub watched_changes : Server → List (Option FileEvent) → Server
    unfolding watched_change
    watched_changes s [] = s
    watched_changes s (none ∷ rest) = watched_changes s rest
    watched_changes s (some change ∷ rest) = watched_changes (watched_change s change) rest
