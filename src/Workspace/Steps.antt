-- ===== src/Workspace/Steps.antt =====
-- internal/server/workspace.go: each operation, branch by branch.
use gols_bash.Prelude.{
  ℕ, ◌≡◌, refl, Option, none, some, Str, get, put, delete, get-delete, str_eq_refl, if◌then◌else◌,
  arith,
}
use gols_bash.Syntax.{File}
use gols_bash.System.{Paths, Disk}
use gols_bash.Analyser.Index.{add_or_replace, remove}
use gols_bash.Analyser.Scanner.{is_shell_path}
use gols_bash.Documents.{Parser, Document, reparse, update_doc, save_doc, close_doc}
use gols_bash.State.{Server}
use gols_bash.Workspace.{
  index_parse, update_document, save_document, workspace_file_path, close_document,
  index_workspace_path, refresh_workspace_file, remove_workspace_file,
}

module _ (parse : Parser) (p : Paths) (s : Server) (u : Str) where
  -- The server after a document is stored and indexed.
  abbrev pub stored : Document → Server
  stored d = record s { docs = put s.docs u d; index = add_or_replace s.index d.uri d.ast }

  abbrev pub updated : Document → ℕ → Str → Document
  updated d version text = reparse parse p (record d { version = version; text = text })

  abbrev pub saved : Document → Str → Document
  saved d text = reparse parse p (record d { text = text })

  pub update_closed :
      (version : ℕ) (text : Str)
      → get s.docs u ≡ none
      → update_document parse p s u version text ≡ (s, none)
  unfolding update_document update_doc
  update_closed version text e = ground arith

  pub update_open :
      (version : ℕ) (text : Str) (d : Document)
      → get s.docs u ≡ some d
      → update_document parse p s u version text
        ≡ (stored (updated d version text), some (updated d version text))
  unfolding update_document update_doc
  update_open version text d e = ground arith

  pub save_closed :
      (text : Option Str) → get s.docs u ≡ none → save_document parse p s u text ≡ (s, none)
  unfolding save_document save_doc
  save_closed text e = ground arith

  pub save_open :
      (text : Str) (d : Document)
      → get s.docs u ≡ some d
      → save_document parse p s u (some text) ≡ (stored (saved d text), some (saved d text))
  unfolding save_document save_doc
  save_open text d e = ground arith

  pub save_as_is :
      (d : Document)
      → get s.docs u ≡ some d
      → save_document parse p s u none
        ≡ (record s { index = add_or_replace s.index d.uri d.ast }, some d)
  unfolding save_document save_doc
  save_as_is d e = ground arith

module _ (parse : Parser) (p : Paths) (disk : Disk) (s : Server) (u : Str) where
  -- The tree that the file system gives for a URI: that of a readable shell script under one of the
  -- workspace roots, and none for any other URI.
  abbrev pub on_disk : Option File
  on_disk = elim (workspace_file_path parse p s u) [
    | none ↦ none
    | some path ↦
        if is_shell_path p disk path
        then elim (disk.read_file path) [ none ↦ none | some src ↦ index_parse parse p path src ]
        else none
  ]

  remove-eq : remove s.index u ≡ add_or_replace s.index u none
  unfolding remove add_or_replace
  remove-eq = refl

  -- The index follows the disk at a URI that is not open.
  pub refresh_closed :
      get s.docs u ≡ none
      → refresh_workspace_file parse p disk s u
        ≡ record s { index = add_or_replace s.index u on_disk }
  unfolding refresh_workspace_file
  refresh_closed e = ground (arith, remove-eq)

  pub refresh_open :
      (d : Document) → get s.docs u ≡ some d → refresh_workspace_file parse p disk s u ≡ s
  unfolding refresh_workspace_file
  refresh_open d e = ground arith

  pub close_closed : get s.docs u ≡ none → close_document parse p disk s u ≡ s
  unfolding close_document close_doc
  close_closed e = ground arith

  pub remove_open :
      (d : Document) → get s.docs u ≡ some d → remove_workspace_file parse p disk s u ≡ s
  unfolding remove_workspace_file
  remove_open d e = ground arith

  pub remove_closed :
      get s.docs u ≡ none
      → remove_workspace_file parse p disk s u ≡ elim (workspace_file_path parse p s u) [
        | none ↦ s
        | some _ ↦ record s { index = remove s.index u }
      ]
  unfolding remove_workspace_file
  remove_closed e = ground arith

module _ (parse : Parser) (p : Paths) (disk : Disk) (s : Server) (path : Str) where
  pub scan_open :
      (d : Document)
      → get s.docs (p.uri_file path) ≡ some d
      → index_workspace_path parse p disk s path ≡ s
  unfolding index_workspace_path
  scan_open d e = ground arith

  pub scan_readable :
      (src : Str)
      → get s.docs (p.uri_file path) ≡ none
      → disk.read_file path ≡ some src
      → index_workspace_path parse p disk s path ≡ record s {
        index = add_or_replace s.index (p.uri_file path) (index_parse parse p path src);
      }
  unfolding index_workspace_path
  scan_readable src e n = ground arith

  pub scan_unreadable :
      get s.docs (p.uri_file path) ≡ none
      → disk.read_file path ≡ none
      → index_workspace_path parse p disk s path ≡ s
  unfolding index_workspace_path
  scan_unreadable e n = ground arith

-- To close an open document is to take it off the store and then to treat its URI as a changed file.
pub close-eq-refresh :
    (parse : Parser) (p : Paths) (disk : Disk) (s : Server) (u : Str) (d : Document)
    → get s.docs u ≡ some d
    → close_document parse p disk s u
      ≡ refresh_workspace_file parse p disk (record s { docs = delete s.docs u }) u
unfolding close_document close_doc refresh_workspace_file
close-eq-refresh parse p disk s u d e = ground (arith, get-delete s.docs u u, str_eq_refl u)
