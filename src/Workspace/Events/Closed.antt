-- ===== src/Workspace/Events/Closed.antt =====
-- internal/server/workspace.go: files that are not open follow the disk.
use gols_bash.Prelude.{
  ◌≡◌, refl, ap, ◌∙◌, none, some, Str, str_eq, str_eq_refl, get, delete, get-delete, if◌then◌else◌,
  arith, ◌⊎◌,
}
use gols_bash.System.{Paths, Disk}
use gols_bash.Analyser.Index.Laws.{get-add_or_replace}
use gols_bash.Documents.{Parser, Document}
use gols_bash.State.{Server}
use gols_bash.Workspace.{
  FileEvent, created, changed, close_document, watched_change, workspace_file_path,
  refresh_workspace_file,
}
use gols_bash.Workspace.Steps.{on_disk, refresh_closed, close-eq-refresh}

module _ (parse : Parser) (p : Paths) (disk : Disk) (s : Server) where
  on_disk-docs :
      (u : Str)
      → on_disk parse p disk (record s { docs = delete s.docs u }) u ≡ on_disk parse p disk s u
  unfolding workspace_file_path
  on_disk-docs u = refl

  as_refresh :
      (change : FileEvent)
      → (change.kind ≡ created) ⊎ (change.kind ≡ changed)
      → watched_change parse p disk s change ≡ refresh_workspace_file parse p disk s change.uri
  unfolding watched_change
  as_refresh change k = ground arith

  -- When an open document is closed, the store forgets it and no other document, and the index holds
  -- for its URI what the disk has: the tree of a readable shell script under a workspace root, and
  -- else nothing. Other URIs keep their entries.
  pub close_follows_disk :
      (u : Str) (d : Document)
      → get s.docs u ≡ some d
      → ((v : Str)
          → get (close_document parse p disk s u).docs v
            ≡ (if str_eq u v then none else get s.docs v))
        × ((v : Str)
            → get (close_document parse p disk s u).index.entries v
              ≡ (if str_eq u v then on_disk parse p disk s u else get s.index.entries v))
  close_follows_disk u d e =
      let s' : Server = record s { docs = delete s.docs u } in
      let gone : get s'.docs u ≡ none = ground (arith, get-delete s.docs u u, str_eq_refl u) in
      rw (close-eq-refresh parse p disk s u d e, refresh_closed parse p disk s' u gone)
        (
          λ v. get-delete s.docs u v,
          λ v.
              get-add_or_replace s.index u (on_disk parse p disk s' u) v
              ∙ ap (λ f. if str_eq u v then f else get s.index.entries v) (on_disk-docs u),
        )

  -- Where a file that is not open is reported as created or changed, the index then holds what the
  -- disk has, and nothing else is changed.
  pub change_follows_disk :
      (change : FileEvent)
      → get s.docs change.uri ≡ none
      → (change.kind ≡ created) ⊎ (change.kind ≡ changed)
      → ((watched_change parse p disk s change).docs ≡ s.docs)
        × ((v : Str)
            → get (watched_change parse p disk s change).index.entries v ≡ (
                if str_eq change.uri v
                then on_disk parse p disk s change.uri
                else get s.index.entries v))
  change_follows_disk change e k =
      let refreshed = refresh_closed parse p disk s change.uri e in
      rw (as_refresh change k, refreshed)
        (refl, λ v. get-add_or_replace s.index change.uri (on_disk parse p disk s change.uri) v)
