-- ===== src/Workspace/Scan.antt =====
-- internal/server/server.go, `scanWorkspaces`: the scan of all roots, on the file system as the scan
-- finds it.
pub mod Roots
use mathlib.Core.List.Memᴰ
use gols_bash.Prelude.{
  ℕ, ◌≡◌, ◌≢◌, refl, sym, ap, ◌∙◌, ◌⊎◌, inl, inr, ◌↔◌, Bool, true, false, not, Option, none, some,
  List, [], ◌∷◌, ◌++◌, map, Memᴰ, Memᴰ-append, Memᴰ-cons, Memᴰ-nil, Str, if◌then◌else◌, arith,
  Option-cases,
}
use gols_bash.System.{Paths, Disk}
use gols_bash.Documents.{Parser}
use gols_bash.State.{Server}
use gols_bash.Analyser.Scanner.Walk.{
  Tree, WalkError, skip_dir, canceled, Scan, callback, scan_workspace_paths,
}
use gols_bash.Analyser.Scanner.Walk.Reached.{Reached}
use gols_bash.Analyser.Scanner.Walk.Visited.{
  visit_each, visit_each-append, AllVisited, SomeVisited, Ended, scan_workspace_paths_correct,
}
use gols_bash.Workspace.{index_workspace_path}
use gols_bash.Workspace.Events.{Event, scanned, handle_event, run}

module _ (parse : Parser) (p : Paths) (disk : Disk) (found : Str → Option Tree) where
  -- The loop over the roots, which only a cancelled context ends early.
  unfoldable pub roots_loop : Scan Server → List Str → Scan Server
  roots_loop scan [] = scan
  roots_loop scan (root ∷ roots) =
      let (scan', err) =
        scan_workspace_paths p disk (index_workspace_path parse p disk) root (found root) scan in
      let rest = roots_loop scan' roots in
      elim err [ some canceled ↦ scan' | some skip_dir ↦ rest | none ↦ rest ]

  unfoldable pub scan_workspaces : Scan Server → Scan Server
  unfolding roots_loop
  scan_workspaces scan =
      if not scan.state.settings.workspace_scan_enabled
      then scan
      else roots_loop scan scan.state.workspace_roots
