-- ===== src/Workspace/Scan/Roots.antt =====
-- internal/server/server.go, `scanWorkspaces`: what a scan of all roots visits.
use mathlib.Core.List.Memᴰ
use gols_bash.Prelude.{
  ◌≡◌, ◌≢◌, refl, sym, ap, ◌∙◌, ◌⊎◌, inl, inr, ◌↔◌, true, false, Option, none, some, List, [], ◌∷◌,
  ◌++◌, map, Memᴰ, Memᴰ-append, Memᴰ-cons, Str, arith, Option-cases,
}
use gols_bash.System.{Paths, Disk}
use gols_bash.Documents.{Parser}
use gols_bash.State.{Server}
use gols_bash.Analyser.Scanner.Walk.{
  Tree, WalkError, canceled, Scan, callback, scan_workspace_paths,
}
use gols_bash.Analyser.Scanner.Walk.Reached.{Reached}
use gols_bash.Analyser.Scanner.Walk.Visited.{
  visit_each, visit_each-append, Ended, scan_workspace_paths_correct,
}
use gols_bash.Workspace.{index_workspace_path}
use gols_bash.Workspace.Events.{Event, scanned, handle_event, run}
use gols_bash.Workspace.Scan.{roots_loop, scan_workspaces}

module _ (parse : Parser) (p : Paths) (disk : Disk) (found : Str → Option Tree) where
  abbrev events : List Str → List (Disk × Event)
  events ps = map (λ path. (disk, scanned path)) ps

  visit_each-run :
      (s : Server) (ps : List Str)
      → visit_each (index_workspace_path parse p disk) s ps ≡ run parse p s (events ps)
  unfolding run handle_event
  visit_each-run s [] = refl
  visit_each-run s (x ∷ ps) = visit_each-run (index_workspace_path parse p disk s x) ps

  -- A shell script below a root, in no skipped directory.
  abbrev pub Below : List Str → Str → Type 0
  Below roots path =
      (root : Str) × (tree : Tree) × Memᴰ root roots
      × (found root ≡ some tree)
      × Reached p disk root (p.base root) tree path

  abbrev index_visit : Server → Str → Server
  index_visit = index_workspace_path parse p disk

  -- The visits of a scan from one state to another.
  abbrev Scanned : List Str → Scan Server → Scan Server → Type 0
  Scanned roots scan scan' =
      (ps : List Str) × (scan'.state ≡ visit_each index_visit scan.state ps)
      × ((path : Str) → Memᴰ path ps → Below roots path)
      × (scan.left ≡ none → (scan'.left ≡ none) × ((path : Str) → Below roots path → Memᴰ path ps))

  abbrev one : Str → Scan Server → Scan Server × Option WalkError
  one root scan = scan_workspace_paths p disk index_visit root (found root) scan

  -- The visits below one root, and how they end.
  abbrev OneScanned : Str → Scan Server → Scan Server × Option WalkError → Type 0
  OneScanned root scan (scan', err) =
      Scanned (root ∷ []) scan scan' × ((err ≡ none) ⊎ ((err ≡ some canceled) × (scan.left ≢ none)))

  same_scanned :
      {root : Str} {scan : Scan Server} {r r' : Scan Server × Option WalkError}
      → r ≡ r'
      → OneScanned root scan r'
      → OneScanned root scan r
  same_scanned e h = rw e h

  Below-one :
      (root path : Str)
      → Below (root ∷ []) path
      → (tree : Tree) × (found root ≡ some tree) × Reached p disk root (p.base root) tree path
  Below-one root path (r, tree, m, e, reached) = elim ((Memᴰ-cons r root []).0 m) [
    | inl same ↦ rw (← same) (tree, e, reached)
    | inr later ↦ absurd (Memᴰ.not-nil later)
  ]

  missing : (root : Str) (scan : Scan Server) → found root ≡ none → one root scan ≡ (scan, none)
  unfolding scan_workspace_paths callback
  missing root scan e = ap (λ f. scan_workspace_paths p disk index_visit root f scan) e

  one_missing :
      (root : Str) (scan : Scan Server) → found root ≡ none → OneScanned root scan (one root scan)
  one_missing root scan e = same_scanned (missing root scan e) (
    (
      [],
      refl,
      λ path m. absurd (Memᴰ.not-nil m),
      λ q. (q, λ path b. let (tree, f, _) = Below-one root path b in absurd (ground arith)),
    ),
    inl refl,
  )

  tree_scanned :
      (root : Str) (tree : Tree) (scan : Scan Server) (ps : List Str)
      (r : Scan Server × Option WalkError)
      → found root ≡ some tree
      → ((path : Str) → Memᴰ path ps ↔ Reached p disk root (p.base root) tree path)
      → Ended p disk index_visit ps scan r
      → OneScanned root scan r
  tree_scanned root tree scan ps r f members (inl (e, keeps, all)) = (
    (
      ps,
      all,
      λ path m. (root, tree, Memᴰ.head refl, f, (members path).0 m),
      λ q. (
        keeps q,
        λ path b.
            let (tree', f', reached) = Below-one root path b in
            let same : tree' ≡ tree = ground arith in (members path).1 (rw (← same) reached),
      ),
    ),
    inl e,
  )
  tree_scanned root tree scan ps r f members (inr (qs, rest, e, stops, split, visited)) = (
    (
      qs,
      visited,
      λ path m.
          (root, tree, Memᴰ.head refl, f, (members path).0 (rw split (Memᴰ.append_left rest m))),
      λ q. absurd (stops q),
    ),
    inr (e, stops),
  )

  one_tree :
      (root : Str) (tree : Tree) (scan : Scan Server)
      → found root ≡ some tree
      → OneScanned root scan (one root scan)
  one_tree root tree scan e =
      let (ps, members, ended) = scan_workspace_paths_correct p disk index_visit root tree scan in
      same_scanned (ap (λ f. scan_workspace_paths p disk index_visit root f scan) e) (
        tree_scanned root tree scan ps
          (scan_workspace_paths p disk index_visit root (some tree) scan) e members ended)

  one_scanned : (root : Str) (scan : Scan Server) → OneScanned root scan (one root scan)
  one_scanned root scan = elim (Option-cases (found root)) [
    | inl e ↦ one_missing root scan e
    | inr (tree, e) ↦ one_tree root tree scan e
  ]

  Below-split :
      (root : Str) (roots : List Str) (path : Str)
      → Below (root ∷ roots) path ↔ (Below (root ∷ []) path ⊎ Below roots path)
  Below-split root roots path = (
    λ (r, tree, m, e, reached). elim ((Memᴰ-cons r root roots).0 m) [
      | inl same ↦ inl (r, tree, Memᴰ.head same, e, reached)
      | inr later ↦ inr (r, tree, later, e, reached)
    ],
    λ either. elim either [
      | inl (r, tree, m, e, reached) ↦ elim ((Memᴰ-cons r root []).0 m) [
        | inl same ↦ (r, tree, Memᴰ.head same, e, reached)
        | inr later ↦ absurd (Memᴰ.not-nil later)
      ]
      | inr (r, tree, m, e, reached) ↦ (r, tree, Memᴰ.tail m, e, reached)
    ],
  )

  loop_step :
      (root : Str) (roots : List Str) (scan : Scan Server)
      → OneScanned root scan (one root scan)
      → ((later : Scan Server) → Scanned roots later (roots_loop parse p disk found later roots))
      → Scanned (root ∷ roots) scan (roots_loop parse p disk found scan (root ∷ roots))
  unfolding roots_loop
  loop_step root roots scan ((ps, state, sound, complete), inr (err, stops)) inner =
      let on : roots_loop parse p disk found scan (root ∷ roots) ≡ (one root scan).0 =
        ground arith in
      (
        ps,
        ap (λ (t : Scan Server). t.state) on ∙ state,
        λ path m. (Below-split root roots path).1 (inl (sound path m)),
        λ q. absurd (stops q),
      )
  loop_step root roots scan ((ps, state, sound, complete), inl err) inner =
      let on : roots_loop parse p disk found scan (root ∷ roots)
          ≡ roots_loop parse p disk found (one root scan).0 roots =
        ground arith in
      let (qs, state', sound', complete') = inner (one root scan).0 in
      (
        ps ++ qs,
        ap (λ (t : Scan Server). t.state) on
            ∙ state'
            ∙ ap (λ t. visit_each index_visit t qs) state
            ∙ sym (visit_each-append index_visit scan.state ps qs),
        λ path m. elim ((Memᴰ-append path ps qs).0 m) [
          | inl i ↦ (Below-split root roots path).1 (inl (sound path i))
          | inr i ↦ (Below-split root roots path).1 (inr (sound' path i))
        ],
        λ q.
            let (none_left, all) = complete q in
            let (none_left', all') = complete' none_left in
            (
              ap (λ (t : Scan Server). t.left) on ∙ none_left',
              λ path b. elim ((Below-split root roots path).0 b) [
                | inl i ↦ Memᴰ.append_left qs (all path i)
                | inr i ↦ Memᴰ.append_right ps (all' path i)
              ],
            ),
      )

  roots_loop-Scanned :
      (roots : List Str) (scan : Scan Server)
      → Scanned roots scan (roots_loop parse p disk found scan roots)
  unfolding roots_loop
  roots_loop-Scanned [] scan = (
    [],
    refl,
    λ path m. absurd (Memᴰ.not-nil m),
    λ q. (q, λ path (r, tree, m, e, reached). absurd (Memᴰ.not-nil m)),
  )
  roots_loop-Scanned (root ∷ roots) scan =
      loop_step root roots scan (one_scanned root scan) (roots_loop-Scanned roots)

  -- With the scan switched off, nothing happens. Otherwise the scan does what the visits of some
  -- shell scripts do, one after another, each of them below a root and in no skipped directory; and
  -- where nothing cancels it, every such script is visited.
  pub scan_workspaces_correct :
      (scan : Scan Server)
      → (scan.state.settings.workspace_scan_enabled ≡ false
          → scan_workspaces parse p disk found scan ≡ scan)
        × (scan.state.settings.workspace_scan_enabled ≡ true
            → (ps : List Str) × ((scan_workspaces parse p disk found scan).state
                ≡ run parse p scan.state (events ps))
              × ((path : Str) → Memᴰ path ps → Below scan.state.workspace_roots path)
              × (scan.left ≡ none
                  → (path : Str) → Below scan.state.workspace_roots path
                  → Memᴰ path ps))
  unfolding scan_workspaces
  scan_workspaces_correct scan = (
    λ off. ground arith,
    λ enabled.
        let (ps, state, sound, complete) = roots_loop-Scanned scan.state.workspace_roots scan in
        let on : scan_workspaces parse p disk found scan
            ≡ roots_loop parse p disk found scan scan.state.workspace_roots =
          ground arith in
        (
          ps,
          ap (λ (t : Scan Server). t.state) on ∙ state ∙ visit_each-run scan.state ps,
          sound,
          λ q. (complete q).1,
        ),
  )
