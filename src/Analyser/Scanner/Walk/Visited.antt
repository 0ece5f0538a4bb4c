-- ===== src/Analyser/Scanner/Walk/Visited.antt =====
-- internal/analyser/scanner.go: which files the walk visits, and how it ends.
use gols_bash.Prelude.{
  ℕ, Memᴰ, zero, suc, ◌≡◌, ◌≢◌, refl, sym, ap, ◌∙◌, ◌⊎◌, inl, inr, ◌↔◌, Bool, true, false, Option,
  none, some, List, [], ◌∷◌, ◌++◌, append_assoc, Str, arith, Bool-cases,
}
use gols_bash.System.{Paths, Disk}
use gols_bash.Analyser.Scanner.{is_shell_path, is_skipped_dir}
use gols_bash.Analyser.Scanner.Walk.{
  Tree, file, directory, Entries, no_entries, entry, WalkError, skip_dir, canceled, Scan, ctx_err,
  callback, walk, walk_entries, scan_workspace_paths,
}
use gols_bash.Analyser.Scanner.Walk.Reached.{
  Reached, shell_paths, paths_in, Reached-of_mem, mem_of_reached,
}

module _ {S : Type 0} (visit : S → Str → S) where
  abbrev pub visit_each : S → List Str → S
  visit_each s [] = s
  visit_each s (path ∷ paths) = visit_each (visit s path) paths

  pub visit_each-append :
      (s : S) (ps qs : List Str) → visit_each s (ps ++ qs) ≡ visit_each (visit_each s ps) qs
  visit_each-append s [] qs = refl
  visit_each-append s (x ∷ ps) qs = visit_each-append (visit s x) ps qs

abbrev Ticks : Option ℕ → Type 0
Ticks left = (l : Option ℕ) × (ctx_err left ≡ (false, l)) × (left ≡ none → l ≡ none)

abbrev Stops : Option ℕ → Type 0
Stops left = (l : Option ℕ) × (ctx_err left ≡ (true, l)) × (left ≢ none)

ctx_err_cases : (left : Option ℕ) → Ticks left ⊎ Stops left
unfolding ctx_err
ctx_err_cases none = inl (none, refl, λ e. e)
ctx_err_cases (some zero) = inr (some 0, refl, λ e. absurd cc)
ctx_err_cases (some (suc n)) = inl (some n, refl, λ e. absurd cc)

module _ {S : Type 0} (p : Paths) (disk : Disk) (visit : S → Str → S) where
  -- How a walk that is to visit `ps` ends: with all of them visited, or, cancelled, with the first few.
  abbrev pub AllVisited : List Str → Scan S → Scan S × Option WalkError → Type 0
  AllVisited ps scan (scan', err) =
      (err ≡ none)
      × (scan.left ≡ none → scan'.left ≡ none)
      × (scan'.state ≡ visit_each visit scan.state ps)

  abbrev pub SomeVisited : List Str → Scan S → Scan S × Option WalkError → Type 0
  SomeVisited ps scan (scan', err) =
      (qs : List Str) × (rest : List Str) × (err ≡ some canceled)
      × (scan.left ≢ none)
      × (ps ≡ qs ++ rest)
      × (scan'.state ≡ visit_each visit scan.state qs)

  abbrev pub Ended : List Str → Scan S → Scan S × Option WalkError → Type 0
  Ended ps scan r = AllVisited ps scan r ⊎ SomeVisited ps scan r

  file-Ended :
      (path name : Str) (scan : Scan S)
      → Ended (shell_paths p disk path name file) scan (walk p disk visit path name file scan)
  unfolding walk callback shell_paths
  file-Ended path name scan = elim (ctx_err_cases scan.left) [
    | inl (l, e, keeps) ↦ elim (Bool-cases (is_shell_path p disk path)) [
      | inl t ↦ inl (ground arith, λ q. let ln = keeps q in ground arith, ground arith)
      | inr t ↦ inl (ground arith, λ q. let ln = keeps q in ground arith, ground arith)
    ]
    | inr (l, e, stops) ↦
        inr ([], shell_paths p disk path name file, ground arith, stops, ground arith, ground arith)
  ]

  -- A walk that starts one call of the context later, or after the first few visits, ends as well.
  Ended-later :
      (ps : List Str) (scan : Scan S) (l : Option ℕ) (r : Scan S × Option WalkError)
      → (scan.left ≡ none → l ≡ none)
      → Ended ps (record scan { left = l }) r
      → Ended ps scan r
  Ended-later ps scan l r keeps ended = elim ended [
    | inl (e, none_left, all) ↦ inl (e, λ q. none_left (keeps q), all)
    | inr (qs, rest, e, stops, split, some_visited) ↦
        inr (qs, rest, e, λ q. stops (keeps q), split, some_visited)
  ]

  Ended-then :
      (ps more : List Str) (scan scan1 : Scan S) (r : Scan S × Option WalkError)
      → (scan.left ≡ none → scan1.left ≡ none)
      → scan1.state ≡ visit_each visit scan.state ps
      → Ended more scan1 r
      → Ended (ps ++ more) scan r
  Ended-then ps more scan scan1 r keeps visited ended =
      let from_here = λ (qs : List Str). sym (visit_each-append visit scan.state ps qs) in
      let moved = λ (qs : List Str). ap (λ s. visit_each visit s qs) visited in
      elim ended [
        | inl (e, none_left, all) ↦
            inl (e, λ q. none_left (keeps q), all ∙ moved more ∙ from_here more)
        | inr (qs, rest, e, stops, split, some_visited) ↦ inr (
          ps ++ qs,
          rest,
          e,
          λ q. stops (keeps q),
          ap (λ z. ps ++ z) split ∙ sym (append_assoc ps qs rest),
          some_visited ∙ moved qs ∙ from_here qs,
        )
      ]

  same-Ended :
      {ps qs : List Str} {scan : Scan S} {r r' : Scan S × Option WalkError}
      → ps ≡ qs
      → r ≡ r'
      → Ended qs scan r'
      → Ended ps scan r
  same-Ended a b h = rw (a, b) h

  paths_in_kept :
      (path name : Str) (read_error : Bool) (children : Entries)
      → is_skipped_dir name ≡ false
      → shell_paths p disk path name (directory read_error children) ≡ paths_in p disk path children
  unfolding shell_paths
  paths_in_kept path name read_error children t = ground arith

  walk_on :
      (path name : Str) (read_error : Bool) (children : Entries) (scan : Scan S) (l : Option ℕ)
      → ctx_err scan.left ≡ (false, l)
      → is_skipped_dir name ≡ false
      → walk p disk visit path name (directory read_error children) scan
        ≡ walk_entries p disk visit path children (record scan { left = l })
  unfolding walk callback
  walk_on path name true children scan l e t = ground arith
  walk_on path name false children scan l e t = ground arith

  dir-Ended :
      (path name : Str) (read_error : Bool) (children : Entries) (scan : Scan S)
      → ((later : Scan S)
          → Ended
              (paths_in p disk path children)
              later
              (walk_entries p disk visit path children later))
      → Ended
          (shell_paths p disk path name (directory read_error children))
          scan
          (walk p disk visit path name (directory read_error children) scan)
  unfolding walk callback shell_paths
  dir-Ended path name read_error children scan inner = elim (ctx_err_cases scan.left) [
    | inl (l, e, keeps) ↦ elim (Bool-cases (is_skipped_dir name)) [
      | inl t ↦ inl (ground arith, λ q. let ln = keeps q in ground arith, ground arith)
      | inr t ↦
          same-Ended (paths_in_kept path name read_error children t)
            (walk_on path name read_error children scan l e t)
            (Ended-later (paths_in p disk path children) scan l
              (walk_entries p disk visit path children (record scan { left = l })) keeps
              (inner (record scan { left = l })))
    ]
    | inr (l, e, stops) ↦ inr (
      [],
      shell_paths p disk path name (directory read_error children),
      ground arith,
      stops,
      ground arith,
      ground arith,
    )
  ]

  entry-Ended :
      (path name : Str) (tree : Tree) (more : Entries) (scan : Scan S)
      → Ended
          (shell_paths p disk (p.join path name) name tree)
          scan
          (walk p disk visit (p.join path name) name tree scan)
      → ((later : Scan S)
          → Ended (paths_in p disk path more) later (walk_entries p disk visit path more later))
      → Ended
          (paths_in p disk path (entry name tree more))
          scan
          (walk_entries p disk visit path (entry name tree more) scan)
  unfolding walk shell_paths
  entry-Ended path name tree more scan one inner =
      let ps = shell_paths p disk (p.join path name) name tree in
      let scan1 = (walk p disk visit (p.join path name) name tree scan).0 in
      let after : List Str = paths_in p disk path more in
      elim one [
        | inl (e, keeps, all) ↦
            let on : walk_entries p disk visit path (entry name tree more) scan
                ≡ walk_entries p disk visit path more scan1 =
              ground arith in
            same-Ended refl on (
              Ended-then ps after scan scan1 (walk_entries p disk visit path more scan1) keeps all
                (inner scan1))
        | inr (qs, rest, e, stops, split, some_visited) ↦
            let cut : walk_entries p disk visit path (entry name tree more) scan
                ≡ (scan1, some canceled) =
              ground arith in
            let longer = ap (λ z. z ++ after) split ∙ append_assoc qs rest after in
            same-Ended refl cut (inr (qs, rest ++ after, refl, stops, longer, some_visited))
      ]

  mutual
    unfolding walk shell_paths

    walk-Ended :
        (path name : Str) (tree : Tree) (scan : Scan S)
        → Ended (shell_paths p disk path name tree) scan (walk p disk visit path name tree scan)
    walk-Ended path name file scan = file-Ended path name scan
    walk-Ended path name (directory e children) scan =
        dir-Ended path name e children scan (walk_entries-Ended path children)

    walk_entries-Ended :
        (path : Str) (children : Entries) (scan : Scan S)
        → Ended (paths_in p disk path children) scan (walk_entries p disk visit path children scan)
    walk_entries-Ended path no_entries scan = inl (refl, λ e. e, refl)
    walk_entries-Ended path (entry name tree more) scan =
        entry-Ended path name tree more scan (walk-Ended (p.join path name) name tree scan)
          (walk_entries-Ended path more)

  scan-walk :
      (root : Str) (tree : Tree) (scan : Scan S) (r : Scan S × Option WalkError)
      → walk p disk visit root (p.base root) tree scan ≡ r
      → (r.1 ≡ none) ⊎ (r.1 ≡ some canceled)
      → scan_workspace_paths p disk visit root (some tree) scan ≡ r
  unfolding scan_workspace_paths
  scan-walk root tree scan (scan', none) e h = rw (scan_workspace_paths, e) (ground arith)
  scan-walk root tree scan (scan', some canceled) e h = rw (scan_workspace_paths, e) (ground arith)
  scan-walk root tree scan (scan', some skip_dir) e h = absurd (ground arith)

  -- There is a list of exactly the shell scripts below the root that are in no skipped directory,
  -- where a root whose own name is a skipped one counts as such. The walk visits them all, in order,
  -- and reports no error; or the context was cancelled, and it visits the first few and reports that.
  pub scan_workspace_paths_correct :
      (root : Str) (tree : Tree) (scan : Scan S)
      → (ps : List Str) × ((path : Str)
          → Memᴰ path ps ↔ Reached p disk root (p.base root) tree path)
        × Ended ps scan (scan_workspace_paths p disk visit root (some tree) scan)
  scan_workspace_paths_correct root tree scan =
      let r = walk p disk visit root (p.base root) tree scan in
      let ended = walk-Ended root (p.base root) tree scan in
      let normal : (r.1 ≡ none) ⊎ (r.1 ≡ some canceled) = elim ended [
        | inl (e, _, _) ↦ inl e
        | inr (qs, rest, e, _, _, _) ↦ inr e
      ] in
      (
        shell_paths p disk root (p.base root) tree,
        λ path. (Reached-of_mem p disk root (p.base root) path tree, mem_of_reached p disk),
        same-Ended refl (scan-walk root tree scan r refl normal) ended,
      )
