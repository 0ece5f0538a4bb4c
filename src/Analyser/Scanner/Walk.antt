-- ===== src/Analyser/Scanner/Walk.antt =====
-- internal/analyser/scanner.go, `ScanWorkspacePaths` and `ScanWorkspace`: the walk over a workspace
-- root. `filepath.WalkDir` of the standard library is written out, on a tree that stands for what it
-- finds.
pub mod Reached
pub mod Visited
use gols_bash.Prelude.{
  ℕ, zero, suc, Bool, true, false, not, Option, none, some, [], Str, if◌then◌else◌,
}
use gols_bash.Syntax.{File}
use gols_bash.System.{Paths, Disk}
use gols_bash.Analyser.Index.{Index, add_or_replace}
use gols_bash.Analyser.Scanner.{is_shell_path, is_skipped_dir}

-- What `os.Lstat` and `os.ReadDir` say: all that is not a directory is a file. A directory says
-- whether reading it failed, and lists the entries that were read, also then.
mutual
  pub data Tree : Type 0 where
    file : Tree
    directory : Bool → Entries → Tree

  pub data Entries : Type 0 where
    no_entries : Entries
    entry : Str → Tree → Entries → Entries

abbrev pub is_dir : Tree → Bool
is_dir file = false
is_dir (directory read_error children) = true

-- The errors of the callback: `filepath.SkipDir`, and that of a context that was cancelled.
pub data WalkError : Type 0 where
  skip_dir canceled : WalkError

-- `left` counts the calls of `ctx.Err` until it reports that the context was cancelled, `none` where
-- that never happens.
pub record Scan (S : Type 0) : Type 0 where
  pub left : Option ℕ
  pub state : S

-- One call of `ctx.Err`.
unfoldable pub ctx_err : Option ℕ → Bool × Option ℕ
ctx_err none = (false, none)
ctx_err (some zero) = (true, some 0)
ctx_err (some (suc n)) = (false, some n)

module _ {S : Type 0} (p : Paths) (disk : Disk) (visit : S → Str → S) where
  -- The callback of `ScanWorkspacePaths`, `failed` for an error that it is told of.
  unfoldable pub callback :
      (path name : Str) (dir failed : Bool) → Scan S → Scan S × Option WalkError
  unfolding ctx_err
  callback path name dir failed scan =
      if failed
      then (scan, none)
      else let (cancelled, left) = ctx_err scan.left in
        let scan' : Scan S = record scan { left = left } in
        if cancelled
        then (scan', some canceled)
        else if dir
        then (scan', (if is_skipped_dir name then some skip_dir else none))
        else if not (is_shell_path p disk path)
        then (scan', none)
        else (record scan' { state = visit scan'.state path }, none)

  -- `walkDir`, and its loop over the entries.
  unfoldable mutual
    unfolding callback

    pub walk : (path name : Str) → Tree → Scan S → Scan S × Option WalkError
    walk path name file scan = callback path name false false scan
    walk path name (directory read_error children) scan =
        let (scan1, err1) = callback path name true false scan in
        let (scan2, err2) =
          if read_error then callback path name true true scan1 else (scan1, none) in
        let rest = walk_entries path children scan2 in
        elim err1 [
          | some skip_dir ↦ (scan1, none)
          | some canceled ↦ (scan1, some canceled)
          | none ↦ elim err2 [
            | some skip_dir ↦ (scan2, none)
            | some canceled ↦ (scan2, some canceled)
            | none ↦ rest
          ]
        ]

    pub walk_entries : (path : Str) → Entries → Scan S → Scan S × Option WalkError
    walk_entries path no_entries scan = (scan, none)
    walk_entries path (entry name tree more) scan =
        let (scan1, err) = walk (p.join path name) name tree scan in
        let rest = walk_entries path more scan1 in
        elim err [
          | none ↦ rest
          | some skip_dir ↦ (scan1, none)
          | some canceled ↦ (scan1, some canceled)
        ]

  -- `ScanWorkspacePaths`; `found` is what stands at the root, `none` where `os.Lstat` fails.
  unfoldable pub scan_workspace_paths :
      (root : Str) → Option Tree → Scan S → Scan S × Option WalkError
  unfolding walk
  scan_workspace_paths root found scan =
      let ended : Scan S × Option WalkError = elim found [
        | none ↦ callback root [] false true scan
        | some tree ↦ walk root (p.base root) tree scan
      ] in
      let (scan', err) = ended in
      elim err [
        | none ↦ (scan', none)
        | some skip_dir ↦ (scan', none)
        | some canceled ↦ (scan', some canceled)
      ]

-- `ScanWorkspace`: the visit indexes the file, if it can be read. `parse` is the caller's.
unfoldable pub add_scanned : Paths → Disk → (Str → Str → Option File) → Index → Str → Index
add_scanned p disk parse i path = elim (disk.read_file path) [
  | none ↦ i
  | some src ↦ add_or_replace i (p.uri_file path) (parse path src)
]

unfoldable pub scan_workspace :
    (p : Paths) (disk : Disk) (parse : Str → Str → Option File) (root : Str)
    → Option Tree
    → Scan Index
    → Scan Index × Option WalkError
unfolding scan_workspace_paths add_scanned
scan_workspace p disk parse root found scan =
    scan_workspace_paths p disk (add_scanned p disk parse) root found scan
