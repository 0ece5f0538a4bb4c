-- ===== src/Examples/Scan.antt =====
-- internal/analyser/scanner_test.go: a root with one script, one in a directory, and one in a skipped
-- directory.
use gols_bash.Prelude.{
  ◌≡◌, refl, ◌↔◌, true, false, Option, none, some, List, [], ◌∷◌, ◌++◌, Str, bytes, Memᴰ, str_eq,
  contains, map,
}
use gols_bash.State.{Server, new_server}
use gols_bash.Analyser.Scanner.{is_shell_path, is_skipped_dir}
use gols_bash.Analyser.Scanner.Walk.{
  Tree, file, directory, Entries, no_entries, entry, Scan, scan_workspace_paths, callback, ctx_err,
  walk,
}
use gols_bash.Analyser.Scanner.Walk.Reached.{Reached}
use gols_bash.Analyser.Scanner.Walk.Visited.{Ended, scan_workspace_paths_correct}
use gols_bash.Workspace.Events.{scanned, run}
use gols_bash.Workspace.Scan.{scan_workspaces}
use gols_bash.Workspace.Scan.Roots.{Below, scan_workspaces_correct}
use gols_bash.Examples.World.{plain_paths, plain_disk, plain_parse}

abbrev root : Str
root = bytes "/r"

abbrev one_script : Entries
one_script = entry (bytes "/a.sh") file no_entries

abbrev tree : Tree
tree = directory false (
    entry (bytes "/a.sh") file (
      entry (bytes "/bin") (directory true one_script)
        (entry (bytes "vendor") (directory false one_script) no_entries)))

-- The visit collects the paths.
abbrev collect : List Str → Str → List Str
collect paths path = paths ++ path ∷ []

abbrev fresh : Scan (List Str)
fresh = record { left = none; state = [] }

two_paths :
    scan_workspace_paths plain_paths plain_disk collect root (some tree) fresh
    ≡ (record { left = none; state = bytes "/r/a.sh" ∷ bytes "/r/bin/a.sh" ∷ [] }, none)
unfolding scan_workspace_paths callback ctx_err walk is_shell_path is_skipped_dir str_eq contains
two_paths = refl

scan_workspace_paths_correct_example :
    (ps : List Str) × ((path : Str)
      → Memᴰ path ps ↔ Reached plain_paths plain_disk root root tree path)
    × Ended plain_paths plain_disk collect ps fresh
        (scan_workspace_paths plain_paths plain_disk collect root (some tree) fresh)
scan_workspace_paths_correct_example =
    scan_workspace_paths_correct plain_paths plain_disk collect root tree fresh

abbrev at_root : Str → Option Tree
at_root path = some tree

abbrev started : Scan Server
started = record { left = none; state = record new_server { workspace_roots = root ∷ [] } }

abbrev result : Scan Server
result = scan_workspaces plain_parse plain_paths plain_disk at_root started

scan_workspaces_correct_example :
    (started.state.settings.workspace_scan_enabled ≡ false → result ≡ started)
    × (started.state.settings.workspace_scan_enabled ≡ true
        → (ps : List Str) × (result.state
            ≡ run plain_parse plain_paths started.state
                (map (λ path. (plain_disk, scanned path)) ps))
          × ((path : Str)
              → Memᴰ path ps
              → Below plain_parse plain_paths plain_disk at_root started.state.workspace_roots path)
          × (started.left ≡ none
              → (path : Str)
              → Below plain_parse plain_paths plain_disk at_root started.state.workspace_roots path
              → Memᴰ path ps))
scan_workspaces_correct_example =
    scan_workspaces_correct plain_parse plain_paths plain_disk at_root started
