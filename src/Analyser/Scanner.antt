-- ===== src/Analyser/Scanner.antt =====
-- internal/analyser/scanner.go: which files are shell scripts, and the walk over a workspace root.
pub mod Walk
use gols_bash.Prelude.{
  Bool, true, false, not, none, some, List, [], ◌∷◌, Str, bytes, str_eq, contains, has_prefix,
  has_infix, before_byte, if◌then◌else◌,
}
use gols_bash.System.{Paths, Disk}

abbrev pub shell_exts : List Str
shell_exts =
    bytes ".sh" ∷ bytes ".bash" ∷ bytes ".zsh" ∷ bytes ".dash" ∷ bytes ".ksh" ∷ bytes ".bats" ∷ []

-- The test of the first line, on the bytes that were read.
unfoldable pub shebang_names_shell : Str → Bool
shebang_names_shell first =
    if not (has_prefix first (bytes "#!"))
    then false
    else has_infix (before_byte 10 first) (bytes "sh")

unfoldable pub is_shell_path : Paths → Disk → Str → Bool
unfolding shebang_names_shell
is_shell_path p disk path =
    let ext = p.to_lower (p.ext path) in
    if contains shell_exts ext
    then true
    else if not (str_eq ext [])
    then false
    else elim (disk.read_head path) [ none ↦ false | some first ↦ shebang_names_shell first ]

abbrev pub skipped_dirs : List Str
skipped_dirs =
    bytes ".git"
    ∷ bytes ".hg"
    ∷ bytes ".svn"
    ∷ bytes "node_modules"
    ∷ bytes "vendor"
    ∷ bytes ".venv"
    ∷ bytes "venv"
    ∷ bytes "__pycache__"
    ∷ bytes ".bun"
    ∷ bytes "dist"
    ∷ bytes "build"
    ∷ bytes "target"
    ∷ []

unfoldable pub is_skipped_dir : Str → Bool
is_skipped_dir name = contains skipped_dirs name
