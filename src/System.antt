-- ===== src/System.antt =====
-- What the server asks of the operating system and of Go's path and URI packages. None of it is
-- code of the repository: a value of these records is a parameter of every definition that asks.
use gols_bash.Prelude.{ℕ, Bool, List, Option, Str}

-- path/filepath, net/url and go.lsp.dev/uri, as functions of their arguments.
pub record Paths : Type 0 where
  -- `uri.URI.Filename`, `uri.File`
  pub filename : Str → Str
  pub uri_file : Str → Str
  pub is_abs : Str → Bool
  pub dir : Str → Str
  pub join : Str → Str → Str
  pub ext : Str → Str
  pub base : Str → Str
  pub separator : Str
  -- `strings.ToLower`, which folds all of Unicode.
  pub to_lower : Str → Str
  -- `filepath.Abs` and `filepath.Rel`, `none` for an error
  pub abs_path : Str → Option Str
  pub rel_path : Str → Str → Option Str
  -- The scheme that `url.ParseRequestURI` finds, `none` for an error.
  pub parse_scheme : Str → Option Str
  pub to_slash : Str → Str
  -- `filepath.Match`, false for a malformed pattern
  pub match_path : Str → Str → Bool
  -- `filepath.SplitList`
  pub split_list : Str → List Str

pub data FileInfo : Type 0 where
  directory regular : FileInfo

-- An entry of `os.ReadDir`: whether `Type()` has bits of `os.ModeType`, and what `Info()` says, `none`
-- for an error: whether the file is regular, and the permission bits.
pub record DirEntry : Type 0 where
  pub name : Str
  pub has_type : Bool
  pub info : Option (Bool × ℕ)

-- The file system as one call finds it.
pub record Disk : Type 0 where
  -- `os.Stat`, `os.ReadFile`, `none` for an error
  pub stat : Str → Option FileInfo
  pub read_file : Str → Option Str
  -- The bytes that `os.Open` and one `Read` into 200 bytes give, `none` if the file does not open.
  pub read_head : Str → Option Str
  -- `os.ReadDir`
  pub read_dir : Str → Option (List DirEntry)
