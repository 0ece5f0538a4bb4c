-- ===== src/EditorConfig.antt =====
-- internal/server/editorconfig.go: the indent that .editorconfig files ask for.
pub mod Ancestors
pub mod Nearest
use gols_bash.Prelude.{
  ℕ, zero, suc, ◌+◌, ◌-◌, ◌*◌, ◌^◌, Bool, true, false, not, ◌&&◌, ◌||◌, Option, none, some, List,
  [], ◌∷◌, ◌++◌, Str, bytes, str_eq, has_prefix, before_byte, contains, trim_space, cut, scan_lines,
  reverse, ltb, leb, ◌==◌, if◌then◌else◌, length, take, drop, ℤ, pos, negsuc, is_positive, to_uint,
}
use gols_bash.System.{Paths, Disk}

-- `editorConfigFormat`; a setting that is not made is empty.
pub record EditorConfigFormat : Type 0 where
  pub indent_style : Str
  pub indent_size : Str

abbrev pub no_format : EditorConfigFormat
no_format = record { indent_style = []; indent_size = [] }

-- The method `apply`.
unfoldable pub apply_format : EditorConfigFormat → EditorConfigFormat → EditorConfigFormat
apply_format c next = record {
  indent_style = elim next.indent_style [ [] ↦ c.indent_style | b ∷ s ↦ b ∷ s ];
  indent_size = elim next.indent_size [ [] ↦ c.indent_size | b ∷ s ↦ b ∷ s ];
}

-- The digits of `strconv.Atoi`, after `n`.
unfoldable pub digits : ℕ → Str → Option ℕ
digits n [] = some n
digits n (b ∷ s) =
    let rest = digits (n * 10 + (b - b'0')) s in if leb b'0' b && leb b b'9' then rest else none

abbrev unsigned : Str → Option ℕ
unsigned [] = none
unsigned (b ∷ s) = digits 0 (b ∷ s)

-- The number, if it fits 64 bits.
abbrev positive : Option ℕ → Option ℤ
positive none = none
positive (some n) = if ltb n (2 ^ 63) then some (pos n) else none

abbrev negative : Option ℕ → Option ℤ
negative none = none
negative (some zero) = some (pos 0)
negative (some (suc n)) = if ltb n (2 ^ 63) then some (negsuc n) else none

-- `strconv.Atoi`
unfoldable pub atoi : Str → Option ℤ
unfolding digits
atoi [] = none
atoi (b ∷ s) =
    if b == b'-'
    then negative (unsigned s)
    else if b == b'+'
    then positive (unsigned s)
    else positive (unsigned (b ∷ s))

abbrev contains_byte : ℕ → Str → Bool
contains_byte c [] = false
contains_byte c (b ∷ s) = b == c || contains_byte c s

-- The line without what follows a comment mark.
abbrev before_mark : ℕ → Str → Str
before_mark c line = if contains_byte c line then trim_space (before_byte c line) else line

-- `none` where the last result of the code is false.
unfoldable pub editor_config_key_value : Paths → Str → Option (Str × Str)
unfolding cut
editor_config_key_value p line =
    elim (cut b'=' (before_mark b';' (before_mark b'#' (trim_space line)))) [
      | none ↦ none
      | some (before, after) ↦
          let key = p.to_lower (trim_space before) in
          let value = p.to_lower (trim_space after) in
          elim key [ [] ↦ none | b ∷ rest ↦ some (b ∷ rest, value) ]
    ]

unfoldable pub editor_config_section_matches : Paths → Str → Str → Str → Bool
editor_config_section_matches p pattern base_dir target_path =
    elim (p.rel_path base_dir target_path) [
      | none ↦ false
      | some rel ↦
          if str_eq rel (bytes "..") || has_prefix rel (bytes ".." ++ p.separator)
          then false
          else let rel' = p.to_slash rel in
            let pattern' = p.to_slash pattern in
            p.match_path pattern' (if contains_byte b'/' pattern' then rel' else p.base rel')
    ]

-- The first line that has a root key decides.
unfoldable pub root_loop : Paths → List Str → Bool
unfolding editor_config_key_value
root_loop p [] = false
root_loop p (line ∷ lines) =
    let rest = root_loop p lines in
    elim (editor_config_key_value p line) [
      | none ↦ rest
      | some (key, value) ↦ if str_eq key (bytes "root") then str_eq value (bytes "true") else rest
    ]

unfoldable pub editor_config_root : Paths → Disk → Str → Bool
unfolding root_loop scan_lines
editor_config_root p disk path = elim (disk.read_file path) [
  | none ↦ false
  | some text ↦ root_loop p (scan_lines [] text)
]

abbrev ends_with : ℕ → Str → Bool
ends_with c [] = false
ends_with c (b ∷ []) = b == c
ends_with c (b ∷ d ∷ s) = ends_with c (d ∷ s)

-- One key and value, where the section matches.
unfoldable pub set_key : EditorConfigFormat → Str → Str → EditorConfigFormat
set_key cfg key value =
    if str_eq key (bytes "indent_style")
    then record cfg { indent_style = value }
    else if str_eq key (bytes "indent_size")
    then record cfg { indent_size = value }
    else cfg

-- One round of the loop: whether the section matches, and the settings so far.
unfoldable pub format_step :
    Paths → Str → Str → Bool × EditorConfigFormat → Str → Bool × EditorConfigFormat
unfolding editor_config_key_value editor_config_section_matches set_key
format_step p base_dir target_path (matches, cfg) text =
    let line = trim_space text in
    let section = take (length line - 2) (drop 1 line) in
    if str_eq line [] || has_prefix line (bytes "#") || has_prefix line (bytes ";")
    then (matches, cfg)
    else if has_prefix line (bytes "[") && ends_with b']' line
    then (editor_config_section_matches p section base_dir target_path, cfg)
    else elim (editor_config_key_value p line) [
      | none ↦ (matches, cfg)
      | some (key, value) ↦ if matches then (matches, set_key cfg key value) else (matches, cfg)
    ]

unfoldable pub format_loop :
    Paths → Str → Str → Bool × EditorConfigFormat → List Str → EditorConfigFormat
unfolding format_step
format_loop p base_dir target_path (matches, cfg) [] = cfg
format_loop p base_dir target_path (matches, cfg) (line ∷ lines) =
    format_loop p base_dir target_path (format_step p base_dir target_path (matches, cfg) line)
      lines

unfoldable pub editor_config_format_for_file : Paths → Disk → Str → Str → EditorConfigFormat
unfolding format_loop scan_lines
editor_config_format_for_file p disk config_path target_path = elim (disk.read_file config_path) [
  | none ↦ no_format
  | some text ↦
      format_loop p (p.dir config_path) target_path (false, no_format) (scan_lines [] text)
]

abbrev pub config_path : Paths → Str → Str
config_path p dir = p.join dir (bytes ".editorconfig")

abbrev pub exists : Disk → Str → Bool
exists disk path = elim (disk.stat path) [ none ↦ false | some _ ↦ true ]

-- The loop up to the root, for what it appends; `none` where the fuel runs out.
unfoldable pub files_loop : Paths → Disk → ℕ → Str → Option (List Str)
unfolding editor_config_root
files_loop p disk zero dir = none
files_loop p disk (suc fuel) dir =
    let path = config_path p dir in
    let parent = p.dir dir in
    let later = files_loop p disk fuel parent in
    let rest = if str_eq parent dir then some [] else later in
    if exists disk path
    then (if editor_config_root p disk path
        then some (path ∷ [])
        else elim rest [ none ↦ none | some files ↦ some (path ∷ files) ])
    else rest

-- Each parent is a shorter path, but for the last two.
unfoldable pub editor_config_files : Paths → Disk → Str → Option (List Str)
unfolding files_loop
editor_config_files p disk dir = files_loop p disk (length dir + 2) dir

-- The loop over the files from the last one to the first.
unfoldable pub merge_loop : Paths → Disk → Str → List Str → EditorConfigFormat
unfolding apply_format editor_config_format_for_file
merge_loop p disk path [] = no_format
merge_loop p disk path (file ∷ files) =
    apply_format (merge_loop p disk path files) (editor_config_format_for_file p disk file path)

-- The switch at the end.
unfoldable pub indent_of : EditorConfigFormat → Option ℕ
unfolding atoi
indent_of cfg =
    if str_eq cfg.indent_style (bytes "tab")
    then some 0
    else if str_eq cfg.indent_style (bytes "space")
    then elim (atoi cfg.indent_size) [
      | none ↦ none
      | some n ↦ if is_positive n then some (to_uint n) else none
    ]
    else none

-- nil is `none`; a search for files that runs out of fuel counts as one that finds none.
unfoldable pub editor_config_indent : Paths → Disk → Str → Option ℕ
unfolding editor_config_files merge_loop indent_of
editor_config_indent p disk [] = none
editor_config_indent p disk (b ∷ path) = elim (editor_config_files p disk (p.dir (b ∷ path))) [
  | none ↦ none
  | some files ↦ elim files [
    | [] ↦ none
    | file ∷ rest ↦ indent_of (merge_loop p disk (b ∷ path) (file ∷ rest))
  ]
]
