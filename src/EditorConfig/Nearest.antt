-- ===== src/EditorConfig/Nearest.antt =====
-- internal/server/editorconfig.go, `editorConfigIndent`: which file decides.
use gols_bash.Prelude.{◌≡◌, ◌≢◌, refl, sym, ap, none, some, List, [], ◌∷◌, Str, map, str_eq}
use gols_bash.System.{Paths, Disk}
use gols_bash.EditorConfig.{
  EditorConfigFormat, no_format, apply_format, editor_config_format_for_file, editor_config_files,
  merge_loop, indent_of, editor_config_indent,
}
use gols_bash.EditorConfig.Ancestors.{GoesUp, Parents, configs, editor_config_files-configs}

-- The first of the texts that is not empty.
abbrev pub first_set : List Str → Str
first_set [] = []
first_set (s ∷ ss) = elim s [ [] ↦ first_set ss | b ∷ t ↦ b ∷ t ]

-- The settings of the files, the first file that makes one deciding it.
abbrev pub nearest : Paths → Disk → Str → List Str → EditorConfigFormat
nearest p disk path files = record {
  indent_style =
      first_set (map (λ f. (editor_config_format_for_file p disk f path).indent_style) files);
  indent_size =
      first_set (map (λ f. (editor_config_format_for_file p disk f path).indent_size) files);
}

merge_loop-nearest :
    (p : Paths) (disk : Disk) (path : Str) (files : List Str)
    → merge_loop p disk path files ≡ nearest p disk path files
unfolding merge_loop apply_format
merge_loop-nearest p disk path [] = refl
merge_loop-nearest p disk path (f ∷ fs) =
    ap (λ c. apply_format c (editor_config_format_for_file p disk f path))
      (merge_loop-nearest p disk path fs)

indent_of-none : indent_of no_format ≡ none
unfolding indent_of str_eq
indent_of-none = refl

indent-files :
    (p : Paths) (disk : Disk) (path : Str) (files : List Str)
    → path ≢ []
    → editor_config_files p disk (p.dir path) ≡ some files
    → editor_config_indent p disk path ≡ indent_of (nearest p disk path files)
unfolding editor_config_indent
indent-files p disk [] files ne e = absurd (ne refl)
indent-files p disk (b ∷ path) [] ne e = rw (editor_config_indent, e) (sym indent_of-none)
indent-files p disk (b ∷ path) (f ∷ fs) ne e =
    rw (editor_config_indent, e) (ap indent_of (merge_loop-nearest p disk (b ∷ path) (f ∷ fs)))

-- Where `filepath.Dir` goes up, the search for configuration files ends, and of the files that are
-- there, from the directory of the document up to the first root, the nearest one that sets a style
-- decides the style, and the nearest one that sets a size the size.
pub editor_config_indent_correct :
    (p : Paths) (disk : Disk) (path : Str)
    → GoesUp p
    → path ≢ []
    → (ds : List Str) × Parents p (p.dir path) ds
      × (editor_config_indent p disk path ≡ indent_of (nearest p disk path (configs p disk ds)))
editor_config_indent_correct p disk path goes_up ne =
    let (ds, parents, e) = editor_config_files-configs p disk goes_up (p.dir path) in
    (ds, parents, indent-files p disk path (configs p disk ds) ne e)
