-- ===== src/EditorConfig/Ancestors.antt =====
-- internal/server/editorconfig.go, `editorConfigFiles`: the walk up the directories.
use gols_bash.Prelude.{
  ℕ, zero, suc, ◌+◌, ◌≤◌, ◌<◌, ◌≡◌, ◌≢◌, ◌⊎◌, inl, inr, true, false, some, List, [], ◌∷◌, Str,
  str_eq, str_eq_iff, Str-cases, length, if◌then◌else◌, arith, map, select,
}
use gols_bash.System.{Paths, Disk}
use gols_bash.EditorConfig.{
  config_path, exists, editor_config_root, files_loop, editor_config_files,
}

-- What `filepath.Dir` does: the parent is the path itself, a shorter one, or the end of the way up,
-- as "." is for a relative path.
abbrev pub GoesUp : Paths → Type 0
GoesUp p = (d : Str) → (p.dir d ≡ d) ⊎ ((length (p.dir d) < length d) ⊎ (p.dir (p.dir d) ≡ p.dir d))

-- A directory and its parents, up to the one that is its own parent.
pub data Parents (p : Paths) : Str → List Str → Type 0 where
  top : {d : Str} → p.dir d ≡ d → Parents p d (d ∷ [])
  up : {d : Str} {ds : List Str} → p.dir d ≢ d → Parents p (p.dir d) ds → Parents p d (d ∷ ds)

-- The files up to the first root.
abbrev pub up_to_root : Paths → Disk → List Str → List Str
up_to_root p disk [] = []
up_to_root p disk (f ∷ fs) =
    let rest = up_to_root p disk fs in if editor_config_root p disk f then f ∷ [] else f ∷ rest

-- The configuration files that are there, from the directory upwards.
abbrev pub configs : Paths → Disk → List Str → List Str
configs p disk ds = up_to_root p disk (select (exists disk) (map (config_path p) ds))

str_eq-false : (s t : Str) → str_eq s t ≡ false → s ≢ t
str_eq-false s t f e = ground (arith, str_eq_iff s t)

module _ (p : Paths) (disk : Disk) where
  Found : ℕ → Str → Type 0
  Found fuel d =
      (ds : List Str) × Parents p d ds × (files_loop p disk fuel d ≡ some (configs p disk ds))

  Found-top : (fuel : ℕ) (d : Str) → p.dir d ≡ d → Found (suc fuel) d
  unfolding Found files_loop
  Found-top fuel d e =
      let same : str_eq (p.dir d) d ≡ true = (str_eq_iff (p.dir d) d).1 e in
      (d ∷ [], top e, ground arith)

  Found-up : (fuel : ℕ) (d : Str) → p.dir d ≢ d → Found fuel (p.dir d) → Found (suc fuel) d
  unfolding Found files_loop
  Found-up fuel d ne (ds, parents, e) =
      (d ∷ ds, up ne parents, ground (arith, str_eq_iff (p.dir d) d))

  module _ (goes_up : GoesUp p) where
    Found-within : (fuel : ℕ) (d : Str) → length d + 2 ≤ fuel → Found fuel d
    Found-within zero d h = absurd (omega arith)
    Found-within (suc zero) d h = absurd (omega arith)
    Found-within (suc (suc fuel)) d h = elim (Str-cases (p.dir d) d) [
      | inl e ↦ Found-top (suc fuel) d e
      | inr f ↦
          let ne = str_eq-false (p.dir d) d f in
          Found-up (suc fuel) d ne (elim (goes_up d) [
            | inl e ↦ absurd (ne e)
            | inr step ↦ elim step [
              | inl shorter ↦ Found-within (suc fuel) (p.dir d) (omega arith)
              | inr end ↦ Found-top fuel (p.dir d) end
            ]
          ])
    ]

    -- The walk ends, with the files that are there up to the first root.
    pub editor_config_files-configs :
        (dir : Str)
        → (ds : List Str) × Parents p dir ds
          × (editor_config_files p disk dir ≡ some (configs p disk ds))
    unfolding editor_config_files Found
    editor_config_files-configs dir = Found-within (length dir + 2) dir (omega arith)
