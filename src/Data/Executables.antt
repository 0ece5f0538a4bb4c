-- ===== src/Data/Executables.antt =====
-- internal/data/executables.go: the executable files on PATH.
pub mod OnPath
use mathlib.Core.List.Memᴰ
use gols_bash.Prelude.{
  ℕ, ◌/◌, ◌%◌, ◌≡◌, ◌↔◌, ◌⊎◌, inl, inr, Bool, false, not, ◌&&◌, ◌||◌, none, some, List, [], ◌∷◌,
  ◌++◌, Str, contains, contains_iff, str_lt, sort_slice, ◌==◌, if◌then◌else◌, Memᴰ, Memᴰ-append,
  Bool-cases,
}
use gols_bash.System.{Paths, DirEntry, Disk}

-- `mode & 0o111 != 0`: one of the bits 0, 3 and 6.
abbrev pub can_execute : ℕ → Bool
can_execute mode = not (mode % 2 == 0) || not (mode / 8 % 2 == 0) || not (mode / 64 % 2 == 0)

-- The tests of the inner loop.
unfoldable pub is_executable : DirEntry → Bool
is_executable entry =
    if entry.has_type
    then false
    else elim entry.info [ none ↦ false | some (regular, mode) ↦ regular && can_execute mode ]

-- `seen[name] = struct{}{}`
unfoldable pub see : List Str → Str → List Str
see seen name = if contains seen name then seen else seen ++ name ∷ []

unfoldable pub entries_loop : List Str → List DirEntry → List Str
unfolding is_executable see
entries_loop seen [] = seen
entries_loop seen (entry ∷ entries) =
    entries_loop (if is_executable entry then see seen entry.name else seen) entries

-- One directory of PATH; an empty name, and a directory that cannot be read, are passed over.
unfoldable pub dir_step : Disk → List Str → Str → List Str
unfolding entries_loop
dir_step disk seen [] = seen
dir_step disk seen (b ∷ dir) = elim (disk.read_dir (b ∷ dir)) [
  | none ↦ seen
  | some entries ↦ entries_loop seen entries
]

unfoldable pub dirs_loop : Disk → List Str → List Str → List Str
unfolding dir_step
dirs_loop disk seen [] = seen
dirs_loop disk seen (dir ∷ dirs) = dirs_loop disk (dir_step disk seen dir) dirs

unfoldable pub executables_from_path : Paths → Disk → Str → List Str
unfolding dirs_loop sort_slice
executables_from_path p disk [] = []
executables_from_path p disk (b ∷ path) =
    sort_slice str_lt (dirs_loop disk [] (p.split_list (b ∷ path)))

pub mem-see : (seen : List Str) (name x : Str) → Memᴰ x (see seen name) ↔ (Memᴰ x seen ⊎ (x ≡ name))
unfolding see
mem-see seen name x = elim (Bool-cases (contains seen name)) [
  | inl t ↦
      rw (see, t) (inl, λ m. elim m [ inl i ↦ i | inr e ↦ rw e ((contains_iff seen name).0 t) ])
  | inr f ↦
      rw (see, f)
        (
          λ m. elim ((Memᴰ-append x seen (name ∷ [])).0 m) [
            | inl i ↦ inl i
            | inr last ↦ inr (Memᴰ.eq_of_singleton last)
          ],
          λ m.
              (Memᴰ-append x seen (name ∷ [])).1
                (elim m [ inl i ↦ inl i | inr e ↦ inr (Memᴰ.head e) ]),
        )
]
