-- ===== src/Data/Executables/OnPath.antt =====
-- internal/data/executables.go: which names are found, and in which order.
use mathlib.Core.List.Memᴰ
use gols_bash.Prelude.{
  ℕ, ◌≡◌, ◌≢◌, refl, sym, ap, ◌∙◌, ◌↔◌, ◌⊎◌, inl, inr, true, false, some, List, [], ◌∷◌, ◌++◌, Str,
  contains, contains_iff, Memᴰ, Memᴰ-cons, Memᴰ-append, mem-sort_slice, str_lt, AreDistinct,
  IsAscending, sort_slice-IsAscending, arith, Bool-cases, Option-cases,
}
use gols_bash.System.{Paths, DirEntry, Disk}
use gols_bash.Data.Executables.{
  can_execute, is_executable, see, mem-see, entries_loop, dir_step, dirs_loop,
  executables_from_path,
}

-- A regular file that someone may execute.
abbrev pub IsProgram : DirEntry → Type 0
IsProgram e =
    (e.has_type ≡ false) × ((mode : ℕ) × (e.info ≡ some (true, mode)) × (can_execute mode ≡ true))

abbrev pub IsListed : Str → List DirEntry → Type 0
IsListed name es = (e : DirEntry) × (Memᴰ e es × IsProgram e × (e.name ≡ name))

-- A directory of the list, with a name, that can be read and lists the program.
abbrev pub IsIn : Disk → Str → List Str → Type 0
IsIn disk name dirs =
    (dir : Str) × (es : List DirEntry) × (Memᴰ dir dirs
      × (dir ≢ [])
      × (disk.read_dir dir ≡ some es)
      × IsListed name es)

is_executable_iff : (e : DirEntry) → (is_executable e ≡ true) ↔ IsProgram e
unfolding is_executable
is_executable_iff e = (
  λ t. elim (Option-cases e.info) [
    | inl n ↦ absurd (ground arith)
    | inr ((regular, mode), i) ↦
        let plain : e.has_type ≡ false = ground arith in
        let is_regular : regular ≡ true = ground arith in
        (plain, (mode, rw is_regular at i, ground arith))
  ],
  λ (plain, (mode, info, bits)). ground arith,
)

IsListed-cons :
    (name : Str) (entry : DirEntry) (es : List DirEntry)
    → IsListed name (entry ∷ es)
      ↔ (((is_executable entry ≡ true) × (name ≡ entry.name)) ⊎ IsListed name es)
IsListed-cons name entry es = (
  λ (e, (m, h, n)). elim ((Memᴰ-cons e entry es).0 m) [
    | inl q ↦ inl (rw (← q) ((is_executable_iff e).1 h), sym n ∙ ap (λ d. d.name) q)
    | inr i ↦ inr (e, (i, h, n))
  ],
  λ c. elim c [
    | inl (t, n) ↦ (entry, (Memᴰ.head refl, (is_executable_iff entry).0 t, sym n))
    | inr (e, (i, h, n)) ↦ (e, (Memᴰ.tail i, h, n))
  ],
)

mem-entries_loop :
    (seen : List Str) (es : List DirEntry) (x : Str)
    → Memᴰ x (entries_loop seen es) ↔ (Memᴰ x seen ⊎ IsListed x es)
unfolding entries_loop
mem-entries_loop seen [] x =
    (inl, λ c. elim c [ inl i ↦ i | inr (e, (m, _, _)) ↦ absurd (Memᴰ.not-nil m) ])
mem-entries_loop seen (entry ∷ es) x = elim (Bool-cases (is_executable entry)) [
  | inl t ↦
      let later = mem-entries_loop (see seen entry.name) es x in
      let now = mem-see seen entry.name x in
      let split = IsListed-cons x entry es in
      rw (entries_loop, t)
        (
          λ m. elim (later.0 m) [
            | inl i ↦ elim (now.0 i) [ inl j ↦ inl j | inr n ↦ inr (split.1 (inl (t, n))) ]
            | inr l ↦ inr (split.1 (inr l))
          ],
          λ c. later.1 (elim c [
            | inl i ↦ inl (now.1 (inl i))
            | inr l ↦ elim (split.0 l) [ inl (_, n) ↦ inl (now.1 (inr n)) | inr r ↦ inr r ]
          ]),
        )
  | inr f ↦
      let later = mem-entries_loop seen es x in
      let split = IsListed-cons x entry es in
      rw (entries_loop, f)
        (
          λ m. elim (later.0 m) [ inl i ↦ inl i | inr l ↦ inr (split.1 (inr l)) ],
          λ c. later.1 (elim c [
            | inl i ↦ inl i
            | inr l ↦ inr (elim (split.0 l) [ inl (t, _) ↦ absurd cc | inr r ↦ r ])
          ]),
        )
]

-- What one directory of the list adds.
abbrev Adds : Disk → Str → Str → Type 0
Adds disk dir name =
    (dir ≢ []) × ((es : List DirEntry) × (disk.read_dir dir ≡ some es) × IsListed name es)

mem-dir_step :
    (disk : Disk) (seen : List Str) (dir x : Str)
    → Memᴰ x (dir_step disk seen dir) ↔ (Memᴰ x seen ⊎ Adds disk dir x)
unfolding dir_step
mem-dir_step disk seen [] x = (inl, λ c. elim c [ inl i ↦ i | inr (ne, _) ↦ absurd (ne refl) ])
mem-dir_step disk seen (b ∷ dir) x = elim (Option-cases (disk.read_dir (b ∷ dir))) [
  | inl e ↦
      rw (dir_step, e)
        (inl, λ c. elim c [ inl i ↦ i | inr (_, (es, q, _)) ↦ absurd (ground arith) ])
  | inr (es, e) ↦
      let loop = mem-entries_loop seen es x in
      rw (dir_step, e)
        (
          λ m. elim (loop.0 m) [ inl i ↦ inl i | inr l ↦ inr (λ q. absurd cc, (es, refl, l)) ],
          λ c. loop.1 (elim c [
            | inl i ↦ inl i
            | inr (_, (es', q, l)) ↦ let same : es' ≡ es = ground arith in inr (rw (← same) l)
          ]),
        )
]

mem-dirs_loop :
    (disk : Disk) (seen dirs : List Str) (x : Str)
    → Memᴰ x (dirs_loop disk seen dirs)
      ↔ (Memᴰ x seen ⊎ ((dir : Str) × (Memᴰ dir dirs × Adds disk dir x)))
unfolding dirs_loop
mem-dirs_loop disk seen [] x =
    (inl, λ c. elim c [ inl i ↦ i | inr (dir, (m, _)) ↦ absurd (Memᴰ.not-nil m) ])
mem-dirs_loop disk seen (dir ∷ dirs) x =
    let later = mem-dirs_loop disk (dir_step disk seen dir) dirs x in
    let now = mem-dir_step disk seen dir x in
    (
      λ m. elim (later.0 m) [
        | inl i ↦ elim (now.0 i) [ inl j ↦ inl j | inr a ↦ inr (dir, (Memᴰ.head refl, a)) ]
        | inr (d, (i, a)) ↦ inr (d, (Memᴰ.tail i, a))
      ],
      λ c. later.1 (elim c [
        | inl i ↦ inl (now.1 (inl i))
        | inr (d, (i, a)) ↦ elim ((Memᴰ-cons d dir dirs).0 i) [
          | inl q ↦ inl (now.1 (inr (rw (← q) a)))
          | inr j ↦ inr (d, (j, a))
        ]
      ]),
    )

abbrev NoTwice : List Str → Type 0
NoTwice names = AreDistinct (λ x. x) names

NoTwice-last :
    (xs : List Str) (name : Str)
    → ((y : Str) → Memᴰ y xs → name ≢ y)
    → NoTwice xs
    → NoTwice (xs ++ name ∷ [])
NoTwice-last [] name new h = (λ y m. absurd (Memᴰ.not-nil m), tt)
NoTwice-last (x ∷ xs) name new (first, rest) = (
  λ y m. elim ((Memᴰ-append y xs (name ∷ [])).0 m) [
    | inl i ↦ first y i
    | inr l ↦ λ e. new x (Memᴰ.head refl) (sym (Memᴰ.eq_of_singleton l) ∙ e)
  ],
  NoTwice-last xs name (λ y m. new y (Memᴰ.tail m)) rest,
)

see-NoTwice : (seen : List Str) (name : Str) → NoTwice seen → NoTwice (see seen name)
unfolding see
see-NoTwice seen name h = elim (Bool-cases (contains seen name)) [
  | inl t ↦ rw (see, t) h
  | inr f ↦
      rw (see, f)
        (NoTwice-last seen name
          (λ y m e. let t = (contains_iff seen y).1 m in absurd (cc (f, t, e))) h)
]

entries_loop-NoTwice :
    (seen : List Str) (es : List DirEntry) → NoTwice seen → NoTwice (entries_loop seen es)
unfolding entries_loop
entries_loop-NoTwice seen [] h = h
entries_loop-NoTwice seen (entry ∷ es) h = elim (Bool-cases (is_executable entry)) [
  | inl t ↦
      rw (entries_loop, t)
        (entries_loop-NoTwice (see seen entry.name) es (see-NoTwice seen entry.name h))
  | inr f ↦ rw (entries_loop, f) (entries_loop-NoTwice seen es h)
]

dir_step-NoTwice :
    (disk : Disk) (seen : List Str) (dir : Str) → NoTwice seen → NoTwice (dir_step disk seen dir)
unfolding dir_step
dir_step-NoTwice disk seen [] h = h
dir_step-NoTwice disk seen (b ∷ dir) h = elim (Option-cases (disk.read_dir (b ∷ dir))) [
  | inl e ↦ rw (dir_step, e) h
  | inr (es, e) ↦ rw (dir_step, e) (entries_loop-NoTwice seen es h)
]

dirs_loop-NoTwice :
    (disk : Disk) (seen dirs : List Str) → NoTwice seen → NoTwice (dirs_loop disk seen dirs)
unfolding dirs_loop
dirs_loop-NoTwice disk seen [] h = h
dirs_loop-NoTwice disk seen (dir ∷ dirs) h =
    dirs_loop-NoTwice disk (dir_step disk seen dir) dirs (dir_step-NoTwice disk seen dir h)

-- ExecutablesFromPath returns, in strictly ascending order, exactly the names of the regular files
-- that someone may execute and that a directory of the value lists; directories with no name or that
-- cannot be read have no part in it, and the empty value has no directories.
pub executables_from_path_correct :
    (p : Paths) (disk : Disk) (value : Str)
    → IsAscending (λ x. x) (executables_from_path p disk value)
      × ((name : Str)
          → Memᴰ name (executables_from_path p disk value)
            ↔ ((value ≢ []) × IsIn disk name (p.split_list value)))
unfolding executables_from_path
executables_from_path_correct p disk [] =
    (tt, λ name. (λ m. absurd (Memᴰ.not-nil m), λ (ne, _). absurd (ne refl)))
executables_from_path_correct p disk (b ∷ value) =
    let found = dirs_loop disk [] (p.split_list (b ∷ value)) in
    (
      sort_slice-IsAscending (λ x. x) found
          (dirs_loop-NoTwice disk [] (p.split_list (b ∷ value)) tt),
      λ name.
          let sorted = mem-sort_slice str_lt name found in
          let loop = mem-dirs_loop disk [] (p.split_list (b ∷ value)) name in
          (
            λ m. elim (loop.0 (sorted.0 m)) [
              | inl i ↦ absurd (Memᴰ.not-nil i)
              | inr (dir, (i, (ne, (es, e, l)))) ↦ (λ q. absurd cc, (dir, es, (i, ne, e, l)))
            ],
            λ (_, (dir, es, (i, ne, e, l))). sorted.1 (loop.1 (inr (dir, (i, (ne, (es, e, l)))))),
          ),
    )
