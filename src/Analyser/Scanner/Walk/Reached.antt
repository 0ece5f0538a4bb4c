-- ===== src/Analyser/Scanner/Walk/Reached.antt =====
-- internal/analyser/scanner.go: the files that the walk is to visit.
use mathlib.Core.List.Memᴰ
use gols_bash.Prelude.{
  Memᴰ, ◌≡◌, refl, inl, inr, ◌↔◌, Bool, true, false, List, [], ◌∷◌, ◌++◌, Str, if◌then◌else◌,
  Memᴰ-append,
}
use gols_bash.System.{Paths, Disk}
use gols_bash.Analyser.Scanner.{is_shell_path, is_skipped_dir}
use gols_bash.Analyser.Scanner.Walk.{Tree, file, directory, Entries, no_entries, entry}

mem-if_one : (b : Bool) (x q : Str) → Memᴰ q (if b then x ∷ [] else []) ↔ ((b ≡ true) × (q ≡ x))
mem-if_one true x q = (
  λ m. (refl, elim (Memᴰ.cases_cons m) [ inl e ↦ e | inr r ↦ absurd (Memᴰ.not-nil r) ]),
  λ (e, same). Memᴰ.head same,
)
mem-if_one false x q = (λ m. absurd (Memᴰ.not-nil m), λ (e, same). absurd cc)

mem-if_kept :
    (b : Bool) (rest : List Str) (q : Str)
    → Memᴰ q (if b then [] else rest) ↔ ((b ≡ false) × Memᴰ q rest)
mem-if_kept true rest q = (λ m. absurd (Memᴰ.not-nil m), λ (e, m). absurd cc)
mem-if_kept false rest q = (λ m. (refl, m), λ (e, m). m)

module _ (p : Paths) (disk : Disk) where
  -- The shell scripts of a tree that are in no skipped directory, by their paths.
  mutual
    pub data Reached : (path name : Str) → Tree → Str → Type 0 where
      here : {path name : Str} → is_shell_path p disk path ≡ true → Reached path name file path
      inside :
          {path name q : Str} {e : Bool} {children : Entries}
          → is_skipped_dir name ≡ false
          → ReachedIn path children q
          → Reached path name (directory e children) q

    pub data ReachedIn : Str → Entries → Str → Type 0 where
      first :
          {path name q : Str} {tree : Tree} {more : Entries}
          → Reached (p.join path name) name tree q
          → ReachedIn path (entry name tree more) q
      later :
          {path name q : Str} {tree : Tree} {more : Entries}
          → ReachedIn path more q
          → ReachedIn path (entry name tree more) q

  -- The same as a list, in the order of the walk.
  unfoldable mutual
    pub shell_paths : (path name : Str) → Tree → List Str
    shell_paths path name file = if is_shell_path p disk path then path ∷ [] else []
    shell_paths path name (directory e children) =
        let rest = paths_in path children in if is_skipped_dir name then [] else rest

    pub paths_in : Str → Entries → List Str
    paths_in path no_entries = []
    paths_in path (entry name tree more) =
        shell_paths (p.join path name) name tree ++ paths_in path more

  mutual
    unfolding shell_paths

    pub Reached-of_mem :
        (path name q : Str) (t : Tree) → Memᴰ q (shell_paths path name t) → Reached path name t q
    Reached-of_mem path name q file m =
        let (e, same) = (mem-if_one (is_shell_path p disk path) path q).0 m in rw same (here e)
    Reached-of_mem path name q (directory e children) m =
        let (s, i) = (mem-if_kept (is_skipped_dir name) (paths_in path children) q).0 m in
        inside s (ReachedIn-of_mem path q children i)

    ReachedIn-of_mem :
        (path q : Str) (es : Entries) → Memᴰ q (paths_in path es) → ReachedIn path es q
    ReachedIn-of_mem path q no_entries m = absurd (Memᴰ.not-nil m)
    ReachedIn-of_mem path q (entry name tree more) m =
        elim ((Memᴰ-append q (shell_paths (p.join path name) name tree) (paths_in path more)).0 m) [
          | inl i ↦ first (Reached-of_mem (p.join path name) name q tree i)
          | inr i ↦ later (ReachedIn-of_mem path q more i)
        ]

  mutual
    unfolding shell_paths

    pub mem_of_reached :
        {path name q : Str} {t : Tree} → Reached path name t q → Memᴰ q (shell_paths path name t)
    mem_of_reached (here {path} e) = (mem-if_one (is_shell_path p disk path) path path).1 (e, refl)
    mem_of_reached (inside {path} {name} {q} {e} {children} s r) =
        (mem-if_kept (is_skipped_dir name) (paths_in path children) q).1 (s, mem_of_reached_in r)

    mem_of_reached_in :
        {path q : Str} {es : Entries} → ReachedIn path es q → Memᴰ q (paths_in path es)
    mem_of_reached_in (first {path} {name} {q} {tree} {more} r) =
        (Memᴰ-append q (shell_paths (p.join path name) name tree) (paths_in path more)).1
          (inl (mem_of_reached r))
    mem_of_reached_in (later {path} {name} {q} {tree} {more} r) =
        (Memᴰ-append q (shell_paths (p.join path name) name tree) (paths_in path more)).1
          (inr (mem_of_reached_in r))
