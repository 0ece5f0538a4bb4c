-- ===== src/Prelude/Maps.antt =====
-- Go's `map` with string keys: an association list, whose order stands for the order in which a
-- `range` loop happens to visit the entries. Each key stands once in a map that is `IsMap`.
use mathlib.Core.Path.{◌≡◌}
use mathlib.Core.Logic.{inl, inr}
use mathlib.Core.Option.{Option, none, some}
use mathlib.Core.List.{List, [], ◌∷◌, Memᴰ}
use mathlib.Core.List.Memᴰ
use native.Mathlib.Omega.{arith}
use gols_bash.Prelude.Tests.{if◌then◌else◌}
use gols_bash.Prelude.Lists.{Memᴰ-cons}
use gols_bash.Prelude.Text.{Str, str_eq, str_eq_iff, str_eq_refl}

abbrev pub Map {ℓ} : Type ℓ → Type ℓ
Map V = List (Str × V)

module _ {ℓ} {V : Type ℓ} where
  abbrev pub keys : Map V → List Str
  keys [] = []
  keys ((k, _) ∷ m) = k ∷ keys m

  -- m[k]
  unfoldable pub get : Map V → Str → Option V
  get [] k = none
  get ((j, v) ∷ m) k = if str_eq j k then some v else get m k

  -- delete(m, k)
  unfoldable pub delete : Map V → Str → Map V
  delete [] k = []
  delete ((j, v) ∷ m) k = let rest = delete m k in if str_eq j k then rest else (j, v) ∷ rest

  -- m[k] = v
  unfoldable pub put : Map V → Str → V → Map V
  unfolding delete
  put m k v = (k, v) ∷ delete m k

  pub get-delete :
      (m : Map V) (k j : Str) → get (delete m k) j ≡ (if str_eq k j then none else get m j)
  unfolding get delete
  get-delete [] k j = ground arith
  get-delete ((i, v) ∷ m) k j =
      ground (arith, str_eq_iff i k, str_eq_iff k j, str_eq_iff i j, get-delete m k j)

  pub get-put :
      (m : Map V) (k : Str) (v : V) (j : Str)
      → get (put m k v) j ≡ (if str_eq k j then some v else get m j)
  unfolding get put
  get-put m k v j = ground (arith, get-delete m k j)

  -- No key twice.
  abbrev pub IsMap : Map V → Type ℓ
  IsMap [] = Unit
  IsMap ((k, _) ∷ m) = (get m k ≡ none) × IsMap m

  pub delete-IsMap : (m : Map V) (k : Str) → IsMap m → IsMap (delete m k)
  unfolding delete
  delete-IsMap [] k h = tt
  delete-IsMap ((j, v) ∷ m) k h = ground (arith, get-delete m k j, delete-IsMap m k h.1)

  pub put-IsMap : (m : Map V) (k : Str) (v : V) → IsMap m → IsMap (put m k v)
  unfolding put
  put-IsMap m k v h = ground (arith, get-delete m k k, str_eq_refl k, delete-IsMap m k h)

  pub get_of_mem : (m : Map V) (k : Str) (v : V) → IsMap m → Memᴰ (k, v) m → get m k ≡ some v
  unfolding get
  get_of_mem [] k v h i = absurd (Memᴰ.not-nil i)
  get_of_mem ((j, w) ∷ m) k v h i = elim ((Memᴰ-cons (k, v) (j, w) m).0 i) [
    | inl e ↦ ground (arith, str_eq_iff j k)
    | inr r ↦ ground (arith, str_eq_iff j k, get_of_mem m k v h.1 r)
  ]

  pub mem_of_get : (m : Map V) (k : Str) (v : V) → get m k ≡ some v → Memᴰ (k, v) m
  unfolding get
  mem_of_get [] k v h = cc
  mem_of_get ((j, w) ∷ m) k v h =
      ground (arith, str_eq_iff j k, mem_of_get m k v, Memᴰ-cons (k, v) (j, w) m)

pub ruleset map_laws = (get-delete, get-put)
