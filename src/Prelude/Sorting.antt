-- ===== src/Prelude/Sorting.antt =====
-- `sort.Slice`, as an insertion sort: where neither of two entries is less, it leaves them in their
-- order, which is one of the orders that Go allows.
use mathlib.Core.Path.{◌≡◌, refl, sym, ap, ◌∙◌}
use mathlib.Core.Logic.{◌≢◌, ◌↔◌, ◌⊎◌, inl, inr}
use mathlib.Core.Bool.{Bool, true, false, ◌&&◌, ◌||◌}
use mathlib.Core.List.Memᴰ
use mathlib.Core.List.{List, [], ◌∷◌, Memᴰ}
use native.Mathlib.Omega.{arith}
use gols_bash.Prelude.Tests.{ltb, ==_iff, ◌==◌, if◌then◌else◌, Bool-cases}
use gols_bash.Prelude.Lists.{Memᴰ-cons}
use gols_bash.Prelude.Text.{Str, str_eq_iff}

-- `s < t` on strings.
unfoldable pub str_lt : Str → Str → Bool
str_lt s [] = false
str_lt [] (b ∷ t) = true
str_lt (a ∷ s) (b ∷ t) = ltb a b || a == b && str_lt s t

module _ {ℓ} {A : Type ℓ} (less : A → A → Bool) where
  unfoldable pub insert : A → List A → List A
  insert x [] = x ∷ []
  insert x (y ∷ ys) = let rest = insert x ys in if less y x then y ∷ rest else x ∷ y ∷ ys

  unfoldable pub sort_slice : List A → List A
  unfolding insert
  sort_slice [] = []
  sort_slice (x ∷ xs) = insert x (sort_slice xs)

  mem-insert : (a x : A) (ys : List A) → Memᴰ a (insert x ys) ↔ ((a ≡ x) ⊎ Memᴰ a ys)
  unfolding insert
  mem-insert a x [] = Memᴰ-cons a x []
  mem-insert a x (y ∷ ys) = elim (Bool-cases (less y x)) [
    | inr f ↦ rw (insert, f) (Memᴰ-cons a x (y ∷ ys))
    | inl t ↦
        let later = mem-insert a x ys in
        let front = Memᴰ-cons a y (insert x ys) in
        let there = Memᴰ-cons a y ys in
        rw (insert, t)
          (
            λ m. elim (front.0 m) [
              | inl e ↦ inr (there.1 (inl e))
              | inr i ↦ elim (later.0 i) [ inl e ↦ inl e | inr j ↦ inr (there.1 (inr j)) ]
            ],
            λ c. front.1 (elim c [
              | inl e ↦ inr (later.1 (inl e))
              | inr j ↦ elim (there.0 j) [ inl e ↦ inl e | inr k ↦ inr (later.1 (inr k)) ]
            ]),
          )
  ]

  -- Sorting keeps the entries.
  pub mem-sort_slice : (a : A) (xs : List A) → Memᴰ a (sort_slice xs) ↔ Memᴰ a xs
  unfolding sort_slice
  mem-sort_slice a [] = (λ m. m, λ m. m)
  mem-sort_slice a (x ∷ xs) =
      let later = mem-sort_slice a xs in
      let here = mem-insert a x (sort_slice xs) in
      let there = Memᴰ-cons a x xs in
      (
        λ m. there.1 (elim (here.0 m) [ inl e ↦ inl e | inr i ↦ inr (later.0 i) ]),
        λ m. here.1 (elim (there.0 m) [ inl e ↦ inl e | inr i ↦ inr (later.1 i) ]),
      )

-- The first entry of a list, if there is one, is not less than `y`.
abbrev pub NotBefore {ℓ} : {A : Type ℓ} → (A → A → Bool) → A → List A → Type 0
NotBefore less y [] = Unit
NotBefore less y (z ∷ zs) = less z y ≡ false

-- No entry is less than the one before it.
abbrev pub IsSorted {ℓ} : {A : Type ℓ} → (A → A → Bool) → List A → Type 0
IsSorted less [] = Unit
IsSorted less (x ∷ xs) = NotBefore less x xs × IsSorted less xs

module _ {ℓ} {A : Type ℓ} (less : A → A → Bool)
    (asymmetric : (x y : A) → less x y ≡ true → less y x ≡ false) where
  insert-NotBefore :
      (x y : A) (ys : List A)
      → less y x ≡ true
      → NotBefore less y ys
      → NotBefore less y (insert less x ys)
  unfolding insert
  insert-NotBefore x y [] t h = asymmetric y x t
  insert-NotBefore x y (z ∷ zs) t h = elim (Bool-cases (less z x)) [
    | inl l ↦ rw (insert, l) h
    | inr l ↦ rw (insert, l) (asymmetric y x t)
  ]

  insert-IsSorted : (x : A) (ys : List A) → IsSorted less ys → IsSorted less (insert less x ys)
  unfolding insert
  insert-IsSorted x [] h = (tt, tt)
  insert-IsSorted x (y ∷ ys) h = elim (Bool-cases (less y x)) [
    | inl t ↦ rw (insert, t) (insert-NotBefore x y ys t h.0, insert-IsSorted x ys h.1)
    | inr f ↦ rw (insert, f) (f, h)
  ]

  -- An insertion sort under an asymmetric order sorts.
  pub sort_slice-IsSorted : (xs : List A) → IsSorted less (sort_slice less xs)
  unfolding sort_slice
  sort_slice-IsSorted [] = tt
  sort_slice-IsSorted (x ∷ xs) = insert-IsSorted x (sort_slice less xs) (sort_slice-IsSorted xs)

pub str_lt_asymmetric : (s t : Str) → str_lt s t ≡ true → str_lt t s ≡ false
unfolding str_lt
str_lt_asymmetric s [] h = cc
str_lt_asymmetric [] (b ∷ t) h = refl
str_lt_asymmetric (a ∷ s) (b ∷ t) h = ground (arith, str_lt_asymmetric s t)

-- Of two different strings one is less.
pub str_lt_total : (s t : Str) → s ≢ t → str_lt t s ≡ false → str_lt s t ≡ true
unfolding str_lt
str_lt_total [] [] ne h = absurd (ne refl)
str_lt_total [] (b ∷ t) ne h = refl
str_lt_total (a ∷ s) [] ne h = cc
str_lt_total (a ∷ s) (b ∷ t) ne h =
    ground (arith, ==_iff a b, ==_iff b a, str_eq_iff s t, str_lt_total s t)

module _ {ℓ} {A : Type ℓ} (key : A → Str) where
  -- No two entries with the same key.
  abbrev pub AreDistinct : List A → Type ℓ
  AreDistinct [] = Unit
  AreDistinct (x ∷ xs) = ((y : A) → Memᴰ y xs → key y ≢ key x) × AreDistinct xs

  abbrev pub IsAfter : A → List A → Type 0
  IsAfter x [] = Unit
  IsAfter x (y ∷ ys) = str_lt (key x) (key y) ≡ true

  -- The keys ascend, each string less than the next.
  abbrev pub IsAscending : List A → Type 0
  IsAscending [] = Unit
  IsAscending (x ∷ xs) = IsAfter x xs × IsAscending xs

  abbrev key_less : A → A → Bool
  key_less x y = str_lt (key x) (key y)

  insert-AreDistinct :
      (x : A) (ys : List A)
      → ((y : A) → Memᴰ y ys → key y ≢ key x)
      → AreDistinct ys
      → AreDistinct (insert key_less x ys)
  unfolding insert
  insert-AreDistinct x [] new h = (λ y m. absurd (Memᴰ.not-nil m), tt)
  insert-AreDistinct x (y ∷ ys) new h = elim (Bool-cases (key_less y x)) [
    | inr f ↦ rw (insert, f) (new, h)
    | inl t ↦
        rw (insert, t)
          (
            λ z m q. elim ((mem-insert key_less z x ys).0 m) [
              | inl e ↦ new y (Memᴰ.head refl) (sym q ∙ ap key e)
              | inr i ↦ h.0 z i q
            ],
            insert-AreDistinct x ys (λ z m. new z (Memᴰ.tail m)) h.1,
          )
  ]

  sort_slice-AreDistinct : (xs : List A) → AreDistinct xs → AreDistinct (sort_slice key_less xs)
  unfolding sort_slice
  sort_slice-AreDistinct [] h = tt
  sort_slice-AreDistinct (x ∷ xs) h =
      insert-AreDistinct x (sort_slice key_less xs)
        (λ y m. h.0 y ((mem-sort_slice key_less y xs).0 m)) (sort_slice-AreDistinct xs h.1)

  ascending : (xs : List A) → IsSorted key_less xs → AreDistinct xs → IsAscending xs
  ascending [] s d = tt
  ascending (x ∷ []) s d = (tt, tt)
  ascending (x ∷ y ∷ ys) s d = (
    str_lt_total (key x) (key y) (λ q. d.0 y (Memᴰ.head refl) (sym q)) s.0,
    ascending (y ∷ ys) s.1 d.1,
  )

  -- Entries with different keys, sorted by their keys, ascend.
  pub sort_slice-IsAscending :
      (xs : List A) → AreDistinct xs → IsAscending (sort_slice (λ x y. str_lt (key x) (key y)) xs)
  sort_slice-IsAscending xs d =
      ascending (sort_slice key_less xs)
        (sort_slice-IsSorted key_less (λ x y. str_lt_asymmetric (key x) (key y)) xs)
        (sort_slice-AreDistinct xs d)
