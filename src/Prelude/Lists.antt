-- ===== src/Prelude/Lists.antt =====
-- Lists measured and indexed by native numbers, under the library's names, and membership.
use Prim.Native.Nat.{ℕ, zero, suc, ◌+◌, ◌-◌, ◌≤◌, min}
use mathlib.Core.Path.{◌≡◌, refl, ap, ◌∙◌}
use mathlib.Core.Logic.{◌⊎◌, inl, inr, ◌↔◌, ⊎_elim}
use mathlib.Core.Bool.{Bool, false, ◌||◌}
use mathlib.Core.List.{List, [], ◌∷◌, ◌++◌, map, Memᴰ}
use mathlib.Core.List.Memᴰ
use native.Mathlib.Omega.{arith}
use gols_bash.Prelude.Tests.{if◌then◌else◌}

module _ {ℓ} {A : Type ℓ} where
  abbrev pub length : List A → ℕ
  length [] = 0
  length (x ∷ xs) = suc (length xs)

  abbrev pub get_or : List A → ℕ → A → A
  get_or [] i d = d
  get_or (x ∷ xs) zero d = x
  get_or (x ∷ xs) (suc i) d = get_or xs i d

  abbrev pub take : ℕ → List A → List A
  take zero xs = []
  take (suc n) [] = []
  take (suc n) (x ∷ xs) = x ∷ take n xs

  abbrev pub drop : ℕ → List A → List A
  drop zero xs = xs
  drop (suc n) [] = []
  drop (suc n) (x ∷ xs) = drop n xs

  -- The entries that pass a Boolean test.
  abbrev pub select : (A → Bool) → List A → List A
  select p [] = []
  select p (x ∷ xs) = let rest = select p xs in if p x then x ∷ rest else rest

  abbrev pub any : (A → Bool) → List A → Bool
  any p [] = false
  any p (x ∷ xs) = p x || any p xs

  pub length-append : (xs ys : List A) → length (xs ++ ys) ≡ length xs + length ys
  length-append [] ys = omega arith
  length-append (x ∷ xs) ys = omega (arith, length-append xs ys)

  pub length-take : (n : ℕ) (xs : List A) → length (take n xs) ≡ min n (length xs)
  length-take zero xs = omega arith
  length-take (suc n) [] = omega arith
  length-take (suc n) (x ∷ xs) = omega (arith, length-take n xs)

  pub length-drop : (n : ℕ) (xs : List A) → length (drop n xs) ≡ length xs - n
  length-drop zero xs = omega arith
  length-drop (suc n) [] = omega arith
  length-drop (suc n) (x ∷ xs) = omega (arith, length-drop n xs)

  pub drop-append : (n : ℕ) (s t : List A) → n ≤ length s → drop n (s ++ t) ≡ drop n s ++ t
  drop-append zero s t h = refl
  drop-append (suc n) [] t h = elim h [ ]
  drop-append (suc n) (b ∷ s) t h = drop-append n s t (omega arith)

  pub take-append_self : (s t : List A) → take (length s) (s ++ t) ≡ s
  take-append_self [] t = refl
  take-append_self (b ∷ s) t = ap (λ r. b ∷ r) (take-append_self s t)

  pub drop-append_self : (s t : List A) → drop (length s) (s ++ t) ≡ t
  drop-append_self [] t = refl
  drop-append_self (b ∷ s) t = drop-append_self s t

  pub take-append-drop : (n : ℕ) (xs : List A) → take n xs ++ drop n xs ≡ xs
  take-append-drop zero xs = refl
  take-append-drop (suc n) [] = refl
  take-append-drop (suc n) (x ∷ xs) = ap (λ r. x ∷ r) (take-append-drop n xs)

  pub List-cases : (xs : List A) → (xs ≡ []) ⊎ ((x : A) × (rest : List A) × (xs ≡ x ∷ rest))
  List-cases [] = inl refl
  List-cases (x ∷ xs) = inr (x, xs, refl)

  pub Memᴰ-cons : (a x : A) (xs : List A) → Memᴰ a (x ∷ xs) ↔ ((a ≡ x) ⊎ Memᴰ a xs)
  Memᴰ-cons a x xs = (Memᴰ.cases_cons, ⊎_elim Memᴰ.head Memᴰ.tail)

  pub Memᴰ-append : (a : A) (xs ys : List A) → Memᴰ a (xs ++ ys) ↔ (Memᴰ a xs ⊎ Memᴰ a ys)
  Memᴰ-append a xs ys = (Memᴰ.append_cases xs, ⊎_elim (Memᴰ.append_left ys) (Memᴰ.append_right xs))

  pub Memᴰ-nil : (a : A) → Memᴰ a [] ↔ ⊥
  Memᴰ-nil a = (Memᴰ.not-nil, λ e. absurd e)

module _ {ℓ ℓ'} {A : Type ℓ} {B : Type ℓ'} where
  pub Memᴰ-map :
      (f : A → B) (xs : List A) (y : B) → Memᴰ y (map f xs) ↔ ((x : A) × Memᴰ x xs × (y ≡ f x))
  Memᴰ-map f [] y = (λ m. absurd (Memᴰ.not-nil m), λ (x, m, _). absurd (Memᴰ.not-nil m))
  Memᴰ-map f (x ∷ xs) y = (
    λ m. elim ((Memᴰ-cons y (f x) (map f xs)).0 m) [
      | inl e ↦ (x, Memᴰ.head refl, e)
      | inr r ↦ let (z, i, e) = (Memᴰ-map f xs y).0 r in (z, Memᴰ.tail i, e)
    ],
    λ (z, i, e). (Memᴰ-cons y (f x) (map f xs)).1 (elim ((Memᴰ-cons z x xs).0 i) [
      | inl q ↦ inl (e ∙ ap f q)
      | inr r ↦ inr ((Memᴰ-map f xs y).1 (z, r, e))
    ]),
  )
