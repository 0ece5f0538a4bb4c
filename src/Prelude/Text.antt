-- ===== src/Prelude/Text.antt =====
-- Go strings are byte sequences: lists of numbers, compared byte by byte.
use Prim.Native.Nat.{ℕ}
use Prim.Native.Char.{code}
use Prim.Native.String.{String}
use mathlib.Core.Path.{◌≡◌, refl, ap, ◌∙◌}
use mathlib.Core.Logic.{◌↔◌, ◌⊎◌, inl, inr}
use mathlib.Core.Bool.{Bool, true, false, ◌&&◌, ◌||◌}
use mathlib.Core.List.{List, [], ◌∷◌, ◌++◌, Memᴰ}
use mathlib.Core.List.Memᴰ
use native.Mathlib.Omega.{arith}
use gols_bash.Prelude.Tests.{Bool-cases, ◌==◌, ==_iff, if◌then◌else◌}
use gols_bash.Prelude.Lists.{Memᴰ-cons}

abbrev pub Str : Type 0
Str = List ℕ

-- The bytes of an ASCII literal.
abbrev pub bytes : String → Str
bytes String.[] = []
bytes (String.◌∷◌ c s) = code c ∷ bytes s

unfoldable pub str_eq : Str → Str → Bool
str_eq [] [] = true
str_eq [] (b ∷ t) = false
str_eq (a ∷ s) [] = false
str_eq (a ∷ s) (b ∷ t) = a == b && str_eq s t

pub str_eq_iff : (s t : Str) → (str_eq s t ≡ true) ↔ (s ≡ t)
unfolding str_eq
str_eq_iff [] [] = (λ _. refl, λ _. refl)
str_eq_iff [] (b ∷ t) = (λ e. cc, λ e. cc)
str_eq_iff (a ∷ s) [] = (λ e. cc, λ e. cc)
str_eq_iff (a ∷ s) (b ∷ t) = ground (arith, ==_iff a b, str_eq_iff s t)

pub str_eq_refl : (s : Str) → str_eq s s ≡ true
str_eq_refl s = (str_eq_iff s s).1 refl

pub Str-cases : (s t : Str) → (s ≡ t) ⊎ (str_eq s t ≡ false)
Str-cases s t = ground (arith, str_eq_iff s t)

-- Membership in a Go slice or set of strings.
unfoldable pub contains : List Str → Str → Bool
contains [] x = false
contains (y ∷ ys) x = str_eq y x || contains ys x

pub contains_iff : (ys : List Str) (x : Str) → (contains ys x ≡ true) ↔ Memᴰ x ys
unfolding contains
contains_iff [] x = (λ e. cc, λ m. absurd (Memᴰ.not-nil m))
contains_iff (y ∷ ys) x = ground (arith, str_eq_iff y x, contains_iff ys x, Memᴰ-cons x y ys)

pub contains-append :
    (xs ys : List Str) (x : Str) → contains (xs ++ ys) x ≡ (contains xs x || contains ys x)
unfolding contains
contains-append [] ys x = refl
contains-append (y ∷ xs) ys x = ground (arith, contains-append xs ys x)

-- `strings.HasPrefix`.
unfoldable pub has_prefix : Str → Str → Bool
has_prefix s [] = true
has_prefix [] (b ∷ p) = false
has_prefix (a ∷ s) (b ∷ p) = a == b && has_prefix s p

pub has_prefix_iff : (s p : Str) → (has_prefix s p ≡ true) ↔ ((r : Str) × (s ≡ p ++ r))
unfolding has_prefix
has_prefix_iff s [] = (λ _. (s, refl), λ _. refl)
has_prefix_iff [] (b ∷ p) = (λ e. cc, λ (r, e). cc)
has_prefix_iff (a ∷ s) (b ∷ p) = (
  λ e.
      let (r, q) = (has_prefix_iff s p).0 (ground arith) in
      let h : a ≡ b = (==_iff a b).0 (ground arith) in (r, cc),
  λ (r, e). ground (arith, ==_iff a b, (has_prefix_iff s p).1 (r, cc)),
)

-- `strings.Contains`.
unfoldable pub has_infix : Str → Str → Bool
unfolding has_prefix
has_infix [] t = has_prefix [] t
has_infix (b ∷ s) t = has_prefix (b ∷ s) t || has_infix s t

prefix_infix : (s t : Str) → has_prefix s t ≡ true → has_infix s t ≡ true
unfolding has_infix
prefix_infix [] t h = h
prefix_infix (b ∷ s) t h = ground arith

infix_within : (front t back : Str) → has_infix (front ++ t ++ back) t ≡ true
unfolding has_infix
infix_within [] t back = prefix_infix (t ++ back) t ((has_prefix_iff (t ++ back) t).1 (back, refl))
infix_within (b ∷ front) t back = ground (arith, infix_within front t back)

-- Which texts contain another.
pub has_infix_iff :
    (s t : Str) → (has_infix s t ≡ true) ↔ ((front : Str) × (back : Str) × (s ≡ front ++ t ++ back))
unfolding has_infix
has_infix_iff [] t = (
  λ h. let (back, e) = (has_prefix_iff [] t).0 h in ([], back, e),
  λ (front, back, e). (ap (λ r. has_infix r t) e) ∙ infix_within front t back,
)
has_infix_iff (b ∷ s) t = (
  λ h. elim (Bool-cases (has_prefix (b ∷ s) t)) [
    | inl here ↦ let (back, e) = (has_prefix_iff (b ∷ s) t).0 here in ([], back, e)
    | inr away ↦
        let (front, back, e) = (has_infix_iff s t).0 (ground arith) in
        (b ∷ front, back, ap (λ r. b ∷ r) e)
  ],
  λ (front, back, e). (ap (λ r. has_infix r t) e) ∙ infix_within front t back,
)

-- s[:i] where `i` is `strings.IndexByte(s, c)`, and all of `s` where the byte does not occur.
unfoldable pub before_byte : ℕ → Str → Str
before_byte c [] = []
before_byte c (b ∷ s) = let rest = before_byte c s in if b == c then [] else b ∷ rest
