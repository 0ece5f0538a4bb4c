-- ===== src/Prelude/Runes.antt =====
-- UTF-8 as the Go language has it: the conversions `[]rune(s)` and `string(rs)`.
use Prim.Native.Nat.{ℕ, zero, suc, ◌+◌, ◌-◌, ◌*◌, ◌/◌, ◌%◌, ◌≤◌}
use mathlib.Core.Path.{◌≡◌, refl}
use mathlib.Core.Bool.{Bool, true, ◌&&◌, ◌||◌}
use native.Mathlib.Omega.{arith}
use mathlib.Core.List.{List, [], ◌∷◌, ◌++◌, append_assoc}
use gols_bash.Prelude.Tests.{ltb, leb, ◌==◌, if◌then◌else◌}
use gols_bash.Prelude.Lists.{length, drop, length-append, drop-append_self}
use gols_bash.Prelude.Text.{Str}

-- `unicode.ReplacementChar`
abbrev pub rune_error : ℕ
rune_error = 0xFFFD

-- A continuation byte.
abbrev is_cont : ℕ → Bool
is_cont b = leb 0x80 b && leb b 0xBF

abbrev invalid : ℕ × ℕ
invalid = (rune_error, 1)

abbrev decode_two : ℕ → Str → ℕ × ℕ
decode_two b0 [] = invalid
decode_two b0 (b1 ∷ _) = if is_cont b1 then ((b0 - 0xC0) * 0x40 + (b1 - 0x80), 2) else invalid

-- The second byte of a longer rune has a range of its own.
abbrev decode_three : ℕ → ℕ → ℕ → Str → ℕ × ℕ
decode_three lo hi b0 [] = invalid
decode_three lo hi b0 (b1 ∷ []) = invalid
decode_three lo hi b0 (b1 ∷ b2 ∷ _) =
    if leb lo b1 && leb b1 hi && is_cont b2
    then ((b0 - 0xE0) * 0x1000 + (b1 - 0x80) * 0x40 + (b2 - 0x80), 3)
    else invalid

abbrev decode_four : ℕ → ℕ → ℕ → Str → ℕ × ℕ
decode_four lo hi b0 [] = invalid
decode_four lo hi b0 (b1 ∷ []) = invalid
decode_four lo hi b0 (b1 ∷ b2 ∷ []) = invalid
decode_four lo hi b0 (b1 ∷ b2 ∷ b3 ∷ _) =
    if leb lo b1 && leb b1 hi && is_cont b2 && is_cont b3
    then ((b0 - 0xF0) * 0x40000 + (b1 - 0x80) * 0x1000 + (b2 - 0x80) * 0x40 + (b3 - 0x80), 4)
    else invalid

-- The first rune of a text and the bytes it takes; a byte that starts no rune stands alone.
unfoldable pub decode_rune : Str → ℕ × ℕ
decode_rune [] = (rune_error, 0)
decode_rune (b ∷ s) =
    if ltb b 0x80
    then (b, 1)
    else if ltb b 0xC2
    then invalid
    else if ltb b 0xE0
    then decode_two b s
    else if b == 0xE0
    then decode_three 0xA0 0xBF b s
    else if b == 0xED
    then decode_three 0x80 0x9F b s
    else if ltb b 0xF0
    then decode_three 0x80 0xBF b s
    else if b == 0xF0
    then decode_four 0x90 0xBF b s
    else if ltb b 0xF4
    then decode_four 0x80 0xBF b s
    else if b == 0xF4
    then decode_four 0x80 0x8F b s
    else invalid

-- Each rune takes a byte at least, so the length of the text is fuel enough.
unfoldable pub runes_loop : ℕ → Str → List ℕ
unfolding decode_rune
runes_loop zero s = []
runes_loop (suc fuel) [] = []
runes_loop (suc fuel) (b ∷ s) =
    let (r, size) = decode_rune (b ∷ s) in r ∷ runes_loop fuel (drop size (b ∷ s))

-- `[]rune(s)`
unfoldable pub runes : Str → List ℕ
unfolding runes_loop
runes s = runes_loop (length s) s

-- Surrogates and numbers past U+10FFFF are no runes.
unfoldable pub is_rune : ℕ → Bool
is_rune r = ltb r 0xD800 || leb 0xE000 r && leb r 0x10FFFF

abbrev encode_valid : ℕ → Str
encode_valid r =
    if ltb r 0x80
    then r ∷ []
    else if ltb r 0x800
    then (0xC0 + r / 0x40) ∷ (0x80 + r % 0x40) ∷ []
    else if ltb r 0x10000
    then (0xE0 + r / 0x1000) ∷ (0x80 + r / 0x40 % 0x40) ∷ (0x80 + r % 0x40) ∷ []
    else (0xF0 + r / 0x40000)
      ∷ (0x80 + r / 0x1000 % 0x40)
      ∷ (0x80 + r / 0x40 % 0x40)
      ∷ (0x80 + r % 0x40)
      ∷ []

unfoldable pub encode_rune : ℕ → Str
unfolding is_rune
encode_rune r = if is_rune r then encode_valid r else encode_valid rune_error

-- `string(rs)`
unfoldable pub encode_runes : List ℕ → Str
unfolding encode_rune
encode_runes [] = []
encode_runes (r ∷ rs) = encode_rune r ++ encode_runes rs

-- A rune of the text is read back.
pub decode_rune-encode_rune :
    (r : ℕ) (s : Str)
    → is_rune r ≡ true
    → decode_rune (encode_rune r ++ s) ≡ (r, length (encode_rune r))
unfolding decode_rune encode_rune is_rune
decode_rune-encode_rune r s h = ground arith

-- A sequence of Unicode scalar values.
abbrev pub AreRunes : List ℕ → Type 0
AreRunes [] = Unit
AreRunes (r ∷ rs) = (is_rune r ≡ true) × AreRunes rs

length-encode_rune : (r : ℕ) → 1 ≤ length (encode_rune r)
unfolding encode_rune is_rune
length-encode_rune r = ground arith

runes_loop-cons :
    (fuel : ℕ) (s : Str) (r size : ℕ)
    → 1 ≤ length s
    → decode_rune s ≡ (r, size)
    → runes_loop (suc fuel) s ≡ r ∷ runes_loop fuel (drop size s)
unfolding runes_loop
runes_loop-cons fuel [] r size l e = elim l [ ]
runes_loop-cons fuel (b ∷ s) r size l e = rw e

runes_loop-encode_runes :
    (fuel : ℕ) (rs : List ℕ)
    → AreRunes rs
    → length (encode_runes rs) ≤ fuel
    → runes_loop fuel (encode_runes rs) ≡ rs
unfolding encode_runes
runes_loop-encode_runes zero [] h l = unfold runes_loop in refl
runes_loop-encode_runes (suc fuel) [] h l = unfold runes_loop in refl
runes_loop-encode_runes zero (r ∷ rs) h l =
    absurd (omega (arith, length-encode_rune r, length-append (encode_rune r) (encode_runes rs)))
runes_loop-encode_runes (suc fuel) (r ∷ rs) h l =
    let bound = length-encode_rune r in
    let split = length-append (encode_rune r) (encode_runes rs) in
    rw (
      runes_loop-cons fuel (encode_rune r ++ encode_runes rs) r (length (encode_rune r))
          (omega arith) (decode_rune-encode_rune r (encode_runes rs) h.0),
      drop-append_self (encode_rune r) (encode_runes rs),
      runes_loop-encode_runes fuel rs h.1 (omega arith),
    )

-- Encoding and decoding are inverse on scalar values.
pub runes-encode_runes : (rs : List ℕ) → AreRunes rs → runes (encode_runes rs) ≡ rs
unfolding runes
runes-encode_runes rs h = runes_loop-encode_runes (length (encode_runes rs)) rs h (omega arith)

pub encode_runes-append :
    (rs qs : List ℕ) → encode_runes (rs ++ qs) ≡ encode_runes rs ++ encode_runes qs
unfolding encode_runes
encode_runes-append [] qs = refl
encode_runes-append (r ∷ rs) qs =
    rw (encode_runes-append rs qs, append_assoc (encode_rune r) (encode_runes rs) (encode_runes qs))
