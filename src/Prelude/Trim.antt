-- ===== src/Prelude/Trim.antt =====
-- `strings.TrimSpace`, `strings.Cut` and the lines of a `bufio.Scanner`.
use Prim.Native.Nat.{ℕ, zero, suc}
use mathlib.Core.Bool.{Bool, ◌||◌}
use mathlib.Core.Option.{Option, none, some}
use mathlib.Core.List.{List, [], ◌∷◌}
use gols_bash.Prelude.Tests.{ltb, ◌==◌, if◌then◌else◌}
use gols_bash.Prelude.Lists.{length, drop}
use gols_bash.Prelude.Text.{Str, has_prefix}

abbrev pub reverse : Str → Str → Str
reverse [] out = out
reverse (b ∷ s) out = reverse s (b ∷ out)

-- The white space of Unicode beyond ASCII, as bytes in UTF-8: U+0085, U+00A0, U+1680, U+2000 to
-- U+200A, U+2028, U+2029, U+202F, U+205F and U+3000.
abbrev wide_spaces : List Str
wide_spaces =
    (0xC2 ∷ 0x85 ∷ [])
    ∷ (0xC2 ∷ 0xA0 ∷ [])
    ∷ (0xE1 ∷ 0x9A ∷ 0x80 ∷ [])
    ∷ (0xE2 ∷ 0x80 ∷ 0x80 ∷ [])
    ∷ (0xE2 ∷ 0x80 ∷ 0x81 ∷ [])
    ∷ (0xE2 ∷ 0x80 ∷ 0x82 ∷ [])
    ∷ (0xE2 ∷ 0x80 ∷ 0x83 ∷ [])
    ∷ (0xE2 ∷ 0x80 ∷ 0x84 ∷ [])
    ∷ (0xE2 ∷ 0x80 ∷ 0x85 ∷ [])
    ∷ (0xE2 ∷ 0x80 ∷ 0x86 ∷ [])
    ∷ (0xE2 ∷ 0x80 ∷ 0x87 ∷ [])
    ∷ (0xE2 ∷ 0x80 ∷ 0x88 ∷ [])
    ∷ (0xE2 ∷ 0x80 ∷ 0x89 ∷ [])
    ∷ (0xE2 ∷ 0x80 ∷ 0x8A ∷ [])
    ∷ (0xE2 ∷ 0x80 ∷ 0xA8 ∷ [])
    ∷ (0xE2 ∷ 0x80 ∷ 0xA9 ∷ [])
    ∷ (0xE2 ∷ 0x80 ∷ 0xAF ∷ [])
    ∷ (0xE2 ∷ 0x81 ∷ 0x9F ∷ [])
    ∷ (0xE3 ∷ 0x80 ∷ 0x80 ∷ [])
    ∷ []

abbrev reversed : List Str → List Str
reversed [] = []
reversed (s ∷ ss) = reverse s [] ∷ reversed ss

-- Space, tab, line feed, vertical tab, form feed and carriage return.
abbrev is_ascii_space : ℕ → Bool
is_ascii_space b = b == 32 || b == 9 || b == 10 || b == 11 || b == 12 || b == 13

-- The bytes of the first of the sequences that the text starts with, or 0.
abbrev wide_size : List Str → Str → ℕ
wide_size [] s = 0
wide_size (w ∷ ws) s = if has_prefix s w then length w else wide_size ws s

abbrev space_size : List Str → Str → ℕ
space_size wide [] = 0
space_size wide (b ∷ s) = if is_ascii_space b then 1 else wide_size wide (b ∷ s)

-- Each round drops a byte at least, so the length of the text is fuel enough.
unfoldable pub trim_loop : List Str → ℕ → Str → Str
unfolding has_prefix
trim_loop wide zero s = s
trim_loop wide (suc fuel) s =
    let size = space_size wide s in
    let rest = trim_loop wide fuel (drop size s) in if size == 0 then s else rest

unfoldable pub trim_left : Str → Str
unfolding trim_loop
trim_left s = trim_loop wide_spaces (length s) s

unfoldable pub trim_right : Str → Str
unfolding trim_loop
trim_right s = reverse (trim_loop (reversed wide_spaces) (length s) (reverse s [])) []

-- `strings.TrimSpace`
unfoldable pub trim_space : Str → Str
unfolding trim_left trim_right
trim_space s = trim_right (trim_left s)

-- `strings.Cut(s, "=")` by the byte: what is before and after the first, if there is one.
unfoldable pub cut : ℕ → Str → Option (Str × Str)
cut c [] = none
cut c (b ∷ s) =
    let later = cut c s in
    if b == c
    then some ([], s)
    else elim later [ none ↦ none | some (before, after) ↦ some (b ∷ before, after) ]

-- A carriage return at the end of a line is dropped.
abbrev drop_cr : Str → Str
drop_cr [] = []
drop_cr (b ∷ []) = if b == 13 then [] else b ∷ []
drop_cr (b ∷ c ∷ s) = b ∷ drop_cr (c ∷ s)

-- `bufio.Scanner` stops at a line that does not fit its buffer of 64 KiB.
abbrev max_line : ℕ
max_line = 65535

-- The lines of the text, where `acc` is what was read of the first one, the last byte first.
unfoldable pub scan_lines : Str → Str → List Str
scan_lines acc [] = elim acc [
  | [] ↦ []
  | b ∷ line ↦ if ltb max_line (length (b ∷ line)) then [] else drop_cr (reverse (b ∷ line) []) ∷ []
]
scan_lines acc (b ∷ s) =
    let rest = scan_lines (if b == 10 then [] else b ∷ acc) s in
    if b == 10
    then (if ltb max_line (length acc) then [] else drop_cr (reverse acc []) ∷ rest)
    else rest
