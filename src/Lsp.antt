-- ===== src/Lsp.antt =====
-- internal/util/lsp/position.go: words and positions in a text. A text is its bytes. Offsets are
-- natural numbers and a negative result is `none`: every caller passes an `int(uint32)`, and tests
-- for -1 before it goes on.
pub mod Words
pub mod Lines
pub mod Columns
use gols_bash.Prelude.{
  ℕ, zero, suc, ◌+◌, ◌-◌, not, ◌≡◌, refl, Bool, true, false, ◌&&◌, ◌||◌, Option, none, some, List,
  [], ◌∷◌, Str, ltb, leb, ◌==◌, if◌then◌else◌, length, get_or, take, drop,
}

abbrev pub newline : ℕ
newline = 10

unfoldable pub is_word_char : ℕ → Bool
is_word_char b =
    if leb b'a' b && leb b b'z'
    then true
    else if leb b'A' b && leb b b'Z'
    then true
    else if leb b'0' b && leb b b'9'
    then true
    else b == b'_' || b == b'-' || b == b'.'

-- The bytes src[i:j].
abbrev pub slice : Str → ℕ → ℕ → Str
slice src i j = take (j - i) (drop i src)

-- The loop that moves `start` back; a read at `start - 1` lies inside the text.
unfoldable pub word_start : Str → ℕ → ℕ
word_start src zero = zero
word_start src (suc n) =
    let earlier = word_start src n in if is_word_char (get_or src n 0) then earlier else suc n

-- The loop that moves `end` on; the list is src[end:].
unfoldable pub word_end : Str → ℕ → ℕ
word_end [] e = e
word_end (b ∷ rest) e = let later = word_end rest (suc e) in if is_word_char b then later else e

pub record Word : Type 0 where
  pub word : Str
  pub start : ℕ
  pub stop : ℕ

unfoldable pub word_at_offset : Str → ℕ → Word
word_at_offset src off =
    if leb (length src) off || not (is_word_char (get_or src off 0))
    then record { word = []; start = 0; stop = 0 }
    else let s = word_start src off in
      let e = word_end (drop off src) off in record { word = slice src s e; start = s; stop = e }

-- The loop of `lineStart`; the list is src[cur:].
unfoldable pub line_loop : ℕ → Str → ℕ → ℕ → ℕ × ℕ
line_loop line [] cur cur_line = (cur, cur_line)
line_loop line (b ∷ rest) cur cur_line =
    let next = line_loop line rest (suc cur) (if b == newline then suc cur_line else cur_line) in
    if ltb cur_line line then next else (cur, cur_line)

-- The second result of the code is never read.
unfoldable pub line_start : Str → ℕ → Option ℕ
unfolding line_loop
line_start src line =
    let (cur, cur_line) = line_loop line src 0 0 in if cur_line == line then some cur else none

unfoldable pub offset_for_position_bytes : Str → ℕ → ℕ → Option ℕ
offset_for_position_bytes src line character = elim (line_start src line) [
  | none ↦ none
  | some cur ↦ if ltb (length src) (cur + character) then none else some (cur + character)
]

-- Byte length and UTF-16 length of the rune at the start of a text, by its first byte alone.
unfoldable pub utf8_rune_info : Str → ℕ × ℕ
utf8_rune_info [] = (0, 0)
utf8_rune_info (b0 ∷ _) =
    if ltb b0 0x80
    then (1, 1)
    else if ltb b0 0xC0
    then (1, 1)
    else if ltb b0 0xE0
    then (2, 1)
    else if ltb b0 0xF0
    then (3, 1)
    else (4, 2)

-- One round of the loop of `OffsetForPosition`: bytes and UTF-16 units to move on.
unfoldable pub rune_step : Str → ℕ × ℕ
unfolding utf8_rune_info
rune_step [] = (0, 0)
rune_step (b ∷ rest) = if ltb b 0x80 then (1, 1) else utf8_rune_info (b ∷ rest)

-- The loop of `OffsetForPosition`; the list is src[cur:], which is empty where `cur` has passed the
-- end of the text. Each round moves on, so `length` of the list is fuel enough.
unfoldable pub column_loop : ℕ → Str → ℕ → ℕ → ℕ → ℕ
column_loop zero rest cur u16 character = cur
column_loop (suc fuel) [] cur u16 character = cur
column_loop (suc fuel) (b ∷ rest) cur u16 character =
    let (size, units) = rune_step (b ∷ rest) in
    let next = column_loop fuel (drop size (b ∷ rest)) (cur + size) (u16 + units) character in
    if ltb u16 character then (if b == newline then cur else next) else cur

unfoldable pub offset_for_position : Str → ℕ → ℕ → Option ℕ
unfolding column_loop
offset_for_position src line character = elim (line_start src line) [
  | none ↦ none
  | some cur ↦ some (column_loop (length (drop cur src)) (drop cur src) cur 0 character)
]

-- The loop of `UTF16Len`; the list is s[i:], and a rune cut off at the end is counted whole.
unfoldable pub utf16_loop : ℕ → Str → ℕ → ℕ
utf16_loop zero s total = total
utf16_loop (suc fuel) [] total = total
utf16_loop (suc fuel) (b ∷ s) total =
    let (size, u16) = utf8_rune_info (b ∷ s) in
    let rest = utf16_loop fuel (drop size (b ∷ s)) (total + u16) in
    if size == 0 then total else rest

unfoldable pub utf16_len : Str → ℕ
unfolding utf16_loop
utf16_len s = utf16_loop (length s) s 0
