-- ===== src/Positions.antt =====
-- internal/server/positions.go: positions under the negotiated encoding.
pub mod RoundTrip
use gols_bash.Prelude.{
  ℕ, zero, suc, ◌+◌, ◌-◌, ◌%◌, ◌^◌, ◌||◌, Bool, Option, List, [], ◌∷◌, Str, ltb, ◌==◌,
  if◌then◌else◌, length, take, drop, min,
}
use gols_bash.Lsp.{
  newline, slice, utf16_len, offset_for_position_bytes, offset_for_position as offset_utf16,
}
use gols_bash.Syntax.{Pos}

-- `PositionEncoding` of initialize.go.
pub data PositionEncoding : Type 0 where
  utf16 utf8 utf32 : PositionEncoding

pub record Position : Type 0 where
  pub line : ℕ
  pub character : ℕ

pub record Range : Type 0 where
  pub start : Position
  pub stop : Position

-- The conversion `uint32(n)`.
abbrev pub uint32 : ℕ → ℕ
uint32 n = n % 2 ^ 32

abbrev pub at : ℕ → ℕ → Position
at line character = record { line = uint32 line; character = uint32 character }

-- Byte offsets under UTF-8, and UTF-16 units under any other encoding.
unfoldable pub offset_for_position : PositionEncoding → Str → ℕ → ℕ → Option ℕ
offset_for_position utf8 text line character = offset_for_position_bytes text line character
offset_for_position utf16 text line character = offset_utf16 text line character
offset_for_position utf32 text line character = offset_utf16 text line character

unfoldable pub pos_to_lsp : PositionEncoding → Str → Pos → Position
pos_to_lsp enc text p =
    let line = p.line - 1 in
    let col = p.col - 1 in
    elim enc [
      | utf8 ↦ at line col
      | _ ↦
          if ltb p.offset col || ltb (length text) p.offset
          then at line col
          else at line (utf16_len (slice text (p.offset - col) p.offset))
    ]

unfoldable pub range_to_lsp : PositionEncoding → Str → Pos → Pos → Range
range_to_lsp enc text start stop = record {
  start = pos_to_lsp enc text start;
  stop = pos_to_lsp enc text stop;
}

-- The loop over text[0:off]: the list is text[i:off].
unfoldable pub line_scan : Str → ℕ → ℕ → ℕ → ℕ × ℕ
line_scan [] i line line_start = (line, line_start)
line_scan (b ∷ rest) i line line_start =
    line_scan rest (suc i) (if b == newline then suc line else line)
      (if b == newline then suc i else line_start)

unfoldable pub pos_for_offset : PositionEncoding → Str → ℕ → Position
unfolding line_scan
pos_for_offset enc text off =
    let off' = min off (length text) in
    let (line, line_start) = line_scan (take off' text) 0 0 0 in
    let col_text = slice text line_start off' in
    elim enc [ utf8 ↦ at line (length col_text) | _ ↦ at line (utf16_len col_text) ]
