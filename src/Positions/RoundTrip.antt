-- ===== src/Positions/RoundTrip.antt =====
-- internal/server/positions.go: the position of an offset leads back to the offset.
use native.Mathlib.Nat.{mod-eq_of_lt}
use gols_bash.Prelude.{
  ℕ, suc, ◌+◌, ◌%◌, ◌^◌, ◌≤◌, ◌<◌, ◌≡◌, refl, ap, ◌⊎◌, inl, inr, [], ◌∷◌, ◌++◌, Str, arith, some,
  min, length, take, drop, length-take, length-drop, length-append, drop-append, take-append_self,
  take-append-drop, ◌==◌, if◌then◌else◌, ◌∙◌,
}
use gols_bash.Lsp.{
  newline, slice, utf16_len, offset_for_position_bytes, line_start, column_loop,
  offset_for_position as offset_utf16,
}
use gols_bash.Lsp.Lines.{newlines, last_start, line_start-prefix, newlines-le, last_line}
use gols_bash.Lsp.Columns.{IsWhole, utf16_len-le, column_loop-utf16_loop}
use gols_bash.Positions.{
  PositionEncoding, utf8, utf16, utf32, at, offset_for_position, line_scan, pos_for_offset,
}

line_scan-eq : (p : Str) (i l s : ℕ) → line_scan p i l s ≡ (l + newlines p, last_start p i s)
unfolding line_scan
line_scan-eq [] i l s = ground arith
line_scan-eq (b ∷ p) i l s = ground (
  arith,
  line_scan-eq p (suc i) (if b == newline then suc l else l) (if b == newline then suc i else s),
)

slice-prefix : (p rest : Str) (k : ℕ) → k ≤ length p → slice (p ++ rest) k (length p) ≡ drop k p
slice-prefix p rest k h =
    rw (drop-append k p rest h, ← length-drop k p) (take-append_self (drop k p) rest)

-- The position under either count of columns, by the text before the offset on its line.
abbrev pub column : PositionEncoding → Str → ℕ
column utf8 s = length s
column utf16 s = utf16_len s
column utf32 s = utf16_len s

pos_for_offset-column :
    (enc : PositionEncoding) (text : Str) (off : ℕ)
    → pos_for_offset enc text off ≡ (
        let off' = min off (length text) in
        let (line, line_start) = line_scan (take off' text) 0 0 0 in
        at line (column enc (slice text line_start off')))
unfolding pos_for_offset
pos_for_offset-column utf8 text off = refl
pos_for_offset-column utf16 text off = refl
pos_for_offset-column utf32 text off = refl

pub pos_for_offset-eq :
    (enc : PositionEncoding) (p rest : Str)
    → pos_for_offset enc (p ++ rest) (length p)
      ≡ at (newlines p) (column enc (drop (last_start p 0 0) p))
pos_for_offset-eq enc p rest =
    let m : min (length p) (length (p ++ rest)) ≡ length p = omega (arith, length-append p rest) in
    let t = take-append_self p rest in
    let scan = line_scan-eq p 0 0 0 in
    let text = slice-prefix p rest (last_start p 0 0) (last_line p).0 in
    rw (pos_for_offset-column, m, t, scan, text)
      (ap (λ n. at n (column enc (drop (last_start p 0 0) p))) (omega arith))

offset_bytes-of :
    (text : Str) (line cur c : ℕ)
    → line_start text line ≡ some cur
    → cur + c ≤ length text
    → offset_for_position_bytes text line c ≡ some (cur + c)
unfolding offset_for_position_bytes
offset_bytes-of text line cur c e h = ground arith

offset_utf16-of :
    (text : Str) (line cur c : ℕ)
    → line_start text line ≡ some cur
    → offset_utf16 text line c ≡ some (column_loop (length (drop cur text)) (drop cur text) cur 0 c)
unfolding offset_utf16
offset_utf16-of text line cur c e = ground arith

-- The position that `posForOffset` computes, with line and column fitting 32 bits.
module _ (p rest : Str) (small : length (p ++ rest) < 2 ^ 32) where
  line_fits : newlines p % 2 ^ 32 ≡ newlines p
  line_fits = mod-eq_of_lt (omega (arith, newlines-le p, length-append p rest))

  abbrev col_text : Str
  col_text = drop (last_start p 0 0) p

  length-col_text : last_start p 0 0 + length col_text ≡ length p
  length-col_text = omega (arith, length-drop (last_start p 0 0) p, last_line p)

  bytes_back :
      offset_for_position_bytes (p ++ rest) (newlines p % 2 ^ 32) (length col_text % 2 ^ 32)
      ≡ some (length p)
  bytes_back =
      let col : length col_text % 2 ^ 32 ≡ length col_text =
        mod-eq_of_lt (omega (arith, length-append p rest, length-col_text)) in
      rw (line_fits, col)
        (offset_bytes-of (p ++ rest) (newlines p) (last_start p 0 0) (length col_text)
            (line_start-prefix p rest) (omega (arith, length-append p rest, length-col_text))
          ∙ ap some length-col_text)

  utf16_back :
      IsWhole col_text
      → offset_utf16 (p ++ rest) (newlines p % 2 ^ 32) (utf16_len col_text % 2 ^ 32)
        ≡ some (length p)
  utf16_back w =
      let col : utf16_len col_text % 2 ^ 32 ≡ utf16_len col_text =
        mod-eq_of_lt
          (omega (arith, utf16_len-le col_text w, length-append p rest, length-col_text)) in
      let text = drop-append (last_start p 0 0) p rest (last_line p).0 in
      let back =
        column_loop-utf16_loop (length col_text) (length (col_text ++ rest)) col_text rest
          (last_start p 0 0) 0 w (last_line p).1 (omega (arith, length-append col_text rest)) in
      rw (line_fits, col)
        (offset_utf16-of (p ++ rest) (newlines p) (last_start p 0 0) (utf16_len col_text)
            (line_start-prefix p rest)
          ∙ rw text (ap some (unfold utf16_len in back ∙ length-col_text)))

back_at :
    (enc : PositionEncoding) (p rest : Str) (small : length (p ++ rest) < 2 ^ 32)
    → (enc ≡ utf8) ⊎ IsWhole (drop (last_start p 0 0) p)
    → offset_for_position enc
        (p ++ rest)
        (pos_for_offset enc (p ++ rest) (length p)).line
        (pos_for_offset enc (p ++ rest) (length p)).character
      ≡ some (length p)
back_at utf8 p rest small w =
    rw (pos_for_offset-eq utf8 p rest) (unfold offset_for_position in bytes_back p rest small)
back_at utf16 p rest small (inl e) = cc
back_at utf16 p rest small (inr w) =
    rw (pos_for_offset-eq utf16 p rest) (unfold offset_for_position in utf16_back p rest small w)
back_at utf32 p rest small (inl e) = cc
back_at utf32 p rest small (inr w) =
    rw (pos_for_offset-eq utf32 p rest) (unfold offset_for_position in utf16_back p rest small w)

-- The text that stands before an offset on its line.
abbrev pub line_before : Str → ℕ → Str
line_before text off = let p = take off text in drop (last_start p 0 0) p

-- The position that the server computes for an offset of the text leads back to that offset: under
-- UTF-8 always, and under UTF-16 (and UTF-32, which is counted the same way) where the text before
-- the offset on its line is a sequence of whole runes. The text is smaller than 4 GiB.
pub offset_for_position-pos_for_offset :
    (enc : PositionEncoding) (text : Str) (off : ℕ)
    → off ≤ length text
    → length text < 2 ^ 32
    → (enc ≡ utf8) ⊎ IsWhole (line_before text off)
    → offset_for_position enc text
        (pos_for_offset enc text off).line
        (pos_for_offset enc text off).character
      ≡ some off
offset_for_position-pos_for_offset enc text off h small w =
    let l : length (take off text) ≡ off = omega (arith, length-take off text) in
    let e = take-append-drop off text in
    let small' : length (take off text ++ drop off text) < 2 ^ 32 = rw e small in
    rw (e, l) at (back_at enc (take off text) (drop off text) small' w)
