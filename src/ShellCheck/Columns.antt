-- ===== src/ShellCheck/Columns.antt =====
-- internal/server/diagnostics.go, `shellCheckPosition`: columns that count code points.
use gols_bash.Prelude.{
  ℕ, zero, suc, ◌+◌, ◌≤◌, ◌<◌, ◌≡◌, refl, ap, ◌∙◌, ◌≢◌, inl, inr, true, false, [], ◌∷◌, ◌++◌, List,
  Str, arith, Bool-cases, pos, is_positive, to_uint, ◌==◌, if◌then◌else◌, length, get_or, take,
  drop, length-append, append-nil, sym, take-append_self, drop-append_self, append_assoc, runes,
  encode_runes, runes-encode_runes, encode_runes-append, AreRunes,
}
use gols_bash.Lsp.{newline}
use gols_bash.Lsp.Lines.{newlines, last_start, last_start-one}
use gols_bash.Lsp.Columns.{HasNoNewline}
use gols_bash.Positions.{PositionEncoding, utf8, utf16, utf32, at, pos_for_offset}
use gols_bash.Positions.RoundTrip.{column, pos_for_offset-eq}
use gols_bash.ShellCheck.{split_lines, shellcheck_position}

-- The text is empty or ends with a line end.
abbrev pub EndsLine : Str → Type 0
EndsLine [] = Unit
EndsLine (b ∷ []) = b ≡ newline
EndsLine (b ∷ c ∷ s) = EndsLine (c ∷ s)

-- The text is empty or starts with a line end.
abbrev pub StartsNewline : Str → Type 0
StartsNewline [] = Unit
StartsNewline (b ∷ s) = b ≡ newline

abbrev lines : Str → List Str
lines t = let (first, others) = split_lines t in first ∷ others

split_lines-line :
    (col rest : Str)
    → HasNoNewline col
    → split_lines (col ++ rest) ≡ (col ++ (split_lines rest).0, (split_lines rest).1)
unfolding split_lines
split_lines-line [] rest h = refl
split_lines-line (b ∷ col) rest h = ground (arith, split_lines-line col rest h.1)

split_lines-newline : (post : Str) → StartsNewline post → (split_lines post).0 ≡ []
unfolding split_lines
split_lines-newline [] h = refl
split_lines-newline (b ∷ post) h = ground arith

newlines-pos : (b : ℕ) (s : Str) → EndsLine (b ∷ s) → 1 ≤ newlines (b ∷ s)
newlines-pos b [] h = ground arith
newlines-pos b (c ∷ s) h = ground (arith, newlines-pos c s h)

lines-newline : (b : ℕ) (u : Str) → (b == newline) ≡ true → lines (b ∷ u) ≡ [] ∷ lines u
unfolding split_lines
lines-newline b u h = ground arith

lines-inside :
    (b : ℕ) (u : Str) (n : ℕ)
    → (b == newline) ≡ false
    → 1 ≤ n
    → (get_or (lines (b ∷ u)) n [] ≡ get_or (lines u) n [])
      × (length (lines (b ∷ u)) ≡ length (lines u))
unfolding split_lines
lines-inside b u zero h l = elim l [ ]
lines-inside b u (suc n) h l = ground arith

-- The line after a number of whole lines.
lines-after :
    (pre t : Str)
    → EndsLine pre
    → (get_or (lines (pre ++ t)) (newlines pre) [] ≡ (split_lines t).0)
      × (newlines pre < length (lines (pre ++ t)))
lines-after [] t h = (refl, omega arith)
lines-after (b ∷ []) t h =
    let e = lines-newline newline t refl in rw h (rw e refl, omega (arith, ap length e))
lines-after (b ∷ c ∷ s) t h =
    let (line, bound) = lines-after (c ∷ s) t h in
    let some_line = newlines-pos c s h in
    elim (Bool-cases (b == newline)) [
      | inl e ↦
          let more = lines-newline b ((c ∷ s) ++ t) e in
          (rw (e, more) line, rw e (omega (arith, ap length more)))
      | inr e ↦
          let (same, len) = lines-inside b ((c ∷ s) ++ t) (newlines (c ∷ s)) e some_line in
          rw (e, same, len) (line, bound)
    ]

newlines-line : (pre col : Str) → HasNoNewline col → newlines (pre ++ col) ≡ newlines pre
newlines-line [] [] h = refl
newlines-line [] (b ∷ col) h = ground (arith, newlines-line [] col h.1)
newlines-line (b ∷ pre) col h = ground (arith, newlines-line pre col h)

last_start-line :
    (pre col : Str) (i s : ℕ) → HasNoNewline col → last_start (pre ++ col) i s ≡ last_start pre i s
last_start-line [] col i s h = last_start-one col i s (newlines-line [] col h)
last_start-line (b ∷ pre) col i s h =
    last_start-line pre col (suc i) (if b == newline then suc i else s) h

last_start-EndsLine :
    (b : ℕ) (pre : Str) (i s : ℕ)
    → EndsLine (b ∷ pre)
    → last_start (b ∷ pre) i s ≡ i + length (b ∷ pre)
last_start-EndsLine b [] i s h = ground arith
last_start-EndsLine b (c ∷ pre) i s h =
    last_start-EndsLine c pre (suc i) (if b == newline then suc i else s) h ∙ omega arith

last_start-whole : (pre : Str) → EndsLine pre → last_start pre 0 0 ≡ length pre
last_start-whole [] h = refl
last_start-whole (b ∷ pre) h = last_start-EndsLine b pre 0 0 h ∙ omega arith

line_text :
    (pre col : Str)
    → EndsLine pre
    → HasNoNewline col
    → drop (last_start (pre ++ col) 0 0) (pre ++ col) ≡ col
line_text pre col e h =
    rw (last_start-line pre col 0 0 h, last_start-whole pre e) (drop-append_self pre col)

-- What `shellCheckPosition` computes where the line and the column are there.
shellcheck_position-at :
    (enc : PositionEncoding) (text : Str) (n c : ℕ) (rs : List ℕ)
    → n < length (lines text)
    → runes (get_or (lines text) n []) ≡ rs
    → c ≤ length rs
    → enc ≢ utf32
    → shellcheck_position text enc (pos (suc n)) (pos (suc c))
      ≡ at n (column enc (encode_runes (take c rs)))
unfolding shellcheck_position is_positive to_uint
shellcheck_position-at utf8 text n c rs l e h ne = ground arith
shellcheck_position-at utf16 text n c rs l e h ne = ground arith
shellcheck_position-at utf32 text n c rs l e h ne = absurd (ne refl)

-- ShellCheck counts lines and code points from 1. On a line of Unicode text, the position that
-- `shellCheckPosition` makes of them is the one that the server itself gives the byte there. The
-- client has chosen UTF-16 or UTF-8.
pub shellcheck_position-pos_for_offset :
    (enc : PositionEncoding) (pre : Str) (rs qs : List ℕ) (post : Str)
    → enc ≢ utf32
    → EndsLine pre
    → StartsNewline post
    → AreRunes (rs ++ qs)
    → HasNoNewline (encode_runes rs)
    → HasNoNewline (encode_runes qs)
    → shellcheck_position
        (pre ++ (encode_runes rs ++ (encode_runes qs ++ post)))
        enc
        (pos (suc (newlines pre)))
        (pos (suc (length rs)))
      ≡ pos_for_offset enc
          (pre ++ (encode_runes rs ++ (encode_runes qs ++ post)))
          (length pre + length (encode_runes rs))
shellcheck_position-pos_for_offset enc pre rs qs post ne ends starts valid no_nl no_nl' =
    let col = encode_runes rs in
    let tail = encode_runes qs ++ post in
    let (line, bound) = lines-after pre (col ++ tail) ends in
    let first = split_lines-line col tail no_nl in
    let second = split_lines-line (encode_runes qs) post no_nl' in
    let third = split_lines-newline post starts in
    let read : runes (get_or (lines (pre ++ (col ++ tail))) (newlines pre) []) ≡ rs ++ qs =
      rw (line, first, second, third, append-nil (encode_runes qs), ← encode_runes-append rs qs)
        (runes-encode_runes (rs ++ qs) valid) in
    let made =
      shellcheck_position-at enc (pre ++ (col ++ tail)) (newlines pre) (length rs) (rs ++ qs) bound
        read (omega (arith, length-append rs qs)) ne in
    let own = pos_for_offset-eq enc (pre ++ col) tail in
    rw (made, take-append_self rs qs)
      (sym (
        rw (← length-append pre col, ← append_assoc pre col tail)
          (own ∙ rw (newlines-line pre col no_nl, line_text pre col ends no_nl) refl)))
