-- ===== src/Lsp/Columns.antt =====
-- internal/util/lsp/position.go: a column counted by `UTF16Len` is found again by the loop of
-- `OffsetForPosition`, and where that loop may end.
use gols_bash.Prelude.{
  ℕ, zero, suc, ◌+◌, ◌≤◌, ◌<◌, ◌≡◌, ◌≢◌, [], ◌∷◌, ◌++◌, Str, arith, length, drop, length-drop,
  drop-append,
}
use gols_bash.Lsp.{newline, utf8_rune_info, rune_step, column_loop, utf16_loop, utf16_len}

-- The text is a sequence of whole runes: none is cut off by the end.
abbrev pub WholeRunes : ℕ → Str → Type 0
WholeRunes zero [] = Unit
WholeRunes zero (b ∷ s) = ⊥
WholeRunes (suc fuel) [] = Unit
WholeRunes (suc fuel) (b ∷ s) =
    let size = (utf8_rune_info (b ∷ s)).0 in
    (size ≤ length (b ∷ s)) × WholeRunes fuel (drop size (b ∷ s))

abbrev pub IsWhole : Str → Type 0
IsWhole s = WholeRunes (length s) s

abbrev pub HasNoNewline : Str → Type 0
HasNoNewline [] = Unit
HasNoNewline (b ∷ s) = (b ≢ newline) × HasNoNewline s

HasNoNewline-drop : (n : ℕ) (s : Str) → HasNoNewline s → HasNoNewline (drop n s)
HasNoNewline-drop zero s h = h
HasNoNewline-drop (suc n) [] h = tt
HasNoNewline-drop (suc n) (b ∷ s) h = HasNoNewline-drop n s h.1

-- A rune takes one to four bytes and one or two UTF-16 units.
pub rune_bounds :
    (b : ℕ) (s : Str)
    → (1 ≤ (utf8_rune_info (b ∷ s)).0)
      × ((utf8_rune_info (b ∷ s)).0 ≤ 4)
      × (1 ≤ (utf8_rune_info (b ∷ s)).1)
      × ((utf8_rune_info (b ∷ s)).1 ≤ (utf8_rune_info (b ∷ s)).0)
unfolding utf8_rune_info
rune_bounds b s = ground arith

rune_step-append : (b : ℕ) (s rest : Str) → rune_step ((b ∷ s) ++ rest) ≡ utf8_rune_info (b ∷ s)
unfolding rune_step utf8_rune_info
rune_step-append b s rest = ground arith

le-utf16_loop : (fuel : ℕ) (s : Str) (total : ℕ) → total ≤ utf16_loop fuel s total
unfolding utf16_loop
le-utf16_loop zero s total = omega arith
le-utf16_loop (suc fuel) [] total = omega arith
le-utf16_loop (suc fuel) (b ∷ s) total = ground (
  arith,
  le-utf16_loop fuel (drop (utf8_rune_info (b ∷ s)).0 (b ∷ s)) (total + (utf8_rune_info (b ∷ s)).1),
)

utf16_loop-cons :
    (f b : ℕ) (s : Str) (total : ℕ)
    → utf16_loop (suc f) (b ∷ s) total
      ≡ utf16_loop f (drop (utf8_rune_info (b ∷ s)).0 (b ∷ s)) (total + (utf8_rune_info (b ∷ s)).1)
unfolding utf16_loop
utf16_loop-cons f b s total = ground (arith, rune_bounds b s)

-- One round of the loop at a rune that ends inside the text.
column_loop-cons :
    (g b : ℕ) (s rest : Str) (cur u16 c : ℕ)
    → u16 < c
    → b ≢ newline
    → (utf8_rune_info (b ∷ s)).0 ≤ length (b ∷ s)
    → column_loop (suc g) ((b ∷ s) ++ rest) cur u16 c
      ≡ column_loop g
          (drop (utf8_rune_info (b ∷ s)).0 (b ∷ s) ++ rest)
          (cur + (utf8_rune_info (b ∷ s)).0)
          (u16 + (utf8_rune_info (b ∷ s)).1)
          c
column_loop-cons g b s rest cur u16 c lt ne fits =
    rw (← drop-append (utf8_rune_info (b ∷ s)).0 (b ∷ s) rest fits, ← rune_step-append b s rest)
      (unfold column_loop in ground arith)

-- The loop stops after exactly the bytes whose UTF-16 units it is asked for.
pub column_loop-utf16_loop :
    (f g : ℕ) (s rest : Str) (cur u16 : ℕ)
    → WholeRunes f s
    → HasNoNewline s
    → length s ≤ g
    → column_loop g (s ++ rest) cur u16 (utf16_loop f s u16) ≡ cur + length s
column_loop-utf16_loop zero zero [] rest cur u16 w n l =
    unfold utf16_loop column_loop in omega arith
column_loop-utf16_loop zero (suc g) [] [] cur u16 w n l =
    unfold utf16_loop column_loop in omega arith
column_loop-utf16_loop zero (suc g) [] (c ∷ rest) cur u16 w n l =
    unfold utf16_loop column_loop in ground arith
column_loop-utf16_loop zero g (b ∷ s) rest cur u16 w n l = absurd w
column_loop-utf16_loop (suc f) zero [] rest cur u16 w n l =
    unfold utf16_loop column_loop in omega arith
column_loop-utf16_loop (suc f) (suc g) [] [] cur u16 w n l =
    unfold utf16_loop column_loop in omega arith
column_loop-utf16_loop (suc f) (suc g) [] (c ∷ rest) cur u16 w n l =
    unfold utf16_loop column_loop in ground arith
column_loop-utf16_loop (suc f) zero (b ∷ s) rest cur u16 w n l = elim l [ ]
column_loop-utf16_loop (suc f) (suc g) (b ∷ s) rest cur u16 w n l =
    let size = (utf8_rune_info (b ∷ s)).0 in
    let units = (utf8_rune_info (b ∷ s)).1 in
    let tail = drop size (b ∷ s) in
    let no_newline = HasNoNewline-drop size (b ∷ s) n in
    let bounds = rune_bounds b s in
    let later =
      column_loop-utf16_loop f g tail rest (cur + size) (u16 + units) w.1 no_newline
        (omega (arith, length-drop size (b ∷ s))) in
    let more = le-utf16_loop f tail (u16 + units) in
    let e = utf16_loop-cons f b s u16 in
    rw
      (
        e,
        column_loop-cons g b s rest cur u16 (utf16_loop f tail (u16 + units)) (omega arith) n.0 w.0,
        later,
      )
      (omega (arith, length-drop size (b ∷ s)))

-- A text of whole runes has no more UTF-16 units than bytes.
pub utf16_loop-le :
    (f : ℕ) (s : Str) (total : ℕ) → WholeRunes f s → utf16_loop f s total ≤ total + length s
utf16_loop-le zero [] total w = unfold utf16_loop in omega arith
utf16_loop-le zero (b ∷ s) total w = absurd w
utf16_loop-le (suc f) [] total w = unfold utf16_loop in omega arith
utf16_loop-le (suc f) (b ∷ s) total w =
    let size = (utf8_rune_info (b ∷ s)).0 in
    let units = (utf8_rune_info (b ∷ s)).1 in
    let fits = w.0 in
    rw (utf16_loop-cons f b s total) (
      omega (
        arith,
        utf16_loop-le f (drop size (b ∷ s)) (total + units) w.1,
        rune_bounds b s,
        length-drop size (b ∷ s),
      ))

pub utf16_len-le : (s : Str) → IsWhole s → utf16_len s ≤ length s
unfolding utf16_len
utf16_len-le s w = omega (arith, utf16_loop-le (length s) s 0 w)
