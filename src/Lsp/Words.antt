-- ===== src/Lsp/Words.antt =====
-- internal/util/lsp/position.go, `WordAtOffset`: the word is the longest run round the offset.
use native.Mathlib.Nat.{add-zero}
use gols_bash.Prelude.{
  ℕ, zero, suc, ◌+◌, ◌-◌, ◌≤◌, ◌<◌, ◌≡◌, refl, sym, ◌⊎◌, inl, inr, true, false, [], ◌∷◌, Str, arith,
  Bool-cases, length, get_or, drop, length-drop,
}
use gols_bash.Lsp.{is_word_char, slice, word_start, word_end, Word, word_at_offset}

-- Every byte of src[i:j] is a word byte.
abbrev pub IsWordRun : Str → ℕ → ℕ → Type 0
IsWordRun src i j = (k : ℕ) → i ≤ k → k < j → is_word_char (get_or src k 0) ≡ true

-- What the loops promise of a word round `off`.
pub record IsWordAt (src : Str) (off : ℕ) (w : Word) : Type 0 where
  pub starts_before : w.start ≤ off
  pub stops_after : off < w.stop
  pub in_text : w.stop ≤ length src
  pub text : w.word ≡ slice src w.start w.stop
  pub run : IsWordRun src w.start w.stop
  pub first : (k : ℕ) → suc k ≡ w.start → is_word_char (get_or src k 0) ≡ false
  pub last : (w.stop ≡ length src) ⊎ (is_word_char (get_or src w.stop 0) ≡ false)

pub word_start-le : (src : Str) (n : ℕ) → word_start src n ≤ n
unfolding word_start
word_start-le src zero = omega arith
word_start-le src (suc n) = ground (arith, word_start-le src n)

lt-suc-cases : (k n : ℕ) → k < suc n → (k ≡ n) ⊎ (k < n)
lt-suc-cases k n h = grind arith

lt-or-le : (k n : ℕ) → (k < n) ⊎ (n ≤ k)
lt-or-le k n = grind arith

pub word_start-run : (src : Str) (n : ℕ) → IsWordRun src (word_start src n) n
unfolding word_start
word_start-run src zero k h l = elim l [ ]
word_start-run src (suc n) k h l = elim (lt-suc-cases k n l) [
  | inl last ↦ rw last (ground (arith, word_start-le src n))
  | inr below ↦ ground (arith, word_start-run src n k)
]

pub word_start-first :
    (src : Str) (n k : ℕ) → suc k ≡ word_start src n → is_word_char (get_or src k 0) ≡ false
unfolding word_start
word_start-first src zero k e = absurd (omega arith)
word_start-first src (suc n) k e = ground (arith, word_start-first src n k)

pub get_or-drop : (src : Str) (e k : ℕ) → get_or (drop e src) k 0 ≡ get_or src (e + k) 0
get_or-drop src zero k = ground arith
get_or-drop [] (suc e) k = refl
get_or-drop (b ∷ src) (suc e) k =
    let q : suc e + k ≡ suc (e + k) = omega arith in rw (get_or-drop src e k, q)

word_end-bounds : (rest : Str) (e : ℕ) → (e ≤ word_end rest e) × (word_end rest e ≤ e + length rest)
unfolding word_end
word_end-bounds [] e = omega arith
word_end-bounds (b ∷ rest) e = ground (arith, word_end-bounds rest (suc e))

word_end-gt :
    (rest : Str) (e : ℕ)
    → 0 < length rest
    → is_word_char (get_or rest 0 0) ≡ true
    → e < word_end rest e
unfolding word_end
word_end-gt [] e l h = elim l [ ]
word_end-gt (b ∷ rest) e l h = ground (arith, word_end-bounds rest (suc e))

word_end-run :
    (rest : Str) (e k : ℕ) → e + k < word_end rest e → is_word_char (get_or rest k 0) ≡ true
unfolding word_end
word_end-run [] e k l = absurd (omega arith)
word_end-run (b ∷ rest) e zero l = ground arith
word_end-run (b ∷ rest) e (suc k) l = ground (arith, word_end-run rest (suc e) k)

word_end-last :
    (rest : Str) (e k : ℕ)
    → word_end rest e ≡ e + k
    → (k ≡ length rest) ⊎ (is_word_char (get_or rest k 0) ≡ false)
unfolding word_end
word_end-last [] e k h = inl (omega arith)
word_end-last (b ∷ rest) e zero h = ground (arith, word_end-bounds rest (suc e))
word_end-last (b ∷ rest) e (suc k) h =
    ground (arith, word_end-bounds rest (suc e), word_end-last rest (suc e) k)

module _ (src : Str) (off : ℕ) (inside : off < length src) where
  -- The word that the loops find where the guard passes.
  abbrev found : Word
  found = record {
    word = slice src (word_start src off) (word_end (drop off src) off);
    start = word_start src off;
    stop = word_end (drop off src) off;
  }

  end_bounds : (off ≤ found.stop) × (found.stop ≤ length src)
  end_bounds = omega (arith, word_end-bounds (drop off src) off, length-drop off src)

  found-run : IsWordRun src found.start found.stop
  found-run k h l = elim (lt-or-le k off) [
    | inl before ↦ word_start-run src off k h before
    | inr after ↦
        let e : off + (k - off) ≡ k = omega arith in
        let below : off + (k - off) < found.stop = omega arith in
        let hit = word_end-run (drop off src) off (k - off) below in rw (get_or-drop, e) at hit
  ]

  found-last : (found.stop ≡ length src) ⊎ (is_word_char (get_or src found.stop 0) ≡ false)
  found-last =
      let e : off + (found.stop - off) ≡ found.stop = omega (arith, end_bounds) in
      elim (word_end-last (drop off src) off (found.stop - off) (sym e)) [
        | inl all ↦ inl (omega (arith, end_bounds, length-drop off src))
        | inr hit ↦ inr (rw (get_or-drop, e) at hit)
      ]

  found-IsWordAt : is_word_char (get_or src off 0) ≡ true → IsWordAt src off found
  found-IsWordAt h = record {
    starts_before = word_start-le src off;
    stops_after =
        word_end-gt (drop off src) off (omega (arith, length-drop off src))
          (rw (get_or-drop src off 0, add-zero) h);
    in_text = end_bounds.1;
    text = refl;
    run = found-run;
    first = λ k e. word_start-first src off k e;
    last = found-last;
  }

past_guard :
    (src : Str) (off : ℕ) (inside : off < length src)
    → is_word_char (get_or src off 0) ≡ true
    → word_at_offset src off ≡ found src off inside
unfolding word_at_offset
past_guard src off inside h = ground arith

-- At an offset inside the text on a word byte, `WordAtOffset` returns the longest run of word bytes
-- round it, as bounds and as text; at any other offset it returns the empty word.
pub word_at_offset-longest :
    (src : Str) (off : ℕ)
    → IsWordAt src off (word_at_offset src off)
      ⊎ (word_at_offset src off ≡ record { word = []; start = 0; stop = 0 })
        × ((length src ≤ off) ⊎ (is_word_char (get_or src off 0) ≡ false))
unfolding word_at_offset
word_at_offset-longest src off = elim (lt-or-le off (length src)) [
  | inl inside ↦ elim (Bool-cases (is_word_char (get_or src off 0))) [
    | inl h ↦ inl (rw (past_guard src off inside h) (found-IsWordAt src off inside h))
    | inr h ↦ inr (ground arith)
  ]
  | inr past ↦ inr (ground arith)
]
