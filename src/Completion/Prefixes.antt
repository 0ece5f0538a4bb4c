-- ===== src/Completion/Prefixes.antt =====
-- internal/server/completion.go, `completionPrefix`: what is typed before the cursor.
use native.Mathlib.Nat.{add-zero}
use gols_bash.Prelude.{
  inl, inr, Bool-cases, ℕ, zero, suc, ◌-◌, ◌≤◌, ◌<◌, ◌≡◌, refl, sym, ap, ◌∙◌, true, false, [], ◌∷◌,
  Str, bytes, has_prefix, ltb, if◌then◌else◌, arith, length, get_or, take, drop,
}
use gols_bash.Lsp.{is_word_char, slice, word_start}
use gols_bash.Lsp.Words.{IsWordRun, word_start-le, word_start-run, word_start-first, get_or-drop}
use gols_bash.Completion.{is_completion_word_byte, prefix_start, completion_prefix}

word_byte_iff : (b : ℕ) → is_completion_word_byte b ≡ is_word_char b
unfolding is_completion_word_byte is_word_char
word_byte_iff b = ground arith

prefix_start-word_start : (src : Str) (n : ℕ) → prefix_start src n ≡ word_start src n
unfolding prefix_start word_start
prefix_start-word_start src zero = refl
prefix_start-word_start src (suc n) =
    ground (arith, word_byte_iff (get_or src n 0), prefix_start-word_start src n)

-- The offset, and the end of the text where it lies past it.
abbrev pub clamped : Str → ℕ → ℕ
clamped src off = if ltb (length src) off then length src else off

completion_prefix-eq :
    (src : Str) (off : ℕ)
    → completion_prefix src off ≡ (
      slice src (word_start src (clamped src off)) (clamped src off),
      word_start src (clamped src off),
    )
unfolding completion_prefix
completion_prefix-eq src off = rw (prefix_start-word_start src (clamped src off))

-- What the loop promises of the text before the cursor.
pub record IsPrefixAt (src : Str) (off : ℕ) (prefix : Str) (start : ℕ) : Type 0 where
  pub starts_before : start ≤ clamped src off
  pub text : prefix ≡ slice src start (clamped src off)
  pub run : IsWordRun src start (clamped src off)
  pub first : (k : ℕ) → suc k ≡ start → is_word_char (get_or src k 0) ≡ false

-- `completionPrefix` returns the longest run of word bytes of `WordAtOffset` that ends at the offset,
-- or at the end of the text where the offset lies past it.
pub completion_prefix-longest :
    (src : Str) (off : ℕ)
    → IsPrefixAt src off (completion_prefix src off).0 (completion_prefix src off).1
completion_prefix-longest src off = rw (completion_prefix-eq src off) (record {
  starts_before = word_start-le src (clamped src off);
  text = refl;
  run = word_start-run src (clamped src off);
  first = λ k e. word_start-first src (clamped src off) k e;
})

take_head :
    (n : ℕ) (s : Str) → has_prefix (take n s) (bytes "#") ≡ true → (0 < n) × (get_or s 0 0 ≡ b'#')
unfolding has_prefix
take_head zero s h = cc
take_head (suc n) [] h = cc
take_head (suc n) (b ∷ s) h = ground arith

hash_is_no_word : is_word_char b'#' ≡ false
unfolding is_word_char
hash_is_no_word = refl

clash : is_word_char b'#' ≡ true → ⊥
clash h = cc (hash_is_no_word, h)

-- So what is typed never starts with a number sign.
pub no_hash : (src : Str) (off : ℕ) → has_prefix (completion_prefix src off).0 (bytes "#") ≡ false
no_hash src off = elim (Bool-cases (has_prefix (completion_prefix src off).0 (bytes "#"))) [
  | inr f ↦ f
  | inl t ↦
      let p = completion_prefix-longest src off in
      let start = (completion_prefix src off).1 in
      let sliced : has_prefix (slice src start (clamped src off)) (bytes "#") ≡ true =
        rw (← p.text) t in
      let (some_bytes, hash) = take_head (clamped src off - start) (drop start src) sliced in
      let at_start : get_or src start 0 ≡ b'#' =
        ap (λ k. get_or src k 0) (sym (add-zero start)) ∙ (sym (get_or-drop src start 0) ∙ hash) in
      let word = p.run start (omega arith) (omega arith) in absurd (clash (rw at_start at word))
]
