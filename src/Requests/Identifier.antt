-- ===== src/Requests/Identifier.antt =====
-- internal/server/rename.go, `isValidIdentifier`.
use gols_bash.Prelude.{
  ℕ, suc, ◌≡◌, refl, ◌↔◌, Bool, true, false, ◌&&◌, ◌||◌, [], ◌∷◌, Str, leb, ◌==◌, if◌then◌else◌,
  arith,
}
use gols_bash.Lsp.{is_word_char}

unfoldable pub is_letter : ℕ → Bool
is_letter b = leb b'a' b && leb b b'z' || leb b'A' b && leb b b'Z' || b == b'_'

unfoldable pub is_digit : ℕ → Bool
is_digit b = leb b'0' b && leb b b'9'

-- The loop, from byte `i` on.
unfoldable pub identifier_loop : ℕ → Str → Bool
unfolding is_letter is_digit
identifier_loop i [] = true
identifier_loop i (b ∷ rest) =
    let later = identifier_loop (suc i) rest in
    if is_letter b then later else if is_digit b then (if i == 0 then false else later) else false

unfoldable pub is_valid_identifier : Str → Bool
unfolding identifier_loop
is_valid_identifier [] = false
is_valid_identifier (b ∷ s) = identifier_loop 0 (b ∷ s)

abbrev pub AllBytes : (ℕ → Type 0) → Str → Type 0
AllBytes P [] = Unit
AllBytes P (b ∷ s) = P b × AllBytes P s

-- A letter or an underscore, and then letters, digits and underscores.
abbrev pub IsIdentifier : Str → Type 0
IsIdentifier [] = ⊥
IsIdentifier (b ∷ s) = (is_letter b ≡ true) × AllBytes (λ c. (is_letter c || is_digit c) ≡ true) s

identifier_loop_iff :
    (i : ℕ) (s : Str)
    → (identifier_loop (suc i) s ≡ true) ↔ AllBytes (λ c. (is_letter c || is_digit c) ≡ true) s
unfolding identifier_loop
identifier_loop_iff i [] = (λ _. tt, λ _. refl)
identifier_loop_iff i (b ∷ s) = ground (arith, identifier_loop_iff (suc i) s)

-- `isValidIdentifier` accepts exactly [A-Za-z_][A-Za-z0-9_]*.
pub is_valid_identifier_iff : (s : Str) → (is_valid_identifier s ≡ true) ↔ IsIdentifier s
unfolding is_valid_identifier
is_valid_identifier_iff [] = (λ e. cc, λ e. absurd e)
is_valid_identifier_iff (b ∷ s) = ground (arith, identifier_loop_iff 0 s)

letter_is_word : (b : ℕ) → (is_letter b || is_digit b) ≡ true → is_word_char b ≡ true
unfolding is_letter is_digit is_word_char
letter_is_word b h = ground arith

AllBytes-word :
    (s : Str)
    → AllBytes (λ c. (is_letter c || is_digit c) ≡ true) s
    → AllBytes (λ c. is_word_char c ≡ true) s
AllBytes-word [] h = tt
AllBytes-word (b ∷ s) h = (letter_is_word b h.0, AllBytes-word s h.1)

-- Every byte of a valid identifier is a word byte of `WordAtOffset`, so that a name which `rename`
-- writes is found again as one word.
pub is_valid_identifier-word :
    (s : Str) → is_valid_identifier s ≡ true → AllBytes (λ c. is_word_char c ≡ true) s
is_valid_identifier-word [] h = tt
is_valid_identifier-word (b ∷ s) h =
    let (first, rest) = (is_valid_identifier_iff (b ∷ s)).0 h in
    (letter_is_word b (ground arith), AllBytes-word s rest)
