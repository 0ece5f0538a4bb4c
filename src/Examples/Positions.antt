-- ===== src/Examples/Positions.antt =====
-- internal/util/lsp/position_test.go, and the position theorems at concrete texts.
use gols_bash.Prelude.{
  ◌≤◌, ◌≡◌, refl, ◌⊎◌, inr, false, some, [], ◌∷◌, ◌++◌, Str, bytes, arith, length, get_or,
}
use gols_bash.Lsp.{
  is_word_char, word_at_offset, word_start, word_end, line_start, offset_for_position_bytes,
  utf16_len, utf8_rune_info, rune_step, offset_for_position as offset_utf16,
}
use gols_bash.Lsp.Words.{IsWordAt, word_at_offset-longest}
use gols_bash.Positions.{utf16, offset_for_position, pos_for_offset}
use gols_bash.Positions.RoundTrip.{offset_for_position-pos_for_offset}

abbrev two_lines : Str
two_lines = bytes "echo hi" ++ 10 ∷ bytes "world" ++ 10 ∷ []

test_offset_ascii :
    (offset_utf16 two_lines 0 0 ≡ some 0)
    × (offset_utf16 two_lines 0 4 ≡ some 4)
    × (offset_utf16 two_lines 1 0 ≡ some 8)
    × (offset_utf16 two_lines 1 5 ≡ some 13)
unfolding offset_utf16 line_start utf8_rune_info rune_step
test_offset_ascii = (refl, refl, refl, refl)

-- U+10437 between two letters: four bytes, two UTF-16 units.
abbrev surrogates : Str
surrogates = bytes "a" ++ 0xF0 ∷ 0x90 ∷ 0x90 ∷ 0xB7 ∷ bytes "b"

test_offset_surrogates :
    (offset_utf16 surrogates 0 1 ≡ some 1)
    × (offset_utf16 surrogates 0 3 ≡ some 5)
    × (offset_for_position_bytes surrogates 0 5 ≡ some 5)
unfolding offset_utf16 offset_for_position_bytes line_start utf8_rune_info rune_step
test_offset_surrogates = (refl, refl, refl)

test_utf16_len : (utf16_len (bytes "hello") ≡ 5) × (utf16_len surrogates ≡ 4)
unfolding utf16_len utf8_rune_info
test_utf16_len = (refl, refl)

abbrev apt_get : Str
apt_get = bytes "echo apt-get install"

test_word_at_offset :
    (word_at_offset apt_get 7 ≡ record { word = bytes "apt-get"; start = 5; stop = 12 })
    × ((word_at_offset apt_get 4).word ≡ [])
    × ((word_at_offset apt_get 100).word ≡ [])
unfolding word_at_offset word_start word_end is_word_char
test_word_at_offset = (refl, refl, refl)

word_at_offset-longest_example :
    IsWordAt apt_get 7 (word_at_offset apt_get 7)
    ⊎ (word_at_offset apt_get 7 ≡ record { word = []; start = 0; stop = 0 })
      × ((length apt_get ≤ 7) ⊎ (is_word_char (get_or apt_get 7 0) ≡ false))
word_at_offset-longest_example = word_at_offset-longest apt_get 7

offset_for_position-pos_for_offset_example :
    offset_for_position utf16 surrogates
      (pos_for_offset utf16 surrogates 5).line
      (pos_for_offset utf16 surrogates 5).character
    ≡ some 5
unfolding utf8_rune_info
offset_for_position-pos_for_offset_example =
    offset_for_position-pos_for_offset utf16 surrogates 5 (omega arith) (omega arith)
      (inr (omega arith))
