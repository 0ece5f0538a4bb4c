-- ===== src/Lsp/Lines.antt =====
-- internal/util/lsp/position.go, `lineStart`: the loop finds the start of every line.
use gols_bash.Prelude.{
  ℕ, suc, ◌+◌, ◌≤◌, ◌<◌, ◌≡◌, refl, ◌⊎◌, inl, inr, [], ◌∷◌, ◌++◌, Str, arith, Bool-cases, some,
  length, drop, ◌==◌, if◌then◌else◌,
}
use gols_bash.Lsp.{newline, line_loop, line_start}
use gols_bash.Lsp.Columns.{HasNoNewline}

-- The number of line ends in a text.
abbrev pub newlines : Str → ℕ
newlines [] = 0
newlines (b ∷ s) = if b == newline then suc (newlines s) else newlines s

-- The offset at which the last line of a text starts, where the text itself starts at `i` and its
-- first line at `s`.
abbrev pub last_start : Str → ℕ → ℕ → ℕ
last_start [] i s = s
last_start (b ∷ t) i s = last_start t (suc i) (if b == newline then suc i else s)

pub last_start-one : (p : Str) (i s : ℕ) → newlines p ≡ 0 → last_start p i s ≡ s
last_start-one [] i s h = refl
last_start-one (b ∷ p) i s h = ground (arith, last_start-one p (suc i) s)

last_start-any : (p : Str) (i s t : ℕ) → 0 < newlines p → last_start p i s ≡ last_start p i t
last_start-any [] i s t h = elim h [ ]
last_start-any (b ∷ p) i s t h = ground (arith, last_start-any p (suc i) s t)

zero-or-pos : (n : ℕ) → (n ≡ 0) ⊎ (0 < n)
zero-or-pos n = grind arith

-- Asked for the line on which a prefix of the text ends, the loop stops where that line starts.
line_loop-prefix :
    (p rest : Str) (i s l : ℕ)
    → (newlines p ≡ 0 → s ≡ i)
    → line_loop (l + newlines p) (p ++ rest) i l ≡ (last_start p i s, l + newlines p)
unfolding line_loop
line_loop-prefix [] [] i s l h = ground arith
line_loop-prefix [] (b ∷ rest) i s l h = ground arith
line_loop-prefix (b ∷ p) rest i s l h = elim (Bool-cases (b == newline)) [
  | inl e ↦ ground (arith, line_loop-prefix p rest (suc i) (suc i) (suc l) (λ _. refl))
  | inr e ↦ elim (zero-or-pos (newlines p)) [
    | inl z ↦ ground (arith, last_start-one p (suc i) s)
    | inr z ↦ ground (arith, line_loop-prefix p rest (suc i) s l (λ q. absurd (omega arith)))
  ]
]

pub newlines-le : (p : Str) → newlines p ≤ length p
newlines-le [] = omega arith
newlines-le (b ∷ p) = ground (arith, newlines-le p)

-- The line on which a prefix ends starts where the prefix has its last line start.
pub line_start-prefix :
    (p rest : Str) → line_start (p ++ rest) (newlines p) ≡ some (last_start p 0 0)
unfolding line_start
line_start-prefix p rest =
    let e : 0 + newlines p ≡ newlines p = omega arith in
    let found = rw e at (line_loop-prefix p rest 0 0 0 (λ _. refl)) in rw found (ground arith)

HasNoNewline-zero : (p : Str) → newlines p ≡ 0 → HasNoNewline p
HasNoNewline-zero [] h = tt
HasNoNewline-zero (b ∷ p) h = ground (arith, HasNoNewline-zero p)

last_start-drop :
    (p : Str) (i s : ℕ)
    → 0 < newlines p
    → (k : ℕ) × (last_start p i s ≡ i + k) × (k ≤ length p) × HasNoNewline (drop k p)
last_start-drop [] i s h = elim h [ ]
last_start-drop (b ∷ p) i s h = elim (zero-or-pos (newlines p)) [
  | inl z ↦
      (1, ground (arith, last_start-one p (suc i) (suc i)), omega arith, HasNoNewline-zero p z)
  | inr z ↦
      let (k, e, l, n) = last_start-drop p (suc i) (if b == newline then suc i else s) z in
      (suc k, omega arith, omega arith, n)
]

-- No line end stands between the start of the last line and the end of the text.
pub last_line : (p : Str) → (last_start p 0 0 ≤ length p) × HasNoNewline (drop (last_start p 0 0) p)
last_line p = elim (zero-or-pos (newlines p)) [
  | inl z ↦ let e = last_start-one p 0 0 z in (omega arith, rw e (HasNoNewline-zero p z))
  | inr z ↦
      let (k, e, l, n) = last_start-drop p 0 0 z in
      let e' : last_start p 0 0 ≡ k = omega arith in (omega arith, rw e' n)
]
