-- ===== src/Completion/Dollar.antt =====
-- internal/server/completion.go, `completion`: the items after a dollar sign.
use mathlib.Core.List.Memᴰ
use mathlib.Core.Path.{subst}
use gols_bash.Prelude.{
  ◌-◌, ◌<◌, get_or, ℕ, ◌≡◌, ◌≢◌, refl, sym, ap, ◌∙◌, ◌↔◌, ◌⊎◌, inl, inr, true, false, some, List,
  [], ◌∷◌, Str, bytes, has_prefix, str_eq, str_eq_iff, arith, Memᴰ, Memᴰ-cons, Memᴰ-map, map,
  Str-cases,
}
use gols_bash.Syntax.{File, Walker}
use gols_bash.System.{Paths, Disk}
use gols_bash.Positions.{Position, offset_for_position}
use gols_bash.Documents.{Document}
use gols_bash.State.{Server}
use gols_bash.Analyser.Symbols.{find_declarations}
use gols_bash.Completion.Variables.{IsVariable, mem-local_variables}
use gols_bash.Completion.Offered.{IsFirst, prefix_at, start_at, candidates_at, completion_correct}
use gols_bash.Completion.{
  Candidate, candidate, variable_kind, local_variables, CompletionItem, completion_variables_only,
  completion_candidates, completion_item, completion,
}

-- The text up to an offset ends with a dollar sign, or with one and an opening brace.
abbrev pub IsAfterDollar : Str → ℕ → Type 0
IsAfterDollar src start =
    (0 < start) × (get_or src (start - 1) 0 ≡ b'$')
    ⊎ (1 < start) × (get_or src (start - 1) 0 ≡ b'{') × (get_or src (start - 2) 0 ≡ b'$')

variables_only :
    (src : Str) (start : ℕ) → IsAfterDollar src start → completion_variables_only src start ≡ true
unfolding completion_variables_only
variables_only src start h = ground arith

mem_of_IsFirst : (c : Candidate) (cs : List Candidate) → IsFirst c cs → Memᴰ c cs
mem_of_IsFirst c [] f = absurd f
mem_of_IsFirst c (x ∷ xs) f = elim f [
  | inl e ↦ Memᴰ.head e
  | inr (_, g) ↦ Memᴰ.tail (mem_of_IsFirst c xs g)
]

str_eq-false : (s t : Str) → str_eq s t ≡ false → s ≢ t
str_eq-false s t f e = ground (arith, str_eq_iff s t)

IsFirst-named :
    (c : Candidate) (cs : List Candidate)
    → Memᴰ c cs
    → (c' : Candidate) × (c'.label ≡ c.label) × IsFirst c' cs
IsFirst-named c [] m = absurd (Memᴰ.not-nil m)
IsFirst-named c (x ∷ xs) m = elim (Str-cases x.label c.label) [
  | inl same ↦ (x, same, inl refl)
  | inr ne ↦ elim ((Memᴰ-cons c x xs).0 m) [
    | inl e ↦ (x, ap (λ z. z.label) (sym e), inl refl)
    | inr i ↦
        let (c', label, f) = IsFirst-named c xs i in
        let apart : x.label ≢ c'.label = λ q. str_eq-false x.label c.label ne (q ∙ label) in
        (c', label, inr (apart, f))
  ]
]

some_same : {x y : List CompletionItem} → some x ≡ some y → x ≡ y
some_same e = cc

module _ (w : Walker) (p : Paths) (disk : Disk) (path : Str) (s : Server) (d : Document)
    (at_pos : Position) (off : ℕ)
    (found : offset_for_position s.pos_encoding d.text at_pos.line at_pos.character
      ≡ some off) where
  abbrev prefix : Str
  prefix = prefix_at w p disk path s d at_pos off found

  abbrev start : ℕ
  start = start_at w p disk path s d at_pos off found

  abbrev candidates : List Candidate
  candidates = candidates_at w p disk path s d at_pos off found

  variable_candidates :
      (file : File)
      → d.ast ≡ some file
      → completion_variables_only d.text start ≡ true
      → candidates
        ≡ map (candidate (bytes "variable") variable_kind) (local_variables w (some file))
  unfolding completion_candidates
  variable_candidates file parsed only = rw (parsed, only)

  candidates_named :
      (file : File)
      → d.ast ≡ some file
      → completion_variables_only d.text start ≡ true
      → (name : Str)
      → ((c : Candidate) × Memᴰ c candidates × (c.label ≡ name))
        ↔ Memᴰ name (local_variables w (some file))
  candidates_named file parsed only name =
      let names = local_variables w (some file) in
      let make = candidate (bytes "variable") variable_kind in
      rw (variable_candidates file parsed only) (
        λ (c, m, n).
            let (x, i, q) = (Memᴰ-map make names c).0 m in
            subst (λ y. Memᴰ y names) (sym (ap (λ z. z.label) q) ∙ n) i,
        λ m. (make name, (Memᴰ-map make names (make name)).1 (name, m, refl), refl),
      )

  completion-labels :
      (items : List CompletionItem)
      → completion w p disk path s (some d) at_pos ≡ some items
      → (name : Str)
      → ((item : CompletionItem) × Memᴰ item items × (item.label ≡ name)) ↔ (
          (has_prefix name prefix ≡ true)
          × ((c : Candidate) × Memᴰ c candidates × (c.label ≡ name)))
  unfolding completion_item
  completion-labels items e name =
      let (items', e', _, exact) = completion_correct w p disk path s d at_pos off found in
      let same : items' ≡ items = some_same (sym e' ∙ e) in
      (
        λ (item, m, n).
            let (c, (f, h, q)) = (exact item).0 (rw (← same) at m) in
            let label : c.label ≡ name = sym (ap (λ x. x.label) q) ∙ n in
            (rw (← label) h, (c, mem_of_IsFirst c candidates f, label)),
        λ (h, (c, m, n)).
            let (c', same_label, f) = IsFirst-named c candidates m in
            let item = completion_item s d at_pos prefix start c' in
            let label : c'.label ≡ name = same_label ∙ n in
            (item, rw same at ((exact item).1 (c', (f, rw label h, refl))), label),
      )

  -- Right after a dollar sign, or after one and an opening brace, `completion` offers exactly the
  -- variables of the document that start with what is typed.
  pub completion_of_variables :
      (file : File)
      → d.ast ≡ some file
      → IsAfterDollar d.text start
      → (items : List CompletionItem) × (completion w p disk path s (some d) at_pos ≡ some items)
        × ((name : Str)
            → ((item : CompletionItem) × Memᴰ item items × (item.label ≡ name)) ↔ (
                (has_prefix name prefix ≡ true)
                × IsVariable name (find_declarations w (some file))))
  completion_of_variables file parsed dollar =
      let only = variables_only d.text start dollar in
      let (items, e, _, _) = completion_correct w p disk path s d at_pos off found in
      (
        items,
        e,
        λ name.
            let labels = completion-labels items e name in
            let mapped = candidates_named file parsed only name in
            let vars = mem-local_variables w file name in
            (
              λ there. let (h, c) = labels.0 there in (h, vars.0 (mapped.0 c)),
              λ (h, v). labels.1 (h, mapped.1 (vars.1 v)),
            ),
      )
