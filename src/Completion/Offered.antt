-- ===== src/Completion/Offered.antt =====
-- internal/server/completion.go, `completion`: which items are offered, and in which order.
use mathlib.Core.List.Memᴰ
use gols_bash.Prelude.{
  ℕ, ◌≡◌, ◌≢◌, refl, sym, ap, ◌∙◌, ◌↔◌, ◌⊎◌, inl, inr, Bool, true, false, not, ◌||◌, some, List, [],
  ◌∷◌, Str, bytes, has_prefix, contains, str_eq_iff, sort_slice, mem-sort_slice, AreDistinct,
  IsAscending, sort_slice-IsAscending, arith, Memᴰ, Memᴰ-cons, Bool-cases,
}
use gols_bash.Syntax.{Walker}
use gols_bash.System.{Paths, Disk}
use gols_bash.Positions.{Position, offset_for_position}
use gols_bash.Documents.{Document}
use gols_bash.State.{Server}
use gols_bash.Completion.Prefixes.{no_hash}
use gols_bash.Completion.{
  Candidate, CompletionItem, completion_prefix, completion_variables_only, completion_candidates,
  completion_item, items_loop, label_less, completion,
}

-- The candidate comes before every other one with its label.
abbrev pub IsFirst : Candidate → List Candidate → Type 0
IsFirst c [] = ⊥
IsFirst c (x ∷ xs) = (c ≡ x) ⊎ (x.label ≢ c.label) × IsFirst c xs

none_seen : (label : Str) → contains [] label ≡ false
unfolding contains
none_seen label = refl

module _ (s : Server) (d : Document) (at_pos : Position) (prefix : Str) (start : ℕ) where
  -- What the loop makes an item of.
  abbrev Taken : List Str → List Candidate → CompletionItem → Candidate → Type 0
  Taken seen cs item c =
      (contains seen c.label ≡ false)
      × (has_prefix c.label prefix ≡ true)
      × IsFirst c cs
      × (item ≡ completion_item s d at_pos prefix start c)

  abbrev passes : List Str → Candidate → Bool
  passes seen c = contains seen c.label || not (has_prefix c.label prefix)

  passed_over :
      (seen : List Str) (c x : Candidate)
      → passes seen x ≡ true
      → contains seen c.label ≡ false
      → has_prefix c.label prefix ≡ true
      → x.label ≢ c.label
  passed_over seen c x t n h e =
      let n' : contains seen x.label ≡ false = rw e n in
      let h' : has_prefix x.label prefix ≡ true = rw e h in ground arith

  taken_over :
      (seen : List Str) (x : Candidate)
      → passes seen x ≡ false
      → (contains seen x.label ≡ false) × (has_prefix x.label prefix ≡ true)
  taken_over seen x t = ground arith

  not_seen :
      (seen : List Str) (c x : Candidate)
      → contains (x.label ∷ seen) c.label ≡ false
      → (x.label ≢ c.label) × (contains seen c.label ≡ false)
  unfolding contains
  not_seen seen c x n = ground (arith, str_eq_iff x.label c.label)

  still_new :
      (seen : List Str) (c x : Candidate)
      → x.label ≢ c.label
      → contains seen c.label ≡ false
      → contains (x.label ∷ seen) c.label ≡ false
  unfolding contains
  still_new seen c x apart n = ground (arith, str_eq_iff x.label c.label)

  mem-items_loop :
      (seen : List Str) (cs : List Candidate) (item : CompletionItem)
      → Memᴰ item (items_loop s d at_pos prefix start seen cs)
        ↔ ((c : Candidate) × Taken seen cs item c)
  unfolding items_loop
  mem-items_loop seen [] item = (λ m. absurd (Memᴰ.not-nil m), λ (c, (_, _, f, _)). absurd f)
  mem-items_loop seen (x ∷ xs) item = elim (Bool-cases (passes seen x)) [
    | inl t ↦
        let later = mem-items_loop seen xs item in
        rw (items_loop, t)
          (
            λ m.
                let (c, (n, h, f, e)) = later.0 m in
                (c, (n, h, inr (passed_over seen c x t n h, f), e)),
            λ (c, (n, h, f, e)). elim f [
              | inl q ↦ absurd (passed_over seen c x t n h (ap (λ z. z.label) (sym q)))
              | inr (_, f') ↦ later.1 (c, (n, h, f', e))
            ],
          )
    | inr t ↦
        let later = mem-items_loop (x.label ∷ seen) xs item in
        let made = completion_item s d at_pos prefix start x in
        let front = Memᴰ-cons item made (items_loop s d at_pos prefix start (x.label ∷ seen) xs) in
        let (new, fits) = taken_over seen x t in
        rw (items_loop, t)
          (
            λ m. elim (front.0 m) [
              | inl e ↦ (x, (new, fits, inl refl, e))
              | inr i ↦
                  let (c, (n, h, f, e)) = later.0 i in
                  let (apart, old) = not_seen seen c x n in (c, (old, h, inr (apart, f), e))
            ],
            λ (c, (n, h, f, e)). front.1 (elim f [
              | inl q ↦ inl (e ∙ ap (completion_item s d at_pos prefix start) q)
              | inr (apart, f') ↦ inr (later.1 (c, (still_new seen c x apart n, h, f', e)))
            ]),
          )
  ]

  items_loop-AreDistinct :
      (seen : List Str) (cs : List Candidate)
      → AreDistinct (λ x. x.label) (items_loop s d at_pos prefix start seen cs)
  unfolding items_loop
  items_loop-AreDistinct seen [] = tt
  items_loop-AreDistinct seen (x ∷ xs) = elim (Bool-cases (passes seen x)) [
    | inl t ↦ rw (items_loop, t) (items_loop-AreDistinct seen xs)
    | inr t ↦
        rw (items_loop, t)
          (
            λ y m q.
                let (c, (n, h, f, e)) = (mem-items_loop (x.label ∷ seen) xs y).0 m in
                (not_seen seen c x n).0 (sym (ap (λ z. z.label) (sym e ∙ refl) ∙ q)),
            items_loop-AreDistinct (x.label ∷ seen) xs,
          )
  ]

module _ (w : Walker) (p : Paths) (disk : Disk) (path : Str) (s : Server) (d : Document)
    (at_pos : Position) (off : ℕ)
    (found : offset_for_position s.pos_encoding d.text at_pos.line at_pos.character
      ≡ some off) where
  abbrev pub prefix_at : Str
  prefix_at = (completion_prefix d.text off).0

  abbrev pub start_at : ℕ
  start_at = (completion_prefix d.text off).1

  abbrev pub candidates_at : List Candidate
  candidates_at =
      completion_candidates w p disk path d.ast (completion_variables_only d.text start_at)

  completion-items :
      has_prefix prefix_at (bytes "#") ≡ false
      → completion w p disk path s (some d) at_pos
        ≡ some (sort_slice label_less (items_loop s d at_pos prefix_at start_at [] candidates_at))
  unfolding completion
  completion-items h = ground arith

  -- Where the position is one of the text, `completion` offers the candidates whose label starts with
  -- what is typed, one for each label, the first of the candidates that have it, and the labels
  -- ascend.
  pub completion_correct :
      (items : List CompletionItem) × (completion w p disk path s (some d) at_pos ≡ some items)
      × IsAscending (λ x. x.label) items
      × ((item : CompletionItem)
          → Memᴰ item items ↔ (
              (c : Candidate) × (IsFirst c candidates_at
                × (has_prefix c.label prefix_at ≡ true)
                × (item ≡ completion_item s d at_pos prefix_at start_at c))))
  completion_correct =
      let loop = items_loop s d at_pos prefix_at start_at [] candidates_at in
      (
        sort_slice label_less loop,
        completion-items (no_hash d.text off),
        sort_slice-IsAscending (λ x. x.label) loop
            (items_loop-AreDistinct s d at_pos prefix_at start_at [] candidates_at),
        λ item.
            let sorted = mem-sort_slice label_less item loop in
            let looped = mem-items_loop s d at_pos prefix_at start_at [] candidates_at item in
            (
              λ m. let (c, (_, h, f, e)) = looped.0 (sorted.0 m) in (c, (f, h, e)),
              λ (c, (f, h, e)). sorted.1 (looped.1 (c, (none_seen c.label, h, f, e))),
            ),
      )
