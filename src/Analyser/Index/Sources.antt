-- ===== src/Analyser/Index/Sources.antt =====
-- internal/analyser/index.go, `sourceNeighbours`: the neighbours of a file are the indexed files
-- that it sources and those that source it.
use mathlib.Core.List.Memᴰ
use gols_bash.Prelude.{
  ◌≡◌, sym, ◌↔◌, ◌⊎◌, inl, inr, true, false, ◌||◌, none, some, List, [], ◌∷◌, Str, str_eq,
  str_eq_iff, Str-cases, contains, contains_iff, contains-append, Map, get, IsMap, get_of_mem,
  mem_of_get, arith, Memᴰ, Memᴰ-cons, Option-cases, Bool-cases,
}
use gols_bash.Syntax.{File, Walker}
use gols_bash.System.{Paths, Disk}
use gols_bash.Analyser.Index.{
  mark, add_target, add_source, targets_loop, sources_loop, sourced_uris, source_neighbours,
}

contains-mark :
    (out : List Str) (u v : Str) → contains (mark out u) v ≡ (contains out v || str_eq u v)
unfolding mark contains
contains-mark out u v = ground (arith, contains-append out (u ∷ []) v, str_eq_iff u v)

module _ (p : Paths) (disk : Disk) (w : Walker) where
  abbrev pub Indexed : Map File → Str → Type 0
  Indexed entries u = (file : File) × (get entries u ≡ some file)

  -- The indexed file `u` sources `v`.
  abbrev pub Sources : Map File → Str → Str → Type 0
  Sources entries u v =
      (file : File) × (get entries u ≡ some file) × Memᴰ v (sourced_uris p disk w u (some file))

  contains-add_target :
      (entries : Map File) (out : List Str) (t v : Str)
      → (contains (add_target p disk w entries out t) v ≡ true)
        ↔ ((contains out v ≡ true) ⊎ (v ≡ t) × Indexed entries v)
  unfolding add_target
  contains-add_target entries out t v = elim (Option-cases (get entries t)) [
    | inl e ↦ rw (e, add_target) (inl, λ h. elim h [ inl a ↦ a | inr (q, (f, g)) ↦ cc ])
    | inr (file, e) ↦
        rw (e, add_target)
          (
            λ h. elim (Bool-cases (contains out v)) [
              | inl a ↦ inl a
              | inr a ↦
                  let q : v ≡ t = ground (arith, contains-mark out t v, str_eq_iff t v) in
                  inr (q, (file, rw q e))
            ],
            λ h. elim h [
              | inl a ↦ ground (arith, contains-mark out t v)
              | inr (q, _) ↦ ground (arith, contains-mark out t v, str_eq_iff t v)
            ],
          )
  ]

  contains-targets_loop :
      (entries : Map File) (out ts : List Str) (v : Str)
      → (contains (targets_loop p disk w entries out ts) v ≡ true)
        ↔ ((contains out v ≡ true) ⊎ Memᴰ v ts × Indexed entries v)
  unfolding targets_loop
  contains-targets_loop entries out [] v =
      (inl, λ h. elim h [ inl a ↦ a | inr (m, _) ↦ absurd (Memᴰ.not-nil m) ])
  contains-targets_loop entries out (t ∷ ts) v =
      let later = contains-targets_loop entries (add_target p disk w entries out t) ts v in
      let now = contains-add_target entries out t v in
      (
        λ h. elim (later.0 h) [
          | inl a ↦ elim (now.0 a) [ inl b ↦ inl b | inr (q, i) ↦ inr (Memᴰ.head q, i) ]
          | inr (m, i) ↦ inr (Memᴰ.tail m, i)
        ],
        λ h. later.1 (elim h [
          | inl a ↦ inl (now.1 (inl a))
          | inr (m, i) ↦ elim ((Memᴰ-cons v t ts).0 m) [
            | inl q ↦ inl (now.1 (inr (q, i)))
            | inr r ↦ inr (r, i)
          ]
        ]),
      )

  -- The candidate `v` is found by the second loop.
  abbrev Candidate : Str → Map File → Str → Type 0
  Candidate from m v =
      (file : File) × Memᴰ (v, file) m
      × (str_eq v from ≡ false)
      × Memᴰ from (sourced_uris p disk w v (some file))

  contains-add_source :
      (from : Str) (out : List Str) (c : Str) (file : File) (v : Str)
      → (contains (add_source p disk w from out c file) v ≡ true) ↔ (
          (contains out v ≡ true)
          ⊎ (v ≡ c)
            × (str_eq c from ≡ false)
            × (contains (sourced_uris p disk w c (some file)) from ≡ true))
  unfolding add_source
  contains-add_source from out c file v = ground (arith, contains-mark out c v, str_eq_iff c v)

  contains-sources_loop :
      (from : Str) (out : List Str) (m : Map File) (v : Str)
      → (contains (sources_loop p disk w from out m) v ≡ true)
        ↔ ((contains out v ≡ true) ⊎ Candidate from m v)
  unfolding sources_loop
  contains-sources_loop from out [] v =
      (inl, λ h. elim h [ inl a ↦ a | inr (_, m, _, _) ↦ absurd (Memᴰ.not-nil m) ])
  contains-sources_loop from out ((c, file) ∷ m) v =
      let later = contains-sources_loop from (add_source p disk w from out c file) m v in
      let now = contains-add_source from out c file v in
      let hits = contains_iff (sourced_uris p disk w c (some file)) from in
      (
        λ h. elim (later.0 h) [
          | inl a ↦ elim (now.0 a) [
            | inl b ↦ inl b
            | inr (q, ne, hit) ↦ inr (file, Memᴰ.head (cc), rw q ne, rw q (hits.0 hit))
          ]
          | inr (f, i, ne, s) ↦ inr (f, Memᴰ.tail i, ne, s)
        ],
        λ h. later.1 (elim h [
          | inl a ↦ inl (now.1 (inl a))
          | inr (f, i, ne, s) ↦ elim ((Memᴰ-cons (v, f) (c, file) m).0 i) [
            | inl q ↦
                let v_c : v ≡ c = cc in
                let f_file : f ≡ file = cc in
                inl (now.1 (inr (v_c, rw (← v_c) ne, hits.1 (rw (← v_c, ← f_file) s))))
            | inr r ↦ inr (f, r, ne, s)
          ]
        ]),
      )

  sourced_of_get :
      (entries : Map File) (u v : Str)
      → Memᴰ v (sourced_uris p disk w u (get entries u)) ↔ Sources entries u v
  sourced_of_get entries u v = elim (Option-cases (get entries u)) [
    | inl e ↦ (λ m. absurd (none_sourced (rw e at m)), λ (f, q, s). cc)
    | inr (file, e) ↦ (
      λ m. (file, e, rw e at m),
      λ (f, q, s). let same : some f ≡ get entries u = sym q in rw (← same) s,
    )
  ]
    where
      none_sourced : Memᴰ v (sourced_uris p disk w u none) → ⊥
      none_sourced m = unfold sourced_uris in Memᴰ.not-nil m

  contains-nil : (v : Str) → contains [] v ≡ true → ⊥
  unfolding contains
  contains-nil v h = cc

  contains-neighbours :
      (entries : Map File) (u v : Str)
      → (contains (source_neighbours p disk w entries u) v ≡ true)
        ↔ (Sources entries u v × Indexed entries v ⊎ Candidate u entries v)
  contains-neighbours entries u v =
      let targets = targets_loop p disk w entries [] (sourced_uris p disk w u (get entries u)) in
      let second = contains-sources_loop u targets entries v in
      let first = contains-targets_loop entries [] (sourced_uris p disk w u (get entries u)) v in
      let sourced = sourced_of_get entries u v in
      unfold source_neighbours in
      (
        λ h. elim (second.0 h) [
          | inl a ↦ elim (first.0 a) [
            | inl b ↦ absurd (contains-nil v b)
            | inr (m, i) ↦ inl (sourced.0 m, i)
          ]
          | inr c ↦ inr c
        ],
        λ h.
            second.1 (elim h [ inl (s, i) ↦ inl (first.1 (inr (sourced.1 s, i))) | inr c ↦ inr c ]),
      )

  -- The neighbours of a file are the indexed files that it sources and the indexed files that
  -- source it.
  pub mem-source_neighbours :
      (entries : Map File) (u v : Str)
      → IsMap entries
      → Memᴰ v (source_neighbours p disk w entries u)
        ↔ (Sources entries u v × Indexed entries v ⊎ Sources entries v u)
  mem-source_neighbours entries u v h =
      let both = contains-neighbours entries u v in
      let hits = contains_iff (source_neighbours p disk w entries u) v in
      (
        λ m. elim (both.0 (hits.1 m)) [
          | inl s ↦ inl s
          | inr (f, i, ne, s) ↦ inr (f, get_of_mem entries v f h i, s)
        ],
        λ c. hits.0 (
            both.1 (elim c [
              | inl s ↦ inl s
              | inr (f, e, s) ↦ elim (Str-cases v u) [
                | inl q ↦ inl ((f, rw (← q) e, rw q (rw q at s)), (f, e))
                | inr ne ↦ inr (f, mem_of_get entries v f e, ne, s)
              ]
            ])),
      )
