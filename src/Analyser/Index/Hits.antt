-- ===== src/Analyser/Index/Hits.antt =====
-- internal/analyser/index.go, `usageHits` and `declarationHits`: the two loops over the index.
use mathlib.Core.List.Memᴰ
use gols_bash.Prelude.{
  ◌≡◌, refl, ◌↔◌, ◌⊎◌, inl, inr, Bool, true, false, Option, some, List, [], ◌∷◌, ◌++◌, Str, Map,
  if◌then◌else◌, arith, Memᴰ, Memᴰ-cons, Memᴰ-append,
}
use gols_bash.Syntax.{File, Walker}
use gols_bash.Analyser.Symbols.{Declaration, Usage, find_declarations, find_usages, is_write}
use gols_bash.Analyser.Index.{
  UsageHit, DeclarationHit, is_allowed, file_declarations, declaration_hits, file_usages,
  usage_hits,
}

-- The usages that the loop over one file keeps.
abbrev pub IsKept : Bool → Usage → Type 0
IsKept include_decl usage = (include_decl ≡ true) ⊎ (is_write usage ≡ false)

mem-if_append {ℓ} :
    {A : Type ℓ} (x : A) (b : Bool) (xs ys : List A)
    → Memᴰ x ((if b then xs else []) ++ ys) ↔ ((b ≡ true) × Memᴰ x xs ⊎ Memᴰ x ys)
mem-if_append x true xs ys = (
  λ m. elim ((Memᴰ-append x xs ys).0 m) [ inl a ↦ inl (refl, a) | inr c ↦ inr c ],
  λ m. (Memᴰ-append x xs ys).1 (elim m [ inl a ↦ inl a.1 | inr c ↦ inr c ]),
)
mem-if_append x false xs ys = (inr, λ m. elim m [ inl a ↦ cc | inr c ↦ c ])

module _ (w : Walker) where
  mem-file_declarations :
      (u : Str) (ds : List Declaration) (h : DeclarationHit)
      → Memᴰ h (file_declarations w u ds) ↔ ((h.uri ≡ u) × Memᴰ h.declaration ds)
  unfolding file_declarations
  mem-file_declarations u [] h = (λ m. absurd (Memᴰ.not-nil m), λ (_, m). absurd (Memᴰ.not-nil m))
  mem-file_declarations u (d ∷ ds) h =
      let first : DeclarationHit = record { uri = u; declaration = d } in
      ground (
        arith,
        mem-file_declarations u ds h,
        Memᴰ-cons h first (file_declarations w u ds),
        Memᴰ-cons h.declaration d ds,
      )

  mem-file_usages :
      (u : Str) (include_decl : Bool) (us : List Usage) (h : UsageHit)
      → Memᴰ h (file_usages w u include_decl us)
        ↔ ((h.uri ≡ u) × Memᴰ h.usage us × IsKept include_decl h.usage)
  unfolding file_usages
  mem-file_usages u include_decl [] h =
      (λ m. absurd (Memᴰ.not-nil m), λ (_, m, _). absurd (Memᴰ.not-nil m))
  mem-file_usages u include_decl (x ∷ us) h =
      let first : UsageHit = record { uri = u; usage = x } in
      ground (
        arith,
        mem-file_usages u include_decl us h,
        Memᴰ-cons h.usage x us,
        Memᴰ-cons h first (file_usages w u include_decl us),
      )

  -- A hit is a declaration of an allowed entry.
  pub mem-declaration_hits :
      (entries : Map File) (allowed : Option (List Str)) (h : DeclarationHit)
      → Memᴰ h (declaration_hits w entries allowed) ↔ (
          (file : File) × Memᴰ (h.uri, file) entries
          × (is_allowed allowed h.uri ≡ true)
          × Memᴰ h.declaration (find_declarations w (some file)))
  unfolding declaration_hits
  mem-declaration_hits [] allowed h =
      (λ m. absurd (Memᴰ.not-nil m), λ (_, m, _, _). absurd (Memᴰ.not-nil m))
  mem-declaration_hits ((u, file) ∷ rest) allowed h =
      let ds = file_declarations w u (find_declarations w (some file)) in
      let split = mem-if_append h (is_allowed allowed u) ds (declaration_hits w rest allowed) in
      let now = mem-file_declarations u (find_declarations w (some file)) h in
      let later = mem-declaration_hits rest allowed h in
      (
        λ m. elim (split.0 m) [
          | inl (ok, i) ↦ let (q, d) = now.0 i in (file, Memᴰ.head (cc), rw q ok, d)
          | inr r ↦ let (f, i, ok, d) = later.0 r in (f, Memᴰ.tail i, ok, d)
        ],
        λ (f, i, ok, d). split.1 (elim ((Memᴰ-cons (h.uri, f) (u, file) rest).0 i) [
          | inl q ↦
              let q_u : h.uri ≡ u = cc in
              let q_f : f ≡ file = cc in inl (rw (← q_u) ok, now.1 (q_u, rw (← q_f) d))
          | inr r ↦ inr (later.1 (f, r, ok, d))
        ]),
      )

  -- A hit is a usage of the name in an allowed entry, and no write where writes are left out.
  pub mem-usage_hits :
      (entries : Map File) (allowed : Option (List Str)) (name : Str) (include_decl : Bool)
      (h : UsageHit)
      → Memᴰ h (usage_hits w entries allowed name include_decl) ↔ (
          (file : File) × Memᴰ (h.uri, file) entries
          × (is_allowed allowed h.uri ≡ true)
          × Memᴰ h.usage (find_usages w (some file) name)
          × IsKept include_decl h.usage)
  unfolding usage_hits
  mem-usage_hits [] allowed name include_decl h =
      (λ m. absurd (Memᴰ.not-nil m), λ (_, m, _, _, _). absurd (Memᴰ.not-nil m))
  mem-usage_hits ((u, file) ∷ rest) allowed name include_decl h =
      let us = file_usages w u include_decl (find_usages w (some file) name) in
      let more = usage_hits w rest allowed name include_decl in
      let split = mem-if_append h (is_allowed allowed u) us more in
      let now = mem-file_usages u include_decl (find_usages w (some file) name) h in
      let later = mem-usage_hits rest allowed name include_decl h in
      (
        λ m. elim (split.0 m) [
          | inl (ok, i) ↦ let (q, d, k) = now.0 i in (file, Memᴰ.head (cc), rw q ok, d, k)
          | inr r ↦ let (f, i, ok, d, k) = later.0 r in (f, Memᴰ.tail i, ok, d, k)
        ],
        λ (f, i, ok, d, k). split.1 (elim ((Memᴰ-cons (h.uri, f) (u, file) rest).0 i) [
          | inl q ↦
              let q_u : h.uri ≡ u = cc in
              let q_f : f ≡ file = cc in inl (rw (← q_u) ok, now.1 (q_u, rw (← q_f) d, k))
          | inr r ↦ inr (later.1 (f, r, ok, d, k))
        ]),
      )
