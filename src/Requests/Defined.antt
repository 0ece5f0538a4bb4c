-- ===== src/Requests/Defined.antt =====
-- internal/server/definition.go: which declaration `definition` leads to.
use mathlib.Core.List.Memᴰ
use mathlib.Core.Path.{subst}
use gols_bash.Prelude.{
  ◌≡◌, ◌≢◌, refl, ◌⊎◌, inl, inr, true, false, not, ◌||◌, Option, none, some, List, [], ◌∷◌, Str,
  str_eq, str_eq_iff, Str-cases, get, IsMap, sort_slice, mem-sort_slice, arith, Memᴰ, Memᴰ-cons,
}
use gols_bash.Syntax.{File, Walker}
use gols_bash.System.{Paths, Disk}
use gols_bash.Analyser.Symbols.{Declaration, find_declarations}
use gols_bash.Analyser.Index.{DeclarationHit}
use gols_bash.Analyser.Index.Connected.{Connected}
use gols_bash.Analyser.Index.References.{reachable_declarations_correct}
use gols_bash.Documents.{Document}
use gols_bash.Protocol.{Location}
use gols_bash.Positions.{range_to_lsp}
use gols_bash.State.{Server}
use gols_bash.Requests.{text_for_uri}
use gols_bash.Requests.Definition.{
  hit_less, own_declaration, other_declaration, declaration_location, word_definition,
}

abbrev NoneNamed : Str → List Declaration → Type 0
NoneNamed word decls = (d : Declaration) → Memᴰ d decls → d.name ≢ word

own_cases :
    (word : Str) (decls : List Declaration)
    → ((own_declaration word decls ≡ none) × NoneNamed word decls)
      ⊎ ((d : Declaration) × (own_declaration word decls ≡ some d) × Memᴰ d decls × (d.name ≡ word))
unfolding own_declaration
own_cases word [] = inl (refl, λ d m. absurd (Memᴰ.not-nil m))
own_cases word (x ∷ decls) = elim (Str-cases x.name word) [
  | inl same ↦ inr (x, rw (own_declaration, (str_eq_iff x.name word).1 same), Memᴰ.head refl, same)
  | inr ne ↦ elim (own_cases word decls) [
    | inr (d, e, m, named) ↦ inr (d, rw (own_declaration, ne) e, Memᴰ.tail m, named)
    | inl (e, away) ↦ inl (
      rw (own_declaration, ne) e,
      λ d m q. elim ((Memᴰ-cons d x decls).0 m) [
        | inl first ↦ ground (arith, str_eq_iff x.name word)
        | inr i ↦ away d i q
      ],
    )
  ]
]

abbrev pub IsOther : Str → Str → DeclarationHit → Type 0
IsOther u word h = (h.uri ≢ u) × (h.declaration.name ≡ word)

passed :
    (u word : Str) (h : DeclarationHit)
    → (IsOther u word h × ((str_eq h.uri u || not (str_eq h.declaration.name word)) ≡ false))
      ⊎ ((IsOther u word h → ⊥) × ((str_eq h.uri u || not (str_eq h.declaration.name word)) ≡ true))
passed u word h = ground (arith, str_eq_iff h.uri u, str_eq_iff h.declaration.name word)

IsOther-cases :
    (u word : Str) (hits : List DeclarationHit)
    → ((other_declaration u word hits ≡ none)
        × ((h : DeclarationHit) → Memᴰ h hits → IsOther u word h → ⊥))
      ⊎ ((h : DeclarationHit) × (other_declaration u word hits ≡ some h)
          × Memᴰ h hits
          × IsOther u word h)
unfolding other_declaration
IsOther-cases u word [] = inl (refl, λ h m. absurd (Memᴰ.not-nil m))
IsOther-cases u word (x ∷ hits) = elim (passed u word x) [
  | inl (good, t) ↦ inr (x, rw (other_declaration, t), Memᴰ.head refl, good)
  | inr (bad, t) ↦ elim (IsOther-cases u word hits) [
    | inr (h, e, m, good) ↦ inr (h, rw (other_declaration, t) e, Memᴰ.tail m, good)
    | inl (e, away) ↦ inl (
      rw (other_declaration, t) e,
      λ h m q. elim ((Memᴰ-cons h x hits).0 m) [
        | inl first ↦ bad (subst (IsOther u word) first q)
        | inr i ↦ away h i q
      ],
    )
  ]
]

module _ (w : Walker) (p : Paths) (disk : Disk) (s : Server) (unique : IsMap s.index.entries)
    (d : Document) (ast : File) (word : Str) where
  -- A declaration of the word in the document.
  abbrev pub IsOwn : Declaration → Type 0
  IsOwn decl = Memᴰ decl (find_declarations w (some ast)) × (decl.name ≡ word)

  -- A declaration of the word in another indexed file that source statements connect to it.
  abbrev pub IsElsewhere : DeclarationHit → Type 0
  IsElsewhere h =
      (file : File) × (get s.index.entries h.uri ≡ some file)
      × Connected p disk w s.index.entries unique d.uri h.uri
      × Memᴰ h.declaration (find_declarations w (some file))
      × IsOther d.uri word h

  abbrev pub IsAnswer : Option Location → Type 0
  IsAnswer none =
      ((decl : Declaration) → IsOwn decl → ⊥) × ((h : DeclarationHit) → IsElsewhere h → ⊥)
  IsAnswer (some loc) =
      ((decl : Declaration) × IsOwn decl
        × (loc ≡ record {
          uri = d.uri;
          range = range_to_lsp s.pos_encoding d.text decl.pos decl.stop;
        }))
      ⊎ (((decl : Declaration) → IsOwn decl → ⊥)
          × ((h : DeclarationHit) × IsElsewhere h
              × (loc ≡ record {
                uri = h.uri;
                range =
                    range_to_lsp s.pos_encoding (text_for_uri p disk s h.uri) h.declaration.pos
                      h.declaration.stop;
              })))

  -- `definition` of a word leads to a declaration of it in the document if there is one, else to one
  -- in another file that source statements connect to the document, and to nothing only where
  -- neither has a declaration of the word.
  pub word_definition_correct : IsAnswer (word_definition w p disk s d ast word)
  unfolding word_definition declaration_location
  word_definition_correct =
      let (hits, found, exact) = reachable_declarations_correct p disk w s.index unique d.uri in
      elim (own_cases word (find_declarations w (some ast))) [
        | inr (decl, e, m, named) ↦ rw (word_definition, e) (inl (decl, (m, named), refl))
        | inl (e, away) ↦
            let no_own : (decl : Declaration) → IsOwn decl → ⊥ =
              λ decl (m, named). away decl m named in
            elim (IsOther-cases d.uri word (sort_slice hit_less hits)) [
              | inl (e', none_there) ↦
                  rw (word_definition, e, found, e')
                    (
                      no_own,
                      λ h (file, g, c, i, other).
                          none_there h
                            ((mem-sort_slice hit_less h hits).1 ((exact h).1 (file, g, c, i)))
                            other,
                    )
              | inr (h, e', m, good) ↦
                  let (file, g, c, i) = (exact h).0 ((mem-sort_slice hit_less h hits).0 m) in
                  rw (word_definition, e, found, e')
                    (inr (no_own, (h, (file, g, c, i, good), refl)))
            ]
      ]
