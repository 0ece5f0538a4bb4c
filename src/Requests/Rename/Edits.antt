-- ===== src/Requests/Rename/Edits.antt =====
-- internal/server/rename.go: which edits a rename makes.
use mathlib.Core.List.Memᴰ
use gols_bash.Prelude.{
  ◌≡◌, refl, ◌≢◌, ◌↔◌, ◌⊎◌, inl, inr, true, false, some, List, [], ◌∷◌, ◌++◌, Str, Map, str_eq,
  str_eq_iff, get, get-put, IsMap, if◌then◌else◌, arith, Memᴰ, Memᴰ-cons, Memᴰ-append, Bool-cases,
  Str-cases,
}
use gols_bash.Syntax.{File, Walker}
use gols_bash.System.{Paths, Disk}
use gols_bash.Lsp.{Word}
use gols_bash.Positions.{PositionEncoding, Position, range_to_lsp}
use gols_bash.Analyser.Symbols.{is_write}
use gols_bash.Analyser.Index.{UsageHit, reachable_usages}
use gols_bash.Analyser.Index.References.{IsOccurrence, reachable_usages_correct}
use gols_bash.Documents.{Document}
use gols_bash.Protocol.{TextEdit}
use gols_bash.State.{Server}
use gols_bash.Requests.{text_for_uri, or_empty, word_under}
use gols_bash.Requests.Identifier.{is_valid_identifier}
use gols_bash.Requests.Rename.{
  has_declaration, append_edit, RenameResult, invalid_name, edited, edit_for, edits_loop, rename,
}

-- The edits that a result makes to one file.
abbrev pub edits_at : Map (List TextEdit) → Str → List TextEdit
edits_at changes u = or_empty (get changes u)

edits_at-nil : (u : Str) (e : TextEdit) → Memᴰ e (edits_at [] u) → ⊥
unfolding get
edits_at-nil u e m = Memᴰ.not-nil m

pub word_under-named :
    (enc : PositionEncoding) (text : Str) (pos : Position) (word : Word)
    → word_under enc text pos ≡ some word
    → word.word ≢ []
unfolding word_under
word_under-named enc text pos word h e = ground arith

true≢false : (hits : List UsageHit) → has_declaration hits ≡ true → has_declaration hits ≡ false → ⊥
true≢false hits t f = cc

pub has_declaration_iff :
    (hits : List UsageHit)
    → (has_declaration hits ≡ true) ↔ ((h : UsageHit) × Memᴰ h hits × (is_write h.usage ≡ true))
unfolding has_declaration
has_declaration_iff [] = (λ e. cc, λ (h, m, _). absurd (Memᴰ.not-nil m))
has_declaration_iff (x ∷ hits) = (
  λ e. elim (Bool-cases (is_write x.usage)) [
    | inl yes_write ↦ (x, Memᴰ.head refl, yes_write)
    | inr no_write ↦
        let (h, m, wr) = (has_declaration_iff hits).0 (ground arith) in (h, Memᴰ.tail m, wr)
  ],
  λ (h, m, wr). elim ((Memᴰ-cons h x hits).0 m) [
    | inl e ↦ let first : is_write x.usage ≡ true = rw (← e) wr in ground arith
    | inr r ↦ ground (arith, (has_declaration_iff hits).1 (h, r, wr))
  ],
)

edits-append_edit :
    (changes : Map (List TextEdit)) (v : Str) (edit : TextEdit) (u : Str)
    → edits_at (append_edit changes v edit) u
      ≡ (if str_eq v u then edits_at changes u ++ edit ∷ [] else edits_at changes u)
unfolding append_edit
edits-append_edit changes v edit u =
    ground (arith, get-put changes v (or_empty (get changes v) ++ edit ∷ []) u, str_eq_iff v u)

mem-append_edit :
    (changes : Map (List TextEdit)) (v : Str) (edit : TextEdit) (u : Str) (e : TextEdit)
    → Memᴰ e (edits_at (append_edit changes v edit) u)
      ↔ (Memᴰ e (edits_at changes u) ⊎ (v ≡ u) × (e ≡ edit))
mem-append_edit changes v edit u e = elim (Str-cases v u) [
  | inl same ↦
      let hit = (str_eq_iff v u).1 same in
      rw (edits-append_edit changes v edit u, hit)
        (
          λ m. elim ((Memᴰ-append e (edits_at changes u) (edit ∷ [])).0 m) [
            | inl a ↦ inl a
            | inr last ↦ inr (same, Memᴰ.eq_of_singleton last)
          ],
          λ m.
              (Memᴰ-append e (edits_at changes u) (edit ∷ [])).1
                (elim m [ inl a ↦ inl a | inr (_, q) ↦ inr (Memᴰ.head q) ]),
        )
  | inr ne ↦
      let clash : v ≡ u → ⊥ = λ q. ground (arith, str_eq_iff v u) in
      rw (edits-append_edit changes v edit u, ne)
        (inl, λ m. elim m [ inl a ↦ a | inr (q, _) ↦ absurd (clash q) ])
]

module _ (w : Walker) (p : Paths) (disk : Disk) (s : Server) (new_name : Str) where
  -- The edits of one file: those it had, and one for each hit in it.
  mem-edits_loop :
      (changes : Map (List TextEdit)) (hits : List UsageHit) (u : Str) (e : TextEdit)
      → Memᴰ e (edits_at (edits_loop w p disk s new_name changes hits) u) ↔ (
          Memᴰ e (edits_at changes u)
          ⊎ ((h : UsageHit) × Memᴰ h hits × (h.uri ≡ u) × (e ≡ edit_for w p disk s new_name h)))
  unfolding edits_loop
  mem-edits_loop changes [] u e =
      (inl, λ m. elim m [ inl a ↦ a | inr (h, i, _, _) ↦ absurd (Memᴰ.not-nil i) ])
  mem-edits_loop changes (x ∷ hits) u e =
      let edit = edit_for w p disk s new_name x in
      let later = mem-edits_loop (append_edit changes x.uri edit) hits u e in
      let now = mem-append_edit changes x.uri edit u e in
      (
        λ m. elim (later.0 m) [
          | inl a ↦ elim (now.0 a) [
            | inl b ↦ inl b
            | inr (at_u, q) ↦ inr (x, Memᴰ.head refl, at_u, q)
          ]
          | inr (h, i, at_u, q) ↦ inr (h, Memᴰ.tail i, at_u, q)
        ],
        λ m. later.1 (elim m [
          | inl b ↦ inl (now.1 (inl b))
          | inr (h, i, at_u, q) ↦ elim ((Memᴰ-cons h x hits).0 i) [
            | inl same ↦ inl (now.1 (inr (rw (← same) at_u, rw (← same) q)))
            | inr r ↦ inr (h, r, at_u, q)
          ]
        ]),
      )

-- What a result changes in one file; an error changes nothing.
abbrev pub result_edits : RenameResult → Str → List TextEdit
result_edits invalid_name u = []
result_edits (edited e) u = edits_at e.changes u

module _ (w : Walker) (p : Paths) (disk : Disk) (s : Server) (unique : IsMap s.index.entries)
    (d : Document) where
  abbrev pub Occurs : Str → UsageHit → Type 0
  Occurs name h = IsOccurrence p disk w s.index unique d.uri name h

  -- The word is written somewhere in the files connected to the document.
  abbrev pub IsDeclared : Str → Type 0
  IsDeclared name = (h : UsageHit) × Occurs name h × (is_write h.usage ≡ true)

  rename_hits :
      (pos : Position) (new_name : Str) (file : File) (word : Word)
      → is_valid_identifier new_name ≡ true
      → d.ast ≡ some file
      → word_under s.pos_encoding d.text pos ≡ some word
      → (hits : List UsageHit) → reachable_usages w p disk s.index d.uri word.word true ≡ some hits
      → rename w p disk s (some d) pos new_name ≡ (
          if has_declaration hits
          then edited (record { changes = edits_loop w p disk s new_name [] hits })
          else edited (record { changes = [] }))
  unfolding rename
  rename_hits pos new_name file word ok a u hits e = ground arith

  -- With a valid new name and a word under the cursor, `rename` edits a file exactly where the word
  -- occurs in a file that source statements connect to the document, every edit writes the new
  -- name over the range of one occurrence, and it edits nothing at all where none of the
  -- occurrences is a declaration.
  pub rename_correct :
      (pos : Position) (new_name : Str) (file : File) (word : Word)
      → is_valid_identifier new_name ≡ true
      → d.ast ≡ some file
      → word_under s.pos_encoding d.text pos ≡ some word
      → (u : Str) (e : TextEdit)
      → Memᴰ e (result_edits (rename w p disk s (some d) pos new_name) u) ↔ (
          IsDeclared word.word
          × ((h : UsageHit) × Occurs word.word h
              × (h.uri ≡ u)
              × (e ≡ record {
                range =
                    range_to_lsp s.pos_encoding
                      (text_for_uri p disk s h.uri)
                      h.usage.pos
                      h.usage.stop;
                new_text = new_name;
              })))
  unfolding edit_for
  rename_correct pos new_name file word ok a under u e =
      let named = word_under-named s.pos_encoding d.text pos word under in
      let (hits, found, exact) =
        reachable_usages_correct p disk w s.index unique d.uri word.word true named in
      let result = rename_hits pos new_name file word ok a under hits found in
      let declared = has_declaration_iff hits in
      let edits = mem-edits_loop w p disk s new_name [] hits u e in
      elim (Bool-cases (has_declaration hits)) [
        | inl t ↦
            rw (result, t)
              (
                λ m. elim (edits.0 m) [
                  | inl none_yet ↦ absurd (edits_at-nil u e none_yet)
                  | inr (h, i, at_u, q) ↦
                      let (h', i', wr) = declared.0 t in
                      ((h', ((exact h').0 i').0, wr), (h, ((exact h).0 i).0, at_u, q))
                ],
                λ (_, (h, occ, at_u, q)). edits.1 (inr (h, (exact h).1 (occ, inl refl), at_u, q)),
              )
        | inr f ↦
            rw (result, f)
              (
                λ m. absurd (edits_at-nil u e m),
                λ ((h, occ, wr), _).
                    let t = declared.1 (h, (exact h).1 (occ, inl refl), wr) in
                    absurd (true≢false hits t f),
              )
      ]
