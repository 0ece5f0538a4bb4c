-- ===== src/Requests/Prepared.antt =====
-- internal/server/rename.go: what `prepareRename` promises of `rename`.
use gols_bash.Prelude.{
  ℕ, ◌≡◌, refl, ◌≢◌, inl, inr, true, some, none, Str, IsMap, arith, Memᴰ, Option-cases,
}
use gols_bash.Syntax.{File, Walker}
use gols_bash.System.{Paths, Disk}
use gols_bash.Lsp.{word_at_offset}
use gols_bash.Positions.{Position, Range, offset_for_position}
use gols_bash.Analyser.Index.{reachable_usages}
use gols_bash.Analyser.Index.References.{reachable_usages_correct}
use gols_bash.Documents.{Document}
use gols_bash.Protocol.{TextEdit}
use gols_bash.State.{Server}
use gols_bash.Requests.{or_empty, word_under}
use gols_bash.Requests.Identifier.{is_valid_identifier}
use gols_bash.Requests.Rename.{has_declaration, edit_for, rename, prepare_rename}
use gols_bash.Requests.Rename.Edits.{
  has_declaration_iff, word_under-named, result_edits, rename_correct,
}

module _ (w : Walker) (p : Paths) (disk : Disk) (s : Server) (d : Document) (pos : Position) where
  prepare_parsed : (r : Range) → prepare_rename w p disk s (some d) pos ≡ some r → d.ast ≢ none
  unfolding prepare_rename
  prepare_parsed r e q = ground arith

  -- What the guards of `prepareRename` leave.
  prepare_cases :
      (r : Range)
      → prepare_rename w p disk s (some d) pos ≡ some r
      → (file : File) × (off : ℕ) × (d.ast ≡ some file)
        × (offset_for_position s.pos_encoding d.text pos.line pos.character ≡ some off)
        × (is_valid_identifier (word_at_offset d.text off).word ≡ true)
        × (has_declaration (
              or_empty
                (reachable_usages w p disk s.index d.uri (word_at_offset d.text off).word true))
            ≡ true)
  prepare_cases r e = elim (Option-cases d.ast) [
    | inl q ↦ absurd (prepare_parsed r e q)
    | inr (file, q) ↦
        elim (Option-cases (offset_for_position s.pos_encoding d.text pos.line pos.character)) [
          | inl o ↦ absurd (unfold prepare_rename in ground arith)
          | inr (off, o) ↦ (
            file,
            off,
            q,
            o,
            unfold prepare_rename in ground arith,
            unfold prepare_rename in ground arith,
          )
        ]
  ]

  word_under-word_at_offset :
      (off : ℕ)
      → offset_for_position s.pos_encoding d.text pos.line pos.character ≡ some off
      → is_valid_identifier (word_at_offset d.text off).word ≡ true
      → word_under s.pos_encoding d.text pos ≡ some (word_at_offset d.text off)
  unfolding word_under is_valid_identifier
  word_under-word_at_offset off o v = ground arith

  -- Where `prepareRename` offers a range, `rename` with a valid new name makes at least one edit.
  pub rename-prepare_rename :
      (unique : IsMap s.index.entries) (r : Range) (new_name : Str)
      → prepare_rename w p disk s (some d) pos ≡ some r
      → is_valid_identifier new_name ≡ true
      → (u : Str) × (e : TextEdit) × Memᴰ e
          (result_edits (rename w p disk s (some d) pos new_name) u)
  unfolding edit_for
  rename-prepare_rename unique r new_name e valid =
      let (file, off, parsed, o, v, declared) = prepare_cases r e in
      let word = word_at_offset d.text off in
      let under = word_under-word_at_offset off o v in
      let named = word_under-named s.pos_encoding d.text pos word under in
      let (hits, found, exact) =
        reachable_usages_correct p disk w s.index unique d.uri word.word true named in
      let (h, i, wr) = (has_declaration_iff hits).0 (cc) in
      let occ = ((exact h).0 i).0 in
      let edit = edit_for w p disk s new_name h in
      (
        h.uri,
        edit,
        (rename_correct w p disk s unique d pos new_name file word valid parsed under h.uri edit).1
            ((h, occ, wr), (h, occ, refl, refl)),
      )
