-- ===== src/Requests/Rename.antt =====
-- internal/server/rename.go.
pub mod Edits
use gols_bash.Prelude.{
  ℕ, ◌≡◌, refl, Bool, true, false, not, ◌||◌, Option, none, some, List, [], ◌∷◌, ◌++◌, Str, Map,
  bytes, str_eq, get, put, if◌then◌else◌,
}
use gols_bash.Syntax.{Walker}
use gols_bash.System.{Paths, Disk}
use gols_bash.Lsp.{Word, word_at_offset}
use gols_bash.Positions.{Position, Range, range_to_lsp, pos_for_offset, offset_for_position}
use gols_bash.Analyser.Symbols.{is_write}
use gols_bash.Analyser.Index.{UsageHit, reachable_usages}
use gols_bash.Documents.{Document}
use gols_bash.Protocol.{TextEdit, WorkspaceEdit}
use gols_bash.State.{Server}
use gols_bash.Requests.{or_empty, word_under, text_for_uri}
use gols_bash.Requests.Identifier.{is_valid_identifier}

unfoldable pub has_declaration : List UsageHit → Bool
has_declaration [] = false
has_declaration (h ∷ hits) = is_write h.usage || has_declaration hits

-- `changes[u] = append(changes[u], edit)`
unfoldable pub append_edit : Map (List TextEdit) → Str → TextEdit → Map (List TextEdit)
append_edit changes u edit = put changes u (or_empty (get changes u) ++ edit ∷ [])

pub data RenameResult : Type 0 where
  -- `InvalidParams`
  invalid_name : RenameResult
  edited : WorkspaceEdit → RenameResult

abbrev pub no_edit : RenameResult
no_edit = edited (record { changes = [] })

module _ (w : Walker) (p : Paths) (disk : Disk) (s : Server) where
  unfoldable pub edit_for : Str → UsageHit → TextEdit
  edit_for new_name h = record {
    range = range_to_lsp s.pos_encoding (text_for_uri p disk s h.uri) h.usage.pos h.usage.stop;
    new_text = new_name;
  }

  -- The loop over the hits.
  unfoldable pub edits_loop : Str → Map (List TextEdit) → List UsageHit → Map (List TextEdit)
  unfolding edit_for append_edit
  edits_loop new_name changes [] = changes
  edits_loop new_name changes (h ∷ hits) =
      edits_loop new_name (append_edit changes h.uri (edit_for new_name h)) hits

  -- The search for usages is a loop on fuel: `or_empty` reads one that runs out as no hits.
  unfoldable pub rename : Option Document → Position → Str → RenameResult
  unfolding has_declaration edits_loop
  rename found pos new_name =
      if not (is_valid_identifier new_name) then invalid_name else elim found [
        | none ↦ no_edit
        | some d ↦ elim d.ast [
          | none ↦ no_edit
          | some _ ↦ elim (word_under s.pos_encoding d.text pos) [
            | none ↦ no_edit
            | some word ↦
                let hits = or_empty (reachable_usages w p disk s.index d.uri word.word true) in
                if not (has_declaration hits)
                then no_edit
                else edited (record { changes = edits_loop new_name [] hits })
          ]
        ]
      ]

  unfoldable pub prepare_rename : Option Document → Position → Option Range
  unfolding has_declaration
  prepare_rename none pos = none
  prepare_rename (some d) pos = elim d.ast [
    | none ↦ none
    | some _ ↦ elim (offset_for_position s.pos_encoding d.text pos.line pos.character) [
      | none ↦ none
      | some off ↦
          let word = word_at_offset d.text off in
          if not (is_valid_identifier word.word) || str_eq word.word (bytes "_")
          then none
          else if not
              (has_declaration (or_empty (reachable_usages w p disk s.index d.uri word.word true)))
          then none
          else some (record {
            start = pos_for_offset s.pos_encoding d.text word.start;
            stop = pos_for_offset s.pos_encoding d.text word.stop;
          })
    ]
  ]
