-- ===== src/Requests/References.antt =====
-- internal/server/references.go and highlight.go.
use gols_bash.Prelude.{Bool, Option, none, some, List, map}
use gols_bash.Syntax.{Walker}
use gols_bash.System.{Paths, Disk}
use gols_bash.Positions.{Position, Range, range_to_lsp}
use gols_bash.Analyser.Symbols.{Usage, usage_read, usage_write, find_usages}
use gols_bash.Analyser.Index.{UsageHit, reachable_usages}
use gols_bash.Documents.{Document}
use gols_bash.Protocol.{Location}
use gols_bash.State.{Server}
use gols_bash.Requests.{or_empty, word_under, text_for_uri}

pub data HighlightKind : Type 0 where
  highlight_read highlight_write : HighlightKind

pub record DocumentHighlight : Type 0 where
  pub range : Range
  pub kind : HighlightKind

module _ (w : Walker) (p : Paths) (disk : Disk) (s : Server) where
  unfoldable pub location_of : UsageHit → Location
  location_of h = record {
    uri = h.uri;
    range = range_to_lsp s.pos_encoding (text_for_uri p disk s h.uri) h.usage.pos h.usage.stop;
  }

  -- The search for usages is a loop on fuel: `or_empty` reads one that runs out as no hits.
  unfoldable pub references : Option Document → Position → Bool → Option (List Location)
  unfolding location_of
  references none pos include_decl = none
  references (some d) pos include_decl = elim d.ast [
    | none ↦ none
    | some _ ↦ elim (word_under s.pos_encoding d.text pos) [
      | none ↦ none
      | some word ↦ some (
          map location_of
            (or_empty (reachable_usages w p disk s.index d.uri word.word include_decl)))
    ]
  ]

  unfoldable pub highlight_of : Document → Usage → DocumentHighlight
  highlight_of d u = record {
    range = range_to_lsp s.pos_encoding d.text u.pos u.stop;
    kind = elim u.kind [ usage_write ↦ highlight_write | usage_read ↦ highlight_read ];
  }

  unfoldable pub highlight : Option Document → Position → Option (List DocumentHighlight)
  unfolding highlight_of
  highlight none pos = none
  highlight (some d) pos = elim d.ast [
    | none ↦ none
    | some ast ↦ elim (word_under s.pos_encoding d.text pos) [
      | none ↦ none
      | some word ↦ some (map (highlight_of d) (find_usages w (some ast) word.word))
    ]
  ]
