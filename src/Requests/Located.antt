-- ===== src/Requests/Located.antt =====
-- internal/server/references.go and highlight.go: which places the answers name.
use gols_bash.Prelude.{
  ◌≡◌, refl, sym, ◌∙◌, ◌↔◌, Bool, some, List, Str, map, IsMap, arith, Memᴰ, Memᴰ-map,
}
use gols_bash.Syntax.{File, Node, Lit, Walker}
use gols_bash.System.{Paths, Disk}
use gols_bash.Lsp.{Word}
use gols_bash.Positions.{PositionEncoding, Position, range_to_lsp}
use gols_bash.Analyser.Symbols.{UsageKind, usage_read, usage_write, find_usages}
use gols_bash.Analyser.SymbolLaws.{mentions, usage_at}
use gols_bash.Analyser.Occurrences.{mem-find_usages}
use gols_bash.Analyser.Index.{UsageHit, reachable_usages}
use gols_bash.Analyser.Index.Hits.{IsKept}
use gols_bash.Analyser.Index.References.{IsOccurrence, reachable_usages_correct}
use gols_bash.Documents.{Document}
use gols_bash.Protocol.{Location}
use gols_bash.State.{Server}
use gols_bash.Requests.{word_under, text_for_uri}
use gols_bash.Requests.Rename.Edits.{word_under-named}
use gols_bash.Requests.References.{
  location_of, references, highlight_of, highlight, DocumentHighlight, HighlightKind,
  highlight_read, highlight_write,
}

-- How a mention is shown: a write for what declares, a read for what does not.
abbrev pub highlight_kind : UsageKind → HighlightKind
highlight_kind usage_write = highlight_write
highlight_kind usage_read = highlight_read

-- The place of a name in a text, and how it is shown.
abbrev pub highlighted : PositionEncoding → Str → UsageKind → Lit → DocumentHighlight
highlighted enc text k l = record {
  range = range_to_lsp enc text l.pos l.stop;
  kind = highlight_kind k;
}

module _ (w : Walker) (p : Paths) (disk : Disk) (s : Server) (d : Document) (pos : Position)
    (file : File) (word : Word) (parsed : d.ast ≡ some file)
    (under : word_under s.pos_encoding d.text pos ≡ some word) where
  references_hits :
      (include_decl : Bool) (hits : List UsageHit)
      → reachable_usages w p disk s.index d.uri word.word include_decl ≡ some hits
      → references w p disk s (some d) pos include_decl ≡ some (map (location_of w p disk s) hits)
  unfolding references
  references_hits include_decl hits e = ground arith

  -- On a word of a document that parses, `references` answers with exactly the places of the
  -- occurrences of that word in the files which source statements connect to the document, of which
  -- declarations only where they are asked for.
  pub references_correct :
      (unique : IsMap s.index.entries) (include_decl : Bool)
      → (locs : List Location) × (references w p disk s (some d) pos include_decl ≡ some locs)
        × ((l : Location)
            → Memᴰ l locs ↔ (
                (h : UsageHit) × IsOccurrence p disk w s.index unique d.uri word.word h
                × IsKept include_decl h.usage
                × (l ≡ record {
                  uri = h.uri;
                  range =
                      range_to_lsp s.pos_encoding
                        (text_for_uri p disk s h.uri)
                        h.usage.pos
                        h.usage.stop;
                })))
  unfolding location_of
  references_correct unique include_decl =
      let named = word_under-named s.pos_encoding d.text pos word under in
      let (hits, found, exact) =
        reachable_usages_correct p disk w s.index unique d.uri word.word include_decl named in
      (
        map (location_of w p disk s) hits,
        references_hits include_decl hits found,
        λ l.
            let mapped = Memᴰ-map (location_of w p disk s) hits l in
            (
              λ m.
                  let (h, i, q) = mapped.0 m in
                  let (occ, kept) = (exact h).0 i in (h, occ, kept, q),
              λ (h, occ, kept, q). mapped.1 (h, (exact h).1 (occ, kept), q),
            ),
      )

  highlight_usages :
      highlight w p disk s (some d) pos
      ≡ some (map (highlight_of w p disk s d) (find_usages w (some file) word.word))
  unfolding highlight
  highlight_usages = ground arith

  highlight_of-highlighted :
      (k : UsageKind) (l : Lit)
      → highlight_of w p disk s d (usage_at k l) ≡ highlighted s.pos_encoding d.text k l
  unfolding highlight_of
  highlight_of-highlighted usage_write l = refl
  highlight_of-highlighted usage_read l = refl

  -- On a word of a document that parses, `highlight` answers with exactly the ranges of the names in
  -- the document that are the word: as writes where the node is a function or an assignment, as reads
  -- where it calls a command or reads a parameter.
  pub highlight_correct :
      (hs : List DocumentHighlight) × (highlight w p disk s (some d) pos ≡ some hs)
      × ((x : DocumentHighlight)
          → Memᴰ x hs ↔ (
              (n : Node) × (k : UsageKind) × (l : Lit) × Memᴰ n file.nodes
              × (mentions n ≡ some (k, l))
              × (l.value ≡ word.word)
              × (x ≡ highlighted s.pos_encoding d.text k l)))
  highlight_correct =
      let named = word_under-named s.pos_encoding d.text pos word under in
      let us = find_usages w (some file) word.word in
      (
        map (highlight_of w p disk s d) us,
        highlight_usages,
        λ x.
            let mapped = Memᴰ-map (highlight_of w p disk s d) us x in
            (
              λ m.
                  let (u, i, q) = mapped.0 m in
                  let (n, k, l, mn, e, v, at_l) = (mem-find_usages w file word.word named u).0 i in
                  (n, k, l, mn, e, v, (rw (← at_l) q) ∙ highlight_of-highlighted k l),
              λ (n, k, l, mn, e, v, q). mapped.1 (
                usage_at k l,
                (mem-find_usages w file word.word named (usage_at k l)).1 (n, k, l, mn, e, v, refl),
                q ∙ sym (highlight_of-highlighted k l),
              ),
            ),
      )
