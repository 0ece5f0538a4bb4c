-- ===== src/Examples/Analyser.antt =====
-- internal/analyser: a script and the file that it sources.
use gols_bash.Prelude.{
  ◌≡◌, refl, ◌≢◌, ◌↔◌, true, some, List, [], ◌∷◌, map, Str, bytes, str_eq, contains, get, IsMap,
  select, Memᴰ,
}
use gols_bash.Syntax.{Lit, Node, File}
use gols_bash.Analyser.Symbols.{UsageKind, usage_write, find_declarations, find_usages, is_write}
use gols_bash.Analyser.SymbolLaws.{mentions, usage_at}
use gols_bash.Analyser.Occurrences.{mem-find_usages, as_write, writes-eq-declarations}
use gols_bash.Analyser.Index.{
  Index, UsageHit, DeclarationHit, reachable_uris, reachable_usages, reachable_declarations,
  source_neighbours,
}
use gols_bash.Analyser.Reachable.{search_loop, expand, visit}
use gols_bash.Analyser.Index.Sources.{Indexed}
use gols_bash.Analyser.Index.Connected.{Connected, reachable_uris_correct, reachable_uris_symmetric}
use gols_bash.Analyser.Index.Hits.{IsKept}
use gols_bash.Analyser.Index.References.{
  IsOccurrence, reachable_usages_correct, reachable_declarations_correct,
}
use gols_bash.Examples.World.{flat_walker, plain_paths, plain_disk, file_a, file_b, lit_at}

abbrev pub a_sh : Str
a_sh = bytes "/a.sh"

abbrev pub b_sh : Str
b_sh = bytes "/b.sh"

abbrev x_name : Str
x_name = bytes "x"

abbrev pub two_files : Index
two_files = record { entries = (a_sh, file_a) ∷ (b_sh, file_b) ∷ [] }

pub two_files-IsMap : IsMap two_files.entries
unfolding get str_eq
two_files-IsMap = (refl, (refl, tt))

x_named : x_name ≢ []
x_named e = cc

test_reachable :
    reachable_uris plain_paths plain_disk flat_walker two_files.entries b_sh
    ≡ some (b_sh ∷ a_sh ∷ [])
unfolding reachable_uris source_neighbours search_loop expand visit get str_eq contains
test_reachable = refl

mem-find_usages_example :
    Memᴰ (usage_at usage_write (lit_at 0 x_name)) (find_usages flat_walker (some file_a) x_name) ↔ (
      (n : Node) × (k : UsageKind) × (l : Lit) × Memᴰ n file_a.nodes
      × (mentions n ≡ some (k, l))
      × (l.value ≡ x_name)
      × (usage_at usage_write (lit_at 0 x_name) ≡ usage_at k l))
mem-find_usages_example =
    mem-find_usages flat_walker file_a x_name x_named (usage_at usage_write (lit_at 0 x_name))

writes-eq-declarations_example :
    select is_write (find_usages flat_walker (some file_a) x_name)
    ≡ map as_write
        (select (λ d. str_eq d.name x_name) (find_declarations flat_walker (some file_a)))
writes-eq-declarations_example = writes-eq-declarations flat_walker file_a x_name x_named

abbrev Together : Str → Str → Type 0
Together = Connected plain_paths plain_disk flat_walker two_files.entries two_files-IsMap

reachable_uris_correct_example :
    (t : List Str) × (reachable_uris plain_paths plain_disk flat_walker two_files.entries b_sh
      ≡ some t)
    × ((v : Str) → (contains t v ≡ true) ↔ Together b_sh v)
reachable_uris_correct_example =
    reachable_uris_correct plain_paths plain_disk flat_walker two_files.entries two_files-IsMap b_sh

a-Indexed : Indexed plain_paths plain_disk flat_walker two_files.entries a_sh
unfolding get str_eq
a-Indexed = (file_a, refl)

b-Indexed : Indexed plain_paths plain_disk flat_walker two_files.entries b_sh
unfolding get str_eq
b-Indexed = (file_b, refl)

test_reachable_back :
    reachable_uris plain_paths plain_disk flat_walker two_files.entries a_sh
    ≡ some (a_sh ∷ b_sh ∷ [])
unfolding reachable_uris source_neighbours search_loop expand visit get str_eq contains
test_reachable_back = refl

reachable_uris_symmetric_example :
    (contains (a_sh ∷ b_sh ∷ []) b_sh ≡ true) ↔ (contains (b_sh ∷ a_sh ∷ []) a_sh ≡ true)
reachable_uris_symmetric_example =
    reachable_uris_symmetric plain_paths plain_disk flat_walker two_files.entries two_files-IsMap
      a_sh b_sh (a_sh ∷ b_sh ∷ []) (b_sh ∷ a_sh ∷ []) a-Indexed b-Indexed test_reachable_back
      test_reachable

reachable_usages_correct_example :
    (hits : List UsageHit) × (reachable_usages flat_walker plain_paths plain_disk two_files b_sh
        x_name true
      ≡ some hits)
    × ((h : UsageHit)
        → Memᴰ h hits ↔ (
            IsOccurrence plain_paths plain_disk flat_walker two_files two_files-IsMap b_sh x_name h
            × IsKept true h.usage))
reachable_usages_correct_example =
    reachable_usages_correct plain_paths plain_disk flat_walker two_files two_files-IsMap b_sh
      x_name true x_named

reachable_declarations_correct_example :
    (hits : List DeclarationHit) × (reachable_declarations flat_walker plain_paths plain_disk
        two_files b_sh
      ≡ some hits)
    × ((h : DeclarationHit)
        → Memᴰ h hits ↔ (
            (file : File) × (get two_files.entries h.uri ≡ some file)
            × Together b_sh h.uri
            × Memᴰ h.declaration (find_declarations flat_walker (some file))))
reachable_declarations_correct_example =
    reachable_declarations_correct plain_paths plain_disk flat_walker two_files two_files-IsMap b_sh
