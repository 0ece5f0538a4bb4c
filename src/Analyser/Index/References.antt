-- ===== src/Analyser/Index/References.antt =====
-- internal/analyser/index.go, `ReachableUsages` and `ReachableDeclarations`: what the server's
-- requests across files get.
use gols_bash.Prelude.{
  ◌≡◌, ◌≢◌, ◌↔◌, Bool, some, List, [], Str, get, IsMap, get_of_mem, mem_of_get, Memᴰ,
}
use gols_bash.Syntax.{Lit, Node, File, Walker}
use gols_bash.System.{Paths, Disk}
use gols_bash.Analyser.Symbols.{UsageKind, find_declarations}
use gols_bash.Analyser.SymbolLaws.{mentions, usage_at}
use gols_bash.Analyser.Occurrences.{mem-find_usages}
use gols_bash.Analyser.Index.{
  Index, UsageHit, DeclarationHit, declaration_hits, usage_hits, reachable_usages,
  reachable_declarations,
}
use gols_bash.Analyser.Index.Connected.{Connected, reachable_uris_correct}
use gols_bash.Analyser.Index.Hits.{IsKept, mem-usage_hits, mem-declaration_hits}

module _ (p : Paths) (disk : Disk) (w : Walker) (i : Index) (unique : IsMap i.entries)
    (from : Str) where
  -- An occurrence of a name in an indexed file that source statements connect to `from`.
  abbrev pub IsOccurrence : Str → UsageHit → Type 0
  IsOccurrence name h =
      (file : File) × (n : Node) × (k : UsageKind) × (l : Lit) × (get i.entries h.uri ≡ some file)
      × Connected p disk w i.entries unique from h.uri
      × Memᴰ n file.nodes
      × (mentions n ≡ some (k, l))
      × (l.value ≡ name)
      × (h.usage ≡ usage_at k l)

  -- The search ends, and it hits exactly the occurrences of the name in the component of `from`, of
  -- which writes only where declarations are asked for.
  pub reachable_usages_correct :
      (name : Str) (include_decl : Bool)
      → name ≢ []
      → (hits : List UsageHit) × (reachable_usages w p disk i from name include_decl ≡ some hits)
        × ((h : UsageHit) → Memᴰ h hits ↔ (IsOccurrence name h × IsKept include_decl h.usage))
  unfolding reachable_usages
  reachable_usages_correct name include_decl named =
      let (t, e, within) = reachable_uris_correct p disk w i.entries unique from in
      (
        usage_hits w i.entries (some t) name include_decl,
        rw e,
        λ h.
            let hit = mem-usage_hits w i.entries (some t) name include_decl h in
            (
              λ m.
                  let (file, f, allowed, u, kept) = hit.0 m in
                  let (n, k, l, mn, e', v, q) = (mem-find_usages w file name named h.usage).0 u in
                  (
                    (
                      file,
                      n,
                      k,
                      l,
                      get_of_mem i.entries h.uri file unique f,
                      (within h.uri).0 allowed,
                      mn,
                      e',
                      v,
                      q,
                    ),
                    kept,
                  ),
              λ ((file, n, k, l, g, c, mn, e', v, q), kept). hit.1 (
                file,
                mem_of_get i.entries h.uri file g,
                (within h.uri).1 c,
                (mem-find_usages w file name named h.usage).1 (n, k, l, mn, e', v, q),
                kept,
              ),
            ),
      )

  -- The search ends, and it hits exactly the declarations of the files in the component of `from`.
  pub reachable_declarations_correct :
      (hits : List DeclarationHit) × (reachable_declarations w p disk i from ≡ some hits)
      × ((h : DeclarationHit)
          → Memᴰ h hits ↔ (
              (file : File) × (get i.entries h.uri ≡ some file)
              × Connected p disk w i.entries unique from h.uri
              × Memᴰ h.declaration (find_declarations w (some file))))
  unfolding reachable_declarations
  reachable_declarations_correct =
      let (t, e, within) = reachable_uris_correct p disk w i.entries unique from in
      (
        declaration_hits w i.entries (some t),
        rw e,
        λ h.
            let hit = mem-declaration_hits w i.entries (some t) h in
            (
              λ m.
                  let (file, f, allowed, d) = hit.0 m in
                  (file, get_of_mem i.entries h.uri file unique f, (within h.uri).0 allowed, d),
              λ (file, g, c, d).
                  hit.1 (file, mem_of_get i.entries h.uri file g, (within h.uri).1 c, d),
            ),
      )
