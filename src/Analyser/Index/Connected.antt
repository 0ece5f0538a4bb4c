-- ===== src/Analyser/Index/Connected.antt =====
-- internal/analyser/index.go, `reachableURIs`: the search returns, and it returns the component of
-- a file in the graph of source statements.
use mathlib.Core.List.Memᴰ
use gols_bash.Prelude.{
  suc, ◌≤◌, ◌≡◌, ◌↔◌, ◌⊎◌, inl, inr, true, some, List, [], ◌∷◌, Str, contains, Map, IsMap,
  mem_of_get, keys, length, arith, Memᴰ, Memᴰ-cons,
}
use gols_bash.Syntax.{File, Walker}
use gols_bash.System.{Paths, Disk}
use gols_bash.Analyser.Index.{source_neighbours, reachable_uris}
use gols_bash.Analyser.Index.Sources.{Indexed, Sources, mem-source_neighbours}
use gols_bash.Analyser.Reachable.Visit.{unseen}
use gols_bash.Analyser.Reachable.Search.{Reach, here, step, search_correct, search_ends}

mem-keys {ℓ} : {V : Type ℓ} (m : Map V) (k : Str) (v : V) → Memᴰ (k, v) m → Memᴰ k (keys m)
mem-keys [] k v i = absurd (Memᴰ.not-nil i)
mem-keys ((j, x) ∷ m) k v i = elim ((Memᴰ-cons (k, v) (j, x) m).0 i) [
  | inl e ↦ Memᴰ.head (cc)
  | inr r ↦ Memᴰ.tail (mem-keys m k v r)
]

unseen-le {ℓ} : {V : Type ℓ} (m : Map V) (seen : List Str) → unseen (keys m) seen ≤ length m
unseen-le [] seen = omega arith
unseen-le ((k, v) ∷ m) seen = ground (arith, unseen-le m seen)

module _ (p : Paths) (disk : Disk) (w : Walker) (entries : Map File) (unique : IsMap entries) where
  -- One file sources the other, by a literal `source` or `.` of a file that exists.
  abbrev pub Linked : Str → Str → Type 0
  Linked u v =
      Sources p disk w entries u v × Indexed p disk w entries v ⊎ Sources p disk w entries v u

  -- A chain of such links, in either direction.
  pub data Connected (from : Str) : Str → Type 0 where
    self : Connected from from
    link : {u v : Str} → Connected from u → Linked u v → Connected from v

  Reach→Connected :
      {from v : Str} → Reach (source_neighbours p disk w entries) from v → Connected from v
  Reach→Connected here = self
  Reach→Connected (step {u} {v} r m) =
      link (Reach→Connected r) ((mem-source_neighbours p disk w entries u v unique).0 m)

  Connected→Reach :
      {from v : Str} → Connected from v → Reach (source_neighbours p disk w entries) from v
  Connected→Reach self = here
  Connected→Reach (link {u} {v} c l) =
      step (Connected→Reach c) ((mem-source_neighbours p disk w entries u v unique).1 l)

  neighbours_known :
      (u v : Str) → Memᴰ v (source_neighbours p disk w entries u) → Memᴰ v (keys entries)
  neighbours_known u v m = elim ((mem-source_neighbours p disk w entries u v unique).0 m) [
    | inl (s, (f, e)) ↦ mem-keys entries v f (mem_of_get entries v f e)
    | inr (f, e, s) ↦ mem-keys entries v f (mem_of_get entries v f e)
  ]

  -- The search ends within one round more than there are indexed files, and the files that it
  -- returns are exactly those connected to the file by source statements, itself included.
  pub reachable_uris_correct :
      (from : Str)
      → (t : List Str) × (reachable_uris p disk w entries from ≡ some t)
        × ((v : Str) → (contains t v ≡ true) ↔ Connected from v)
  unfolding reachable_uris
  reachable_uris_correct from =
      let neighbours = source_neighbours p disk w entries in
      let (t, e) =
        search_ends neighbours (keys entries) neighbours_known (suc (length entries)) (from ∷ [])
          (from ∷ []) (omega (arith, unseen-le entries (from ∷ []))) in
      (
        t,
        e,
        λ v.
            let found = search_correct neighbours from (suc (length entries)) t v e in
            (λ h. Reach→Connected (found.0 h), λ c. found.1 (Connected→Reach c)),
      )

  Linked-sym : {u v : Str} → Indexed p disk w entries u → Linked u v → Linked v u
  Linked-sym i (inl (s, _)) = inr s
  Linked-sym i (inr s) = inl (s, i)

  Connected-Indexed :
      {from v : Str} → Indexed p disk w entries from → Connected from v → Indexed p disk w entries v
  Connected-Indexed i self = i
  Connected-Indexed i (link c (inl (s, j))) = j
  Connected-Indexed i (link c (inr (f, e, s))) = (f, e)

  Connected-trans : {a b c : Str} → Connected a b → Connected b c → Connected a c
  Connected-trans x self = x
  Connected-trans x (link c l) = link (Connected-trans x c) l

  Connected-sym :
      {from v : Str} → Indexed p disk w entries from → Connected from v → Connected v from
  Connected-sym i self = self
  Connected-sym i (link c l) =
      Connected-trans (link self (Linked-sym (Connected-Indexed i c) l)) (Connected-sym i c)

  -- For two indexed files, one lies in the component that the search returns for the other exactly
  -- where the other lies in its own.
  pub reachable_uris_symmetric :
      (a b : Str) (ra rb : List Str)
      → Indexed p disk w entries a
      → Indexed p disk w entries b
      → reachable_uris p disk w entries a ≡ some ra
      → reachable_uris p disk w entries b ≡ some rb
      → (contains ra b ≡ true) ↔ (contains rb a ≡ true)
  reachable_uris_symmetric a b ra rb ia ib ea eb =
      let (ta, qa, fa) = reachable_uris_correct a in
      let (tb, qb, fb) = reachable_uris_correct b in
      let sa : ra ≡ ta = cc in
      let sb : rb ≡ tb = cc in
      rw (sa, sb)
        (
          λ h. (fb a).1 (Connected-sym ia ((fa b).0 h)),
          λ h. (fa b).1 (Connected-sym ib ((fb a).0 h)),
        )
