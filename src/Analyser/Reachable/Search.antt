-- ===== src/Analyser/Reachable/Search.antt =====
-- internal/analyser/index.go, `reachableURIs`: the outer loop ends, and its result is the set of
-- files that some chain of neighbours leads to.
use mathlib.Core.List.Memᴰ
use mathlib.Core.Logic.{⊎_elim}
use gols_bash.Prelude.{
  ℕ, zero, suc, ◌≤◌, ◌≡◌, refl, ◌↔◌, ◌⊎◌, inl, inr, true, some, List, [], ◌∷◌, Str, contains,
  contains_iff, arith, Memᴰ, Memᴰ-cons,
}
use gols_bash.Analyser.Reachable.{State, visit_all, expand, search_loop}
use gols_bash.Analyser.Reachable.Visit.{work, contains-visit_all, mem-visit_all, work-visit_all}

module _ (neighbours : Str → List Str) where
  -- The files that a chain of neighbours leads to.
  pub data Reach (from : Str) : Str → Type 0 where
    here : Reach from from
    step : {u v : Str} → Reach from u → Memᴰ v (neighbours u) → Reach from v

  record Inv (from : Str) (s : State) : Type 0 where
    source : contains s.seen from ≡ true
    queued : (v : Str) → Memᴰ v s.queue → contains s.seen v ≡ true
    sound : (v : Str) → contains s.seen v ≡ true → Reach from v
    closed :
        (u v : Str)
        → contains s.seen u ≡ true
        → Memᴰ v (neighbours u)
        → Memᴰ u s.queue ⊎ (contains s.seen v ≡ true)

  Inv-start : (from : Str) → Inv from (record { seen = from ∷ []; queue = from ∷ [] })
  Inv-start from = record {
    source = (contains_iff (from ∷ []) from).1 (Memᴰ.head refl);
    queued = λ v m. (contains_iff (from ∷ []) v).1 m;
    sound = λ v h. rw (Memᴰ.eq_of_singleton ((contains_iff (from ∷ []) v).0 h)) here;
    closed = λ u v h m. inl ((contains_iff (from ∷ []) u).0 h);
  }

  Inv-expand :
      (from : Str) (seen : List Str) (cur : Str) (rest : List Str)
      → Inv from (record { seen = seen; queue = cur ∷ rest })
      → Inv from (expand neighbours seen cur rest)
  unfolding expand
  Inv-expand from seen cur rest h =
      let s : State = record { seen = seen; queue = rest } in
      let flags = λ (w : Str). contains-visit_all s (neighbours cur) w in
      let waits = λ (w : Str). mem-visit_all s (neighbours cur) w in
      let to_cur = h.sound cur (h.queued cur (Memᴰ.head refl)) in
      record {
        source = (flags from).1 (inl h.source);
        queued = λ v m. ground (arith, flags v, waits v, h.queued v, Memᴰ-cons v cur rest);
        sound = λ v m. ⊎_elim (h.sound v) (step to_cur) ((flags v).0 m);
        closed = λ u v m edge. ground (arith, flags v, waits u, h.closed u v, Memᴰ-cons u cur rest);
      }

  -- With an empty queue the seen files are closed under neighbours.
  complete :
      {from : Str} {seen : List Str}
      → Inv from (record { seen = seen; queue = [] })
      → {v : Str} → Reach from v
      → contains seen v ≡ true
  complete h here = h.source
  complete h (step {u} {v} r edge) = elim (h.closed u v (complete h r) edge) [
    | inl waiting ↦ absurd (Memᴰ.not-nil waiting)
    | inr m ↦ m
  ]

  loop-Inv :
      (from : Str) (fuel : ℕ) (seen queue t : List Str)
      → Inv from (record { seen = seen; queue = queue })
      → search_loop neighbours fuel seen queue ≡ some t
      → Inv from (record { seen = t; queue = [] })
  unfolding search_loop
  loop-Inv from zero seen [] t h e = let q : seen ≡ t = cc in rw (← q) h
  loop-Inv from zero seen (cur ∷ rest) t h e = cc
  loop-Inv from (suc fuel) seen [] t h e = let q : seen ≡ t = cc in rw (← q) h
  loop-Inv from (suc fuel) seen (cur ∷ rest) t h e =
      loop-Inv from fuel _ _ t (Inv-expand from seen cur rest h) e

  -- The search that `reachableURIs` starts returns exactly the files that a chain leads to.
  pub search_correct :
      (from : Str) (fuel : ℕ) (t : List Str) (v : Str)
      → search_loop neighbours fuel (from ∷ []) (from ∷ []) ≡ some t
      → (contains t v ≡ true) ↔ Reach from v
  search_correct from fuel t v e =
      let inv = loop-Inv from fuel (from ∷ []) (from ∷ []) t (Inv-start from) e in
      (inv.sound v, complete inv)

  -- A round takes one file off the queue and queues only files that it sees first.
  pub search_ends :
      (ks : List Str) (known : (u v : Str) → Memᴰ v (neighbours u) → Memᴰ v ks)
      → (fuel : ℕ) (seen queue : List Str) → work ks (record { seen = seen; queue = queue }) ≤ fuel
      → (t : List Str) × (search_loop neighbours fuel seen queue ≡ some t)
  unfolding search_loop expand
  search_ends ks known zero seen [] h = (seen, refl)
  search_ends ks known zero seen (cur ∷ rest) h = absurd (omega arith)
  search_ends ks known (suc fuel) seen [] h = (seen, refl)
  search_ends ks known (suc fuel) seen (cur ∷ rest) h =
      let s : State = record { seen = seen; queue = rest } in
      let kept = work-visit_all ks s (neighbours cur) (known cur) in
      search_ends ks known fuel (visit_all s (neighbours cur)).seen
        (visit_all s (neighbours cur)).queue (omega arith)
