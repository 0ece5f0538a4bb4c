-- ===== src/Analyser/Reachable.antt =====
-- internal/analyser/index.go, `reachableURIs`: breadth-first search over sourced files. The loop is
-- written over the function that gives the neighbours of a file.
pub mod Visit
pub mod Search
use gols_bash.Prelude.{
  ℕ, zero, suc, Bool, Option, none, some, List, [], ◌∷◌, ◌++◌, Str, contains, if◌then◌else◌,
}

-- The variables of the loop: the keys of the map `seen`, and `queue`.
pub record State : Type 0 where
  pub seen : List Str
  pub queue : List Str

unfoldable pub visit : State → Str → State
visit s next =
    if contains s.seen next
    then s
    else record { seen = s.seen ++ next ∷ []; queue = s.queue ++ next ∷ [] }

-- The inner loop, over the neighbours in whatever order the map gives them.
unfoldable pub visit_all : State → List Str → State
visit_all s [] = s
visit_all s (next ∷ rest) = visit_all (visit s next) rest

module _ (neighbours : Str → List Str) where
  -- One round: the head of the queue is taken off, and its neighbours are visited.
  unfoldable pub expand : List Str → Str → List Str → State
  unfolding visit_all
  expand seen cur rest = visit_all (record { seen = seen; queue = rest }) (neighbours cur)

  -- The outer loop; `none` says that the fuel ran out.
  unfoldable pub search_loop : ℕ → List Str → List Str → Option (List Str)
  search_loop zero seen [] = some seen
  search_loop zero seen (cur ∷ rest) = none
  search_loop (suc fuel) seen [] = some seen
  search_loop (suc fuel) seen (cur ∷ rest) =
      let s = expand seen cur rest in search_loop fuel s.seen s.queue
