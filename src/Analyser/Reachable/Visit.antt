-- ===== src/Analyser/Reachable/Visit.antt =====
-- internal/analyser/index.go, `reachableURIs`: the inner loop.
use mathlib.Core.List.Memᴰ
use gols_bash.Prelude.{
  ℕ, suc, ◌+◌, ◌≤◌, ◌≡◌, refl, ◌↔◌, ◌⊎◌, inl, inr, true, false, ◌||◌, List, [], ◌∷◌, ◌++◌, Str,
  str_eq, str_eq_iff, contains, contains-append, if◌then◌else◌, arith, Memᴰ, Memᴰ-cons, Memᴰ-append,
  length, length-append,
}
use gols_bash.Analyser.Reachable.{State, visit, visit_all}

-- The number of known files that are not seen yet.
abbrev pub unseen : List Str → List Str → ℕ
unseen [] seen = 0
unseen (k ∷ ks) seen = if contains seen k then unseen ks seen else suc (unseen ks seen)

contains-snoc :
    (seen : List Str) (v u : Str) → contains (seen ++ v ∷ []) u ≡ (contains seen u || str_eq v u)
unfolding contains
contains-snoc seen v u = ground (arith, contains-append seen (v ∷ []) u)

unseen-snoc-le : (ks seen : List Str) (v : Str) → unseen ks (seen ++ v ∷ []) ≤ unseen ks seen
unseen-snoc-le [] seen v = omega arith
unseen-snoc-le (k ∷ ks) seen v = ground (arith, contains-snoc seen v k, unseen-snoc-le ks seen v)

unseen-snoc :
    (ks seen : List Str) (v : Str)
    → Memᴰ v ks
    → contains seen v ≡ false
    → suc (unseen ks (seen ++ v ∷ [])) ≤ unseen ks seen
unseen-snoc [] seen v m h = absurd (Memᴰ.not-nil m)
unseen-snoc (k ∷ ks) seen v m h = elim ((Memᴰ-cons v k ks).0 m) [
  | inl e ↦ ground (arith, contains-snoc seen v k, str_eq_iff v k, unseen-snoc-le ks seen v)
  | inr later ↦ ground (arith, contains-snoc seen v k, unseen-snoc ks seen v later h)
]

-- Seen files stay seen, the neighbours are seen, and nothing else is.
pub contains-visit_all :
    (s : State) (ns : List Str) (u : Str)
    → (contains (visit_all s ns).seen u ≡ true) ↔ ((contains s.seen u ≡ true) ⊎ Memᴰ u ns)
unfolding visit_all visit
contains-visit_all s [] u = (inl, λ m. elim m [ inl h ↦ h | inr n ↦ absurd (Memᴰ.not-nil n) ])
contains-visit_all s (v ∷ ns) u = ground (
  arith,
  contains-visit_all (visit s v) ns u,
  contains-snoc s.seen v u,
  str_eq_iff v u,
  Memᴰ-cons u v ns,
)

-- The files that a round queues are those that it sees for the first time.
pub mem-visit_all :
    (s : State) (ns : List Str) (u : Str)
    → Memᴰ u (visit_all s ns).queue
      ↔ (Memᴰ u s.queue ⊎ (contains (visit_all s ns).seen u ≡ true) × (contains s.seen u ≡ false))
unfolding visit_all visit
mem-visit_all s [] u = (inl, λ m. elim m [ inl h ↦ h | inr (a, b) ↦ cc ])
mem-visit_all s (v ∷ ns) u = ground (
  arith,
  mem-visit_all (visit s v) ns u,
  contains-visit_all (visit s v) ns u,
  contains-snoc s.seen v u,
  str_eq_iff v u,
  Memᴰ-append u s.queue (v ∷ []),
  Memᴰ-cons u v [],
  (λ (m : Memᴰ u []). Memᴰ.not-nil m),
)

-- What is left to do: files that are not seen, and files that wait.
abbrev pub work : List Str → State → ℕ
work ks s = unseen ks s.seen + length s.queue

pub work-visit_all :
    (ks : List Str) (s : State) (ns : List Str)
    → ((v : Str) → Memᴰ v ns → Memᴰ v ks)
    → work ks (visit_all s ns) ≤ work ks s
unfolding visit_all visit
work-visit_all ks s [] h = omega arith
work-visit_all ks s (v ∷ ns) h =
    let rest = work-visit_all ks (visit s v) ns (λ u m. h u (Memᴰ.tail m)) in
    ground (arith, unseen-snoc ks s.seen v (h v (Memᴰ.head refl)), length-append s.queue (v ∷ []))
