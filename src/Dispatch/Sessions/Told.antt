-- ===== src/Dispatch/Sessions/Told.antt =====
-- internal/server/server.go: what the store and the index hold after a session.
use gols_bash.Prelude.{
  ◌≡◌, refl, sym, ap, ◌∙◌, Option, none, some, List, [], ◌∷◌, Str, get, arith, inl, inr,
  Option-cases,
}
use gols_bash.Syntax.{File, ParseError}
use gols_bash.System.{Paths, Disk}
use gols_bash.Analyser.Index.{Index}
use gols_bash.Documents.{Parser, Document}
use gols_bash.State.{Server, new_server}
use gols_bash.Workspace.Coherence.{IsCoherent}
use gols_bash.Workspace.Events.{Event}
use gols_bash.Workspace.Events.Open.{handle_event-IsCoherent, new_server-IsCoherent}
use gols_bash.Workspace.Events.View.{Buffer, buffer_step, buffer_of, buffer_at, buffer-step}
use gols_bash.Workspace.Events.Flags.{Flags, flags_of}
use gols_bash.Dispatch.{World}
use gols_bash.Dispatch.Files.{apply_event}
use gols_bash.Dispatch.Sessions.{
  Input, disk_of, input_event, flags_step, session_step, session, session_step-Step,
}

-- What an input says of the buffer at `u`: a server that is shut down takes no message any more.
abbrev pub told_step : Str → Flags × Option Buffer → Input → Flags × Option Buffer
told_step u (flags, cur) input = (
  flags_step flags input,
  elim (input_event flags.0 input) [ none ↦ cur | some e ↦ buffer_step u cur e ],
)

abbrev pub told : Str → Flags × Option Buffer → List Input → Flags × Option Buffer
told u view [] = view
told u view (input ∷ rest) = told u (told_step u view input) rest

pair_eq {ℓ ℓ'} :
    {A : Type ℓ} {B : Type ℓ'} {a a' : A} {b b' : B}
    → a ≡ a'
    → b ≡ b'
    → ◌≡◌ {A = A × B} (a, b) (a', b')
pair_eq p q = rw (p, q) refl

module _ (parse : Parser) (p : Paths) where
  IsCoherent-same :
      (s t : Server)
      → s.docs ≡ t.docs
      → s.index ≡ t.index
      → IsCoherent parse p t
      → IsCoherent parse p s
  IsCoherent-same s t d i h = record {
    docs_unique = rw d h.docs_unique;
    index_unique = rw i h.index_unique;
    documents = λ u x g. h.documents u x (ap (λ m. get m u) (sym d) ∙ g);
    indexed = λ u x g.
        ap (λ (m : Index). get m.entries u) i ∙ h.indexed u x (ap (λ m. get m u) (sym d) ∙ g);
  }

  apply_event-IsCoherent :
      (disk : Disk) (s : Server) (e : Option Event)
      → IsCoherent parse p s
      → IsCoherent parse p (apply_event parse p disk s e)
  apply_event-IsCoherent disk s none h = h
  apply_event-IsCoherent disk s (some e) h = handle_event-IsCoherent parse p disk s e h

  apply_event-buffer :
      (disk : Disk) (s : Server) (u : Str) (e : Option Event)
      → buffer_at (apply_event parse p disk s e) u
        ≡ (elim e [ none ↦ buffer_at s u | some e' ↦ buffer_step u (buffer_at s u) e' ])
  apply_event-buffer disk s u none = refl
  apply_event-buffer disk s u (some e) = buffer-step parse p disk s u e

module _ (world : World) where
  -- What every step keeps, a session keeps.
  pub session_induction {ℓ} :
      (P : Server → Type ℓ)
      → ((s s' : Server) (input : Input) → session_step world s input ≡ some s' → P s → P s')
      → (s s' : Server) (inputs : List Input) → session world s inputs ≡ some s'
      → P s
      → P s'
  unfolding session
  session_induction P step s s' [] e h = let same : s ≡ s' = ground arith in rw (← same) h
  session_induction P step s s' (input ∷ rest) e h =
      elim (Option-cases (session_step world s input)) [
        | inl q ↦ absurd (ground arith)
        | inr (t, q) ↦ session_induction P step t s' rest (ground arith) (step s t input q h)
      ]

  pub step-IsCoherent :
      (s s' : Server) (input : Input)
      → session_step world s input ≡ some s'
      → IsCoherent world.parse world.paths s
      → IsCoherent world.parse world.paths s'
  step-IsCoherent s s' input e h =
      let (docs, index, _) = session_step-Step world s s' input e in
      let t =
        apply_event world.parse world.paths (disk_of input) s (input_event s.shutdown input) in
      IsCoherent-same world.parse world.paths s' t docs index (
        apply_event-IsCoherent world.parse world.paths (disk_of input) s
          (input_event s.shutdown input) h)

  -- After any session of messages of all methods and visits of the scan, from the start on, however
  -- the files on disk changed meanwhile, the index holds for every open document what the parser
  -- makes of its current text.
  pub session_indexed :
      (inputs : List Input) (s : Server) (u : Str) (d : Document)
      → session world new_server inputs ≡ some s
      → get s.docs u ≡ some d
      → (d.uri ≡ u)
        × (get s.index.entries u ≡ (world.parse d.text (world.paths.filename u)).0)
        × (d.parse_err ≡ (world.parse d.text (world.paths.filename u)).1)
  session_indexed inputs s u d e g =
      let inv =
        session_induction (IsCoherent world.parse world.paths) step-IsCoherent new_server s inputs e
          (new_server-IsCoherent world.parse world.paths) in
      let doc = inv.documents u d g in
      (
        doc.own_uri,
        inv.indexed u d g ∙ ap (λ (r : Option File × Option ParseError). r.0) doc.parsed,
        ap (λ (r : Option File × Option ParseError). r.1) doc.parsed,
      )

  step-told :
      (s s' : Server) (u : Str) (input : Input)
      → session_step world s input ≡ some s'
      → ◌≡◌ {A = Flags × Option Buffer}
          (flags_of s', buffer_at s' u)
          (told_step u (flags_of s, buffer_at s u) input)
  step-told s s' u input e =
      let (docs, index, flags) = session_step-Step world s s' input e in
      let buffer =
        ap (λ m. buffer_of (get m u)) docs
        ∙ apply_event-buffer world.parse world.paths (disk_of input) s u
            (input_event s.shutdown input) in
      pair_eq flags buffer

  -- A session refines what its messages say: in the end the three flags and, for every URI, the
  -- version and the text that the store holds are those that the messages tell one after another,
  -- with every message but `exit` ignored once the server is shut down.
  pub session-told :
      (inputs : List Input) (s s' : Server) (u : Str)
      → session world s inputs ≡ some s'
      → ◌≡◌ {A = Flags × Option Buffer}
          (flags_of s', buffer_at s' u)
          (told u (flags_of s, buffer_at s u) inputs)
  unfolding session
  session-told [] s s' u e = let same : s ≡ s' = ground arith in rw same refl
  session-told (input ∷ rest) s s' u e = elim (Option-cases (session_step world s input)) [
    | inl q ↦ absurd (ground arith)
    | inr (t, q) ↦
        session-told rest t s' u (ground arith) ∙ ap (λ v. told u v rest) (step-told s t u input q)
  ]
