-- ===== src/Dispatch/Sessions.antt =====
-- internal/server/server.go: whole sessions, of messages and of the background scan's visits, in any
-- order. A session ends where a handler panics.
pub mod Lifecycle
pub mod Told
pub mod Panics
use gols_bash.Prelude.{
  ◌≡◌, refl, sym, ap, ◌∙◌, ◌⊎◌, inl, inr, Bool, true, false, not, ◌&&◌, Option, none, some, List,
  [], ◌∷◌, Str, arith, Option-cases, Bool-cases, if◌then◌else◌,
}
use gols_bash.System.{Paths, Disk}
use gols_bash.State.{Server}
use gols_bash.Workspace.{index_workspace_path}
use gols_bash.Workspace.Events.{Event, scanned, handle_event}
use gols_bash.Workspace.Events.Flags.{Flags, flags_of, flags-handle_event}
use gols_bash.Diagnostics.Published.{SameFiles}
use gols_bash.Messages.{Message, shutdown, exit, Outcome, Reply, failure, invalid_request}
use gols_bash.Dispatch.{World, is_exit, signal_exit, reply_with, dispatch, handle}
use gols_bash.Dispatch.Files.{event_of, apply_event, is_shutdown, Leaves, dispatch-Leaves}

-- A message, with the file system as its handler finds it and whether its reply is written; or a
-- visit of the scan.
pub data Input : Type 0 where
  received : Disk → (written : Bool) → Message → Input
  visited : Disk → (path : Str) → Input

abbrev pub state_of : Option Outcome → Option Server
state_of none = none
state_of (some out) = some out.state

-- What an input tells the documents and the index, where the server is shut down or not.
abbrev pub input_event : Bool → Input → Option Event
input_event down (received disk written m) = if down then none else event_of m
input_event down (visited disk path) = some (scanned path)

abbrev pub disk_of : Input → Disk
disk_of (received disk written m) = disk
disk_of (visited disk path) = disk

-- What an input does to the flags.
abbrev pub flags_step : Flags → Input → Flags
flags_step (down, ended, abnormal) (visited disk path) = (down, ended, abnormal)
flags_step (down, ended, abnormal) (received disk written m) =
    if is_exit m
    then (down, true, not down)
    else if is_shutdown m && written
    then (true, ended, abnormal)
    else (down, ended, abnormal)

module _ (world : World) where
  unfoldable pub session_step : Server → Input → Option Server
  session_step s (received disk written m) = state_of (handle world disk written s m)
  session_step s (visited disk path) =
      some (index_workspace_path world.parse world.paths disk s path)

  unfoldable pub session : Server → List Input → Option Server
  unfolding session_step
  session s [] = some s
  session s (input ∷ rest) = elim (session_step s input) [ none ↦ none | some s' ↦ session s' rest ]

  -- One step of a session, on the documents and the index, and on the flags.
  abbrev pub Step : Server → Input → Server → Type 0
  Step s input s' =
      let t =
        apply_event world.parse world.paths (disk_of input) s (input_event s.shutdown input) in
      (s'.docs ≡ t.docs) × (s'.index ≡ t.index) × (flags_of s' ≡ flags_step (flags_of s) input)

  same-Step :
      (s t : Server) (input : Input) (s' : Server) → t ≡ s' → Step s input t → Step s input s'
  same-Step s t input s' e h = rw (← e) h

  handled_down :
      (disk : Disk) (written : Bool) (s s' : Server) (m : Message)
      → is_exit m ≡ false
      → s.shutdown ≡ true
      → state_of (handle world disk written s m) ≡ some s'
      → Step s (received disk written m) s'
  unfolding handle
  handled_down disk written s s' m n down e =
      let same : s ≡ s' = ground arith in
      same-Step s s (received disk written m) s' same (ground arith, ground arith, ground arith)

  handled_exit :
      (disk : Disk) (written : Bool) (s s' : Server)
      → state_of (handle world disk written s exit) ≡ some s'
      → Step s (received disk written exit) s'
  unfolding handle dispatch signal_exit
  handled_exit disk written s s' e = (ground arith, ground arith, ground arith)

  handled_shutdown :
      (disk : Disk) (written : Bool) (s s' : Server)
      → s.shutdown ≡ false
      → state_of (handle world disk written s shutdown) ≡ some s'
      → Step s (received disk written shutdown) s'
  unfolding handle dispatch
  handled_shutdown disk written s s' up e = (ground arith, ground arith, ground arith)

  Leaves-at :
      (o : Option Outcome) (s' t : Server) → state_of o ≡ some s' → Leaves o t → SameFiles s' t
  Leaves-at none s' t e h = absurd cc
  Leaves-at (some out) s' t e h = let same : out.state ≡ s' = ground arith in rw (← same) h

  flags-apply_event :
      (disk : Disk) (s : Server) (e : Option Event)
      → flags_of (apply_event world.parse world.paths disk s e) ≡ flags_of s
  flags-apply_event disk s none = refl
  flags-apply_event disk s (some e) = flags-handle_event world.parse world.paths disk s e

  handled_running :
      (disk : Disk) (written : Bool) (s s' : Server) (m : Message)
      → is_exit m ≡ false
      → is_shutdown m ≡ false
      → s.shutdown ≡ false
      → state_of (handle world disk written s m) ≡ some s'
      → Step s (received disk written m) s'
  unfolding handle
  handled_running disk written s s' m n n' up e =
      let dispatched : handle world disk written s m ≡ dispatch world disk written s m =
        ground arith in
      let t = apply_event world.parse world.paths disk s (event_of m) in
      let (docs, index, down, ended, abnormal) =
        Leaves-at (dispatch world disk written s m) s' t (sym (ap state_of dispatched) ∙ e)
          (dispatch-Leaves world disk written s m n' n) in
      let kept = flags-apply_event disk s (event_of m) in (ground arith, ground arith, ground arith)

  Message-cases :
      (m : Message)
      → (m ≡ exit) ⊎ ((is_exit m ≡ false) × ((m ≡ shutdown) ⊎ (is_shutdown m ≡ false)))
  Message-cases exit = inl refl
  Message-cases shutdown = inr (refl, inl refl)
  Message-cases m = inr (refl, inr refl)

  handled :
      (disk : Disk) (written : Bool) (s s' : Server) (m : Message)
      → state_of (handle world disk written s m) ≡ some s'
      → Step s (received disk written m) s'
  handled disk written s s' m e = elim (Message-cases m) [
    | inl x ↦ rw x (handled_exit disk written s s' (rw x at e))
    | inr (n, r) ↦ elim (Bool-cases s.shutdown) [
      | inl down ↦ handled_down disk written s s' m n down e
      | inr up ↦ elim r [
        | inl x ↦ rw x (handled_shutdown disk written s s' up (rw x at e))
        | inr n' ↦ handled_running disk written s s' m n n' up e
      ]
    ]
  ]

  pub session_step-Step :
      (s s' : Server) (input : Input) → session_step s input ≡ some s' → Step s input s'
  unfolding session_step handle_event
  session_step-Step s s' (received disk written m) e = handled disk written s s' m e
  session_step-Step s s' (visited disk path) e =
      let t = index_workspace_path world.parse world.paths disk s path in
      let same : t ≡ s' = ground arith in
      let kept = flags-handle_event world.parse world.paths disk s (scanned path) in
      same-Step s t (visited disk path) s' same (refl, refl, kept)
