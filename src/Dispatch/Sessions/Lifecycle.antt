-- ===== src/Dispatch/Sessions/Lifecycle.antt =====
-- internal/server/server.go and main.go: how a session ends, and the exit status of the program.
use gols_bash.Prelude.{
  ◌≡◌, refl, ap, ◌∙◌, inl, inr, Bool, true, false, not, ◌&&◌, ◌||◌, Option, some, List, [], ◌∷◌,
  ◌++◌, Str, arith, Option-cases, Bool-cases, if◌then◌else◌,
}
use gols_bash.System.{Disk}
use gols_bash.State.{Server, new_server}
use gols_bash.Workspace.{index_workspace_path}
use gols_bash.Workspace.Events.Flags.{Flags, flags_of}
use gols_bash.Messages.{Message, shutdown, exit}
use gols_bash.Dispatch.{World, is_exit, signal_exit, dispatch, handle}
use gols_bash.Dispatch.Files.{is_shutdown}
use gols_bash.Dispatch.Sessions.{
  Input, received, visited, flags_step, session_step, session, session_step-Step,
}
use gols_bash.Run.{exit_signalled, conn_done, run_result, main_status}

-- A shutdown request whose reply is written.
abbrev pub shuts_down : Input → Bool
shuts_down (received disk written m) = is_shutdown m && written
shuts_down (visited disk path) = false

abbrev pub exits : Input → Bool
exits (received disk written m) = is_exit m
exits (visited disk path) = false

abbrev pub some_input : (Input → Bool) → List Input → Bool
some_input test [] = false
some_input test (input ∷ rest) = test input || some_input test rest

not_both : (m : Message) → (is_exit m && is_shutdown m) ≡ false
not_both exit = refl
not_both m = refl

down_step :
    (flags : Flags) (input : Input) → (flags_step flags input).0 ≡ (flags.0 || shuts_down input)
down_step (down, ended, abnormal) (visited disk path) = ground arith
down_step (down, ended, abnormal) (received disk written m) = ground (arith, not_both m)

module _ (world : World) where
  session-step :
      (s t : Server) (x : Input) (xs : List Input)
      → session_step world s x ≡ some t
      → session world s (x ∷ xs) ≡ session world t xs
  unfolding session
  session-step s t x xs e = rw (session, e) refl

  session-append :
      (s t : Server) (xs ys : List Input)
      → session world s xs ≡ some t
      → session world s (xs ++ ys) ≡ session world t ys
  unfolding session
  session-append s t [] ys e = let same : s ≡ t = ground arith in rw same refl
  session-append s t (x ∷ xs) ys e = elim (Option-cases (session_step world s x)) [
    | inl q ↦ absurd (ground arith)
    | inr (r, q) ↦ let rest = session-append r t xs ys (ground arith) in ground arith
  ]

  session-split :
      (s t : Server) (xs ys : List Input)
      → session world s (xs ++ ys) ≡ some t
      → (r : Server) × (session world s xs ≡ some r) × (session world r ys ≡ some t)
  unfolding session
  session-split s t [] ys e = (s, refl, e)
  session-split s t (x ∷ xs) ys e = elim (Option-cases (session_step world s x)) [
    | inl q ↦ absurd (ground arith)
    | inr (u, q) ↦
        let (r, first, last) = session-split u t xs ys (ground arith) in (r, ground arith, last)
  ]

  step_down :
      (s s' : Server) (input : Input)
      → session_step world s input ≡ some s'
      → s'.shutdown ≡ (s.shutdown || shuts_down input)
  step_down s s' input e =
      let (_, _, flags) = session_step-Step world s s' input e in
      ap (λ (f : Flags). f.0) flags ∙ down_step (flags_of s) input

  session_down :
      (s s' : Server) (inputs : List Input)
      → session world s inputs ≡ some s'
      → s'.shutdown ≡ (s.shutdown || some_input shuts_down inputs)
  unfolding session
  session_down s s' [] e = ground arith
  session_down s s' (x ∷ rest) e = elim (Option-cases (session_step world s x)) [
    | inl q ↦ absurd (ground arith)
    | inr (t, q) ↦
        let first = step_down s t x q in
        let later = session_down t s' rest (ground arith) in ground arith
  ]

  exit_step :
      (disk : Disk) (written : Bool) (s : Server)
      → session_step world s (received disk written exit)
        ≡ some (signal_exit (record s { abnormal_exit = not s.shutdown }))
  unfolding session_step handle dispatch
  exit_step disk written s = ground arith

  -- After a session that ends with the message `exit`, the program ends with status 0 if a shutdown
  -- request was answered at some point before, and with status 1 otherwise, whether `Run` sees the
  -- exit first or the end of the connection, with or without an error.
  pub exit_status :
      (inputs : List Input) (disk : Disk) (written : Bool) (s : Server) (err : Option Str)
      → session world new_server (inputs ++ received disk written exit ∷ []) ≡ some s
      → (s.exited ≡ true)
        × (main_status false true (run_result s exit_signalled)
            ≡ (if some_input shuts_down inputs then 0 else 1))
        × (main_status false true (run_result s (conn_done err))
            ≡ (if some_input shuts_down inputs then 0 else 1))
  unfolding session main_status run_result signal_exit new_server
  exit_status inputs disk written s err e =
      let (r, first, last) =
        session-split new_server s inputs (received disk written exit ∷ []) e in
      let down = session_down new_server r inputs first in
      let ended = exit_step disk written r in
      let same : signal_exit (record r { abnormal_exit = not r.shutdown }) ≡ s = ground arith in
      (ground arith, ground arith, ground arith)

  scan_keeps :
      (disk : Disk) (s : Server) (path : Str)
      → ((index_workspace_path world.parse world.paths disk s path).shutdown ≡ s.shutdown)
        × ((index_workspace_path world.parse world.paths disk s path).docs ≡ s.docs)
  unfolding index_workspace_path
  scan_keeps disk s path = (ground arith, ground arith)

  -- A server that is shut down goes on, whatever comes but `exit`, and keeps its documents.
  waits :
      (s : Server) (inputs : List Input)
      → s.shutdown ≡ true
      → some_input exits inputs ≡ false
      → (t : Server) × (session world s inputs ≡ some t) × (t.shutdown ≡ true) × (t.docs ≡ s.docs)
  unfolding session
  waits s [] down none_exits = (s, refl, down, refl)
  waits s (received disk written m ∷ rest) down none_exits =
      let refused : session_step world s (received disk written m) ≡ some s =
        unfold session_step handle in ground arith in
      let (t, later, down', docs) = waits s rest down (ground arith) in
      (t, ground arith, down', docs)
  waits s (visited disk path ∷ rest) down none_exits =
      let s' = index_workspace_path world.parse world.paths disk s path in
      let (t, later, down', docs) =
        waits s' rest ((scan_keeps disk s path).0 ∙ down) (ground arith) in
      (t, ground arith, down', docs ∙ (scan_keeps disk s path).1)

  shutdown_step :
      (disk : Disk) (s : Server)
      → (t : Server) × (session_step world s (received disk true shutdown) ≡ some t)
        × (t.shutdown ≡ true)
        × (t.docs ≡ s.docs)
  unfolding session_step handle dispatch
  shutdown_step disk s = elim (Bool-cases s.shutdown) [
    | inl down ↦ (s, ground arith, down, refl)
    | inr up ↦ (record s { shutdown = true }, ground arith, refl, refl)
  ]

  -- From every state the client can end the program: a shutdown request that is answered, then any
  -- messages but `exit` and any visits of the scan, none of which makes a handler panic or touches a
  -- document, then `exit`; and when `Run` sees the exit, the status is 0.
  pub shutdown_then_exit :
      (s : Server) (disk disk' : Disk) (written : Bool) (inputs : List Input)
      → some_input exits inputs ≡ false
      → (t : Server) × (session world s
            (received disk true shutdown ∷ (inputs ++ received disk' written exit ∷ []))
          ≡ some t)
        × (t.exited ≡ true)
        × (t.docs ≡ s.docs)
        × (main_status false true (run_result t exit_signalled) ≡ 0)
  unfolding session main_status run_result signal_exit
  shutdown_then_exit s disk disk' written inputs none_exits =
      let (r, first, down, docs) = shutdown_step disk s in
      let (u, waited, down', docs') = waits r inputs down none_exits in
      let t = signal_exit (record u { abnormal_exit = not u.shutdown }) in
      let ended = exit_step disk' written u in
      let all = session-append r u inputs (received disk' written exit ∷ []) waited in
      let left = received disk' written exit ∷ [] in
      let whole =
        session-step s r (received disk true shutdown) (inputs ++ left) first
        ∙ all
        ∙ session-step u t (received disk' written exit) [] ended in
      (t, whole, refl, docs' ∙ docs, ground arith)
