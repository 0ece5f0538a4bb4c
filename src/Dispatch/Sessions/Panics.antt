-- ===== src/Dispatch/Sessions/Panics.antt =====
-- internal/server/server.go, documents.go and initialize.go: messages whose handling does not end, and
-- the URIs that the state holds.
use mathlib.Core.Option
use gols_bash.Prelude.{
  ◌≡◌, sym, ap, ◌∙◌, inl, inr, Bool, true, false, Option, none, some, List, Str, get, arith,
  Bool-cases,
}
use gols_bash.Syntax.{File}
use gols_bash.System.{Disk}
use gols_bash.Analyser.Index.{Index}
use gols_bash.Documents.{Document, is_file_uri}
use gols_bash.State.{Server, new_server}
use gols_bash.Initialize.{extract_workspace_roots, initialize}
use gols_bash.Workspace.Coherence.{IsCoherent}
use gols_bash.Workspace.Events.{Event, did_change}
use gols_bash.Workspace.Events.Open.{new_server-IsCoherent}
use gols_bash.Workspace.Events.FileUris.{FileUris, OpensFile, handle_event-FileUris}
use gols_bash.Messages.{
  DidChangeParams, Message, initialize_request, workspace_did_change_watched_files,
  text_document_did_open, text_document_did_change, text_document_did_save, text_document_did_close,
}
use gols_bash.Dispatch.{World, handle_did_open, dispatch, handle, last_change}
use gols_bash.Dispatch.Files.{event_of, apply_event}
use gols_bash.Dispatch.Sessions.{
  Input, received, visited, disk_of, input_event, session_step, session, session_step-Step,
}
use gols_bash.Dispatch.Sessions.Told.{session_induction, step-IsCoherent}

module _ (world : World) where
  -- An `initialize` request whose roots make `extractWorkspaceRoots` panic, or the opening of a
  -- document at a URI that is not one of a file.
  abbrev pub Panics : Message → Type 0
  Panics (initialize_request raw) =
      extract_workspace_roots world.initialize_json world.paths raw ≡ none
  Panics (text_document_did_open (some item)) = is_file_uri world.paths item.uri ≡ false
  Panics _ = ⊥

  module _ (disk : Disk) (written : Bool) (s : Server) where
    dispatch-Panics : (m : Message) → Panics m → dispatch world disk written s m ≡ none
    unfolding dispatch initialize handle_did_open
    dispatch-Panics (initialize_request raw) q = ground arith
    dispatch-Panics (text_document_did_open none) q = absurd q
    dispatch-Panics (text_document_did_open (some item)) q = ground arith
    dispatch-Panics m q = absurd q

    -- While the server is not shut down, none of these messages is handled to its end.
    handle-Panics :
        (m : Message) → s.shutdown ≡ false → Panics m → handle world disk written s m ≡ none
    unfolding handle
    handle-Panics m up q = let e = dispatch-Panics m q in ground arith

  module _
      (uri_file_lem : (path : Str)
        → is_file_uri world.paths (world.paths.uri_file path) ≡ true) where
    AllOpen : Option Event → Type 0
    AllOpen none = Unit
    AllOpen (some e) = OpensFile world.paths e

    change_opens :
        (params : DidChangeParams) (last : Option Str)
        → AllOpen (Option.map (λ text. did_change params.uri params.version text) last)
    unfolding AllOpen
    change_opens params none = tt
    change_opens params (some text) = tt

    message_opens : (m : Message) → (Panics m → ⊥) → AllOpen (event_of m)
    unfolding AllOpen
    message_opens (text_document_did_open none) calm = tt
    message_opens (text_document_did_open (some item)) calm =
        elim (Bool-cases (is_file_uri world.paths item.uri)) [ inl t ↦ t | inr f ↦ absurd (calm f) ]
    message_opens (text_document_did_change none) calm = tt
    message_opens (text_document_did_change (some params)) calm =
        change_opens params (last_change params.changes)
    message_opens (text_document_did_save none) calm = tt
    message_opens (text_document_did_save (some params)) calm = tt
    message_opens (text_document_did_close none) calm = tt
    message_opens (text_document_did_close (some u)) calm = tt
    message_opens (workspace_did_change_watched_files none) calm = tt
    message_opens (workspace_did_change_watched_files (some changes)) calm = tt
    message_opens m calm = tt

    input_opens :
        (s s' : Server) (input : Input)
        → session_step world s input ≡ some s'
        → AllOpen (input_event s.shutdown input)
    unfolding session_step AllOpen
    input_opens s s' (visited disk path) e = tt
    input_opens s s' (received disk written m) e = elim (Bool-cases s.shutdown) [
      | inl down ↦ rw down tt
      | inr up ↦
          rw up (
            message_opens m (λ q. let panics = handle-Panics disk written s m up q in ground arith))
    ]

    FileUris-same :
        (s t : Server)
        → s.docs ≡ t.docs
        → s.index ≡ t.index
        → FileUris world.paths t
        → FileUris world.paths s
    FileUris-same s t d i h = record {
      open_uris = λ u x g. h.open_uris u x (ap (λ m. get m u) (sym d) ∙ g);
      indexed_uris = λ u f g. h.indexed_uris u f (ap (λ (m : Index). get m.entries u) (sym i) ∙ g);
    }

    apply_event-FileUris :
        (disk : Disk) (s : Server) (e : Option Event)
        → AllOpen e
        → IsCoherent world.parse world.paths s
        → FileUris world.paths s
        → FileUris world.paths (apply_event world.parse world.paths disk s e)
    unfolding AllOpen
    apply_event-FileUris disk s none o c h = h
    apply_event-FileUris disk s (some e) o c h =
        handle_event-FileUris world.paths world.parse disk uri_file_lem s e o c h

    abbrev IsSound : Server → Type 0
    IsSound s = IsCoherent world.parse world.paths s × FileUris world.paths s

    step-IsSound :
        (s s' : Server) (input : Input)
        → session_step world s input ≡ some s'
        → IsSound s
        → IsSound s'
    step-IsSound s s' input e (c, h) =
        let (docs, index, _) = session_step-Step world s s' input e in
        let event = input_event s.shutdown input in
        let t = apply_event world.parse world.paths (disk_of input) s event in
        (
          step-IsCoherent world s s' input e c,
          FileUris-same s' t docs index
              (apply_event-FileUris (disk_of input) s event (input_opens s s' input e) c h),
        )

    new_server-FileUris : FileUris world.paths new_server
    unfolding new_server
    new_server-FileUris = record {
      open_uris = λ u d g. unfold get in cc g;
      indexed_uris = λ u f g. unfold get in cc g;
    }

    -- After any session from the start on, every open document and every indexed file is at the URI of
    -- a file, provided that `uri.File` makes such URIs.
    pub session_file_uris :
        (inputs : List Input) (s : Server)
        → session world new_server inputs ≡ some s
        → ((u : Str) (d : Document) → get s.docs u ≡ some d → is_file_uri world.paths u ≡ true)
          × ((u : Str) (f : File)
              → get s.index.entries u ≡ some f
              → is_file_uri world.paths u ≡ true)
    session_file_uris inputs s e =
        let (_, files) =
          session_induction world IsSound step-IsSound new_server s inputs e
            (new_server-IsCoherent world.parse world.paths, new_server-FileUris) in
        (files.open_uris, files.indexed_uris)
