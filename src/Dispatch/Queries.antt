-- ===== src/Dispatch/Queries.antt =====
-- internal/server/server.go and initialize.go: the `initialize` request.
use gols_bash.Prelude.{
  ◌≡◌, sym, ◌⊎◌, inl, inr, Bool, true, false, none, some, List, [], ◌∷◌, Str, bytes, contains,
  arith, Option-cases, Bool-cases, if◌then◌else◌,
}
use gols_bash.System.{Disk}
use gols_bash.Positions.{PositionEncoding, utf16}
use gols_bash.State.{Server}
use gols_bash.Initialize.{
  InitializeResult, initialize_result, pick_position_encoding, supports_dynamic_watched_files,
  extract_workspace_roots, initialize,
}
use gols_bash.Initialize.Capabilities.{encoding_string}
use gols_bash.Messages.{
  initialize_request, initialized_notification, Outcome, result, initialize_payload, null, Task,
  scan_task, register_task,
}
use gols_bash.Dispatch.{World, dispatch, handle}

module _ (world : World) (disk : Disk) (written : Bool) (s : Server) where
  -- The encoding is one that the request lists, or UTF-16.
  abbrev pub Announced : Str → PositionEncoding → Type 0
  Announced raw enc =
      (enc ≡ utf16)
      ⊎ ((listed : List Str) × (world.initialize_json.decode_encodings raw ≡ some listed)
          × (contains listed (encoding_string enc) ≡ true))

  picked : (raw : Str) → Announced raw (pick_position_encoding world.initialize_json raw)
  unfolding pick_position_encoding encoding_string
  picked raw = elim (Option-cases (world.initialize_json.decode_encodings raw)) [
    | inl e ↦ inl (ground arith)
    | inr (listed, e) ↦ elim (Bool-cases (contains listed (bytes "utf-8"))) [
      | inl c ↦ inr (listed, e, ground arith)
      | inr c ↦ inl (ground arith)
    ]
  ]

  panics :
      (raw : Str) (out : Outcome)
      → s.shutdown ≡ false
      → extract_workspace_roots world.initialize_json world.paths raw ≡ none
      → handle world disk written s (initialize_request raw) ≡ some out
      → ⊥
  unfolding handle dispatch initialize
  panics raw out up p e = ground arith

  replies :
      (raw : Str) (roots : List Str) (out : Outcome)
      → s.shutdown ≡ false
      → extract_workspace_roots world.initialize_json world.paths raw ≡ some roots
      → handle world disk written s (initialize_request raw) ≡ some out
      → (out.reply
          ≡ result (
              initialize_payload
                (initialize_result (pick_position_encoding world.initialize_json raw))))
        × (out.state.pos_encoding ≡ pick_position_encoding world.initialize_json raw)
        × (out.state.dynamic_watched_files
            ≡ supports_dynamic_watched_files world.initialize_json raw)
        × (out.state.shutdown ≡ false)
  unfolding handle dispatch initialize
  replies raw roots out up p e = (ground arith, ground arith, ground arith, ground arith)

  -- The tasks that the next message starts.
  abbrev pub tasks : Str → List Task
  tasks raw =
      scan_task
      ∷ (if supports_dynamic_watched_files world.initialize_json raw
          then register_task ∷ []
          else [])

  starts :
      (raw : Str) (t : Server)
      → t.shutdown ≡ false
      → t.dynamic_watched_files ≡ supports_dynamic_watched_files world.initialize_json raw
      → handle world disk true t initialized_notification
        ≡ some (record { state = t; reply = result null; published = []; background = tasks raw })
  unfolding handle dispatch
  starts raw t up e = ground arith

  -- The server takes one encoding from the `initialize` request, keeps it, and announces that one; it
  -- is one that the client lists, or UTF-16. The `initialized` message after it, once its reply is
  -- written, changes nothing and starts the scan, and with it the registration for file events exactly
  -- where the client supports that.
  pub initialize_handshake :
      (raw : Str) (out : Outcome)
      → s.shutdown ≡ false
      → handle world disk written s (initialize_request raw) ≡ some out
      → (reply : InitializeResult) × (out.reply ≡ result (initialize_payload reply))
        × (reply.capabilities.position_encoding ≡ out.state.pos_encoding)
        × Announced raw out.state.pos_encoding
        × (handle world disk true out.state initialized_notification
            ≡ some (record {
              state = out.state;
              reply = result null;
              published = [];
              background = tasks raw;
            }))
  initialize_handshake raw out up e =
      elim (Option-cases (extract_workspace_roots world.initialize_json world.paths raw)) [
        | inl p ↦ absurd (panics raw out up p e)
        | inr (roots, p) ↦
            let (reply, encoding, dynamic, still_up) = replies raw roots out up p e in
            let enc = pick_position_encoding world.initialize_json raw in
            (
              initialize_result enc,
              reply,
              unfold initialize_result in sym encoding,
              rw encoding (picked raw),
              starts raw out.state still_up dynamic,
            )
      ]
