-- ===== src/Dispatch/Files.antt =====
-- internal/server/server.go, `handle`: which messages change the documents and the index, and how.
use mathlib.Core.Option
use gols_bash.Prelude.{
  ◌≡◌, refl, ◌∙◌, inl, inr, Bool, true, false, Option, none, some, [], ◌∷◌, Str, Map, arith,
  Option-cases, Bool-cases,
}
use gols_bash.System.{Paths, Disk}
use gols_bash.Documents.{Parser, TextDocumentItem, Document, is_file_uri}
use gols_bash.State.{Server}
use gols_bash.ShellCheck.{Process}
use gols_bash.Diagnostics.{document_diagnostics}
use gols_bash.Diagnostics.Published.{
  SameFiles, set_code_actions-SameFiles, document_diagnostics-SameFiles,
}
use gols_bash.Settings.{
  SettingsJson, parse_settings, apply_settings, publish_all, did_change_configuration,
}
use gols_bash.Initialize.{initialize, InitializeResult}
use gols_bash.Workspace.{open_document, update_document, close_document}
use gols_bash.Workspace.Events.{
  Event, did_open, did_change, did_save, did_close, watched, handle_event,
}
use gols_bash.Messages.{
  DidChangeParams, Message, initialize_request, initialized_notification, shutdown, exit,
  workspace_did_change_configuration, workspace_did_change_watched_files, text_document_did_open,
  text_document_did_change, text_document_did_save, text_document_did_close,
  text_document_code_action, text_document_completion, completion_item_resolve,
  text_document_formatting, text_document_rename, text_document_prepare_rename,
  text_document_document_highlight, text_document_references, text_document_hover,
  text_document_definition, text_document_document_symbol, workspace_symbol, Outcome, Reply,
}
use gols_bash.Dispatch.{
  World, last_change, query, is_exit, publish_document, publish_updated, change_to, handle_did_open,
  handle_did_change, handle_did_close, answer, dispatch,
}

SameFiles-refl : (s : Server) → SameFiles s s
SameFiles-refl s = (refl, refl, refl, refl, refl)

SameFiles-trans : (s t r : Server) → SameFiles s t → SameFiles t r → SameFiles s r
SameFiles-trans s t r (a, b, c, d, e) (a', b', c', d', e') =
    (a ∙ a', b ∙ b', c ∙ c', d ∙ d', e ∙ e')

publish_all-SameFiles :
    (process : Process) (s : Server) (docs : Map Document)
    → SameFiles (publish_all process s docs).0 s
unfolding publish_all
publish_all-SameFiles process s [] = SameFiles-refl s
publish_all-SameFiles process s ((_, d) ∷ docs) =
    let s' = (document_diagnostics process s d).0 in
    SameFiles-trans (publish_all process s' docs).0 s' s (publish_all-SameFiles process s' docs)
      (document_diagnostics-SameFiles process s d)

did_change_configuration-SameFiles :
    (json : SettingsJson) (process : Process) (s : Server) (raw : Str)
    → SameFiles (did_change_configuration json process s raw).0 s
unfolding did_change_configuration apply_settings
did_change_configuration-SameFiles json process s raw =
    elim (Option-cases (json.decode_settings raw)) [
      | inl e ↦ rw (did_change_configuration, e) (SameFiles-refl s)
      | inr (settings, e) ↦
          let s' = apply_settings s (parse_settings json settings s.settings) in
          rw (did_change_configuration, e) (publish_all-SameFiles process s' s.docs)
    ]

-- What a message tells the documents and the index.
abbrev pub event_of : Message → Option Event
event_of (text_document_did_open (some item)) = some (did_open item)
event_of (text_document_did_change (some params)) =
    Option.map (λ text. did_change params.uri params.version text) (last_change params.changes)
event_of (text_document_did_save (some params)) = some (did_save params.uri params.text)
event_of (text_document_did_close (some u)) = some (did_close u)
event_of (workspace_did_change_watched_files (some changes)) = some (watched changes)
event_of _ = none

abbrev pub apply_event : Parser → Paths → Disk → Server → Option Event → Server
apply_event parse p disk s none = s
apply_event parse p disk s (some e) = handle_event parse p disk s e

-- The messages that change whether the server runs.
abbrev pub is_shutdown : Message → Bool
is_shutdown shutdown = true
is_shutdown _ = false

-- The state of an outcome that is there.
abbrev pub Leaves : Option Outcome → Server → Type 0
Leaves none t = Unit
Leaves (some out) t = SameFiles out.state t

module _ (world : World) (disk : Disk) where
  abbrev after : Server → Message → Server
  after s m = apply_event world.parse world.paths disk s (event_of m)

  publish_document-SameFiles :
      (s : Server) (d : Document) → SameFiles (publish_document world (s, d)).state s
  unfolding publish_document
  publish_document-SameFiles s d = document_diagnostics-SameFiles world.process s d

  did_open-Leaves :
      (s : Server) (params : Option TextDocumentItem)
      → Leaves (handle_did_open world s params) (after s (text_document_did_open params))
  unfolding handle_did_open handle_event
  did_open-Leaves s none = SameFiles-refl s
  did_open-Leaves s (some item) = elim (Bool-cases (is_file_uri world.paths item.uri)) [
    | inl t ↦
        let (s', d) = open_document world.parse world.paths s item in
        rw (handle_did_open, t) (publish_document-SameFiles s' d)
    | inr f ↦ rw (handle_did_open, f) tt
  ]

  updated-SameFiles :
      (s : Server) (found : Option Document) → SameFiles (publish_updated world (s, found)).state s
  unfolding publish_updated
  updated-SameFiles s none = SameFiles-refl s
  updated-SameFiles s (some d) = publish_document-SameFiles s d

  change_to-SameFiles :
      (s : Server) (params : DidChangeParams) (last : Option Str)
      → SameFiles (change_to world s params last).state (
          apply_event world.parse world.paths disk s
            (Option.map (λ text. did_change params.uri params.version text) last))
  unfolding change_to handle_event
  change_to-SameFiles s params none = SameFiles-refl s
  change_to-SameFiles s params (some text) =
      let (s', found) = update_document world.parse world.paths s params.uri params.version text in
      updated-SameFiles s' found

  did_change-SameFiles :
      (s : Server) (params : Option DidChangeParams)
      → SameFiles
          (handle_did_change world s params).state
          (after s (text_document_did_change params))
  unfolding handle_did_change
  did_change-SameFiles s none = SameFiles-refl s
  did_change-SameFiles s (some params) = change_to-SameFiles s params (last_change params.changes)

  did_close-SameFiles :
      (s : Server) (params : Option Str)
      → SameFiles
          (handle_did_close world disk s params).state
          (after s (text_document_did_close params))
  unfolding handle_did_close handle_event
  did_close-SameFiles s none = SameFiles-refl s
  did_close-SameFiles s (some u) =
      set_code_actions-SameFiles (close_document world.parse world.paths disk s u) u []

  initialize-SameFiles :
      (s s' : Server) (raw : Str) (reply : InitializeResult)
      → initialize world.initialize_json world.paths s raw ≡ some (s', reply)
      → SameFiles s' s
  unfolding initialize
  initialize-SameFiles s s' raw reply e = ground arith

  query-state {ℓ} :
      {A : Type ℓ} (s : Server) (params : Option A) (reply : A → Reply)
      → (query s params reply).state ≡ s
  query-state s none reply = refl
  query-state s (some params) reply = refl

  pub answer-state : (s : Server) (m : Message) → (answer world disk s m).state ≡ s
  unfolding answer
  answer-state s (text_document_code_action params) = query-state s params _
  answer-state s (text_document_completion params) = query-state s params _
  answer-state s (completion_item_resolve params) = query-state s params _
  answer-state s (text_document_formatting params) = query-state s params _
  answer-state s (text_document_rename params) = query-state s params _
  answer-state s (text_document_prepare_rename params) = query-state s params _
  answer-state s (text_document_document_highlight params) = query-state s params _
  answer-state s (text_document_references params) = query-state s params _
  answer-state s (text_document_hover params) = query-state s params _
  answer-state s (text_document_definition params) = query-state s params _
  answer-state s (text_document_document_symbol params) = query-state s params _
  answer-state s (workspace_symbol params) = query-state s params _
  answer-state s _ = refl

  same_state : (t s : Server) → t ≡ s → SameFiles t s
  same_state t s e = rw e (SameFiles-refl s)

  initialize-Leaves :
      (s : Server) (raw : Str) (written : Bool)
      → Leaves (dispatch world disk written s (initialize_request raw)) s
  unfolding dispatch
  initialize-Leaves s raw written =
      elim (Option-cases (initialize world.initialize_json world.paths s raw)) [
        | inl e ↦ rw (dispatch, e) tt
        | inr ((s', reply), e) ↦ rw (dispatch, e) (initialize-SameFiles s s' raw reply e)
      ]

  pub dispatch-Leaves :
      (written : Bool) (s : Server) (m : Message)
      → is_shutdown m ≡ false
      → is_exit m ≡ false
      → Leaves (dispatch world disk written s m) (after s m)
  unfolding dispatch handle_event
  dispatch-Leaves written s (initialize_request raw) a b = initialize-Leaves s raw written
  dispatch-Leaves written s initialized_notification a b = SameFiles-refl s
  dispatch-Leaves written s (workspace_did_change_configuration raw) a b =
      did_change_configuration-SameFiles world.settings_json world.process s raw
  dispatch-Leaves written s (workspace_did_change_watched_files none) a b = SameFiles-refl s
  dispatch-Leaves written s (workspace_did_change_watched_files (some changes)) a b =
      (refl, refl, refl, refl, refl)
  dispatch-Leaves written s shutdown a b = absurd (ground arith)
  dispatch-Leaves written s exit a b = absurd (ground arith)
  dispatch-Leaves written s (text_document_did_open params) a b = did_open-Leaves s params
  dispatch-Leaves written s (text_document_did_change params) a b = did_change-SameFiles s params
  dispatch-Leaves written s (text_document_did_save none) a b = SameFiles-refl s
  dispatch-Leaves written s (text_document_did_save (some params)) a b =
      (refl, refl, refl, refl, refl)
  dispatch-Leaves written s (text_document_did_close params) a b = did_close-SameFiles s params
  dispatch-Leaves written s m a b = same_state (answer world disk s m).state s (answer-state s m)
