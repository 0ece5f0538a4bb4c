-- ===== src/Settings.antt =====
-- internal/server/configuration.go: the settings and what a change of them does. The decoding of
-- JSON into Go values is a parameter.
pub mod Updates
pub mod Refreshed
use gols_bash.Prelude.{
  ℕ, Bool, true, false, ◌||◌, Option, none, some, List, [], ◌∷◌, Str, Map, bytes, str_eq, ℤ,
  is_negative, to_uint, if◌then◌else◌,
}
use gols_bash.Documents.{Document}
use gols_bash.Protocol.{Diagnostic}
use gols_bash.State.{ServerSettings, ShellCheckRunner, new_shellcheck_runner, Server}
use gols_bash.ShellCheck.{Process}
use gols_bash.Diagnostics.{document_diagnostics}

-- The `probe` of `applySettingsObject`; a raw message that is missing is empty.
pub record SettingsProbe : Type 0 where
  pub shellcheck_path : Option Str
  pub shellcheck_arguments : Str
  pub format_indent_spaces : Str
  pub workspace_scan_enabled : Option Bool

-- `json.Unmarshal` into the types that the file asks for, `none` for an error.
pub record SettingsJson : Type 0 where
  pub decode_probe : Str → Option SettingsProbe
  pub decode_bash_ide : Str → Option Str
  pub decode_list : Str → Option (List Str)
  pub decode_string : Str → Option Str
  pub decode_int : Str → Option ℤ
  pub decode_settings : Str → Option Str

module _ (json : SettingsJson) where
  unfoldable pub parse_string_list : Str → List Str → List Str
  parse_string_list raw current = elim (json.decode_list raw) [
    | some list ↦ list
    | none ↦ elim (json.decode_string raw) [
      | none ↦ current
      | some one ↦ elim one [ [] ↦ [] | b ∷ rest ↦ (b ∷ rest) ∷ [] ]
    ]
  ]

  unfoldable pub parse_uint_pointer : Str → Option ℕ → Option ℕ
  parse_uint_pointer raw current = elim (json.decode_int raw) [
    | none ↦ current
    | some n ↦ if is_negative n then current else some (to_uint n)
  ]

  unfoldable pub apply_settings_object : Str → ServerSettings → ServerSettings
  unfolding parse_string_list parse_uint_pointer
  apply_settings_object raw settings = elim (json.decode_probe raw) [
    | none ↦ settings
    | some probe ↦ record {
      shellcheck_path = elim probe.shellcheck_path [
        | none ↦ settings.shellcheck_path
        | some path ↦ path
      ];
      shellcheck_arguments = elim probe.shellcheck_arguments [
        | [] ↦ settings.shellcheck_arguments
        | b ∷ rest ↦ parse_string_list (b ∷ rest) settings.shellcheck_arguments
      ];
      format_indent_spaces = elim probe.format_indent_spaces [
        | [] ↦ settings.format_indent_spaces
        | b ∷ rest ↦ parse_uint_pointer (b ∷ rest) settings.format_indent_spaces
      ];
      workspace_scan_enabled = elim probe.workspace_scan_enabled [
        | none ↦ settings.workspace_scan_enabled
        | some enabled ↦ enabled
      ];
    }
  ]

  -- The second half of `parseSettings`: the object under "bashIde".
  unfoldable pub apply_nested : Str → ServerSettings → ServerSettings
  unfolding apply_settings_object
  apply_nested raw settings = elim (json.decode_bash_ide raw) [
    | none ↦ settings
    | some nested ↦ elim nested [
      | [] ↦ settings
      | b ∷ rest ↦ apply_settings_object (b ∷ rest) settings
    ]
  ]

  unfoldable pub parse_settings : Str → ServerSettings → ServerSettings
  unfolding apply_nested
  parse_settings raw current =
      if str_eq raw [] || str_eq raw (bytes "null")
      then current
      else apply_nested raw (apply_settings_object raw current)

unfoldable pub apply_settings : Server → ServerSettings → Server
unfolding new_shellcheck_runner
apply_settings s settings = record s {
  settings = settings;
  shellcheck = elim settings.shellcheck_path [
    | [] ↦ none
    | b ∷ rest ↦ some (new_shellcheck_runner (b ∷ rest) settings.shellcheck_arguments)
  ];
}

-- The parameters of a `publishDiagnostics` notification.
pub record Publication : Type 0 where
  pub uri : Str
  pub version : ℕ
  pub diagnostics : List Diagnostic

-- The loop over the open documents.
unfoldable pub publish_all : Process → Server → Map Document → Server × List Publication
publish_all process s [] = (s, [])
publish_all process s ((_, d) ∷ docs) =
    let (s', diags) = document_diagnostics process s d in
    let (s'', sent) = publish_all process s' docs in
    (s'', record { uri = d.uri; version = d.version; diagnostics = diags } ∷ sent)

unfoldable pub did_change_configuration :
    SettingsJson → Process → Server → Str → Server × List Publication
unfolding parse_settings apply_settings publish_all
did_change_configuration json process s raw = elim (json.decode_settings raw) [
  | none ↦ (s, [])
  | some settings ↦
      let s' = apply_settings s (parse_settings json settings s.settings) in
      publish_all process s' s'.docs
]
