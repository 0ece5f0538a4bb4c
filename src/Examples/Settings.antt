-- ===== src/Examples/Settings.antt =====
-- internal/server/configuration_test.go and initialize_test.go: one change of the settings, and two
-- initialize requests.
use mathlib.Core.List.Memᴰ
use gols_bash.Prelude.{
  ◌≡◌, refl, sym, ap, inl, inr, true, false, str_eq_iff, ◌∙◌, if◌then◌else◌, none, some, List, [],
  ◌∷◌, Str, bytes, str_eq, get, IsMap, Memᴰ, pos,
}
use gols_bash.System.{Paths}
use gols_bash.Protocol.{CodeAction, CodeActionKind}
use gols_bash.ShellCheck.Lint.{Repairs}
use gols_bash.Diagnostics.{code_actions_for}
use gols_bash.Settings.{SettingsJson, Publication, did_change_configuration}
use gols_bash.Settings.Refreshed.{OwnUris, did_change_configuration_covers}
use gols_bash.Initialize.{RootsProbe, InitializeJson, extract_workspace_roots}
use gols_bash.Initialize.Roots.{
  IsFileUri, AllFileUris, NoneEmpty, extract_workspace_roots_returns,
  extract_workspace_roots_panics,
}
use gols_bash.Examples.World.{plain_paths}
use gols_bash.Examples.Analyser.{b_sh}
use gols_bash.Examples.Requests.{b_doc, server}
use gols_bash.Examples.ShellCheck.{reports}

-- Every message sets the path and the indent.
abbrev pub settings_json : SettingsJson
settings_json = record {
  decode_probe = λ raw. some (record {
    shellcheck_path = some (bytes "sc");
    shellcheck_arguments = [];
    format_indent_spaces = bytes "4";
    workspace_scan_enabled = none;
  });
  decode_bash_ide = λ raw. some (bytes "{}");
  decode_list = λ raw. none;
  decode_string = λ raw. none;
  decode_int = λ raw. some (pos 4);
  decode_settings = some;
}

abbrev message : Str
message = bytes "{}"

b_own : OwnUris server.docs
b_own u d m = let e = Memᴰ.eq_of_singleton m in ap (λ t. t.1.uri) e ∙ sym (ap (λ t. t.0) e)

b_unique : IsMap server.docs
unfolding get
b_unique = (refl, tt)

b_open : get server.docs b_sh ≡ some b_doc
unfolding get str_eq
b_open = refl

did_change_configuration_covers_example :
    (p : Publication) × Memᴰ p (did_change_configuration settings_json reports server message).1
    × (p.uri ≡ b_sh)
    × (p.version ≡ b_doc.version)
    × ((only : List CodeActionKind) (a : CodeAction)
        → Memᴰ a (
            code_actions_for
              (did_change_configuration settings_json reports server message).0
              b_sh
              only)
        → Repairs b_sh p.diagnostics a)
did_change_configuration_covers_example =
    did_change_configuration_covers settings_json reports server message message b_own b_unique refl
      b_sh b_doc b_open

-- Paths that know the schemes of two URIs.
abbrev pub two_schemes : Paths
two_schemes = record plain_paths {
  parse_scheme =
      λ u. some (if str_eq u (bytes "untitled:1") then bytes "untitled" else bytes "file");
}

abbrev roots_json : RootsProbe → InitializeJson
roots_json probe = record {
  decode_encodings = λ raw. none;
  decode_dynamic = λ raw. none;
  decode_roots = λ raw. some probe;
}

abbrev one_folder : Str → RootsProbe
one_folder u = record { root_uri = []; root_path = bytes "/r"; workspace_folders = u ∷ [] }

file_uri : AllFileUris two_schemes (bytes "file:///w" ∷ [])
unfolding str_eq
file_uri u m = rw (Memᴰ.eq_of_singleton m) (inr refl)

extract_workspace_roots_returns_example :
    (roots : List Str) × (extract_workspace_roots
        (roots_json (one_folder (bytes "file:///w")))
        two_schemes
        message
      ≡ some roots)
    × NoneEmpty roots
extract_workspace_roots_returns_example =
    extract_workspace_roots_returns (roots_json (one_folder (bytes "file:///w"))) two_schemes
      message (one_folder (bytes "file:///w")) refl file_uri (inl refl)

untitled_uri : IsFileUri two_schemes (bytes "untitled:1") → ⊥
unfolding str_eq
untitled_uri h = elim h [
  | inl e ↦ cc
  | inr e ↦
      let same : bytes "untitled" ≡ bytes "file" = cc in
      let told : false ≡ true = (str_eq_iff (bytes "untitled") (bytes "file")).1 same in cc
]

extract_workspace_roots_panics_example :
    extract_workspace_roots (roots_json (one_folder (bytes "untitled:1"))) two_schemes message
    ≡ none
extract_workspace_roots_panics_example =
    extract_workspace_roots_panics (roots_json (one_folder (bytes "untitled:1"))) two_schemes
      message (one_folder (bytes "untitled:1")) (bytes "untitled:1") refl (Memᴰ.head refl)
      untitled_uri

-- A client that asks for UTF-8.
abbrev pub utf8_json : InitializeJson
utf8_json = record {
  decode_encodings = λ raw. some (bytes "utf-16" ∷ bytes "utf-8" ∷ []);
  decode_dynamic = λ raw. some true;
  decode_roots = λ raw. some (one_folder (bytes "/r"));
}
