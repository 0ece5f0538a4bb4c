-- ===== src/Initialize.antt =====
-- internal/server/initialize.go: what the server takes from the `initialize` request. The decoding
-- of JSON is a parameter.
pub mod Capabilities
pub mod Roots
use gols_bash.Prelude.{
  ℕ, Bool, true, false, not, ◌&&◌, Option, none, some, List, [], ◌∷◌, Str, bytes, str_eq, contains,
  if◌then◌else◌,
}
use gols_bash.System.{Paths}
use gols_bash.Positions.{PositionEncoding, utf8, utf16}
use gols_bash.State.{Server}
pub use Capabilities.{InitializeResult}
unfoldable pub use Capabilities.{initialize_result}

-- The `probe` of `extractWorkspaceRoots`.
pub record RootsProbe : Type 0 where
  pub root_uri : Str
  pub root_path : Str
  pub workspace_folders : List Str

-- `json.Unmarshal` into each of the probes, `none` for an error.
pub record InitializeJson : Type 0 where
  pub decode_encodings : Str → Option (List Str)
  pub decode_dynamic : Str → Option Bool
  pub decode_roots : Str → Option RootsProbe

module _ (json : InitializeJson) where
  unfoldable pub pick_position_encoding : Str → PositionEncoding
  pick_position_encoding raw = elim (json.decode_encodings raw) [
    | none ↦ utf16
    | some encodings ↦ if contains encodings (bytes "utf-8") then utf8 else utf16
  ]

  unfoldable pub supports_dynamic_watched_files : Str → Bool
  supports_dynamic_watched_files raw = elim (json.decode_dynamic raw) [
    | none ↦ false
    | some dynamic ↦ dynamic
  ]

-- `uriToPath`; `none` where `Filename` panics, as it does on a URI without the scheme "file".
unfoldable pub uri_to_path : Paths → Str → Option Str
uri_to_path p [] = some []
uri_to_path p (b ∷ u) = elim (p.parse_scheme (b ∷ u)) [
  | none ↦ none
  | some scheme ↦ if str_eq scheme (bytes "file") then some (p.filename (b ∷ u)) else none
]

-- `append(out, p)` unless the path is empty.
abbrev pub add_root : Str → List Str → List Str
add_root [] out = out
add_root (b ∷ path) out = (b ∷ path) ∷ out

-- The loop over the workspace folders; `none` where it panics.
unfoldable pub folder_roots : Paths → List Str → Option (List Str)
unfolding uri_to_path
folder_roots p [] = some []
folder_roots p (u ∷ us) =
    let rest = folder_roots p us in
    elim (uri_to_path p u) [
      | none ↦ none
      | some path ↦ elim rest [ none ↦ none | some out ↦ some (add_root path out) ]
    ]

-- The fall-backs for `rootUri` and `rootPath`.
unfoldable pub root_uri_roots : Paths → Str → List Str → Option (List Str)
unfolding uri_to_path
root_uri_roots p root_uri (x ∷ out) = some (x ∷ out)
root_uri_roots p [] [] = some []
root_uri_roots p (b ∷ u) [] = elim (uri_to_path p (b ∷ u)) [
  | none ↦ none
  | some path ↦ some (add_root path [])
]

unfoldable pub root_path_roots : Str → List Str → List Str
root_path_roots root_path (x ∷ out) = x ∷ out
root_path_roots root_path [] = add_root root_path []

-- `none` where it panics.
unfoldable pub extract_workspace_roots : InitializeJson → Paths → Str → Option (List Str)
unfolding folder_roots root_uri_roots root_path_roots
extract_workspace_roots json p raw = elim (json.decode_roots raw) [
  | none ↦ some []
  | some probe ↦ elim (folder_roots p probe.workspace_folders) [
    | none ↦ none
    | some folders ↦ elim (root_uri_roots p probe.root_uri folders) [
      | none ↦ none
      | some out ↦ some (root_path_roots probe.root_path out)
    ]
  ]
]

-- `initialize`: the state afterwards, and the reply; `none` where it panics.
unfoldable pub initialize :
    InitializeJson → Paths → Server → Str → Option (Server × InitializeResult)
unfolding pick_position_encoding supports_dynamic_watched_files extract_workspace_roots
    initialize_result
initialize json p s raw =
    let enc = pick_position_encoding json raw in
    elim (extract_workspace_roots json p raw) [
      | none ↦ none
      | some roots ↦ some (
        record s {
          pos_encoding = enc;
          workspace_roots = roots;
          dynamic_watched_files = supports_dynamic_watched_files json raw;
        },
        initialize_result enc,
      )
    ]
