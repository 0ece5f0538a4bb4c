-- ===== src/Initialize/Roots.antt =====
-- internal/server/initialize.go, `extractWorkspaceRoots`: what the roots are, and when it panics.
use mathlib.Core.List.Memᴰ
use gols_bash.Prelude.{
  ◌≡◌, ◌≢◌, refl, ◌↔◌, ◌⊎◌, inl, inr, none, some, List, [], ◌∷◌, Str, bytes, str_eq_iff, arith,
  Memᴰ, Memᴰ-cons, Option-cases,
}
use gols_bash.System.{Paths}
use gols_bash.Initialize.{
  RootsProbe, InitializeJson, uri_to_path, add_root, folder_roots, root_uri_roots, root_path_roots,
  extract_workspace_roots,
}

-- A URI that `uriToPath` takes: an empty one, or one of a file.
abbrev pub IsFileUri : Paths → Str → Type 0
IsFileUri p u = (u ≡ []) ⊎ (p.parse_scheme u ≡ some (bytes "file"))

uri_to_path_iff : (p : Paths) (u : Str) → (uri_to_path p u ≢ none) ↔ IsFileUri p u
unfolding uri_to_path
uri_to_path_iff p [] = (λ _. inl refl, λ _ e. cc)
uri_to_path_iff p (b ∷ u) = elim (Option-cases (p.parse_scheme (b ∷ u))) [
  | inl n ↦ (λ h. absurd (h (ground arith)), λ h. ground arith)
  | inr (scheme, n) ↦ ground (arith, str_eq_iff scheme (bytes "file"))
]

abbrev pub AllFileUris : Paths → List Str → Type 0
AllFileUris p us = (u : Str) → Memᴰ u us → IsFileUri p u

-- The paths of the roots, none of them empty.
abbrev pub NoneEmpty : List Str → Type 0
NoneEmpty [] = Unit
NoneEmpty (path ∷ roots) = (path ≢ []) × NoneEmpty roots

add_root-NoneEmpty : (path : Str) (out : List Str) → NoneEmpty out → NoneEmpty (add_root path out)
add_root-NoneEmpty [] out h = h
add_root-NoneEmpty (b ∷ path) out h = (λ e. cc, h)

uri_to_path-some :
    (p : Paths) (u : Str) → IsFileUri p u → (path : Str) × (uri_to_path p u ≡ some path)
uri_to_path-some p u h = elim (Option-cases (uri_to_path p u)) [
  | inl n ↦ absurd ((uri_to_path_iff p u).1 h n)
  | inr found ↦ found
]

folder_roots-some :
    (p : Paths) (us : List Str)
    → AllFileUris p us
    → (out : List Str) × (folder_roots p us ≡ some out) × NoneEmpty out
unfolding folder_roots
folder_roots-some p [] h = ([], refl, tt)
folder_roots-some p (u ∷ us) h =
    let (path, e) = uri_to_path-some p u (h u (Memᴰ.head refl)) in
    let (out, q, nonempty) = folder_roots-some p us (λ v m. h v (Memᴰ.tail m)) in
    (add_root path out, rw (folder_roots, e, q), add_root-NoneEmpty path out nonempty)

root_uri_roots-some :
    (p : Paths) (u : Str) (out : List Str)
    → IsFileUri p u
    → NoneEmpty out
    → (out' : List Str) × (root_uri_roots p u out ≡ some out') × NoneEmpty out'
unfolding root_uri_roots
root_uri_roots-some p u (x ∷ out) h nonempty = (x ∷ out, refl, nonempty)
root_uri_roots-some p [] [] h nonempty = ([], refl, tt)
root_uri_roots-some p (b ∷ u) [] h nonempty =
    let (path, e) = uri_to_path-some p (b ∷ u) h in
    (add_root path [], rw (root_uri_roots, e), add_root-NoneEmpty path [] tt)

root_path_roots-NoneEmpty :
    (path : Str) (out : List Str) → NoneEmpty out → NoneEmpty (root_path_roots path out)
unfolding root_path_roots
root_path_roots-NoneEmpty path (x ∷ out) h = h
root_path_roots-NoneEmpty path [] h = add_root-NoneEmpty path [] tt

module _ (json : InitializeJson) (p : Paths) (raw : Str) (probe : RootsProbe)
    (decoded : json.decode_roots raw ≡ some probe) where
  -- Where the URIs of the request, if any, are URIs of files, `extractWorkspaceRoots` returns, and
  -- no root is the empty path.
  pub extract_workspace_roots_returns :
      AllFileUris p probe.workspace_folders
      → IsFileUri p probe.root_uri
      → (roots : List Str) × (extract_workspace_roots json p raw ≡ some roots) × NoneEmpty roots
  unfolding extract_workspace_roots
  extract_workspace_roots_returns folders root =
      let (out, e, nonempty) = folder_roots-some p probe.workspace_folders folders in
      let (out', e', nonempty') = root_uri_roots-some p probe.root_uri out root nonempty in
      (
        root_path_roots probe.root_path out',
        rw (extract_workspace_roots, decoded, e, e'),
        root_path_roots-NoneEmpty probe.root_path out' nonempty',
      )

folder_roots-none :
    (p : Paths) (us : List Str) (u : Str)
    → Memᴰ u us
    → (IsFileUri p u → ⊥)
    → folder_roots p us ≡ none
unfolding folder_roots
folder_roots-none p [] u m h = absurd (Memᴰ.not-nil m)
folder_roots-none p (v ∷ us) u m h = elim ((Memᴰ-cons u v us).0 m) [
  | inl e ↦ elim (Option-cases (uri_to_path p u)) [
    | inl n ↦ rw (folder_roots, ← e, n)
    | inr (path, n) ↦ absurd (h ((uri_to_path_iff p u).0 (λ q. cc)))
  ]
  | inr i ↦
      let later = folder_roots-none p us u i h in
      elim (Option-cases (uri_to_path p v)) [
        | inl n ↦ rw (folder_roots, n)
        | inr (path, n) ↦ rw (folder_roots, n, later)
      ]
]

-- One workspace folder that is not a file, and `extractWorkspaceRoots` panics: the folder is not
-- skipped.
pub extract_workspace_roots_panics :
    (json : InitializeJson) (p : Paths) (raw : Str) (probe : RootsProbe) (u : Str)
    → json.decode_roots raw ≡ some probe
    → Memᴰ u probe.workspace_folders
    → (IsFileUri p u → ⊥)
    → extract_workspace_roots json p raw ≡ none
unfolding extract_workspace_roots
extract_workspace_roots_panics json p raw probe u decoded m h =
    rw (extract_workspace_roots, decoded, folder_roots-none p probe.workspace_folders u m h)
