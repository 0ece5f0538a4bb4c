-- ===== src/Analyser/Index.antt =====
-- internal/analyser/index.go: the map from URIs to parsed files, and what is asked of it. The mutex
-- makes each operation one step. A `range` over the map is a pass over the association list, whose
-- order is arbitrary.
pub mod Sources
pub mod Laws
pub mod Hits
pub mod Connected
pub mod References
use mathlib.Core.Option
use gols_bash.Prelude.{
  ℕ, zero, suc, ◌≡◌, Bool, true, false, not, ◌&&◌, ◌||◌, Option, none, some, List, [], ◌∷◌, ◌++◌,
  Str, bytes, str_eq, contains, Map, get, put, delete, if◌then◌else◌, length,
}
use gols_bash.Syntax.{Word, Node, func_decl, assign, call_expr, param_exp, other_node, File, Walker}
use gols_bash.System.{Paths, Disk, FileInfo, directory, regular}
use gols_bash.Analyser.Symbols.{
  Declaration, Usage, UsageKind, usage_read, usage_write, sole_lit, is_write, find_declarations,
  find_usages,
}
use gols_bash.Analyser.Reachable.{search_loop}

pub record Index : Type 0 where
  pub entries : Map File

unfoldable pub new_index : Index
new_index = record { entries = [] }

-- A nil file removes the entry.
unfoldable pub add_or_replace : Index → Str → Option File → Index
add_or_replace i u none = record { entries = delete i.entries u }
add_or_replace i u (some file) = record { entries = put i.entries u file }

unfoldable pub remove : Index → Str → Index
remove i u = record { entries = delete i.entries u }

-- `Index.Get`; a missing entry is nil.
unfoldable pub file_at : Index → Str → Option File
file_at i u = get i.entries u

unfoldable pub len : Index → ℕ
len i = length i.entries

pub record UsageHit : Type 0 where
  pub uri : Str
  pub usage : Usage

pub record DeclarationHit : Type 0 where
  pub uri : Str
  pub declaration : Declaration

-- `singleLit`; a nil word is `none`.
unfoldable pub single_lit : Option Word → Option Str
single_lit none = none
single_lit (some word) = elim (sole_lit word.parts) [ none ↦ none | some l ↦ some l.value ]

abbrev pub is_source : Str → Bool
is_source cmd = not (not (str_eq cmd (bytes "source")) && not (str_eq cmd (bytes ".")))

-- `out[u] = true`
unfoldable pub mark : List Str → Str → List Str
mark out u = if contains out u then out else out ++ u ∷ []

module _ (p : Paths) (disk : Disk) where
  -- The path that a source statement in the file `base` names.
  abbrev pub source_path : Str → Str → Str
  source_path base target =
      if p.is_abs target then target else p.join (p.dir (p.filename base)) target

  abbrev pub is_file : Str → Bool
  is_file path = elim (disk.stat path) [
    | none ↦ false
    | some directory ↦ false
    | some regular ↦ true
  ]

  -- The target of one call, if it is `source file` or `. file` with both words plain literals and
  -- the file exists.
  unfoldable pub source_target : Str → List Word → Option Str
  unfolding single_lit
  source_target base [] = none
  source_target base (a0 ∷ []) = none
  source_target base (a0 ∷ a1 ∷ more) = elim (single_lit (some a0)) [
    | none ↦ none
    | some cmd ↦ if not (is_source cmd) then none else elim (single_lit (some a1)) [
      | none ↦ none
      | some target ↦
          let path = source_path base target in
          if is_file path then some (p.uri_file path) else none
    ]
  ]

  -- The callback of `sourcedURIs`; it never prunes.
  unfoldable pub source_step : Str → List Str → Node → List Str × Bool
  unfolding source_target
  source_step base out (call_expr args) = elim (source_target base args) [
    | none ↦ (out, true)
    | some u ↦ (out ++ u ∷ [], true)
  ]
  source_step base out (func_decl v) = (out, true)
  source_step base out (assign v) = (out, true)
  source_step base out (param_exp v) = (out, true)
  source_step base out other_node = (out, true)

  module _ (w : Walker) where
    unfoldable pub sourced_uris : Str → Option File → List Str
    unfolding source_step
    sourced_uris base none = []
    sourced_uris base (some file) = w.walk (List Str) (source_step base) [] file

    -- The loop over the targets of `from`.
    unfoldable pub add_target : Map File → List Str → Str → List Str
    unfolding mark
    add_target entries out target = elim (get entries target) [
      | none ↦ out
      | some _ ↦ mark out target
    ]

    unfoldable pub targets_loop : Map File → List Str → List Str → List Str
    unfolding add_target
    targets_loop entries out [] = out
    targets_loop entries out (target ∷ rest) =
        targets_loop entries (add_target entries out target) rest

    -- The loop over the other entries, for those that source `from`.
    unfoldable pub add_source : Str → List Str → Str → File → List Str
    unfolding mark
    add_source from out candidate file =
        if str_eq candidate from
        then out
        else if contains (sourced_uris candidate (some file)) from
        then mark out candidate
        else out

    unfoldable pub sources_loop : Str → List Str → Map File → List Str
    unfolding add_source
    sources_loop from out [] = out
    sources_loop from out ((candidate, file) ∷ rest) =
        sources_loop from (add_source from out candidate file) rest

    unfoldable pub source_neighbours : Map File → Str → List Str
    unfolding targets_loop sources_loop sourced_uris
    source_neighbours entries from =
        sources_loop from (targets_loop entries [] (sourced_uris from (get entries from))) entries

    -- Every file that is queued is seen for the first time and is `from` or an entry, so one round
    -- more than there are entries is enough.
    unfoldable pub reachable_uris : Map File → Str → Option (List Str)
    reachable_uris entries from =
        search_loop (source_neighbours entries) (suc (length entries)) (from ∷ []) (from ∷ [])

-- The test of the two hit loops; a nil `allowed` allows every file.
abbrev pub is_allowed : Option (List Str) → Str → Bool
is_allowed none u = true
is_allowed (some allowed) u = contains allowed u

module _ (w : Walker) where
  unfoldable pub file_declarations : Str → List Declaration → List DeclarationHit
  file_declarations u [] = []
  file_declarations u (d ∷ ds) = (record { uri = u; declaration = d }) ∷ file_declarations u ds

  unfoldable pub declaration_hits : Map File → Option (List Str) → List DeclarationHit
  unfolding file_declarations
  declaration_hits [] allowed = []
  declaration_hits ((u, file) ∷ rest) allowed =
      (if is_allowed allowed u then file_declarations u (find_declarations w (some file)) else [])
      ++ declaration_hits rest allowed

  -- The loop over the usages of one file, which leaves out writes unless they are asked for.
  unfoldable pub file_usages : Str → Bool → List Usage → List UsageHit
  file_usages u include_decl [] = []
  file_usages u include_decl (usage ∷ rest) =
      let hits = file_usages u include_decl rest in
      if not include_decl && is_write usage
      then hits
      else (record { uri = u; usage = usage }) ∷ hits

  unfoldable pub usage_hits : Map File → Option (List Str) → Str → Bool → List UsageHit
  unfolding file_usages
  usage_hits [] allowed name include_decl = []
  usage_hits ((u, file) ∷ rest) allowed name include_decl =
      (if is_allowed allowed u
        then file_usages u include_decl (find_usages w (some file) name)
        else [])
      ++ usage_hits rest allowed name include_decl

  unfoldable pub all_declarations : Index → List DeclarationHit
  unfolding declaration_hits
  all_declarations i = declaration_hits i.entries none

  unfoldable pub all_usages : Index → Str → Bool → List UsageHit
  unfolding usage_hits
  all_usages i name include_decl = usage_hits i.entries none name include_decl

  module _ (p : Paths) (disk : Disk) where
    -- `none` where the search ran out of fuel.
    unfoldable pub reachable_declarations : Index → Str → Option (List DeclarationHit)
    unfolding declaration_hits reachable_uris
    reachable_declarations i from =
        Option.map (λ allowed. declaration_hits i.entries (some allowed))
          (reachable_uris p disk w i.entries from)

    unfoldable pub reachable_usages : Index → Str → Str → Bool → Option (List UsageHit)
    unfolding usage_hits reachable_uris
    reachable_usages i from name include_decl =
        Option.map (λ allowed. usage_hits i.entries (some allowed) name include_decl)
          (reachable_uris p disk w i.entries from)
