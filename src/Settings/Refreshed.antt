-- ===== src/Settings/Refreshed.antt =====
-- internal/server/configuration.go, `handleDidChangeConfiguration`: the open documents afterwards.
use mathlib.Core.List.Memᴰ
use gols_bash.Prelude.{
  ◌≡◌, refl, sym, ap, ◌∙◌, inl, inr, false, none, some, List, [], ◌∷◌, Str, Map, str_eq, get, IsMap,
  arith, Memᴰ, Memᴰ-cons, mem_of_get,
}
use gols_bash.Documents.{Document}
use gols_bash.Protocol.{CodeAction, CodeActionKind}
use gols_bash.State.{Server}
use gols_bash.Requests.{or_empty}
use gols_bash.ShellCheck.{Process}
use gols_bash.ShellCheck.Lint.{Repairs}
use gols_bash.Diagnostics.{document_diagnostics, code_actions_for}
use gols_bash.Diagnostics.Published.{
  document_diagnostics-Published, document_diagnostics-away, code_actions_for-stored,
}
use gols_bash.Settings.{
  SettingsJson, Publication, parse_settings, apply_settings, publish_all, did_change_configuration,
}

-- Every document stands at its own URI.
abbrev pub OwnUris : Map Document → Type 0
OwnUris docs = (u : Str) (d : Document) → Memᴰ (u, d) docs → d.uri ≡ u

own_rest : (v : Str) (d : Document) (docs : Map Document) → OwnUris ((v, d) ∷ docs) → OwnUris docs
own_rest v d docs own u e m = own u e (Memᴰ.tail m)

abbrev actions_at : Server → Str → List CodeAction
actions_at s u = or_empty (get s.code_actions u)

module _ (process : Process) where
  publish_all-away :
      (s : Server) (docs : Map Document) (u : Str)
      → OwnUris docs
      → get docs u ≡ none
      → actions_at (publish_all process s docs).0 u ≡ actions_at s u
  unfolding publish_all
  publish_all-away s [] u own n = refl
  publish_all-away s ((v, d) ∷ docs) u own n =
      let s' = (document_diagnostics process s d).0 in
      let ne : str_eq v u ≡ false = unfold get in ground arith in
      let later : get docs u ≡ none = unfold get in ground arith in
      publish_all-away s' docs u (own_rest v d docs own) later
      ∙ document_diagnostics-away process s d u (rw (own v d (Memᴰ.head refl)) ne)

  -- What is published for one document covers the code actions that it has at the end.
  abbrev Covers : Str → Document → Server → List Publication → Type 0
  Covers u d s sent =
      (p : Publication) × Memᴰ p sent
      × (p.uri ≡ u)
      × (p.version ≡ d.version)
      × ((a : CodeAction) → Memᴰ a (actions_at s u) → Repairs u p.diagnostics a)

  publish_all-Covers :
      (s : Server) (docs : Map Document) (u : Str) (d : Document)
      → OwnUris docs
      → IsMap docs
      → Memᴰ (u, d) docs
      → Covers u d (publish_all process s docs).0 (publish_all process s docs).1
  unfolding publish_all
  publish_all-Covers s [] u d own unique m = absurd (Memᴰ.not-nil m)
  publish_all-Covers s ((v, e) ∷ docs) u d own unique m =
      let (s', diags) = document_diagnostics process s e in
      elim ((Memᴰ-cons (u, d) (v, e) docs).0 m) [
        | inl q ↦
            let u_v : u ≡ v = ap (λ t. t.0) q in
            let d_e : d ≡ e = ap (λ t. t.1) q in
            let own_e : e.uri ≡ v = own v e (Memᴰ.head refl) in
            let kept = publish_all-away s' docs v (own_rest v e docs own) unique.0 in
            (
              record { uri = e.uri; version = e.version; diagnostics = diags },
              Memᴰ.head refl,
              own_e ∙ sym u_v,
              ap (λ x. x.version) (sym d_e),
              λ a i.
                  rw (u_v, ← own_e)
                    (document_diagnostics-Published process s e a (rw (u_v, kept, ← own_e) at i)),
            )
        | inr i ↦
            let (p, j, at_u, version, covers) =
              publish_all-Covers s' docs u d (own_rest v e docs own) unique.1 i in
            (p, Memᴰ.tail j, at_u, version, covers)
      ]

configuration_read :
    (json : SettingsJson) (process : Process) (s : Server) (raw settings : Str)
    → json.decode_settings raw ≡ some settings
    → did_change_configuration json process s raw
      ≡ publish_all process (apply_settings s (parse_settings json settings s.settings)) s.docs
unfolding did_change_configuration apply_settings
configuration_read json process s raw settings e = rw (did_change_configuration, e)

-- A change of the configuration that can be read publishes the diagnostics of every open document
-- with its version, and afterwards every code action that is offered for an open document repairs a
-- diagnostic of that publication.
pub did_change_configuration_covers :
    (json : SettingsJson) (process : Process) (s : Server) (raw settings : Str)
    → OwnUris s.docs
    → IsMap s.docs
    → json.decode_settings raw ≡ some settings
    → (u : Str) (d : Document) → get s.docs u ≡ some d
    → (p : Publication) × Memᴰ p (did_change_configuration json process s raw).1
      × (p.uri ≡ u)
      × (p.version ≡ d.version)
      × ((only : List CodeActionKind) (a : CodeAction)
          → Memᴰ a (code_actions_for (did_change_configuration json process s raw).0 u only)
          → Repairs u p.diagnostics a)
did_change_configuration_covers json process s raw settings own unique e u d g =
    let s' = apply_settings s (parse_settings json settings s.settings) in
    let (p, i, at_u, version, covers) =
      publish_all-Covers process s' s.docs u d own unique (mem_of_get s.docs u d g) in
    rw (configuration_read json process s raw settings e) (
      p,
      i,
      at_u,
      version,
      λ only a m. covers a (code_actions_for-stored (publish_all process s' s.docs).0 u only a m),
    )
