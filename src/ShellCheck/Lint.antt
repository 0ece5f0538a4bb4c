-- ===== src/ShellCheck/Lint.antt =====
-- internal/server/diagnostics.go, `shellCheckDiagnostics` and `lint`: which code actions there are,
-- and when ShellCheck is not asked again.
use mathlib.Core.List.Memᴰ
use mathlib.Core.Path.{subst}
use gols_bash.Prelude.{
  ◌≡◌, refl, sym, ap, ◌∙◌, inl, inr, some, List, [], ◌∷◌, ◌++◌, map, Str, bytes, str_eq_iff, get,
  arith, Memᴰ, Memᴰ-cons, Option-cases, List-cases,
}
use gols_bash.Positions.{PositionEncoding}
use gols_bash.Documents.{Document}
use gols_bash.Protocol.{Diagnostic, TextEdit, CodeAction, quick_fix}
use gols_bash.State.{ShellCheckRunner}
use gols_bash.ShellCheck.{
  Comment, Replacement, not_found, itoa, replacement_edit, shellcheck_code_action,
  comment_diagnostic, comments_loop, no_result, Process, linted, lint,
}

-- The action repairs one published diagnostic, by edits of one document only.
abbrev pub Repairs : Str → List Diagnostic → CodeAction → Type 0
Repairs u diags a =
    (diag : Diagnostic) × Memᴰ diag diags
    × (a.diagnostics ≡ diag ∷ [])
    × (a.kind ≡ quick_fix)
    × ((v : Str) (edits : List TextEdit) → get a.edit.changes v ≡ some edits → u ≡ v)

pub Repairs-more :
    (u : Str) (diags more : List Diagnostic) (a : CodeAction)
    → ((x : Diagnostic) → Memᴰ x diags → Memᴰ x more)
    → Repairs u diags a
    → Repairs u more a
Repairs-more u diags more a h (diag, i, one, kind, only) = (diag, h diag i, one, kind, only)

abbrev made : Str → Str → PositionEncoding → Str → Diagnostic → List Replacement → CodeAction
made u text enc code diag rs = record {
  title = bytes "Apply fix for " ++ code;
  kind = quick_fix;
  diagnostics = diag ∷ [];
  edit = record { changes = (u, map (replacement_edit text enc) rs) ∷ [] };
}

made-Repairs :
    (u text : Str) (enc : PositionEncoding) (code : Str) (diag : Diagnostic) (rs : List Replacement)
    → Repairs u (diag ∷ []) (made u text enc code diag rs)
unfolding get
made-Repairs u text enc code diag rs =
    (diag, Memᴰ.head refl, refl, refl, λ v edits e. ground (arith, str_eq_iff u v))

action-made :
    (u text : Str) (enc : PositionEncoding) (code : Str) (diag : Diagnostic) (c : Comment)
    (a : CodeAction)
    → shellcheck_code_action u text enc code diag c ≡ some a
    → (rs : List Replacement) × (made u text enc code diag rs ≡ a)
unfolding shellcheck_code_action
action-made u text enc code diag c a e = elim (Option-cases c.fix) [
  | inl q ↦ absurd (ground arith)
  | inr (rs, q) ↦ elim (List-cases rs) [
    | inl n ↦ absurd (ground arith)
    | inr (r, rest, n) ↦ (r ∷ rest, ground arith)
  ]
]

action-Repairs :
    (u text : Str) (enc : PositionEncoding) (code : Str) (diag : Diagnostic) (c : Comment)
    (a : CodeAction)
    → shellcheck_code_action u text enc code diag c ≡ some a
    → Repairs u (diag ∷ []) a
action-Repairs u text enc code diag c a e =
    let (rs, q) = action-made u text enc code diag c a e in
    subst (Repairs u (diag ∷ [])) q (made-Repairs u text enc code diag rs)

pub comments_loop-Repairs :
    (u text : Str) (enc : PositionEncoding) (comments : List Comment) (a : CodeAction)
    → Memᴰ a (comments_loop u text enc comments).code_actions
    → Repairs u (comments_loop u text enc comments).diagnostics a
unfolding comments_loop
comments_loop-Repairs u text enc [] a m = absurd (Memᴰ.not-nil m)
comments_loop-Repairs u text enc (c ∷ comments) a m =
    let diag = comment_diagnostic text enc c in
    let rest = comments_loop u text enc comments in
    let code = bytes "SC" ++ itoa c.code in
    let earlier = comments_loop-Repairs u text enc comments a in
    let later : Repairs u rest.diagnostics a → Repairs u (diag ∷ rest.diagnostics) a =
      Repairs-more u rest.diagnostics (diag ∷ rest.diagnostics) a (λ x i. Memᴰ.tail i) in
    elim (Option-cases (shellcheck_code_action u text enc code diag c)) [
      | inl q ↦ later (earlier (rw (comments_loop, q) at m))
      | inr (b, q) ↦ elim ((Memᴰ-cons a b rest.code_actions).0 (rw (comments_loop, q) at m)) [
        | inl same ↦
            Repairs-more u (diag ∷ []) (diag ∷ rest.diagnostics) a
              (λ x i. Memᴰ.head (Memᴰ.eq_of_singleton i))
              (action-Repairs u text enc code diag c a (q ∙ ap some (sym same)))
        | inr i ↦ later (earlier i)
      ]
    ]

-- Once the program was not found, the runner neither runs it again nor reports anything.
pub lint_stays_off :
    (process process' : Process) (enc enc' : PositionEncoding) (r : ShellCheckRunner)
    (d d' : Document)
    → (process.run_command r.path ((bytes "--format=json1" ∷ r.args) ++ bytes "-" ∷ []) d.text).err
      ≡ not_found
    → lint process' enc' (lint process enc r d).0 d' ≡ ((lint process enc r d).0, linted no_result)
unfolding lint
lint_stays_off process process' enc enc' r d d' h = ground arith
