-- ===== src/Settings/Updates.antt =====
-- internal/server/configuration.go: what `parseSettings` leaves of the current settings.
use gols_bash.Prelude.{
  ℕ, ◌≡◌, refl, sym, ap, ◌∙◌, ◌⊎◌, Bool, ◌||◌, Option, none, some, List, [], ◌∷◌, Str, bytes,
  str_eq, is_negative, Option-cases, List-cases, inl, inr, Bool-cases,
}
use gols_bash.State.{ServerSettings}
use gols_bash.Settings.{
  SettingsJson, parse_string_list, parse_uint_pointer, apply_settings_object, apply_nested,
  parse_settings,
}

-- To set a value or to keep it.
abbrev SetsOrKeeps {ℓ} : {A : Type ℓ} → (A → A) → Type ℓ
SetsOrKeeps {A = A} f = ((x : A) → f x ≡ x) ⊎ ((x y : A) → f x ≡ f y)

twice {ℓ} :
    {A : Type ℓ} (f g : A → A) → SetsOrKeeps f → SetsOrKeeps g → (x : A) → g (f (g (f x))) ≡ g (f x)
twice f g (inl kf) (inl kg) x = kg (f (g (f x))) ∙ kf (g (f x))
twice f g (inl kf) (inr cg) x = cg (f (g (f x))) (f x)
twice f g (inr cf) (inl kg) x = kg (f (g (f x))) ∙ (cf (g (f x)) x ∙ sym (kg (f x)))
twice f g (inr cf) (inr cg) x = ap g (cf (g (f x)) x)

module _ (json : SettingsJson) where
  parse_string_list-SetsOrKeeps : (raw : Str) → SetsOrKeeps (parse_string_list json raw)
  parse_string_list-SetsOrKeeps raw = elim (Option-cases (json.decode_list raw)) [
    | inr (list, q) ↦ inr (λ x y. unfold parse_string_list in rw (parse_string_list, q))
    | inl q ↦ elim (Option-cases (json.decode_string raw)) [
      | inl n ↦ inl (λ x. unfold parse_string_list in rw (parse_string_list, q, n))
      | inr (one, n) ↦ inr (λ x y. unfold parse_string_list in rw (parse_string_list, q, n))
    ]
  ]

  parse_uint_pointer-SetsOrKeeps : (raw : Str) → SetsOrKeeps (parse_uint_pointer json raw)
  parse_uint_pointer-SetsOrKeeps raw = elim (Option-cases (json.decode_int raw)) [
    | inl q ↦ inl (λ x. unfold parse_uint_pointer in rw (parse_uint_pointer, q))
    | inr (n, q) ↦ elim (Bool-cases (is_negative n)) [
      | inl t ↦ inl (λ x. unfold parse_uint_pointer in rw (parse_uint_pointer, q, t))
      | inr f ↦ inr (λ x y. unfold parse_uint_pointer in rw (parse_uint_pointer, q, f))
    ]
  ]

  -- One JSON object: each setting is set or kept, whatever the others are.
  abbrev Updates : (ServerSettings → ServerSettings) → Type 0
  Updates f =
      (path : Str → Str) × (args : List Str → List Str) × (indent : Option ℕ → Option ℕ)
      × (scan : Bool → Bool) × SetsOrKeeps path
      × SetsOrKeeps args
      × SetsOrKeeps indent
      × SetsOrKeeps scan
      × ((s : ServerSettings)
          → f s ≡ record {
            shellcheck_path = path s.shellcheck_path;
            shellcheck_arguments = args s.shellcheck_arguments;
            format_indent_spaces = indent s.format_indent_spaces;
            workspace_scan_enabled = scan s.workspace_scan_enabled;
          })

  keep-Updates : Updates (λ s. s)
  keep-Updates = (
    λ x. x,
    λ x. x,
    λ x. x,
    λ x. x,
    inl (λ x. refl),
    inl (λ x. refl),
    inl (λ x. refl),
    inl (λ x. refl),
    λ s. refl,
  )

  option_or-SetsOrKeeps {ℓ} :
      {A : Type ℓ} (o : Option A) → SetsOrKeeps (λ x. elim o [ none ↦ x | some a ↦ a ])
  option_or-SetsOrKeeps none = inl (λ x. refl)
  option_or-SetsOrKeeps (some a) = inr (λ x y. refl)

  args_or-SetsOrKeeps :
      (raw : Str)
      → SetsOrKeeps (λ x. elim raw [ [] ↦ x | b ∷ rest ↦ parse_string_list json (b ∷ rest) x ])
  args_or-SetsOrKeeps [] = inl (λ x. refl)
  args_or-SetsOrKeeps (b ∷ rest) = parse_string_list-SetsOrKeeps (b ∷ rest)

  indent_or-SetsOrKeeps :
      (raw : Str)
      → SetsOrKeeps (λ x. elim raw [ [] ↦ x | b ∷ rest ↦ parse_uint_pointer json (b ∷ rest) x ])
  indent_or-SetsOrKeeps [] = inl (λ x. refl)
  indent_or-SetsOrKeeps (b ∷ rest) = parse_uint_pointer-SetsOrKeeps (b ∷ rest)

  object-Updates : (raw : Str) → Updates (apply_settings_object json raw)
  unfolding apply_settings_object
  object-Updates raw = elim (Option-cases (json.decode_probe raw)) [
    | inl q ↦ rw (apply_settings_object, q) keep-Updates
    | inr (probe, q) ↦
        rw (apply_settings_object, q)
          (
            λ x. elim probe.shellcheck_path [ none ↦ x | some a ↦ a ],
            λ x. elim probe.shellcheck_arguments [
              | [] ↦ x
              | b ∷ rest ↦ parse_string_list json (b ∷ rest) x
            ],
            λ x. elim probe.format_indent_spaces [
              | [] ↦ x
              | b ∷ rest ↦ parse_uint_pointer json (b ∷ rest) x
            ],
            λ x. elim probe.workspace_scan_enabled [ none ↦ x | some a ↦ a ],
            option_or-SetsOrKeeps probe.shellcheck_path,
            args_or-SetsOrKeeps probe.shellcheck_arguments,
            indent_or-SetsOrKeeps probe.format_indent_spaces,
            option_or-SetsOrKeeps probe.workspace_scan_enabled,
            λ s. refl,
          )
  ]

  nested-Updates : (raw : Str) → Updates (apply_nested json raw)
  unfolding apply_nested
  nested-Updates raw = elim (Option-cases (json.decode_bash_ide raw)) [
    | inl q ↦ rw (apply_nested, q) keep-Updates
    | inr (nested, q) ↦ elim (List-cases nested) [
      | inl n ↦ rw (apply_nested, q, n) keep-Updates
      | inr (b, rest, n) ↦ rw (apply_nested, q, n) (object-Updates (b ∷ rest))
    ]
  ]

  both-again :
      (f g : ServerSettings → ServerSettings)
      → Updates f
      → Updates g
      → (s : ServerSettings) → g (f (g (f s))) ≡ g (f s)
  both-again f g (p, a, i, w, sp, sa, si, sw, fe) (p', a', i', w', sp', sa', si', sw', ge) s =
      rw (ge (f (g (f s))), fe (g (f s)), ge (f s), fe s)
        (rw
          (
            twice p p' sp sp' s.shellcheck_path,
            twice a a' sa sa' s.shellcheck_arguments,
            twice i i' si si' s.format_indent_spaces,
            twice w w' sw sw' s.workspace_scan_enabled,
          )
          refl)

  -- To read the same settings message a second time changes nothing.
  pub parse_settings_idempotent :
      (raw : Str) (current : ServerSettings)
      → parse_settings json raw (parse_settings json raw current) ≡ parse_settings json raw current
  unfolding parse_settings
  parse_settings_idempotent raw current =
      elim (Bool-cases (str_eq raw [] || str_eq raw (bytes "null"))) [
        | inl t ↦ rw t
        | inr f ↦ rw f (
            both-again (apply_settings_object json raw) (apply_nested json raw) (object-Updates raw)
              (nested-Updates raw) current)
      ]
