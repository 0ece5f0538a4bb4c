-- ===== src/Formatting/Indents.antt =====
-- internal/server/formatting.go: what is formatted, and with which indent.
use gols_bash.Prelude.{
  ℕ, ◌≡◌, ◌≢◌, refl, ap, ◌∙◌, ◌⊎◌, inl, inr, Bool-cases, ==_iff, ◌==◌, true, false, Option, none,
  some, List, [], ◌∷◌, Str, arith, Option-cases,
}
use gols_bash.Syntax.{File}
use gols_bash.System.{Paths, Disk}
use gols_bash.Documents.{Document}
use gols_bash.State.{Server}
use gols_bash.EditorConfig.{editor_config_indent, indent_of}
use gols_bash.EditorConfig.Ancestors.{GoesUp, Parents, configs}
use gols_bash.EditorConfig.Nearest.{nearest, editor_config_indent_correct}
use gols_bash.Formatting.{
  FormattingOptions, Printer, FormatResult, not_formatted, print_failed, formatted, client_indent,
  format_indent, format_document,
}

-- The indent that the settings fix, else the one of the configuration files, else the client's.
abbrev pub chosen : Option ℕ → Option ℕ → ℕ → ℕ
chosen (some configured) _ _ = configured
chosen none (some indent) _ = indent
chosen none none client = client

elim-chosen :
    (settings files : Option ℕ) (client : ℕ)
    → elim settings [
      | some configured ↦ configured
      | none ↦ elim files [ some indent ↦ indent | none ↦ client ]
    ]
      ≡ chosen settings files client
elim-chosen (some _) _ _ = refl
elim-chosen none (some _) _ = refl
elim-chosen none none _ = refl

format_indent-chosen :
    (p : Paths) (disk : Disk) (s : Server) (d : Document) (opts : FormattingOptions)
    → format_indent p disk s d opts
      ≡ chosen s.settings.format_indent_spaces
          (editor_config_indent p disk (p.filename d.uri))
          (client_indent opts)
unfolding format_indent
format_indent-chosen p disk s d opts =
    elim-chosen s.settings.format_indent_spaces (editor_config_indent p disk (p.filename d.uri))
      (client_indent opts)

-- The indent that the client asks for: tabs, which are no spaces, else as many spaces as a tab is
-- wide, and four where it gives no width.
abbrev pub Asked : FormattingOptions → ℕ → Type 0
Asked opts n =
    ((opts.insert_spaces ≡ false) × (n ≡ 0))
    ⊎ (((opts.insert_spaces ≡ true) × (opts.tab_size ≡ 0) × (n ≡ 4))
        ⊎ ((opts.insert_spaces ≡ true) × (opts.tab_size ≢ 0) × (n ≡ opts.tab_size)))

client_indent-Asked : (opts : FormattingOptions) → Asked opts (client_indent opts)
client_indent-Asked opts = elim (Bool-cases opts.insert_spaces) [
  | inr tabs ↦ inl (tabs, ground arith)
  | inl spaces ↦ elim (Bool-cases (opts.tab_size == 0)) [
    | inl z ↦ inr (inl (spaces, (==_iff opts.tab_size 0).0 z, ground arith))
    | inr w ↦ inr (inr (spaces, (λ e. ground (arith, ==_iff opts.tab_size 0)), ground arith))
  ]
]

-- The document is open and parses without an error.
abbrev pub IsReady : Option Document → Document → File → Type 0
IsReady found d file = (found ≡ some d) × (d.ast ≡ some file) × (d.parse_err ≡ none)

-- One edit from the first position to the last one that the protocol has.
abbrev pub replaced_by : Option Str → FormatResult
replaced_by none = print_failed
replaced_by (some text) = formatted (
    record {
      range = record {
        start = record { line = 0; character = 0 };
        stop = record { line = 4294967295; character = 4294967295 };
      };
      new_text = text;
    }
    ∷ [])

module _ (print : Printer) (p : Paths) (disk : Disk) (s : Server) (opts : FormattingOptions) where
  format_document_cases :
      (found : Option Document)
      → (((d : Document) (file : File) → IsReady found d file → ⊥)
          × (format_document print p disk s found opts ≡ not_formatted))
        ⊎ ((d : Document) × (file : File) × IsReady found d file
            × (format_document print p disk s found opts
                ≡ replaced_by (print (format_indent p disk s d opts) file)))
  unfolding format_document
  format_document_cases none = inl (λ d file (e, _, _). cc, refl)
  format_document_cases (some d) = elim (Option-cases d.ast) [
    | inl a ↦ inl (λ other file (e, ast, _). ground arith, ground arith)
    | inr (file, a) ↦ elim (Option-cases d.parse_err) [
      | inr (err, b) ↦ inl (λ other _ (e, _, parsed). ground arith, ground arith)
      | inl b ↦ elim (Option-cases (print (format_indent p disk s d opts) file)) [
        | inl c ↦ inr (d, file, (refl, a, b), ground arith)
        | inr (text, c) ↦ inr (d, file, (refl, a, b), ground arith)
      ]
    ]
  ]

  -- Where no document is open, or it has no tree or a parse error, nothing is formatted. Otherwise its
  -- tree is printed once, and the answer replaces the text from the first position to the last one of
  -- the protocol by the print, or is an error where printing fails. The indent is the one that the
  -- settings fix, else the one that the configuration files from the document's directory up to the
  -- first root give, the nearest file that sets a style or a size deciding it, else the client's:
  -- none for tabs, else its tab size, or four where that is zero. All this where `filepath.Dir` goes up
  -- and the document's path is not empty.
  pub format_document_correct :
      (found : Option Document)
      → GoesUp p
      → ((d : Document) → found ≡ some d → p.filename d.uri ≢ [])
      → (((d : Document) (file : File) → IsReady found d file → ⊥)
          × (format_document print p disk s found opts ≡ not_formatted))
        ⊎ ((d : Document) × (file : File) × (ds : List Str) × (client : ℕ) × IsReady found d file
            × Parents p (p.dir (p.filename d.uri)) ds
            × Asked opts client
            × (format_document print p disk s found opts
                ≡ replaced_by (
                    print
                      (chosen s.settings.format_indent_spaces
                        (indent_of (nearest p disk (p.filename d.uri) (configs p disk ds)))
                        client)
                      file)))
  format_document_correct found goes_up ne = elim (format_document_cases found) [
    | inl refused ↦ inl refused
    | inr (d, file, ready, e) ↦
        let (ds, parents, indents) =
          editor_config_indent_correct p disk (p.filename d.uri) goes_up (ne d ready.0) in
        let indent =
          format_indent-chosen p disk s d opts
          ∙ ap (λ n. chosen s.settings.format_indent_spaces n (client_indent opts)) indents in
        inr (
          d,
          file,
          ds,
          client_indent opts,
          ready,
          parents,
          client_indent-Asked opts,
          e ∙ ap (λ n. replaced_by (print n file)) indent,
        )
  ]
