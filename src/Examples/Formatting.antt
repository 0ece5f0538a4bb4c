-- ===== src/Examples/Formatting.antt =====
-- internal/server/formatting_test.go: a document under a root configuration file with an indent of
-- three.
use gols_bash.Prelude.{
  ℕ, zero, suc, ◌++◌, ◌⊎◌, ◌≡◌, ◌≢◌, refl, ap, ◌∙◌, inr, false, true, some, List, [], ◌∷◌, Str,
  bytes, arith, trim_space, str_eq, is_positive, to_uint,
}
use gols_bash.Syntax.{File}
use gols_bash.System.{Paths, Disk}
use gols_bash.Documents.{Document}
use gols_bash.State.{new_server}
use gols_bash.EditorConfig.{editor_config_indent, indent_of}
use gols_bash.EditorConfig.Ancestors.{GoesUp, Parents, configs}
use gols_bash.EditorConfig.Nearest.{nearest, editor_config_indent_correct}
use gols_bash.Formatting.{
  FormattingOptions, Printer, not_formatted, formatted, whole_text, format_document,
}
use gols_bash.Formatting.Indents.{chosen, Asked, IsReady, replaced_by, format_document_correct}
use gols_bash.Examples.World.{plain_paths, plain_disk}
use gols_bash.Examples.Analyser.{b_sh}
use gols_bash.Examples.Requests.{b_doc}

abbrev three_disk : Disk
three_disk = record plain_disk {
  read_file = λ path. some (bytes "root=true\n[*]\nindent_style=space\nindent_size=3\n");
}

-- Every pattern matches.
abbrev glob_paths : Paths
glob_paths = record plain_paths { match_path = λ pattern name. true }

glob-GoesUp : GoesUp glob_paths
glob-GoesUp d = inr (inr refl)

is_a_path : b_sh ≢ []
is_a_path e = absurd cc

editor_config_indent_correct_example :
    (ds : List Str) × Parents glob_paths [] ds
    × (editor_config_indent glob_paths three_disk b_sh
        ≡ indent_of (nearest glob_paths three_disk b_sh (configs glob_paths three_disk ds)))
editor_config_indent_correct_example =
    editor_config_indent_correct glob_paths three_disk b_sh glob-GoesUp is_a_path

abbrev spaces : ℕ → Str
spaces zero = []
spaces (suc n) = 32 ∷ spaces n

-- The printer prints the indent and one letter.
abbrev indented : Printer
indented indent file = some (spaces indent ++ bytes "x")

abbrev tabs : FormattingOptions
tabs = record { insert_spaces = false; tab_size = 8 }

-- Three spaces, and not the tabs that the client asks for.
is_formatted :
    format_document indented glob_paths three_disk new_server (some b_doc) tabs
    ≡ formatted (whole_text (bytes "   x") ∷ [])
unfolding new_server format_document editor_config_indent trim_space str_eq is_positive to_uint
is_formatted = refl

named : (d : Document) → some b_doc ≡ some d → glob_paths.filename d.uri ≢ []
named d e absent =
    let same : b_doc ≡ d = ground arith in is_a_path (ap (λ (x : Document). x.uri) same ∙ absent)

format_document_correct_example :
    (((d : Document) (file : File) → IsReady (some b_doc) d file → ⊥)
      × (format_document indented glob_paths three_disk new_server (some b_doc) tabs
          ≡ not_formatted))
    ⊎ ((d : Document) × (file : File) × (ds : List Str) × (client : ℕ) × IsReady (some b_doc) d file
        × Parents glob_paths [] ds
        × Asked tabs client
        × (format_document indented glob_paths three_disk new_server (some b_doc) tabs
            ≡ replaced_by (
                indented
                  (chosen new_server.settings.format_indent_spaces
                    (indent_of
                      (nearest glob_paths three_disk d.uri (configs glob_paths three_disk ds)))
                    client)
                  file)))
format_document_correct_example =
    format_document_correct indented glob_paths three_disk new_server tabs (some b_doc) glob-GoesUp
      named

-- The indent of three is found.
three : editor_config_indent glob_paths three_disk b_sh ≡ some 3
unfolding editor_config_indent trim_space str_eq is_positive to_uint
three = refl
