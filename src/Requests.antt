-- ===== src/Requests.antt =====
-- internal/server: what the requests on one document have in common, and a module for each.
pub mod Identifier
pub mod References
pub mod Rename
pub mod Located
pub mod Definition
pub mod Defined
pub mod Hover
pub mod Hovered
pub mod Symbols
pub mod Found
pub mod Prepared
use mathlib.Core.Option
use gols_bash.Prelude.{
  ℕ, Bool, true, false, Option, none, some, List, [], ◌∷◌, ◌++◌, Str, get, if◌then◌else◌, length,
  leb,
}
use gols_bash.System.{Paths, Disk}
use gols_bash.Lsp.{Word, word_at_offset}
use gols_bash.Positions.{PositionEncoding, Position, offset_for_position}
use gols_bash.Documents.{Document}
use gols_bash.State.{Server}

-- A nil slice is read as an empty one.
abbrev pub or_empty {ℓ} : {A : Type ℓ} → Option (List A) → List A
or_empty none = []
or_empty (some xs) = xs

-- The start of the handlers: the offset of the position, and the word there if there is one.
unfoldable pub word_under : PositionEncoding → Str → Position → Option Word
word_under enc text pos = elim (offset_for_position enc text pos.line pos.character) [
  | none ↦ none
  | some off ↦ let w = word_at_offset text off in elim w.word [ [] ↦ none | _ ∷ _ ↦ some w ]
]

-- `textForURI` of references.go: the open document, else the file on disk, else the empty text.
unfoldable pub text_for_uri : Paths → Disk → Server → Str → Str
text_for_uri p disk s u = elim (get s.docs u) [
  | some d ↦ d.text
  | none ↦ elim (disk.read_file (p.filename u)) [ none ↦ [] | some text ↦ text ]
]
