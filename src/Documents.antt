-- ===== src/Documents.antt =====
-- internal/server/documents.go: the open documents. The parser is a parameter: it gives a file, an
-- error, or both. The mutex makes each operation one step; an update changes the stored document in
-- place, and no handler keeps a document across messages.
use gols_bash.Prelude.{
  ℕ, Bool, true, false, Option, none, some, Str, bytes, str_eq, Map, get, put, delete,
}
use gols_bash.Syntax.{File, ParseError}
use gols_bash.System.{Paths}

-- `newParser().Parse(strings.NewReader(src), name)`.
abbrev pub Parser : Type 0
Parser = (src name : Str) → Option File × Option ParseError

-- `version` is the bit pattern of an `int32`.
pub record TextDocumentItem : Type 0 where
  pub uri : Str
  pub language_id : Str
  pub version : ℕ
  pub text : Str

pub record Document : Type 0 where
  pub uri : Str
  pub lang : Str
  pub version : ℕ
  pub text : Str
  pub ast : Option File
  pub parse_err : Option ParseError

abbrev pub DocumentStore : Type 0
DocumentStore = Map Document

-- Whether `uri.URI.Filename` returns: it panics on any other URI.
unfoldable pub is_file_uri : Paths → Str → Bool
is_file_uri p u = elim (p.parse_scheme u) [
  | none ↦ false
  | some scheme ↦ str_eq scheme (bytes "file")
]

module _ (parse : Parser) (p : Paths) where
  unfoldable pub reparse : Document → Document
  reparse d =
      let (ast, err) = parse d.text (p.filename d.uri) in record d { ast = ast; parse_err = err }

  unfoldable pub open_doc : DocumentStore → TextDocumentItem → DocumentStore × Document
  unfolding reparse
  open_doc docs item =
      let d = reparse (record {
        uri = item.uri;
        lang = item.language_id;
        version = item.version;
        text = item.text;
        ast = none;
        parse_err = none;
      }) in
      (put docs item.uri d, d)

  -- `none` where the document is not open.
  unfoldable pub update_doc : DocumentStore → Str → ℕ → Str → DocumentStore × Option Document
  unfolding reparse
  update_doc docs u version text = elim (get docs u) [
    | none ↦ (docs, none)
    | some d ↦
        let d' = reparse (record d { version = version; text = text }) in (put docs u d', some d')
  ]

  unfoldable pub save_doc : DocumentStore → Str → Option Str → DocumentStore × Option Document
  unfolding reparse
  save_doc docs u text = elim (get docs u) [
    | none ↦ (docs, none)
    | some d ↦ elim text [
      | none ↦ (docs, some d)
      | some t ↦ let d' = reparse (record d { text = t }) in (put docs u d', some d')
    ]
  ]

unfoldable pub close_doc : DocumentStore → Str → DocumentStore × Bool
close_doc docs u = elim (get docs u) [ none ↦ (docs, false) | some _ ↦ (delete docs u, true) ]
