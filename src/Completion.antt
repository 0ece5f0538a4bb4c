-- ===== src/Completion.antt =====
-- internal/server/completion.go: what the server offers while the user types.
pub mod Variables
pub mod Prefixes
pub mod Offered
pub mod Dollar
use gols_bash.Prelude.{
  ℕ, zero, suc, ◌+◌, ◌-◌, ◌≤◌, min, ◌≡◌, Bool, true, false, not, ◌&&◌, ◌||◌, Option, none, some,
  List, [], ◌∷◌, ◌++◌, map, Str, bytes, has_prefix, contains, str_lt, sort_slice, ltb, leb, ◌==◌,
  if◌then◌else◌, length, get_or, take, drop,
}
use gols_bash.Syntax.{
  Lit, FuncDecl, Node, func_decl, assign, call_expr, param_exp, other_node, File, Walker,
}
use gols_bash.System.{Paths, Disk}
use gols_bash.Lsp.{slice}
use gols_bash.Positions.{Position, offset_for_position, pos_for_offset}
use gols_bash.Data.{builtins, is_builtin, reserved_words}
use gols_bash.Data.Executables.{see, executables_from_path}
use gols_bash.Documents.{Document}
use gols_bash.Protocol.{TextEdit}
use gols_bash.State.{Server}

pub data ItemKind : Type 0 where
  variable_kind function_kind file_kind keyword_kind snippet_kind : ItemKind

pub data TextFormat : Type 0 where
  plain_text snippet_text : TextFormat

-- `completionCandidate`
pub record Candidate : Type 0 where
  pub label : Str
  pub new_text : Str
  pub detail : Str
  pub kind : ItemKind
  pub text_format : TextFormat

-- `protocol.CompletionItem`, as far as it is filled.
pub record CompletionItem : Type 0 where
  pub label : Str
  pub kind : ItemKind
  pub detail : Str
  pub insert_text_format : TextFormat
  pub text_edit : TextEdit

abbrev snippet : Str → Str → Candidate
snippet label new_text = record {
  label = label;
  new_text = new_text;
  detail = bytes "bash snippet";
  kind = snippet_kind;
  text_format = snippet_text;
}

abbrev pub snippet_completions : List Candidate
snippet_completions =
    snippet (bytes "if statement") (bytes "if ${1:condition}; then\n\t$0\nfi")
    ∷ snippet (bytes "for loop") (bytes "for ${1:name} in ${2:items}; do\n\t$0\ndone")
    ∷ snippet (bytes "case statement")
        (bytes "case ${1:word} in\n\t${2:pattern})\n\t\t$0\n\t\t;;\nesac")
    ∷ []

abbrev pub candidate : Str → ItemKind → Str → Candidate
candidate detail kind label = record {
  label = label;
  new_text = [];
  detail = detail;
  kind = kind;
  text_format = plain_text;
}

-- The loop over the statements.
unfoldable pub functions_loop : List Node → List Str
functions_loop [] = []
functions_loop (func_decl fn ∷ stmts) =
    let rest = functions_loop stmts in elim fn.name [ none ↦ rest | some name ↦ name.value ∷ rest ]
functions_loop (assign l ∷ stmts) = functions_loop stmts
functions_loop (call_expr args ∷ stmts) = functions_loop stmts
functions_loop (param_exp l ∷ stmts) = functions_loop stmts
functions_loop (other_node ∷ stmts) = functions_loop stmts

unfoldable pub local_functions : Option File → List Str
unfolding functions_loop
local_functions none = []
local_functions (some file) = functions_loop file.stmts

-- The callback of `localVariables`; it never prunes.
unfoldable pub variables_step : List Str → Node → List Str × Bool
unfolding see
variables_step seen (assign name) = elim name [
  | none ↦ (seen, true)
  | some l ↦ (see seen l.value, true)
]
variables_step seen (func_decl v) = (seen, true)
variables_step seen (call_expr args) = (seen, true)
variables_step seen (param_exp v) = (seen, true)
variables_step seen other_node = (seen, true)

unfoldable pub is_completion_word_byte : ℕ → Bool
is_completion_word_byte b =
    leb b'a' b && leb b b'z'
    || leb b'A' b && leb b b'Z'
    || leb b'0' b && leb b b'9'
    || b == b'_'
    || b == b'-'
    || b == b'.'

-- The loop that moves `start` back; a read at `start - 1` lies inside the text.
unfoldable pub prefix_start : Str → ℕ → ℕ
unfolding is_completion_word_byte
prefix_start src zero = zero
prefix_start src (suc n) =
    let earlier = prefix_start src n in
    if is_completion_word_byte (get_or src n 0) then earlier else suc n

unfoldable pub completion_prefix : Str → ℕ → Str × ℕ
unfolding prefix_start
completion_prefix src off =
    let off' = if ltb (length src) off then length src else off in
    let start = prefix_start src off' in (slice src start off', start)

unfoldable pub completion_variables_only : Str → ℕ → Bool
completion_variables_only src start =
    if ltb 0 start && get_or src (start - 1) 0 == b'$'
    then true
    else ltb 1 start && get_or src (start - 1) 0 == b'{' && get_or src (start - 2) 0 == b'$'

unfoldable pub completion_new_text : Candidate → Str
completion_new_text c = elim c.new_text [ [] ↦ c.label | b ∷ rest ↦ b ∷ rest ]

-- The names on PATH that are no builtins.
unfoldable pub path_commands : List Str → List Str
path_commands [] = []
path_commands (name ∷ names) =
    let rest = path_commands names in if is_builtin name then rest else name ∷ rest

module _ (w : Walker) where
  unfoldable pub local_variables : Option File → List Str
  unfolding variables_step sort_slice
  local_variables none = []
  local_variables (some file) = sort_slice str_lt (w.walk (List Str) variables_step [] file)

  -- `path` is the value of PATH.
  unfoldable pub completion_candidates : Paths → Disk → Str → Option File → Bool → List Candidate
  unfolding local_variables local_functions path_commands
  completion_candidates p disk path file vars_only =
      let variables = map (candidate (bytes "variable") variable_kind) (local_variables file) in
      if vars_only
      then variables
      else variables
        ++ (map (candidate (bytes "function") function_kind) (local_functions file)
            ++ (map (candidate (bytes "bash builtin") function_kind) builtins
                ++ (map (candidate (bytes "PATH executable") file_kind)
                      (path_commands (executables_from_path p disk path))
                    ++ (map (candidate (bytes "bash reserved word") keyword_kind) reserved_words
                        ++ snippet_completions))))

module _ (s : Server) (d : Document) (at_pos : Position) (prefix : Str) (start : ℕ) where
  unfoldable pub completion_item : Candidate → CompletionItem
  unfolding completion_new_text
  completion_item c = record {
    label = c.label;
    kind = c.kind;
    detail = c.detail;
    insert_text_format = c.text_format;
    text_edit = record {
      range = record { start = pos_for_offset s.pos_encoding d.text start; stop = at_pos };
      new_text = completion_new_text c;
    };
  }

  -- The loop over the candidates, for what it appends to the items.
  unfoldable pub items_loop : List Str → List Candidate → List CompletionItem
  unfolding completion_item
  items_loop seen [] = []
  items_loop seen (c ∷ cs) =
      let pass = contains seen c.label || not (has_prefix c.label prefix) in
      let rest = items_loop (if pass then seen else c.label ∷ seen) cs in
      if pass then rest else completion_item c ∷ rest

abbrev pub label_less : CompletionItem → CompletionItem → Bool
label_less x y = str_lt x.label y.label

-- nil is `none`.
unfoldable pub completion :
    Walker → Paths → Disk → Str → Server → Option Document → Position → Option (List CompletionItem)
unfolding completion_prefix completion_variables_only completion_candidates items_loop sort_slice
completion w p disk path s none at_pos = none
completion w p disk path s (some d) at_pos =
    elim (offset_for_position s.pos_encoding d.text at_pos.line at_pos.character) [
      | none ↦ none
      | some off ↦
          let (prefix, start) = completion_prefix d.text off in
          let vars_only = completion_variables_only d.text start in
          let candidates = completion_candidates w p disk path d.ast vars_only in
          if has_prefix prefix (bytes "#")
          then none
          else some (sort_slice label_less (items_loop s d at_pos prefix start [] candidates))
    ]
