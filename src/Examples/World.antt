-- ===== src/Examples/World.antt =====
-- Concrete values for what the development takes as parameters.
use mathlib.Core.List.{foldl}
use gols_bash.Prelude.{ℕ, refl, Bool, true, none, some, [], ◌∷◌, ◌++◌, Str, bytes, str_eq}
use gols_bash.Syntax.{Pos, Lit, lit, Word, Node, assign, call_expr, File, other_error, Walker}
use gols_bash.System.{Paths, Disk, regular}
use gols_bash.Documents.{Parser}

abbrev pub flat_walk : (S : Type 0) → (S → Node → S × Bool) → S → File → S
flat_walk S f s file = foldl (λ t n. (f t n).0) s file.nodes

-- `Walk` on files whose nodes have no children: nothing is ever left out.
abbrev pub flat_walker : Walker
flat_walker = record { walk = flat_walk; walk_lem = λ S f s file h. refl }

abbrev pub at_offset : ℕ → Pos
at_offset n = record { offset = n; line = 1; col = n }

abbrev pub lit_at : ℕ → Str → Lit
lit_at n s = record { value = s; pos = at_offset n; stop = at_offset n }

abbrev pub plain : ℕ → Str → Word
plain n s = record { parts = lit (lit_at n s) ∷ []; pos = at_offset n; stop = at_offset n }

-- Paths are URIs, every path is absolute, and every path lies in the first root.
abbrev pub plain_paths : Paths
plain_paths = record {
  filename = λ u. u;
  uri_file = λ path. path;
  is_abs = λ path. true;
  dir = λ path. [];
  join = λ a b. a ++ b;
  ext = λ path. bytes ".sh";
  base = λ path. path;
  separator = bytes "/";
  to_lower = λ s. s;
  abs_path = some;
  rel_path = λ root path. some path;
  parse_scheme = λ u. some (bytes "file");
  to_slash = λ path. path;
  match_path = str_eq;
  split_list = λ s. s ∷ [];
}

-- Every file is there and holds the bytes of its path.
abbrev pub plain_disk : Disk
plain_disk = record {
  stat = λ path. some regular;
  read_file = some;
  read_head = some;
  read_dir = λ path. some [];
}

-- A text is one assignment to the variable of that name; the empty text does not parse.
abbrev pub plain_parse : Parser
plain_parse [] name = (none, some (other_error (bytes "empty")))
plain_parse (b ∷ src) name =
    (some (record { nodes = assign (some (lit_at 0 (b ∷ src))) ∷ []; stmts = [] }), none)

-- /a.sh assigns x and sources /b.sh, which calls x.
abbrev pub file_a : File
file_a = record {
  nodes =
      assign (some (lit_at 0 (bytes "x")))
      ∷ call_expr (plain 4 (bytes "source") ∷ plain 11 (bytes "/b.sh") ∷ [])
      ∷ [];
  stmts = [];
}

abbrev pub file_b : File
file_b = record { nodes = call_expr (plain 0 (bytes "x") ∷ []) ∷ []; stmts = [] }
