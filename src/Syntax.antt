-- ===== src/Syntax.antt =====
-- What the server reads of mvdan.cc/sh/v3/syntax: positions, the nodes that it matches on, and
-- `Walk`. The package itself is not modelled; its parser and `Walk` are parameters.
use mathlib.Core.List.{foldl}
use gols_bash.Prelude.{ℕ, ◌≡◌, Bool, false, Option, List, Str}

-- `Pos` by its three accessors: a byte offset, a line and a byte column from 1.
pub record Pos : Type 0 where
  pub offset : ℕ
  pub line : ℕ
  pub col : ℕ

pub record Lit : Type 0 where
  pub value : Str
  pub pos : Pos
  pub stop : Pos

pub data WordPart : Type 0 where
  lit : Lit → WordPart
  other_part : WordPart

pub record Word : Type 0 where
  pub parts : List WordPart
  pub pos : Pos
  pub stop : Pos

pub record FuncDecl : Type 0 where
  pub name : Option Lit
  pub pos : Pos
  pub stop : Pos

-- The nodes that the code tells apart in its type switches.
pub data Node : Type 0 where
  func_decl : FuncDecl → Node
  assign : Option Lit → Node
  call_expr : List Word → Node
  param_exp : Option Lit → Node
  other_node : Node

-- A parsed file: `nodes` are the nodes that `Walk` visits, in its order, when the callback never
-- prunes, and `stmts` the commands of `file.Stmts`.
pub record File : Type 0 where
  pub nodes : List Node
  pub stmts : List Node

-- An error of the parser: a `syntax.ParseError` with a position, or any other.
pub data ParseError : Type 0 where
  at_pos : Pos → Str → ParseError
  other_error : Str → ParseError

-- `syntax.Walk` over a callback that updates a state and says whether to go down. Walk visits in
-- depth-first order and leaves out what lies below a node where the callback says false. Where the
-- state is such that no further node changes it once the callback has said false, leaving nodes out
-- makes no difference. Walk's closing calls with a nil node match no case of any callback here.
pub record Walker : Type 1 where
  pub walk : (S : Type 0) → (S → Node → S × Bool) → S → File → S
  pub walk_lem :
      (S : Type 0) (f : S → Node → S × Bool) (s : S) (file : File)
      → ((t : S) (n m : Node) → (f t n).1 ≡ false → (f (f t n).0 m).0 ≡ (f t n).0)
      → walk S f s file ≡ foldl (λ t n. (f t n).0) s file.nodes
