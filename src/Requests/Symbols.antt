-- ===== src/Requests/Symbols.antt =====
-- internal/server/symbols.go.
use gols_bash.Prelude.{
  Bool, not, ◌&&◌, Option, none, some, List, [], ◌∷◌, Str, str_eq, str_lt, has_infix, sort_slice,
  if◌then◌else◌,
}
use gols_bash.Syntax.{
  Lit, FuncDecl, Node, func_decl, assign, call_expr, param_exp, other_node, Walker,
}
use gols_bash.System.{Paths, Disk}
use gols_bash.Positions.{Range, range_to_lsp}
use gols_bash.Analyser.Symbols.{DeclarationKind, declaration_function, declaration_variable}
use gols_bash.Analyser.Index.{DeclarationHit, all_declarations}
use gols_bash.Documents.{Document}
use gols_bash.Protocol.{Location}
use gols_bash.State.{Server}
use gols_bash.Requests.{text_for_uri}

pub data SymbolKind : Type 0 where
  symbol_function symbol_variable : SymbolKind

pub record DocumentSymbol : Type 0 where
  pub name : Str
  pub kind : SymbolKind
  pub range : Range
  pub selection_range : Range

pub record SymbolInformation : Type 0 where
  pub name : Str
  pub kind : SymbolKind
  pub location : Location

unfoldable pub symbol_kind_for_declaration : DeclarationKind → SymbolKind
symbol_kind_for_declaration declaration_variable = symbol_variable
symbol_kind_for_declaration declaration_function = symbol_function

-- The order of the answer.
unfoldable pub symbol_less : SymbolInformation → SymbolInformation → Bool
symbol_less x y =
    if not (str_eq x.name y.name)
    then str_lt x.name y.name
    else str_lt x.location.uri y.location.uri

module _ (w : Walker) (p : Paths) (disk : Disk) (s : Server) where
  unfoldable pub function_symbol : Str → FuncDecl → Lit → DocumentSymbol
  function_symbol text fn name = record {
    name = name.value;
    kind = symbol_function;
    range = range_to_lsp s.pos_encoding text fn.pos fn.stop;
    selection_range = range_to_lsp s.pos_encoding text name.pos name.stop;
  }

  -- The loop over the statements.
  unfoldable pub symbols_loop : Str → List Node → List DocumentSymbol
  unfolding function_symbol
  symbols_loop text [] = []
  symbols_loop text (func_decl fn ∷ stmts) =
      let rest = symbols_loop text stmts in
      elim fn.name [ none ↦ rest | some name ↦ function_symbol text fn name ∷ rest ]
  symbols_loop text (assign l ∷ stmts) = symbols_loop text stmts
  symbols_loop text (call_expr args ∷ stmts) = symbols_loop text stmts
  symbols_loop text (param_exp l ∷ stmts) = symbols_loop text stmts
  symbols_loop text (other_node ∷ stmts) = symbols_loop text stmts

  unfoldable pub document_symbols : Option Document → List DocumentSymbol
  unfolding symbols_loop
  document_symbols none = []
  document_symbols (some d) = elim d.ast [ none ↦ [] | some ast ↦ symbols_loop d.text ast.stmts ]

  unfoldable pub symbol_of : DeclarationHit → SymbolInformation
  unfolding symbol_kind_for_declaration
  symbol_of h = record {
    name = h.declaration.name;
    kind = symbol_kind_for_declaration h.declaration.kind;
    location = record {
      uri = h.uri;
      range =
          range_to_lsp s.pos_encoding (text_for_uri p disk s h.uri) h.declaration.pos
            h.declaration.stop;
    };
  }

  -- The test of the loop, on the query in lower case.
  unfoldable pub answers_query : Str → DeclarationHit → Bool
  answers_query query h =
      not (not (str_eq query []) && not (has_infix (p.to_lower h.declaration.name) query))

  unfoldable pub hits_loop : Str → List DeclarationHit → List SymbolInformation
  unfolding answers_query symbol_of
  hits_loop query [] = []
  hits_loop query (h ∷ hits) =
      let rest = hits_loop query hits in if answers_query query h then symbol_of h ∷ rest else rest

  unfoldable pub workspace_symbols : Str → List SymbolInformation
  unfolding hits_loop symbol_less sort_slice
  workspace_symbols query =
      sort_slice symbol_less (hits_loop (p.to_lower query) (all_declarations w s.index))
