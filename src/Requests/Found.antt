-- ===== src/Requests/Found.antt =====
-- internal/server/symbols.go: which symbols there are.
use mathlib.Core.List.Memᴰ
use gols_bash.Prelude.{
  arith, IsSorted, sort_slice-IsSorted, str_lt, str_eq, ◌≢◌, str_lt_total, str_lt_asymmetric,
  str_eq_iff, Str-cases, has_infix_iff, ◌≡◌, refl, sym, ◌∙◌, ◌↔◌, ◌⊎◌, inl, inr, ◌++◌, Bool, true,
  false, none, some, List, [], ◌∷◌, Str, get, IsMap, get_of_mem, mem_of_get, mem-sort_slice, Memᴰ,
  Memᴰ-cons, Bool-cases,
}
use gols_bash.Syntax.{File, Walker}
use gols_bash.System.{Paths, Disk}
use gols_bash.Positions.{range_to_lsp}
use gols_bash.Analyser.Symbols.{
  DeclarationKind, declaration_function, declaration_variable, find_declarations,
}
use gols_bash.Analyser.Index.{DeclarationHit, all_declarations}
use gols_bash.Analyser.Index.Hits.{mem-declaration_hits}
use gols_bash.State.{Server}
use gols_bash.Requests.{text_for_uri}
use gols_bash.Requests.Symbols.{
  SymbolKind, symbol_function, symbol_variable, SymbolInformation, symbol_kind_for_declaration,
  symbol_less, symbol_of, answers_query, hits_loop, workspace_symbols,
}

clash : (b : Bool) → b ≡ true → b ≡ false → ⊥
clash b t f = cc

module _ (w : Walker) (p : Paths) (disk : Disk) (s : Server) where
  mem-hits_loop :
      (query : Str) (hits : List DeclarationHit) (x : SymbolInformation)
      → Memᴰ x (hits_loop w p disk s query hits) ↔ (
          (h : DeclarationHit) × Memᴰ h hits
          × (answers_query w p disk s query h ≡ true)
          × (x ≡ symbol_of w p disk s h))
  unfolding hits_loop
  mem-hits_loop query [] x = (λ m. absurd (Memᴰ.not-nil m), λ (h, m, _, _). absurd (Memᴰ.not-nil m))
  mem-hits_loop query (y ∷ hits) x =
      let later = mem-hits_loop query hits x in
      elim (Bool-cases (answers_query w p disk s query y)) [
        | inl t ↦
            rw (hits_loop, t)
              (
                λ m.
                    elim ((Memᴰ-cons x (symbol_of w p disk s y) (hits_loop w p disk s query hits)).0
                      m) [
                        | inl e ↦ (y, Memᴰ.head refl, t, e)
                        | inr i ↦ let (h, j, a, q) = later.0 i in (h, Memᴰ.tail j, a, q)
                      ],
                λ (h, m, a, q). elim ((Memᴰ-cons h y hits).0 m) [
                  | inl e ↦ Memᴰ.head (rw (← e) q)
                  | inr j ↦ Memᴰ.tail (later.1 (h, j, a, q))
                ],
              )
        | inr f ↦
            rw (hits_loop, f)
              (
                λ m. let (h, j, a, q) = later.0 m in (h, Memᴰ.tail j, a, q),
                λ (h, m, a, q). elim ((Memᴰ-cons h y hits).0 m) [
                  | inl e ↦ absurd (clash (answers_query w p disk s query y) (rw e at a) f)
                  | inr j ↦ later.1 (h, j, a, q)
                ],
              )
      ]

  -- Each answer is a declaration of an indexed file.
  mem-workspace_symbols :
      (unique : IsMap s.index.entries) (query : Str) (x : SymbolInformation)
      → Memᴰ x (workspace_symbols w p disk s query) ↔ (
          (h : DeclarationHit) × (file : File) × (get s.index.entries h.uri ≡ some file)
          × Memᴰ h.declaration (find_declarations w (some file))
          × (answers_query w p disk s (p.to_lower query) h ≡ true)
          × (x ≡ symbol_of w p disk s h))
  unfolding workspace_symbols all_declarations
  mem-workspace_symbols unique query x =
      let entries = s.index.entries in
      let hits = all_declarations w s.index in
      let sorted = mem-sort_slice symbol_less x (hits_loop w p disk s (p.to_lower query) hits) in
      let looped = mem-hits_loop (p.to_lower query) hits x in
      (
        λ m.
            let (h, i, a, q) = looped.0 (sorted.0 m) in
            let (file, j, _, d) = (mem-declaration_hits w entries none h).0 i in
            (h, file, get_of_mem entries h.uri file unique j, d, a, q),
        λ (h, file, g, d, a, q).
            let i =
              (mem-declaration_hits w entries none h).1
                (file, mem_of_get entries h.uri file g, refl, d) in
            sorted.1 (looped.1 (h, i, a, q)),
      )

symbol_less_asymmetric :
    (x y : SymbolInformation) → symbol_less x y ≡ true → symbol_less y x ≡ false
unfolding symbol_less
symbol_less_asymmetric x y h = ground (
  arith,
  str_eq_iff x.name y.name,
  str_eq_iff y.name x.name,
  str_lt_asymmetric x.name y.name,
  str_lt_asymmetric x.location.uri y.location.uri,
)

workspace_symbols-IsSorted :
    (w : Walker) (p : Paths) (disk : Disk) (s : Server) (query : Str)
    → IsSorted symbol_less (workspace_symbols w p disk s query)
unfolding workspace_symbols
workspace_symbols-IsSorted w p disk s query =
    sort_slice-IsSorted symbol_less symbol_less_asymmetric
      (hits_loop w p disk s (p.to_lower query) (all_declarations w s.index))

-- The order of names, and under one name the order of URIs.
abbrev pub InOrder : SymbolInformation → SymbolInformation → Type 0
InOrder x y =
    (str_lt x.name y.name ≡ true)
    ⊎ ((x.name ≡ y.name) × (str_lt y.location.uri x.location.uri ≡ false))

-- Each entry is in order with the one after it.
abbrev pub AllInOrder : List SymbolInformation → Type 0
AllInOrder [] = Unit
AllInOrder (x ∷ []) = Unit
AllInOrder (x ∷ y ∷ ys) = InOrder x y × AllInOrder (y ∷ ys)

symbol_less-InOrder : (x y : SymbolInformation) → symbol_less y x ≡ false → InOrder x y
unfolding symbol_less
symbol_less-InOrder x y h = elim (Str-cases x.name y.name) [
  | inl same ↦ inr (same, ground (arith, str_eq_iff y.name x.name, sym same))
  | inr ne ↦
      let differ : x.name ≢ y.name =
        λ q. clash (str_eq x.name y.name) ((str_eq_iff x.name y.name).1 q) ne in
      inl (
        str_lt_total x.name y.name differ
          (ground (arith, str_eq_iff x.name y.name, str_eq_iff y.name x.name)))
]

IsSorted-AllInOrder : (xs : List SymbolInformation) → IsSorted symbol_less xs → AllInOrder xs
IsSorted-AllInOrder [] h = tt
IsSorted-AllInOrder (x ∷ []) h = tt
IsSorted-AllInOrder (x ∷ y ∷ ys) h = (symbol_less-InOrder x y h.0, IsSorted-AllInOrder (y ∷ ys) h.1)

-- Functions are shown as functions and variables as variables.
abbrev pub symbol_kind : DeclarationKind → SymbolKind
symbol_kind declaration_function = symbol_function
symbol_kind declaration_variable = symbol_variable

module _ (w : Walker) (p : Paths) (disk : Disk) (s : Server) where
  -- How a declaration is shown: its name, its kind, and its place in its file.
  abbrev pub shown : DeclarationHit → SymbolInformation
  shown h = record {
    name = h.declaration.name;
    kind = symbol_kind h.declaration.kind;
    location = record {
      uri = h.uri;
      range =
          range_to_lsp s.pos_encoding (text_for_uri p disk s h.uri) h.declaration.pos
            h.declaration.stop;
    };
  }

  symbol_of-shown : (h : DeclarationHit) → symbol_of w p disk s h ≡ shown h
  unfolding symbol_of symbol_kind_for_declaration
  symbol_of-shown h = ground arith

  -- The name in lower case has the query in lower case in it.
  abbrev pub Answers : Str → DeclarationHit → Type 0
  Answers query h =
      (front : Str) × (back : Str) × (p.to_lower h.declaration.name
        ≡ front ++ p.to_lower query ++ back)

  answers_query-Answers :
      (query : Str) (h : DeclarationHit)
      → (answers_query w p disk s (p.to_lower query) h ≡ true) ↔ Answers query h
  unfolding answers_query
  answers_query-Answers query h =
      let name = p.to_lower h.declaration.name in
      let within = has_infix_iff name (p.to_lower query) in
      let empty = str_eq_iff (p.to_lower query) [] in
      (
        λ t. elim (Str-cases (p.to_lower query) []) [
          | inl e ↦ ([], name, rw e refl)
          | inr ne ↦ within.0 (ground arith)
        ],
        λ a. let t = within.1 a in ground arith,
      )

  -- The answer to a query holds exactly the declarations of the indexed files whose name contains the
  -- query, both in lower case, each as a function or a variable with the URI of its file and its
  -- range there. They ascend by their names, and under one name by the URIs.
  pub workspace_symbols_correct :
      (query : Str)
      → IsMap s.index.entries
      → AllInOrder (workspace_symbols w p disk s query)
        × ((x : SymbolInformation)
            → Memᴰ x (workspace_symbols w p disk s query) ↔ (
                (h : DeclarationHit) × (file : File) × (get s.index.entries h.uri ≡ some file)
                × Memᴰ h.declaration (find_declarations w (some file))
                × Answers query h
                × (x ≡ shown h)))
  workspace_symbols_correct query unique = (
    IsSorted-AllInOrder (workspace_symbols w p disk s query)
        (workspace_symbols-IsSorted w p disk s query),
    λ x.
        let found = mem-workspace_symbols w p disk s unique query x in
        (
          λ m.
              let (h, file, g, i, a, q) = found.0 m in
              (h, file, g, i, (answers_query-Answers query h).0 a, q ∙ symbol_of-shown h),
          λ (h, file, g, i, a, q).
              found.1
                (h, file, g, i, (answers_query-Answers query h).1 a, q ∙ sym (symbol_of-shown h)),
        ),
  )
