-- ===== src/Requests/Hovered.antt =====
-- internal/server/hover.go: for which words there is a text.
use mathlib.Core.List.Memᴰ
use gols_bash.Prelude.{
  ◌≡◌, ◌≢◌, refl, sym, ◌∙◌, ◌↔◌, ◌⊎◌, inl, inr, false, Bool-cases, Option, Option-cases, contains,
  contains_iff, none, some, List, [], ◌∷◌, Str, str_eq_iff, Str-cases, get, IsMap, sort_slice,
  mem-sort_slice, arith, Memᴰ, Memᴰ-cons,
}
use gols_bash.Syntax.{
  Lit, FuncDecl, Node, func_decl, assign, call_expr, param_exp, other_node, File, Walker,
}
use gols_bash.System.{Paths, Disk}
use gols_bash.Analyser.Symbols.{find_declarations}
use gols_bash.Analyser.Index.{DeclarationHit}
use gols_bash.Analyser.Index.Connected.{Connected}
use gols_bash.Analyser.Index.References.{reachable_declarations_correct}
use gols_bash.Documents.{Document}
use gols_bash.Data.{builtins, reserved_words, is_builtin, is_reserved_word}
use gols_bash.State.{Server}
use gols_bash.Requests.Definition.{hit_less, sorted_declaration_hits}
use gols_bash.Requests.Hover.{
  named_hit, named_function, find_local_function, find_workspace_declaration, hover_markdown_for,
}

no_some : {A : Type 0} (x : A) → some x ≡ none → ⊥
no_some x e = cc

named_hit_cases :
    (word : Str) (hits : List DeclarationHit)
    → ((named_hit word hits ≡ none)
        × ((h : DeclarationHit) → Memᴰ h hits → h.declaration.name ≢ word))
      ⊎ ((h : DeclarationHit) × (named_hit word hits ≡ some h)
          × Memᴰ h hits
          × (h.declaration.name ≡ word))
unfolding named_hit
named_hit_cases word [] = inl (refl, λ h m. absurd (Memᴰ.not-nil m))
named_hit_cases word (x ∷ hits) = elim (Str-cases x.declaration.name word) [
  | inl same ↦
      inr (x, rw (named_hit, (str_eq_iff x.declaration.name word).1 same), Memᴰ.head refl, same)
  | inr ne ↦ elim (named_hit_cases word hits) [
    | inr (h, e, m, named) ↦ inr (h, rw (named_hit, ne) e, Memᴰ.tail m, named)
    | inl (e, away) ↦ inl (
      rw (named_hit, ne) e,
      λ h m q. elim ((Memᴰ-cons h x hits).0 m) [
        | inl first ↦ ground (arith, str_eq_iff x.declaration.name word)
        | inr i ↦ away h i q
      ],
    )
  ]
]

not_in : (words : List Str) (word : Str) → (contains words word ≡ false) ↔ (Memᴰ word words → ⊥)
not_in words word = (
  λ f m. let t = (contains_iff words word).1 m in absurd cc,
  λ away. elim (Bool-cases (contains words word)) [
    | inl t ↦ absurd (away ((contains_iff words word).0 t))
    | inr f ↦ f
  ],
)

-- One of the statements themselves is a function of that name.
abbrev pub HasFunction : List Node → Str → Type 0
HasFunction stmts word =
    (fn : FuncDecl) × (l : Lit) × Memᴰ (func_decl fn) stmts × (fn.name ≡ some l) × (l.value ≡ word)

HasFunction-later :
    (n : Node) (stmts : List Node) (word : Str)
    → HasFunction stmts word
    → HasFunction (n ∷ stmts) word
HasFunction-later n stmts word (fn, l, m, e, v) = (fn, l, Memᴰ.tail m, e, v)

named_first :
    (word : Str) (fn : FuncDecl) (l : Lit) (stmts : List Node)
    → fn.name ≡ some l
    → l.value ≡ word
    → named_function word (func_decl fn ∷ stmts) ≡ some fn
unfolding named_function
named_first word fn l stmts e v = let t = (str_eq_iff l.value word).1 v in ground arith

named_later :
    (word : Str) (n : Node) (stmts : List Node)
    → named_function word (n ∷ stmts) ≡ none
    → named_function word stmts ≡ none
unfolding named_function
named_later word (func_decl fn) stmts h = elim (Option-cases fn.name) [
  | inl e ↦ ground arith
  | inr (l, e) ↦ ground arith
]
named_later word (assign l) stmts h = h
named_later word (call_expr args) stmts h = h
named_later word (param_exp l) stmts h = h
named_later word other_node stmts h = h

no_function :
    (word : Str) (stmts : List Node) → named_function word stmts ≡ none → HasFunction stmts word → ⊥
no_function word [] h (fn, l, m, e, v) = Memᴰ.not-nil m
no_function word (n ∷ stmts) h (fn, l, m, e, v) = elim ((Memᴰ-cons (func_decl fn) n stmts).0 m) [
  | inl first ↦ no_some fn (sym (named_first word fn l stmts e v) ∙ rw first h)
  | inr i ↦ no_function word stmts (named_later word n stmts h) (fn, l, i, e, v)
]

finds_none :
    (word : Str) (stmts : List Node)
    → (HasFunction stmts word → ⊥)
    → named_function word stmts ≡ none
unfolding named_function
finds_none word [] away = refl
finds_none word (func_decl fn ∷ stmts) away =
    let rest = finds_none word stmts (λ h. away (HasFunction-later (func_decl fn) stmts word h)) in
    elim (Option-cases fn.name) [
      | inl e ↦ ground arith
      | inr (l, e) ↦ elim (Str-cases l.value word) [
        | inl same ↦ absurd (away (fn, l, Memᴰ.head refl, e, same))
        | inr ne ↦ ground arith
      ]
    ]
finds_none word (assign l ∷ stmts) away =
    finds_none word stmts (λ h. away (HasFunction-later (assign l) stmts word h))
finds_none word (call_expr args ∷ stmts) away =
    finds_none word stmts (λ h. away (HasFunction-later (call_expr args) stmts word h))
finds_none word (param_exp l ∷ stmts) away =
    finds_none word stmts (λ h. away (HasFunction-later (param_exp l) stmts word h))
finds_none word (other_node ∷ stmts) away =
    finds_none word stmts (λ h. away (HasFunction-later other_node stmts word h))

-- A local function of a document is one of the statements of its file.
find_local_function-HasFunction :
    (ast : Option File) (word : Str)
    → (find_local_function ast word ≡ none)
      ↔ ((file : File) → ast ≡ some file → HasFunction file.stmts word → ⊥)
unfolding find_local_function
find_local_function-HasFunction none word = (λ _ file e h. absurd cc, λ _. refl)
find_local_function-HasFunction (some file) word = (
  λ h other e has.
      let same : file ≡ other = ground arith in no_function word file.stmts h (rw same has),
  λ away. finds_none word file.stmts (away file refl),
)

module _ (w : Walker) (p : Paths) (disk : Disk) (s : Server) (unique : IsMap s.index.entries)
    (d : Document) (word : Str) where
  -- A declaration of the word in an indexed file that source statements connect to the document.
  abbrev pub IsDeclaredWord : DeclarationHit → Type 0
  IsDeclaredWord h =
      (file : File) × (get s.index.entries h.uri ≡ some file)
      × Connected p disk w s.index.entries unique d.uri h.uri
      × Memᴰ h.declaration (find_declarations w (some file))
      × (h.declaration.name ≡ word)

  workspace_cases :
      ((find_workspace_declaration w p disk s d word ≡ none)
        × ((h : DeclarationHit) → IsDeclaredWord h → ⊥))
      ⊎ ((h : DeclarationHit) × (find_workspace_declaration w p disk s d word ≡ some h)
          × IsDeclaredWord h)
  unfolding find_workspace_declaration sorted_declaration_hits
  workspace_cases =
      let (hits, found, exact) = reachable_declarations_correct p disk w s.index unique d.uri in
      elim (named_hit_cases word (sort_slice hit_less hits)) [
        | inl (e, away) ↦ inl (
          rw (find_workspace_declaration, found) e,
          λ h (file, g, c, i, named).
              away h ((mem-sort_slice hit_less h hits).1 ((exact h).1 (file, g, c, i))) named,
        )
        | inr (h, e, m, named) ↦
            let (file, g, c, i) = (exact h).0 ((mem-sort_slice hit_less h hits).0 m) in
            inr (h, rw (find_workspace_declaration, found) e, (file, g, c, i, named))
      ]

  empty_iff : (hover_markdown_for w p disk s word d ≡ []) ↔ (
      (is_reserved_word word ≡ false)
      × (is_builtin word ≡ false)
      × (find_local_function d.ast word ≡ none)
      × (find_workspace_declaration w p disk s d word ≡ none))
  unfolding hover_markdown_for
  empty_iff = ground arith

  -- There is no text for a word exactly where it is none of the reserved words and none of the
  -- builtins, the document does not parse or none of its top-level statements is a function of that
  -- name, and no file that source statements connect to the document declares it.
  pub hover_markdown_for_empty : (hover_markdown_for w p disk s word d ≡ []) ↔ (
      (Memᴰ word reserved_words → ⊥)
      × (Memᴰ word builtins → ⊥)
      × ((file : File) → d.ast ≡ some file → HasFunction file.stmts word → ⊥)
      × ((h : DeclarationHit) → IsDeclaredWord h → ⊥))
  unfolding is_reserved_word is_builtin
  hover_markdown_for_empty =
      let local = find_local_function-HasFunction d.ast word in
      let reserved = not_in reserved_words word in
      let builtin = not_in builtins word in
      elim workspace_cases [
        | inl (e, away) ↦ (
          λ q. let (r, b, l, _) = empty_iff.0 q in (reserved.0 r, builtin.0 b, local.0 l, away),
          λ (r, b, l, _). empty_iff.1 (reserved.1 r, builtin.1 b, local.1 l, e),
        )
        | inr (h, e, there) ↦ (
          λ q. let (_, _, _, n) = empty_iff.0 q in absurd (no_some h (sym e ∙ n)),
          λ (_, _, _, away). absurd (away h there),
        )
      ]
