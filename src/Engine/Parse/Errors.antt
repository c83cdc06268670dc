-- ===== src/Engine/Parse/Errors.antt =====
-- Which token lists `parse_filter_lists` accepts, and the token that it reports otherwise.
use mysql_selective_trace_pl.Common.{
  ◌≡◌, refl, ap, ◌↔◌, ◌⊎◌, inl, inr, Option, none, some, List, [], ◌∷◌, ◌++◌, Option-cases, All,
  All-append_inv, Bytes,
}
use mathlib.Core.Path.{subst}
use mysql_selective_trace_pl.Engine.Rules.{FilterEntry, FilterRules, add_entry}
use mysql_selective_trace_pl.Engine.Tokens.{split_csv}
use mysql_selective_trace_pl.Engine.Parse.{
  parsed, refused, wildcard, exact, schema_token, table_token, parse_schemas, parse_tables,
  parse_filter_lists,
}
use mysql_selective_trace_pl.Engine.Parse.Matches.{parse_filter_lists_inv}

-- `f` accepts the token.
abbrev pub IsGood {ℓ} : {A : Type ℓ} → (Bytes → Option A) → Bytes → Type ℓ
IsGood {A} f tok = (a : A) × (f tok ≡ some a)

-- `tok` is the first token that `f` does not accept.
abbrev pub FirstBad {ℓ} : {A : Type ℓ} → (Bytes → Option A) → List Bytes → Bytes → Type ℓ
FirstBad f toks tok =
    (before : List Bytes) × (after : List Bytes) × (toks ≡ before ++ (tok ∷ after))
    × All (IsGood f) before
    × (f tok ≡ none)

FirstBad-cons {ℓ} :
    {A : Type ℓ} (f : Bytes → Option A) (t : Bytes) (toks : List Bytes) (tok : Bytes)
    → IsGood f t
    → FirstBad f toks tok
    → FirstBad f (t ∷ toks) tok
FirstBad-cons f t toks tok g (before, after, split, good, bad) =
    (t ∷ before, after, ap (λ l. t ∷ l) split, (g, good), bad)

parse_schemas_outcome :
    (list : List FilterEntry) (toks : List Bytes)
    → ((out : List FilterEntry) × (parse_schemas list toks ≡ parsed out)
        × All (IsGood schema_token) toks)
      ⊎ ((tok : Bytes) × (parse_schemas list toks ≡ refused tok) × FirstBad schema_token toks tok)
unfolding parse_schemas
parse_schemas_outcome list [] = inl (list, refl, tt)
parse_schemas_outcome list (t ∷ toks) = elim (Option-cases (schema_token t)) [
  | inl bad ↦ inr (t, rw (bad, parse_schemas), ([], toks, refl, tt, bad))
  | inr ((schema, cmds), good) ↦ elim (parse_schemas_outcome (add_entry list schema cmds) toks) [
    | inl (out, e, all_good) ↦
        inl (out, rw (good, parse_schemas) e, (((schema, cmds), good), all_good))
    | inr (tok, e, first) ↦ inr (
      tok,
      rw (good, parse_schemas) e,
      FirstBad-cons schema_token t toks tok ((schema, cmds), good) first,
    )
  ]
]

parse_tables_outcome :
    (wild tables : List FilterEntry) (toks : List Bytes)
    → ((out : List FilterEntry × List FilterEntry) × (parse_tables wild tables toks ≡ parsed out)
        × All (IsGood table_token) toks)
      ⊎ ((tok : Bytes) × (parse_tables wild tables toks ≡ refused tok)
          × FirstBad table_token toks tok)
unfolding parse_tables
parse_tables_outcome wild tables [] = inl ((wild, tables), refl, tt)
parse_tables_outcome wild tables (t ∷ toks) = elim (Option-cases (table_token t)) [
  | inl bad ↦ inr (t, rw (bad, parse_tables), ([], toks, refl, tt, bad))
  | inr (wildcard schema cmds, good) ↦
      elim (parse_tables_outcome (add_entry wild schema cmds) tables toks) [
        | inl (out, e, all_good) ↦
            inl (out, rw (good, parse_tables) e, ((wildcard schema cmds, good), all_good))
        | inr (tok, e, first) ↦ inr (
          tok,
          rw (good, parse_tables) e,
          FirstBad-cons table_token t toks tok (wildcard schema cmds, good) first,
        )
      ]
  | inr (exact name cmds, good) ↦
      elim (parse_tables_outcome wild (add_entry tables name cmds) toks) [
        | inl (out, e, all_good) ↦
            inl (out, rw (good, parse_tables) e, ((exact name cmds, good), all_good))
        | inr (tok, e, first) ↦ inr (
          tok,
          rw (good, parse_tables) e,
          FirstBad-cons table_token t toks tok (exact name cmds, good) first,
        )
      ]
]

not_FirstBad {ℓ} :
    {A : Type ℓ} (f : Bytes → Option A) (toks : List Bytes) (tok : Bytes)
    → All (IsGood f) toks
    → ¬ FirstBad f toks tok
not_FirstBad f toks tok h (before, after, split, _, bad) =
    let ((a, good), _) =
      (All-append_inv (IsGood f) before (tok ∷ after) (subst (All (IsGood f)) split h)).1 in
    cc (good, bad)

-- `parse_filter_lists` succeeds exactly if every token of the two lists is accepted.
pub parse_filter_lists_total :
    (s t : Option Bytes) (out : FilterRules)
    → (All (IsGood schema_token) (split_csv s) × All (IsGood table_token) (split_csv t))
      ↔ ((rules : FilterRules) × (parse_filter_lists s t out ≡ parsed rules))
unfolding parse_filter_lists
parse_filter_lists_total s t out = (to, from)
  where
    to :
        All (IsGood schema_token) (split_csv s) × All (IsGood table_token) (split_csv t)
        → (rules : FilterRules) × (parse_filter_lists s t out ≡ parsed rules)
    to (hs, ht) = elim (parse_schemas_outcome [] (split_csv s)) [
      | inr (tok, _, first) ↦ absurd (not_FirstBad schema_token _ tok hs first)
      | inl (schemas, e, _) ↦ elim (parse_tables_outcome [] [] (split_csv t)) [
        | inr (tok, _, first) ↦ absurd (not_FirstBad table_token _ tok ht first)
        | inl (pair, e', _) ↦ (
          record out { schemas = schemas; wildcard_schemas = pair.0; tables = pair.1 },
          rw (e, e', parse_filter_lists),
        )
      ]
    ]

    from :
        ((rules : FilterRules) × (parse_filter_lists s t out ≡ parsed rules))
        → All (IsGood schema_token) (split_csv s) × All (IsGood table_token) (split_csv t)
    from (rules, e) =
        let inv = parse_filter_lists_inv s t out rules e in
        elim (parse_schemas_outcome [] (split_csv s)) [
          | inr (tok, bad, _) ↦ cc (bad, inv.0)
          | inl (_, _, hs) ↦ elim (parse_tables_outcome [] [] (split_csv t)) [
            | inr (tok, bad, _) ↦ cc (bad, inv.1)
            | inl (_, _, ht) ↦ (hs, ht)
          ]
        ]

-- Where it fails, the reported token is the first that is not accepted: of the schema list, or,
-- if all of that is accepted, of the table list.
pub parse_filter_lists_refused :
    (s t : Option Bytes) (out : FilterRules) (tok : Bytes)
    → parse_filter_lists s t out ≡ refused tok
    → FirstBad schema_token (split_csv s) tok
      ⊎ (All (IsGood schema_token) (split_csv s) × FirstBad table_token (split_csv t) tok)
unfolding parse_filter_lists
parse_filter_lists_refused s t out tok e = elim (parse_schemas_outcome [] (split_csv s)) [
  | inr (tok', bad, first) ↦
      let same : tok' ≡ tok = cc (rw (bad, parse_filter_lists) at e) in
      inl (subst (FirstBad schema_token (split_csv s)) same first)
  | inl (schemas, good, hs) ↦ elim (parse_tables_outcome [] [] (split_csv t)) [
    | inr (tok', bad, first) ↦
        let same : tok' ≡ tok = cc (rw (good, bad, parse_filter_lists) at e) in
        inr (hs, subst (FirstBad table_token (split_csv t)) same first)
    | inl (pair, done, _) ↦ cc (rw (good, done, parse_filter_lists) at e)
  ]
]
