-- ===== src/Engine/Parse/Matches.antt =====
-- From the text of the two system variables to the answers of the matching functions.
use mysql_selective_trace_pl.Common.{
  ℕ, ◌≡◌, refl, ◌≢◌, ◌↔◌, ◌⊎◌, inl, inr, Option, some, [], arith, All, All-mono, Any, Bytes,
  iff_trans, or_map_left, or_map_right, or_absurd_left, and_map_right,
}
use mysql_selective_trace_pl.Common.Bits.{HasBit}
use mysql_selective_trace_pl.Engine.Rules.{FilterRules, Grants, lower, qualified}
use mysql_selective_trace_pl.Engine.Match.{
  match_schema, match_table, match_schema_iff, match_table_iff,
}
use mysql_selective_trace_pl.Engine.Tokens.{split_csv}
use mysql_selective_trace_pl.Engine.Tokens.Clean.{AllFolded}
use mysql_selective_trace_pl.Engine.Tokens.Csv.{IsToken, split_csv-IsToken}
use mysql_selective_trace_pl.Engine.Parse.{
  Parsed, parsed, refused, parse_schemas, parse_tables, parse_filter_lists,
}
use mysql_selective_trace_pl.Engine.Parse.Meaning.{
  SchemaGrants, WildGrants, ExactGrants, parse_schemas_iff, parse_tables_iff,
}

pub Parsed-cases {ℓ} :
    {A : Type ℓ} (r : Parsed A) → ((t : Bytes) × (r ≡ refused t)) ⊎ ((a : A) × (r ≡ parsed a))
Parsed-cases (parsed a) = inr (a, refl)
Parsed-cases (refused t) = inl (t, refl)

-- The lists of a successful parse are what the two loops return.
pub parse_filter_lists_inv :
    (s t : Option Bytes) (out rules : FilterRules)
    → parse_filter_lists s t out ≡ parsed rules
    → (parse_schemas [] (split_csv s) ≡ parsed rules.schemas)
      × (parse_tables [] [] (split_csv t) ≡ parsed (rules.wildcard_schemas, rules.tables))
      × (rules.connections ≡ out.connections)
unfolding parse_filter_lists
parse_filter_lists_inv s t out rules e = elim (Parsed-cases (parse_schemas [] (split_csv s))) [
  | inl (tok, bad) ↦ cc (rw (bad, parse_filter_lists) at e)
  | inr (schemas, good) ↦ elim (Parsed-cases (parse_tables [] [] (split_csv t))) [
    | inl (tok, bad) ↦ cc (rw (good, bad, parse_filter_lists) at e)
    | inr ((wild, tables), done) ↦
        let built = rw (good, done, parse_filter_lists) at e in ground (arith, built, good, done)
  ]
]

pub folded_tokens : (csv : Option Bytes) → All AllFolded (split_csv csv)
folded_tokens csv = All-mono {P = IsToken} (λ t h. h.1) (split_csv csv) (split_csv-IsToken csv)

module _ (s t : Option Bytes) (out rules : FilterRules)
    (e : parse_filter_lists s t out ≡ parsed rules) (k : ℕ) where
  schemas_iff : (n : Bytes) → Any (Grants n k) rules.schemas ↔ Any (SchemaGrants n k) (split_csv s)
  schemas_iff n =
      iff_trans
        (parse_schemas_iff n k [] rules.schemas (split_csv s) (folded_tokens s)
          (parse_filter_lists_inv s t out rules e).0)
        (or_absurd_left (λ r. r))

  tables_iff :
      (n : Bytes)
      → (Any (Grants n k) rules.wildcard_schemas ↔ Any (WildGrants n k) (split_csv t))
        × (Any (Grants n k) rules.tables ↔ Any (ExactGrants n k) (split_csv t))
  tables_iff n =
      let (w, x) =
        parse_tables_iff n k [] [] (split_csv t) rules.wildcard_schemas rules.tables
          (folded_tokens t) (parse_filter_lists_inv s t out rules e).1 in
      (iff_trans w (or_absurd_left (λ r. r)), iff_trans x (or_absurd_left (λ r. r)))

  -- With the rules of a successful parse, `match_schema` returns bit `k` for a schema exactly if
  -- it has a name and some token of the schema list, or some `schema.*` token of the table list,
  -- names it, folded to lower case, with that command bit.
  pub match_schema-parse_filter_lists :
      (db : Bytes)
      → HasBit k (match_schema rules (some db)) ↔ (
          (db ≢ [])
          × (Any (SchemaGrants (lower db) k) (split_csv s)
              ⊎ Any (WildGrants (lower db) k) (split_csv t)))
  match_schema-parse_filter_lists db = iff_trans (match_schema_iff rules db k).0 (
      and_map_right
        (iff_trans (or_map_left (schemas_iff (lower db))) (or_map_right (tables_iff (lower db)).0)))

  -- With the rules of a successful parse, `match_table` returns bit `k` for a table exactly if
  -- both names are there and some token of the table list names the schema with `.*`, or the
  -- table itself, folded to lower case, with that command bit. The schema list plays no part.
  pub match_table-parse_filter_lists :
      (db table : Bytes)
      → HasBit k (match_table rules (some db) (some table)) ↔ (
          (db ≢ [])
          × (table ≢ [])
          × (Any (WildGrants (lower db) k) (split_csv t)
              ⊎ Any (ExactGrants (qualified db table) k) (split_csv t)))
  match_table-parse_filter_lists db table =
      let matches = (match_table_iff rules db table k).0 in
      let tokens =
        iff_trans (or_map_left (tables_iff (lower db)).0)
          (or_map_right (tables_iff (qualified db table)).1) in
      (
        (λ b. let h = matches.0 b in (h.0, h.1, tokens.0 h.2)),
        (λ h. matches.1 (h.0, h.1, tokens.1 h.2)),
      )
