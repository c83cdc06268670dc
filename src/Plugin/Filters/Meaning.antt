-- ===== src/Plugin/Filters/Meaning.antt =====
-- From the texts that the variables show to the answers of the rules in force.
use mysql_selective_trace_pl.Common.{
  ℕ, ◌≡◌, refl, sym, ap, ◌∙◌, ◌≢◌, ◌↔◌, ◌⊎◌, true, some, List, [], ◌∷◌, Any, Bytes,
}
use mathlib.Core.Path.{subst}
use mysql_selective_trace_pl.Common.Bits.{HasBit}
use mysql_selective_trace_pl.Engine.Rules.{FilterRules, no_rules, lower, qualified}
use mysql_selective_trace_pl.Engine.Tokens.{split_csv}
use mysql_selective_trace_pl.Engine.Match.{match_schema, match_table}
use mysql_selective_trace_pl.Engine.Parse.Meaning.{SchemaGrants, WildGrants, ExactGrants}
use mysql_selective_trace_pl.Engine.Parse.Matches.{
  match_schema-parse_filter_lists, match_table-parse_filter_lists,
}
use mysql_selective_trace_pl.Engine.Connections.{sort, unique, connection_id, match_connection}
use mysql_selective_trace_pl.Engine.Connections.Ids.{
  parse_connection_list_inv, match_connection-parse_connection_list,
}
use mysql_selective_trace_pl.Plugin.Filters.{Filters}
use mysql_selective_trace_pl.Plugin.Filters.Current.{IsCurrent, parse_rules_inv}
use mysql_selective_trace_pl.Plugin.Filters.Changes.{
  Change, is_settled, set_filters, set_filters-IsCurrent,
}

-- What the texts of the variables select: schemas, tables and connections.
abbrev pub SelectsSchema : Filters → ℕ → Bytes → Type 0
SelectsSchema f k db =
    (db ≢ [])
    × (Any (SchemaGrants (lower db) k) (split_csv (some f.schemas_storage))
        ⊎ Any (WildGrants (lower db) k) (split_csv (some f.tables_storage)))

abbrev pub SelectsTable : Filters → ℕ → Bytes → Bytes → Type 0
SelectsTable f k db table =
    (db ≢ [])
    × (table ≢ [])
    × (Any (WildGrants (lower db) k) (split_csv (some f.tables_storage))
        ⊎ Any (ExactGrants (qualified db table) k) (split_csv (some f.tables_storage)))

abbrev pub SelectsConnection : Filters → ℕ → Type 0
SelectsConnection f id =
    Any (λ tok. connection_id tok ≡ some id) (split_csv (some f.connections_storage))

-- The answers of the rules are those of the texts.
pub record Answers (f : Filters) (rules : FilterRules) : Type 0 where
  pub schema : (k : ℕ) (db : Bytes) → HasBit k (match_schema rules (some db)) ↔ SelectsSchema f k db
  pub table :
      (k : ℕ) (db table : Bytes)
      → HasBit k (match_table rules (some db) (some table)) ↔ SelectsTable f k db table
  pub connection : (id : ℕ) → (match_connection rules id ≡ true) ↔ SelectsConnection f id

match_schema_connections :
    (rules : FilterRules) (ids : List ℕ) (db : Bytes)
    → match_schema (record rules { connections = ids }) (some db) ≡ match_schema rules (some db)
unfolding match_schema
match_schema_connections rules ids [] = refl
match_schema_connections rules ids (c ∷ db) = refl

match_table_connections :
    (rules : FilterRules) (ids : List ℕ) (db table : Bytes)
    → match_table (record rules { connections = ids }) (some db) (some table)
      ≡ match_table rules (some db) (some table)
unfolding match_table
match_table_connections rules ids [] table = refl
match_table_connections rules ids (c ∷ db) [] = refl
match_table_connections rules ids (c ∷ db) (t ∷ table) = refl

pub IsCurrent-Answers : (f : Filters) (v : IsCurrent f) → Answers f v.rules
IsCurrent-Answers f v =
    let s = some f.schemas_storage in
    let t = some f.tables_storage in
    let c = some f.connections_storage in
    let (fresh, lists, conns) = parse_rules_inv _ _ _ v.rules v.made in
    let (ids, _, built) = parse_connection_list_inv c fresh v.rules conns in
    let stored = unique (sort ids) in
    record {
      schema = λ k db.
          subst (λ m. HasBit k m ↔ SelectsSchema f k db)
            (sym
              (ap (λ r. match_schema r (some db)) built ∙ match_schema_connections fresh stored db))
            (match_schema-parse_filter_lists s t no_rules fresh lists k db);
      table = λ k db table.
          subst (λ m. HasBit k m ↔ SelectsTable f k db table)
            (sym (
              ap (λ r. match_table r (some db) (some table)) built
              ∙ match_table_connections fresh stored db table))
            (match_table-parse_filter_lists s t no_rules fresh lists k db table);
      connection = λ id. (match_connection-parse_connection_list c fresh v.rules id conns).0;
    }

-- Whatever SETs of the three variables follow each other, accepted or refused, each with or without
-- memory for new rules: if the rules in force were those of the texts that the variables show, and
-- the last SET that was accepted, if there was one, found memory, then afterwards rules are in force,
-- and for every schema, table, command bit and connection id they answer as the tokens of the texts
-- then shown say.
pub set_filters-Answers :
    (changes : List Change) (f : Filters)
    → IsCurrent f
    → is_settled true changes ≡ true
    → (rules : FilterRules) × ((set_filters changes f).active_rules ≡ some rules)
      × Answers (set_filters changes f) rules
set_filters-Answers changes f v e =
    let w = set_filters-IsCurrent changes f v e in
    (w.rules, w.active, IsCurrent-Answers (set_filters changes f) w)
