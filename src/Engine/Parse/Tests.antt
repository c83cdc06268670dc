-- ===== src/Engine/Parse/Tests.antt =====
-- Runs of `parse_filter_lists`, and its theorems at concrete inputs.
use mysql_selective_trace_pl.Common.{
  ℕ, ◌≡◌, refl, ◌⊎◌, inl, inr, Option, none, some, [], ◌∷◌, arith, All, Bytes, codes, equal,
  contains, cut_at, split_on,
}
use Prim.Native.String.{String}
use mathlib.Core.List.{cons-ne-nil}
use mysql_selective_trace_pl.Common.Bits.{HasBit}
use mysql_selective_trace_pl.Engine.Chars.{ascii_lower, is_space}
use mysql_selective_trace_pl.Engine.Cmd
use mysql_selective_trace_pl.Engine.Rules.{FilterEntry, FilterRules, no_rules, add_entry, ci_eq}
use mysql_selective_trace_pl.Engine.Match.{match_schema, match_table}
use mysql_selective_trace_pl.Engine.Tokens.{
  clean_token, strip_ticks, split_csv, parse_cmd_qualifier, split_cmd_qualifier, trim_front,
  trim_back,
}
use mysql_selective_trace_pl.Engine.Parse.{
  parsed, refused, schema_token, table_token, parse_filter_lists,
}
use mysql_selective_trace_pl.Engine.Parse.Valid.{IsValid, parse_filter_lists-IsValid}
use mysql_selective_trace_pl.Engine.Parse.Errors.{IsGood, FirstBad, parse_filter_lists_refused}
use mysql_selective_trace_pl.Engine.Parse.Grammar.{
  IsSchemaToken, IsTableToken, parse_filter_lists_iff,
}
use mysql_selective_trace_pl.Engine.Parse.Matches.{
  match_schema-parse_filter_lists, match_table-parse_filter_lists,
}

abbrev schemas_csv : Option Bytes
schemas_csv = some (codes "Sales:insert, `hr`, sales:delete")

abbrev tables_csv : Option Bytes
tables_csv = some (codes "App.Orders:dml, logs.*")

abbrev entry : String → ℕ → FilterEntry
entry s cmds = record { name = codes s; cmds = cmds }

abbrev expected : FilterRules
expected = record {
  schemas = entry "sales" 10 ∷ entry "hr" Cmd.all ∷ [];
  wildcard_schemas = entry "logs" Cmd.all ∷ [];
  tables = entry "app.orders" Cmd.dml ∷ [];
  connections = [];
}

parse_run : parse_filter_lists schemas_csv tables_csv no_rules ≡ parsed expected
unfolding parse_filter_lists split_csv clean_token trim_front trim_back ascii_lower is_space
    strip_ticks split_cmd_qualifier parse_cmd_qualifier split_on cut_at contains equal add_entry
    ci_eq
parse_run = refl

refused_run : parse_filter_lists (some (codes "a, b.c")) none no_rules ≡ refused (codes "b.c")
unfolding parse_filter_lists split_csv clean_token trim_front trim_back ascii_lower is_space
    strip_ticks split_cmd_qualifier parse_cmd_qualifier split_on cut_at contains equal add_entry
    ci_eq
refused_run = refl

match_schema-parse_filter_lists_example : HasBit 4 (match_schema expected (some (codes "Logs")))
unfolding split_csv clean_token trim_front trim_back ascii_lower is_space strip_ticks
    split_cmd_qualifier cut_at contains equal table_token
match_schema-parse_filter_lists_example =
    (match_schema-parse_filter_lists schemas_csv tables_csv no_rules expected parse_run 4
        (codes "Logs")).1
      (cons-ne-nil _ _, inr (inr (inl (Cmd.all, refl, omega arith))))

match_table-parse_filter_lists_example :
    HasBit 1 (match_table expected (some (codes "app")) (some (codes "ORDERS")))
unfolding split_csv clean_token trim_front trim_back ascii_lower is_space strip_ticks
    split_cmd_qualifier parse_cmd_qualifier split_on cut_at contains equal table_token
match_table-parse_filter_lists_example =
    (match_table-parse_filter_lists schemas_csv tables_csv no_rules expected parse_run 1
        (codes "app") (codes "ORDERS")).1
      (cons-ne-nil _ _, cons-ne-nil _ _, inr (inl (Cmd.dml, refl, omega arith)))

parse_filter_lists-IsValid_example : IsValid expected × (expected.connections ≡ [])
parse_filter_lists-IsValid_example =
    parse_filter_lists-IsValid schemas_csv tables_csv no_rules expected parse_run

parse_filter_lists_iff_example :
    All IsSchemaToken (split_csv schemas_csv) × All IsTableToken (split_csv tables_csv)
parse_filter_lists_iff_example =
    (parse_filter_lists_iff schemas_csv tables_csv no_rules).1 (expected, parse_run)

parse_filter_lists_refused_example :
    FirstBad schema_token (split_csv (some (codes "a, b.c"))) (codes "b.c")
    ⊎ (All (IsGood schema_token) (split_csv (some (codes "a, b.c")))
        × FirstBad table_token (split_csv none) (codes "b.c"))
parse_filter_lists_refused_example =
    parse_filter_lists_refused (some (codes "a, b.c")) none no_rules (codes "b.c") refused_run
