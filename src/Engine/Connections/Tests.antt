-- ===== src/Engine/Connections/Tests.antt =====
-- Runs of the connection filter, and its theorems at concrete inputs.
use mysql_selective_trace_pl.Common.{
  ◌≡◌, refl, inl, inr, true, Option, some, [], ◌∷◌, arith, Bytes, codes,
}
use mysql_selective_trace_pl.Engine.Chars.{ascii_lower, is_space}
use mysql_selective_trace_pl.Engine.Rules.{FilterRules, no_rules}
use mysql_selective_trace_pl.Engine.Tokens.{split_csv, clean_token, trim_front, trim_back}
use mysql_selective_trace_pl.Engine.Parse.{parsed, refused}
use mysql_selective_trace_pl.Engine.Connections.{
  connection_id, parse_connection_list, match_connection,
}
use mysql_selective_trace_pl.Engine.Connections.Decimal.{connection_id_iff}
use mysql_selective_trace_pl.Engine.Connections.Ids.{match_connection-parse_connection_list}

abbrev conns : Option Bytes
conns = some (codes "108, 42,108")

abbrev expected : FilterRules
expected = record no_rules { connections = 42 ∷ 108 ∷ [] }

parse_run : parse_connection_list conns no_rules ≡ parsed expected
unfolding parse_connection_list split_csv clean_token trim_front trim_back ascii_lower is_space
parse_run = refl

refused_run : parse_connection_list (some (codes "1,-2")) no_rules ≡ refused (codes "-2")
unfolding parse_connection_list split_csv clean_token trim_front trim_back ascii_lower is_space
refused_run = refl

-- 2^64 + 41 is read as 41.
wrap_run : connection_id (codes "18446744073709551657") ≡ some 41
unfolding connection_id
wrap_run = refl

connection_id_iff_example : connection_id (codes "18446744073709551657") ≡ some 41
connection_id_iff_example =
    (connection_id_iff (codes "18446744073709551657") 41).1 (omega arith, refl)

match_connection-parse_connection_list_example : match_connection expected 42 ≡ true
unfolding split_csv clean_token trim_front trim_back ascii_lower is_space connection_id
match_connection-parse_connection_list_example =
    (match_connection-parse_connection_list conns no_rules expected 42 parse_run).0.1
      (inr (inl refl))
