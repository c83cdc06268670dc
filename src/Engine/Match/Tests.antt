-- ===== src/Engine/Match/Tests.antt =====
-- Runs of the matching functions, and their theorems at concrete inputs.
use mysql_selective_trace_pl.Common.{ℕ, bit_or, ◌≡◌, refl, some, [], ◌∷◌, codes}
use Prim.Native.String.{String}
use mysql_selective_trace_pl.Engine.Cmd
use mysql_selective_trace_pl.Engine.Rules.{FilterEntry, FilterRules, ci_eq, ci_eq_qualified}
use mysql_selective_trace_pl.Engine.Chars.{ascii_lower}
use mysql_selective_trace_pl.Engine.Match.{match_schema, match_table}

abbrev entry : String → ℕ → FilterEntry
entry s cmds = record { name = codes s; cmds = cmds }

abbrev rules : FilterRules
rules = record {
  schemas = entry "sales" Cmd.all ∷ [];
  wildcard_schemas = entry "logs" Cmd.dml ∷ [];
  tables = entry "app.orders" Cmd.delete ∷ entry "logs.audit" Cmd.select ∷ [];
  connections = [];
}

schema_run : match_schema rules (some (codes "Logs")) ≡ Cmd.dml
unfolding match_schema ci_eq ascii_lower
schema_run = refl

table_run :
    match_table rules (some (codes "LOGS")) (some (codes "Audit")) ≡ bit_or Cmd.dml Cmd.select
unfolding match_table ci_eq ci_eq_qualified ascii_lower
table_run = refl
