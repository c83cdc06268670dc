-- ===== src/Plugin/Filters/Tests.antt =====
-- SETs of the filter variables, and the theorems at concrete inputs.
use mysql_selective_trace_pl.Common.{◌≡◌, refl, ◌⊎◌, true, false, none, some, List, [], ◌∷◌, codes}
use mysql_selective_trace_pl.Engine.Chars.{is_space, ascii_lower}
use mysql_selective_trace_pl.Engine.Rules.{FilterRules, no_rules}
use mysql_selective_trace_pl.Engine.Tokens.{split_csv, clean_token, trim_back, trim_front}
use mysql_selective_trace_pl.Engine.Parse.{parse_filter_lists}
use mysql_selective_trace_pl.Engine.Connections.{parse_connection_list}
use mysql_selective_trace_pl.Plugin.Filters.{
  schemas, tables, connections, Filters, parse_rules, set_filter, check, check_filter_list,
  check_connections,
}
use mysql_selective_trace_pl.Plugin.Filters.Current.{IsCurrent, GoodValue}
use mysql_selective_trace_pl.Plugin.Filters.Changes.{Change, is_settled, set_filters}
use mysql_selective_trace_pl.Plugin.Filters.Shown.{Shows, set_filter_cases}
use mysql_selective_trace_pl.Plugin.Filters.Meaning.{Answers, set_filters-Answers}

abbrev no_filters : Filters
no_filters = record {
  schemas_storage = [];
  tables_storage = [];
  connections_storage = [];
  active_rules = some no_rules;
}

no_filters-IsCurrent : IsCurrent no_filters
unfolding parse_rules parse_filter_lists parse_connection_list split_csv clean_token trim_back
    trim_front
no_filters-IsCurrent = record { rules = no_rules; active = refl; made = refl }

abbrev changes : List Change
changes =
    (true, schemas, some (codes "Shop, logs:dml"))
    ∷ (false, tables, some (codes "no_dot"))
    ∷ (false, connections, some (codes "7"))
    ∷ (true, schemas, none)
    ∷ []

changes_settled : is_settled true changes ≡ true
unfolding check check_filter_list check_connections parse_filter_lists parse_connection_list
    split_csv clean_token trim_back trim_front
changes_settled = refl

set_filters-Answers_example :
    (rules : FilterRules) × ((set_filters changes no_filters).active_rules ≡ some rules)
    × Answers (set_filters changes no_filters) rules
set_filters-Answers_example =
    set_filters-Answers changes no_filters no_filters-IsCurrent changes_settled

set_filter_cases_example :
    (GoodValue tables (some (codes "a.b"))
      × Shows tables
          (some (codes "a.b"))
          no_filters
          (set_filter true tables (some (codes "a.b")) no_filters))
    ⊎ ((¬ GoodValue tables (some (codes "a.b")))
        × (set_filter true tables (some (codes "a.b")) no_filters ≡ no_filters))
set_filter_cases_example = set_filter_cases true tables (some (codes "a.b")) no_filters

-- without memory the text changes, and the rules do not
stale_rules :
    set_filter false connections (some (codes "7")) no_filters
    ≡ record no_filters { connections_storage = codes "7" }
unfolding set_filter check check_connections parse_connection_list split_csv clean_token trim_back
    is_space ascii_lower trim_front
stale_rules = refl
