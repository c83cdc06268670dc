-- ===== src/Plugin/Status/Tests.antt =====
-- Statements at concrete inputs, with the theorems.
use mysql_selective_trace_pl.Common.{
  Bool, ℕ, ◌/◌, ◌^◌, ◌≡◌, refl, ◌⊎◌, true, false, some, List, [], ◌∷◌, arith, ltb, Bytes, codes,
  equal,
}
use mysql_selective_trace_pl.Engine.Escape.Tests.{reader}
use mysql_selective_trace_pl.Plugin.Output.{print_int, numbuf, sql_duration, sql_values}
use mysql_selective_trace_pl.Plugin.Output.Reader.{columns, read_values}
use mysql_selective_trace_pl.Plugin.Status.Rows.{entry-values, entry-IsLine}
use mysql_selective_trace_pl.Plugin.Output.Line.{IsLine}
use mysql_selective_trace_pl.Plugin.Output.{json_line}
use mysql_selective_trace_pl.Plugin.Status.{logged_query}
use mysql_selective_trace_pl.Engine.Chars.{is_space, ascii_lower}
use mysql_selective_trace_pl.Engine.Rules.{no_rules}
use mysql_selective_trace_pl.Engine.Tokens.{split_csv, clean_token, trim_back, trim_front}
use mysql_selective_trace_pl.Engine.Parse.{parse_filter_lists}
use mysql_selective_trace_pl.Engine.Connections.{parse_connection_list, match_connection}
use mysql_selective_trace_pl.Engine.Command.{extract_command, command_bit}
use mysql_selective_trace_pl.Plugin.Statement.{fresh_state, track_current_db, state_begin_statement}
use mysql_selective_trace_pl.Plugin.Filters.{Filters, parse_rules}
use mysql_selective_trace_pl.Plugin.Filters.Current.{IsCurrent}
use mysql_selective_trace_pl.Plugin.Output.{pos, Double, print_unsigned}
use mysql_selective_trace_pl.Plugin.Status.{
  StatusEvent, Options, file, Outputs, Logged, is_query_command, cmdbuf, duration_ms, entry, emit,
  handle_status_event,
}
use mysql_selective_trace_pl.Plugin.Status.Outcome.{
  idle, IsAllowed, IsLongEnough, handle_status_event_cases,
}
use mysql_selective_trace_pl.Plugin.Status.Traced.{IsTraced, statement-IsTraced}

abbrev milliseconds : Double ℕ
milliseconds = record { of_ns = λ n. n / 1000000; below = ltb; print = print_unsigned }

-- an output that keeps what it is handed
abbrev recorder : Outputs (List Bytes)
recorder = record {
  file_writer_write = λ line path s. (true, line ∷ s);
  file_writer_reopen = λ path s. (true, s);
  file_writer_close = λ s. s;
  table_writer_enqueue = λ sql s. (true, sql ∷ s);
}

abbrev options : Options
options = record {
  opt_output = file;
  opt_file_path = some (codes "trace.json");
  opt_min_duration_ms = 5;
  opt_mask_passwords = true;
}

abbrev select_one : StatusEvent
select_one = record {
  general = record { general_command = codes "Query"; general_query = codes "select 1" };
  general_thread_id = 7;
  general_user = codes "app";
  general_host = codes "web";
  general_error_code = pos 0;
}

abbrev nothing_logged : Logged (List Bytes)
nothing_logged = record { status_events_logged = 0; outputs = [] }

abbrev seven : Filters
seven = record {
  schemas_storage = [];
  tables_storage = [];
  connections_storage = codes "7";
  active_rules = some (record no_rules { connections = 7 ∷ [] });
}

seven-IsCurrent : IsCurrent seven
unfolding parse_rules parse_filter_lists parse_connection_list split_csv clean_token trim_back
    trim_front is_space ascii_lower
seven-IsCurrent = record {
  rules = record no_rules { connections = 7 ∷ [] };
  active = refl;
  made = refl;
}

select_one-is_query : is_query_command select_one.general ≡ true
unfolding is_query_command equal
select_one-is_query = refl

select_one-bit : command_bit (cmdbuf select_one.general) ≡ 2 ^ 0
unfolding command_bit cmdbuf extract_command equal is_space
select_one-bit = refl

statement-IsTraced_example :
    IsTraced milliseconds recorder options
      (codes "2024-01-01")
      1000000
      9000000
      fresh_state
      ((codes "shop", codes "orders") ∷ [])
      select_one
      seven
      0
      seven.active_rules
      nothing_logged
statement-IsTraced_example =
    statement-IsTraced milliseconds recorder options (codes "2024-01-01") 1000000 9000000
      fresh_state ((codes "shop", codes "orders") ∷ []) select_one seven 0 nothing_logged
      seven-IsCurrent (omega arith) select_one-is_query (omega arith) select_one-bit

one_event :
    (handle_status_event milliseconds recorder seven.active_rules options
      (codes "T")
      9000000
      (state_begin_statement 1000000 fresh_state true)
      select_one
      nothing_logged).1.status_events_logged
    ≡ 1
unfolding handle_status_event extract_command command_bit equal is_space match_connection
    track_current_db state_begin_statement
one_event = refl

handle_status_event_cases_example :
    (let st = track_current_db fresh_state select_one.general in
      let duration = duration_ms milliseconds 9000000 st in
      let after =
        handle_status_event milliseconds recorder
          (some no_rules)
          options
          (codes "T")
          9000000
          fresh_state
          select_one
          nothing_logged in
      ((is_query_command select_one.general ≡ false) × (after ≡ (st, nothing_logged)))
      ⊎ ((is_query_command select_one.general ≡ true)
          × (¬ (
              IsAllowed no_rules select_one 0 st
              × IsLongEnough milliseconds options.opt_min_duration_ms duration))
          × (after ≡ (idle st, nothing_logged)))
      ⊎ ((is_query_command select_one.general ≡ true)
          × IsAllowed no_rules select_one 0 st
          × IsLongEnough milliseconds options.opt_min_duration_ms duration
          × (after ≡ (
            idle st,
            emit milliseconds recorder options
                (entry milliseconds options (codes "T") duration st select_one)
                nothing_logged,
          ))))
handle_status_event_cases_example =
    handle_status_event_cases milliseconds recorder options (codes "T") 9000000 no_rules 0
      fresh_state select_one nothing_logged (omega arith) select_one-bit

eight_ms : sql_duration milliseconds (some 8) ≡ codes "8"
unfolding sql_duration numbuf print_unsigned
eight_ms = refl

entry-values_example :
    read_values reader columns (
      sql_values milliseconds
        (entry milliseconds options (codes "2024-01-01") (some 8) fresh_state select_one))
    ≡ some (
        codes "2024-01-01"
        ∷ print_unsigned 7
        ∷ print_unsigned 0
        ∷ codes "app@web"
        ∷ []
        ∷ []
        ∷ cmdbuf select_one.general
        ∷ sql_duration milliseconds (some 8)
        ∷ print_int (pos 0)
        ∷ logged_query true (codes "select 1")
        ∷ [])
entry-values_example =
    entry-values reader milliseconds options (codes "2024-01-01") (some 8) fresh_state select_one
      (ground arith) (rw eight_ms (ground arith))

-- a `double` with one value
abbrev eight : Double Bool
eight = record { of_ns = λ n. true; below = λ d m. ltb 8 m; print = λ d. codes "8.000" }

entry-IsLine_example :
    IsLine (
      json_line eight (entry eight options (codes "2024-01-01") (some true) fresh_state select_one))
entry-IsLine_example =
    entry-IsLine eight options (codes "2024-01-01") (some true) fresh_state select_one
      (ground arith) (λ w. ground arith)
