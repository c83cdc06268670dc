-- ===== src/Plugin/Lifecycle/Tests.antt =====
-- A start and an end, with the theorems.
use mysql_selective_trace_pl.Common.{
  ℕ, ◌≡◌, refl, ◌⊎◌, true, false, none, some, List, [], ◌∷◌, ltb, cut_at, contains, codes,
}
use mysql_selective_trace_pl.FileWriter.{Files}
use mysql_selective_trace_pl.FileWriter.{fopen, fclose, file_writer_reopen}
use mysql_selective_trace_pl.FileWriter.Handle.{holds, IsSound}
use mysql_selective_trace_pl.Engine.Chars.{is_space, ascii_lower}
use mysql_selective_trace_pl.Engine.Tokens.{
  split_csv, clean_token, trim_back, trim_front, split_cmd_qualifier, strip_ticks,
}
use mysql_selective_trace_pl.Engine.Parse.{parse_filter_lists}
use mysql_selective_trace_pl.Engine.Connections.{parse_connection_list}
use mysql_selective_trace_pl.Plugin.Filters.{parse_rules}
use mysql_selective_trace_pl.Plugin.Output.{Double}
use mysql_selective_trace_pl.Plugin.Status.{Options, file}
use mysql_selective_trace_pl.Plugin.Dispatch.{update_file_path}
use mysql_selective_trace_pl.Plugin.Dispatch.Sessions.{set_file_path}
use mysql_selective_trace_pl.Plugin.Writers.{World, reopen_file}
use mysql_selective_trace_pl.Plugin.Writers.Runs.{Activity, plugin, take, run_all}
use mysql_selective_trace_pl.Plugin.Lifecycle.{
  Install, Texts, Memory, selective_trace_init, selective_trace_deinit,
}
use mysql_selective_trace_pl.Plugin.Lifecycle.Start.{selective_trace_init_cases}
use mysql_selective_trace_pl.Plugin.Lifecycle.Cycle.{live, live-IsClean}
use mysql_selective_trace_pl.Plugin.Lifecycle.Installed.{IsClean, IsInstalled, IsGoodStart, has_all}

abbrev no_files : Files
no_files = record { opens = λ calls. false; written = λ calls. 0; flushes = λ calls. false }

abbrev loaded : Install
loaded = record {
  plugin_ready = false;
  schemas_storage = none;
  tables_storage = none;
  connections_storage = none;
  file_path_storage = none;
  opts_at_storage = false;
  active_rules = none;
  state_map = none;
  log = record { calls = []; is_open = false; write_failures = 0; open_failed_logged = false };
  queue = record {
    queue = none;
    thread_running = false;
    stop_requested = false;
    dropped_events = 0;
  };
}

loaded-IsClean : IsClean loaded
loaded-IsClean = record {
  not_ready = refl;
  schemas = refl;
  tables = refl;
  connections = refl;
  path = refl;
  rules = refl;
  map = refl;
  queue = refl;
  thread = refl;
  closed = refl;
}

abbrev enough : Memory
enough = record {
  for_map = true;
  for_queue = true;
  for_schemas = true;
  for_tables = true;
  for_connections = true;
  for_path = true;
  for_rules = true;
}

abbrev texts : Texts
texts = record {
  opt_schemas = some (codes "shop");
  opt_tables = none;
  opt_connections = none;
  opt_file_path = some (codes "trace.json");
}

selective_trace_init_cases_example :
    (let r = selective_trace_init no_files enough texts loaded in
      ((r.0 ≡ true) × IsClean r.1 × (¬ ((has_all enough ≡ true) × IsGoodStart texts)))
      ⊎ ((r.0 ≡ false) × IsInstalled texts r.1 × (has_all enough ≡ true) × IsGoodStart texts))
selective_trace_init_cases_example =
    selective_trace_init_cases no_files enough texts loaded loaded-IsClean

abbrev no_clock : Double ℕ
no_clock = record { of_ns = λ n. n; below = ltb; print = λ n. [] }

-- a file system on which every path can be opened
abbrev world : World
world = record {
  files = record { opens = λ calls. true; written = λ calls. 0; flushes = λ calls. true };
  created = λ s. true;
  has_memory = λ sql s. true;
}

abbrev options : Options
options = record {
  opt_output = file;
  opt_file_path = none;
  opt_min_duration_ms = 0;
  opt_mask_passwords = true;
}

abbrev activities : List Activity
activities = plugin (set_file_path (some (codes "b.json"))) ∷ take ∷ []

abbrev at_end : Install
at_end = live no_clock world enough texts true options 0 activities loaded

live-IsClean_example :
    IsClean at_end × IsSound world.files at_end.log × (holds world.files at_end.log.calls ≡ false)
live-IsClean_example =
    live-IsClean no_clock world enough texts true options 0 activities loaded loaded-IsClean
      (record { proper = tt; handle = refl; counted = refl })

-- the file was opened by the SET and closed by the end
opened_and_closed : at_end.log.calls ≡ fclose ∷ fopen (codes "b.json") ∷ []
unfolding live selective_trace_init selective_trace_deinit run_all update_file_path parse_rules
    parse_filter_lists parse_connection_list split_csv clean_token trim_back trim_front is_space
    ascii_lower split_cmd_qualifier cut_at strip_ticks contains reopen_file file_writer_reopen
opened_and_closed = refl
