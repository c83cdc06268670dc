-- ===== src/Plugin/Writers/Tests.antt =====
-- One logged statement through the real writers.
use mysql_selective_trace_pl.Common.{ℕ, true, false, none, some, List, [], ◌∷◌, ltb, codes}
use mysql_selective_trace_pl.Engine.Rules.{no_rules}
use mysql_selective_trace_pl.Plugin.Output.{Double, pos}
use mysql_selective_trace_pl.Plugin.Status.{table, StatusEvent}
use mysql_selective_trace_pl.Plugin.Dispatch.{AuditEvent, general_log, general_status, Plugin}
use mysql_selective_trace_pl.Plugin.Dispatch.Sessions.{Step, notice, set_file_path}
use mysql_selective_trace_pl.Plugin.Writers.{Writers, World}
use mysql_selective_trace_pl.Plugin.Writers.Counted.{Accounted}
use mysql_selective_trace_pl.Plugin.Writers.Runs.{
  Activity, plugin, take, run_all, run_all-Accounted,
}

abbrev no_clock : Double ℕ
no_clock = record { of_ns = λ n. n; below = ltb; print = λ n. [] }

abbrev world : World
world = record {
  files = record { opens = λ calls. true; written = λ calls. 0; flushes = λ calls. false };
  created = λ s. true;
  has_memory = λ sql s. true;
}

abbrev started : Plugin Writers
started = record {
  plugin_ready = true;
  opt_enabled = true;
  active_rules = some (record no_rules { connections = 7 ∷ [] });
  options = record {
    opt_output = table;
    opt_file_path = none;
    opt_min_duration_ms = 0;
    opt_mask_passwords = true;
  };
  state_map = [];
  log = record {
    status_events_logged = 0;
    outputs = record {
      log = record { calls = []; is_open = false; write_failures = 0; open_failed_logged = false };
      queue = record {
        queue = some [];
        thread_running = false;
        stop_requested = false;
        dropped_events = 0;
      };
    };
  };
}

abbrev select_one : StatusEvent
select_one = record {
  general = record { general_command = codes "Query"; general_query = codes "select 1" };
  general_thread_id = 7;
  general_user = codes "app";
  general_host = codes "web";
  general_error_code = pos 0;
}

abbrev event_of : AuditEvent → Step
event_of event =
    notice (record { is_self = false; thd = some 1; event = event; ts = []; now_ns = 5 })

abbrev statement : Activity
statement = plugin (event_of (general_status select_one))

abbrev activities : List Activity
activities =
    plugin (event_of general_log)
    ∷ statement
    ∷ plugin (set_file_path (some (codes "b.json")))
    ∷ take
    ∷ statement
    ∷ []

run_all-Accounted_example :
    Accounted world.files started.log
      (run_all no_clock world activities started).1
      (run_all no_clock world activities started).0.log
run_all-Accounted_example = run_all-Accounted no_clock world activities started
