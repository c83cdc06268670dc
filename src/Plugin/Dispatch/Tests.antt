-- ===== src/Plugin/Dispatch/Tests.antt =====
-- Events of two connections, with the theorems.
use mysql_selective_trace_pl.Common.{
  ℕ, ◌+◌, ◌≡◌, refl, true, false, none, some, List, [], ◌∷◌, arith, ltb, codes,
}
use mysql_selective_trace_pl.Engine.Rules.{no_rules}
use mysql_selective_trace_pl.Plugin.Output.{Double}
use mysql_selective_trace_pl.Plugin.Status.{Options, file, Outputs}
use mysql_selective_trace_pl.Plugin.Dispatch.{
  find, AuditEvent, general_log, connection_disconnect, table_access, Notice, Plugin,
}
use mysql_selective_trace_pl.Plugin.Dispatch.Store.{IsMap}
use mysql_selective_trace_pl.Plugin.Dispatch.Refinement.{run-sessions}
use mysql_selective_trace_pl.Plugin.Dispatch.Sessions.{
  Step, notice, set_variables, set_file_path, run, sessions, session_run,
}
use mysql_selective_trace_pl.Plugin.Dispatch.Isolation.{run-find, disconnect-run}

abbrev no_clock : Double ℕ
no_clock = record { of_ns = λ n. n; below = ltb; print = λ n. [] }

abbrev counter : Outputs ℕ
counter = record {
  file_writer_write = λ line path n. (true, n + 1);
  file_writer_reopen = λ path n. (true, n);
  file_writer_close = λ n. n;
  table_writer_enqueue = λ sql n. (true, n + 1);
}

abbrev options : Options
options = record {
  opt_output = file;
  opt_file_path = none;
  opt_min_duration_ms = 0;
  opt_mask_passwords = true;
}

abbrev started : Plugin ℕ
started = record {
  plugin_ready = true;
  opt_enabled = true;
  active_rules = some no_rules;
  options = options;
  state_map = [];
  log = record { status_events_logged = 0; outputs = 0 };
}

abbrev event_of : ℕ → AuditEvent → Notice
event_of thd event = record { is_self = false; thd = some thd; event = event; ts = []; now_ns = 5 }

abbrev some_steps : List Step
some_steps =
    notice (event_of 1 general_log)
    ∷ notice (event_of 2 general_log)
    ∷ set_file_path (some (codes "b.json"))
    ∷ set_variables false none options
    ∷ notice (event_of 1 (table_access (codes "a") (codes "b")))
    ∷ []

run-sessions_example :
    IsMap (run no_clock counter some_steps started).state_map
    × (sessions (run no_clock counter some_steps started)
        ≡ session_run no_clock counter some_steps (sessions started))
run-sessions_example = run-sessions no_clock counter some_steps started tt

run-find_example :
    find 3 (run no_clock counter some_steps started).state_map ≡ find 3 started.state_map
run-find_example = run-find no_clock counter 3 some_steps started (ground arith)

disconnect-run_example :
    find 3
      (run no_clock counter
        (notice (event_of 3 connection_disconnect) ∷ some_steps)
        started).state_map
    ≡ none
disconnect-run_example =
    disconnect-run no_clock counter 3 (event_of 3 connection_disconnect) some_steps started tt refl
      refl refl refl (ground arith)
