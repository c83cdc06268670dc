-- ===== src/Plugin/Dispatch/Sessions.antt =====
-- What the entry point promises: one state for every THD, all fresh at first, and no map.
use mysql_selective_trace_pl.Common.{
  ℕ, Bool, true, false, not, ◌&&◌, ◌||◌, Option, none, some, List, [], ◌∷◌, if◌then◌else◌, Bytes,
}
use mysql_selective_trace_pl.Engine.Rules.{FilterRules}
use mysql_selective_trace_pl.Plugin.Statement.{
  StatementState, fresh_state, state_begin_statement, handle_table_access_event,
}
use mysql_selective_trace_pl.Plugin.Output.{Double}
use mysql_selective_trace_pl.Plugin.Status.{Options, Outputs, Logged, handle_status_event}
use mysql_selective_trace_pl.Plugin.Dispatch.{
  AuditEvent, general_log, general_other, connection_disconnect, connection_other, other_class,
  general_status, table_access, Notice, Plugin, selective_trace_notify, path_options, switch_file,
  update_file_path,
}
use mysql_selective_trace_pl.Plugin.Dispatch.Store.{state_of, set_at}

-- what is promised of the plugin, for all THDs at once
pub record Sessions (S : Type 0) : Type 0 where
  pub plugin_ready : Bool
  pub opt_enabled : Bool
  pub active_rules : Option FilterRules
  pub options : Options
  pub states : ℕ → StatementState
  pub log : Logged S

-- the plugin without its map
abbrev pub sessions : {S : Type 0} → Plugin S → Sessions S
sessions p = record {
  plugin_ready = p.plugin_ready;
  opt_enabled = p.opt_enabled;
  active_rules = p.active_rules;
  options = p.options;
  states = state_of p.state_map;
  log = p.log;
}

-- the options that have no update callback
abbrev pub other_options : Options → Options → Options
other_options options old = record options { opt_file_path = old.opt_file_path }

-- What the server does with the plugin: it reports events, and users change variables. A SET of
-- `selective_trace_log_file_path` is a step of its own, and the path in `set_variables` is not used.
pub data Step : Type 0 where
  notice : Notice → Step
  set_variables : Bool → Option FilterRules → Options → Step
  set_file_path : Option Bytes → Step

module _ {W : Type 0} (double : Double W) {S : Type 0} (to : Outputs S) where
  -- an event of a THD, on its state
  abbrev pub session_event :
      Sessions S → Bytes → ℕ → AuditEvent → StatementState → StatementState × Logged S
  session_event s ts now_ns general_log st = (state_begin_statement now_ns st true, s.log)
  session_event s ts now_ns (general_status event) st =
      handle_status_event double to s.active_rules s.options ts now_ns st event s.log
  session_event s ts now_ns (table_access db tbl) st =
      (handle_table_access_event s.active_rules now_ns st db tbl, s.log)
  session_event s ts now_ns connection_disconnect st = (fresh_state, s.log)
  session_event s ts now_ns general_other st = (st, s.log)
  session_event s ts now_ns connection_other st = (st, s.log)
  session_event s ts now_ns other_class st = (st, s.log)

  -- the events that count while the plugin is disabled
  abbrev pub is_cleanup : AuditEvent → Bool
  is_cleanup connection_disconnect = true
  is_cleanup _ = false

  abbrev pub session_notify : Notice → Sessions S → Sessions S
  session_notify n s = elim n.thd [
    | none ↦ s
    | some thd ↦
        if s.plugin_ready && not n.is_self && (s.opt_enabled || is_cleanup n.event)
        then (let (st, log) = session_event s n.ts n.now_ns n.event (s.states thd) in
            record s { states = set_at thd st s.states; log = log })
        else s
  ]

  abbrev pub session_step : Step → Sessions S → Sessions S
  session_step (notice n) s = session_notify n s
  session_step (set_variables enabled rules options) s = record s {
    opt_enabled = enabled;
    active_rules = rules;
    options = other_options options s.options;
  }
  session_step (set_file_path save) s = record s {
    options = path_options save s.options;
    log = switch_file to s.opt_enabled save s.options s.log;
  }

  abbrev pub session_run : List Step → Sessions S → Sessions S
  session_run [] s = s
  session_run (step ∷ steps) s = session_run steps (session_step step s)

  abbrev pub step : Step → Plugin S → Plugin S
  step (notice n) p = selective_trace_notify double to n p
  step (set_variables enabled rules options) p = record p {
    opt_enabled = enabled;
    active_rules = rules;
    options = other_options options p.options;
  }
  step (set_file_path save) p = update_file_path double to save p

  abbrev pub run : List Step → Plugin S → Plugin S
  run [] p = p
  run (s ∷ steps) p = run steps (step s p)
