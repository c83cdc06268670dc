-- ===== src/Plugin/Writers/Sound.antt =====
-- What a run of the plugin keeps: that it is ready, and that its log file is handled properly.
use mysql_selective_trace_pl.Common.{
  ℕ, bit_and, ◌≡◌, refl, ◌∙◌, Bool, true, false, not, ◌&&◌, Option, none, some, List, [], ◌∷◌, ◌==◌,
  if◌then◌else◌, if_cases, Bytes,
}
use mysql_selective_trace_pl.Engine.Rules.{FilterRules}
use mysql_selective_trace_pl.Engine.Command.{command_bit}
use mysql_selective_trace_pl.FileWriter.{Files}
use mysql_selective_trace_pl.FileWriter.Handle.{
  IsSound, file_writer_close-IsSound, file_writer_reopen-IsSound, file_writer_write-IsSound,
}
use mysql_selective_trace_pl.Plugin.Filters.{or_empty}
use mysql_selective_trace_pl.Plugin.Statement.{StatementState, track_current_db}
use mysql_selective_trace_pl.Plugin.Output.{Double, Entry, json_line, insert_statement}
use mysql_selective_trace_pl.Plugin.Status.{
  Output, file, table, Options, Logged, StatusEvent, count_logged, emit, report, duration_ms,
  is_too_short, entry, handle_status_event, is_query_command, allowed_cmds, reset, cmdbuf,
}
use mysql_selective_trace_pl.Plugin.Dispatch.Store.{state_of}
use mysql_selective_trace_pl.Plugin.Dispatch.{
  AuditEvent, general_log, general_other, connection_disconnect, connection_other, other_class,
  general_status, table_access, Notice, Plugin, notify_impl, dispatch, selective_trace_notify,
  switch_file, update_file_path,
}
use mysql_selective_trace_pl.Plugin.Dispatch.Sessions.{
  Step, notice, set_variables, set_file_path, step,
}
use mysql_selective_trace_pl.Plugin.Writers.{
  Writers, World, write_file, reopen_file, close_file, enqueue, writers,
}
use mysql_selective_trace_pl.Plugin.Writers.Runs.{Activity, plugin, take, take_batch, run_all}

-- the log file of the writers is handled properly
abbrev pub IsSoundLog : Files → Logged Writers → Type 0
IsSoundLog files log = IsSound files log.outputs.log

-- What a step keeps.
pub record Keeps (files : Files) (p q : Plugin Writers) : Type 0 where
  pub ready : q.plugin_ready ≡ p.plugin_ready
  pub sound : IsSoundLog files p.log → IsSoundLog files q.log

Keeps-refl : (files : Files) (p : Plugin Writers) → Keeps files p p
Keeps-refl files p = record { ready = refl; sound = λ s. s }

Keeps-trans :
    (files : Files) (p q r : Plugin Writers) → Keeps files p q → Keeps files q r → Keeps files p r
Keeps-trans files p q r f g = record { ready = g.ready ∙ f.ready; sound = λ s. g.sound (f.sound s) }

module _ {W : Type 0} (double : Double W) (world : World) where
  chosen-IsSoundLog :
      (o : Output) (path : Option Bytes) (e : Entry W) (log : Logged Writers)
      → IsSoundLog world.files log
      → IsSoundLog world.files (
          count_logged double (writers world) log.status_events_logged (elim o [
            | file ↦ write_file world (json_line double e) path log.outputs
            | table ↦ enqueue world (insert_statement double e) log.outputs
          ]))
  unfolding count_logged write_file enqueue
  chosen-IsSoundLog file path e log s =
      file_writer_write-IsSound world.files (json_line double e) path log.outputs.log s
  chosen-IsSoundLog table path e log s = s

  report-IsSoundLog :
      (options : Options) (ts : Bytes) (now_ns : ℕ) (st : StatementState) (event : StatusEvent)
      (log : Logged Writers)
      → IsSoundLog world.files log
      → IsSoundLog world.files (report double (writers world) options ts now_ns st event log)
  unfolding report emit
  report-IsSoundLog options ts now_ns st event log s =
      let duration = duration_ms double now_ns st in
      if_cases (IsSoundLog world.files) (is_too_short double options.opt_min_duration_ms duration)
        {x = log} s
        (chosen-IsSoundLog options.opt_output options.opt_file_path
          (entry double options ts duration st event) log s)

  status-IsSoundLog :
      (rules : Option FilterRules) (options : Options) (ts : Bytes) (now_ns : ℕ)
      (st : StatementState) (event : StatusEvent) (log : Logged Writers)
      → IsSoundLog world.files log
      → IsSoundLog world.files
          (handle_status_event double (writers world) rules options ts now_ns st event log).1
  unfolding handle_status_event
  status-IsSoundLog rules options ts now_ns st event log s =
      let tracked = track_current_db st event.general in
      let bit = command_bit (cmdbuf event.general) in
      let P : StatementState × Logged Writers → Type 0 = λ r. IsSoundLog world.files r.1 in
      if_cases P (not (is_query_command event.general)) {x = (tracked, log)} s (
        if_cases P (bit_and (allowed_cmds rules event.general_thread_id bit tracked) bit == 0)
          {x = (reset tracked, log)} s (report-IsSoundLog options ts now_ns tracked event log s))

  dispatch-Keeps :
      (ts : Bytes) (now_ns thd : ℕ) (event : AuditEvent) (p : Plugin Writers)
      → Keeps world.files p (dispatch double (writers world) ts now_ns thd event p)
  unfolding dispatch notify_impl
  dispatch-Keeps ts now_ns thd connection_disconnect p = record { ready = refl; sound = λ s. s }
  dispatch-Keeps ts now_ns thd connection_other p = Keeps-refl world.files p
  dispatch-Keeps ts now_ns thd general_other p =
      if_cases (Keeps world.files p) p.opt_enabled (Keeps-refl world.files p)
        (Keeps-refl world.files p)
  dispatch-Keeps ts now_ns thd other_class p =
      if_cases (Keeps world.files p) p.opt_enabled (Keeps-refl world.files p)
        (Keeps-refl world.files p)
  dispatch-Keeps ts now_ns thd general_log p =
      if_cases (Keeps world.files p) p.opt_enabled (record { ready = refl; sound = λ s. s })
        (Keeps-refl world.files p)
  dispatch-Keeps ts now_ns thd (general_status event) p =
      if_cases (Keeps world.files p) p.opt_enabled
        (record {
          ready = refl;
          sound =
              status-IsSoundLog p.active_rules p.options ts now_ns (state_of p.state_map thd) event
                p.log;
        })
        (Keeps-refl world.files p)
  dispatch-Keeps ts now_ns thd (table_access db tbl) p =
      if_cases (Keeps world.files p) p.opt_enabled (record { ready = refl; sound = λ s. s })
        (Keeps-refl world.files p)

  notify-Keeps :
      (n : Notice) (p : Plugin Writers)
      → Keeps world.files p (selective_trace_notify double (writers world) n p)
  unfolding selective_trace_notify
  notify-Keeps n p = notify_at n.thd
    where
      notify_at :
          (o : Option ℕ)
          → Keeps world.files p (elim o as (λ x. Plugin Writers) [
            | none ↦ p
            | some thd ↦
                if not p.plugin_ready
                then p
                else if n.is_self
                then p
                else dispatch double (writers world) n.ts n.now_ns thd n.event p
          ])
      notify_at none = Keeps-refl world.files p
      notify_at (some thd) =
          if_cases (Keeps world.files p) (not p.plugin_ready) (Keeps-refl world.files p) (
            if_cases (Keeps world.files p) n.is_self (Keeps-refl world.files p)
              (dispatch-Keeps n.ts n.now_ns thd n.event p))

  switch-IsSoundLog :
      (opt_enabled : Bool) (save : Option Bytes) (options : Options) (log : Logged Writers)
      → IsSoundLog world.files log
      → IsSoundLog world.files (switch_file (writers world) opt_enabled save options log)
  unfolding switch_file reopen_file close_file
  switch-IsSoundLog opt_enabled save options log s =
      let path = some (or_empty save) in
      let is_file = elim options.opt_output as (λ o. Bool) [ file ↦ true | table ↦ false ] in
      if_cases (IsSoundLog world.files) (opt_enabled && is_file)
        {x = record log { outputs = (reopen_file world path log.outputs).1 }}
        {y = record log { outputs = close_file world log.outputs }}
        (file_writer_reopen-IsSound world.files path log.outputs.log s)
        (file_writer_close-IsSound world.files log.outputs.log s)

  step-Keeps :
      (s : Step) (p : Plugin Writers) → Keeps world.files p (step double (writers world) s p)
  unfolding update_file_path
  step-Keeps (notice n) p = notify-Keeps n p
  step-Keeps (set_variables enabled rules options) p = record { ready = refl; sound = λ s. s }
  step-Keeps (set_file_path save) p = record {
    ready = refl;
    sound = switch-IsSoundLog p.opt_enabled save p.options p.log;
  }

  -- A run leaves the plugin ready if it was, and its log file handled properly if it was.
  pub run_all-Keeps :
      (activities : List Activity) (p : Plugin Writers)
      → Keeps world.files p (run_all double world activities p).0
  unfolding run_all
  run_all-Keeps [] p = Keeps-refl world.files p
  run_all-Keeps (plugin s ∷ more) p =
      let next = step double (writers world) s p in
      Keeps-trans world.files p next _ (step-Keeps s p) (run_all-Keeps more next)
  run_all-Keeps (take ∷ more) p =
      let next = (take_batch double world p).1 in
      let taken : Keeps world.files p next = record { ready = refl; sound = λ s. s } in
      Keeps-trans world.files p next _ taken (run_all-Keeps more next)
