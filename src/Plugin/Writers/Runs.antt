-- ===== src/Plugin/Writers/Runs.antt =====
-- Runs of the plugin with the two writers and the takes by the writer thread, and the counter of logged
-- events over them.
use mysql_selective_trace_pl.Common.{
  ℕ, bit_and, ◌≡◌, refl, Bool, true, false, not, Option, none, some, List, [], ◌∷◌, ◌++◌, ◌==◌,
  if◌then◌else◌, if_cases, Bytes,
}
use mathlib.Core.Path.{subst}
use mysql_selective_trace_pl.Engine.Rules.{FilterRules}
use mysql_selective_trace_pl.Plugin.Statement.{StatementState, track_current_db}
use mysql_selective_trace_pl.Plugin.Output.{Double}
use mysql_selective_trace_pl.Plugin.Status.{
  Options, Logged, StatusEvent, handle_status_event, is_query_command, allowed_cmds, reset, cmdbuf,
}
use mysql_selective_trace_pl.Engine.Command.{command_bit}
use mysql_selective_trace_pl.Plugin.Dispatch.Store.{state_of}
use mysql_selective_trace_pl.Plugin.Dispatch.{
  AuditEvent, general_log, general_other, connection_disconnect, connection_other, other_class,
  general_status, table_access, Notice, Plugin, notify_impl, dispatch, selective_trace_notify,
  update_file_path,
}
use mysql_selective_trace_pl.Plugin.Dispatch.Sessions.{
  Step, notice, set_variables, set_file_path, step,
}
use mysql_selective_trace_pl.TableWriter.Queue.{swap_batch}
use mysql_selective_trace_pl.Plugin.Writers.{Writers, World, writers}
use mysql_selective_trace_pl.Plugin.Writers.Counted.{
  Counted, Counted-refl, Accounted, Accounted-refl, Accounted-step, Accounted-take, with_queue,
  report-Counted, switch-Counted,
}

-- what goes on: a step of the plugin, or the writer thread takes the waiting events
pub data Activity : Type 0 where
  plugin : Step → Activity
  take : Activity

module _ {W : Type 0} (double : Double W) (world : World) where
  status-Counted :
      (rules : Option FilterRules) (options : Options) (ts : Bytes) (now_ns : ℕ)
      (st : StatementState) (event : StatusEvent) (log : Logged Writers)
      → Counted world.files log
          (handle_status_event double (writers world) rules options ts now_ns st event log).1
  unfolding handle_status_event
  status-Counted rules options ts now_ns st event log =
      let same = Counted-refl world.files log in
      let tracked = track_current_db st event.general in
      let bit = command_bit (cmdbuf event.general) in
      let P : StatementState × Logged Writers → Type 0 = λ r. Counted world.files log r.1 in
      if_cases P (not (is_query_command event.general)) {x = (tracked, log)} same (
        if_cases P (bit_and (allowed_cmds rules event.general_thread_id bit tracked) bit == 0)
          {x = (reset tracked, log)} same
          (report-Counted double world options ts now_ns tracked event log))

  unlogged :
      (enabled : Bool) (p q : Plugin Writers)
      → p.log ≡ q.log
      → Counted world.files p.log (if enabled then q else p).log
  unlogged true p q e = subst (Counted world.files p.log) e (Counted-refl world.files p.log)
  unlogged false p q e = Counted-refl world.files p.log

  dispatch-Counted :
      (ts : Bytes) (now_ns thd : ℕ) (event : AuditEvent) (p : Plugin Writers)
      → Counted world.files p.log (dispatch double (writers world) ts now_ns thd event p).log
  unfolding dispatch notify_impl
  dispatch-Counted ts now_ns thd (general_status event) p =
      if_cases (λ (q : Plugin Writers). Counted world.files p.log q.log) p.opt_enabled {y = p}
        (status-Counted p.active_rules p.options ts now_ns (state_of p.state_map thd) event p.log)
        (Counted-refl world.files p.log)
  dispatch-Counted ts now_ns thd connection_disconnect p = Counted-refl world.files p.log
  dispatch-Counted ts now_ns thd connection_other p = Counted-refl world.files p.log
  dispatch-Counted ts now_ns thd general_other p = unlogged p.opt_enabled p p refl
  dispatch-Counted ts now_ns thd other_class p = unlogged p.opt_enabled p p refl
  dispatch-Counted ts now_ns thd general_log p = unlogged p.opt_enabled p _ refl
  dispatch-Counted ts now_ns thd (table_access db tbl) p = unlogged p.opt_enabled p _ refl

  notify-Counted :
      (n : Notice) (p : Plugin Writers)
      → Counted world.files p.log (selective_trace_notify double (writers world) n p).log
  unfolding selective_trace_notify
  notify-Counted n p = notify_at n.thd
    where
      notify_at :
          (o : Option ℕ)
          → Counted world.files p.log
              (elim o as (λ x. Plugin Writers) [
                | none ↦ p
                | some thd ↦
                    if not p.plugin_ready
                    then p
                    else if n.is_self
                    then p
                    else dispatch double (writers world) n.ts n.now_ns thd n.event p
              ]).log
      notify_at none = Counted-refl world.files p.log
      notify_at (some thd) =
          if_cases (λ (q : Plugin Writers). Counted world.files p.log q.log) (not p.plugin_ready)
            (Counted-refl world.files p.log)
            (if_cases (λ (q : Plugin Writers). Counted world.files p.log q.log) n.is_self
              (Counted-refl world.files p.log) (dispatch-Counted n.ts n.now_ns thd n.event p))

  step-Counted :
      (s : Step) (p : Plugin Writers)
      → Counted world.files p.log (step double (writers world) s p).log
  unfolding update_file_path
  step-Counted (notice n) p = notify-Counted n p
  step-Counted (set_variables enabled rules options) p = Counted-refl world.files p.log
  step-Counted (set_file_path save) p =
      switch-Counted double world p.opt_enabled save p.options p.log

  -- the plugin with another queue
  abbrev pub take_batch : Plugin Writers → List Bytes × Plugin Writers
  take_batch p =
      let (batch, queue) = swap_batch p.log.outputs.queue in
      (batch, record p { log = with_queue queue p.log })

  -- The plugin behind the activities, and the events that the writer thread took, in order.
  unfoldable pub run_all : List Activity → Plugin Writers → Plugin Writers × List Bytes
  run_all [] p = (p, [])
  run_all (plugin s ∷ more) p = run_all more (step double (writers world) s p)
  run_all (take ∷ more) p =
      let (batch, p1) = take_batch p in let (p2, out) = run_all more p1 in (p2, batch ++ out)

  -- Whatever events, SETs of the variables and takes by the writer thread follow each other, and
  -- whatever the file system, `pthread_create` and the allocation of events answer: the lines that
  -- fwrite took whole are those that were there, followed by new ones; the events that waited,
  -- followed by new ones, are those that the writer thread took, followed by those that still wait;
  -- and the counter of logged events goes up, modulo 2^64, by exactly the number of the new lines and
  -- the new events.
  pub run_all-Accounted :
      (activities : List Activity) (p : Plugin Writers)
      → Accounted world.files p.log (run_all activities p).1 (run_all activities p).0.log
  unfolding run_all
  run_all-Accounted [] p = Accounted-refl world.files p.log
  run_all-Accounted (plugin s ∷ more) p =
      let next = step double (writers world) s p in
      Accounted-step world.files p.log next.log _ _ (step-Counted s p) (run_all-Accounted more next)
  run_all-Accounted (take ∷ more) p =
      let next = (take_batch p).1 in
      Accounted-take world.files p.log _ _ (run_all-Accounted more next)
