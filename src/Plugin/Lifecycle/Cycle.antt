-- ===== src/Plugin/Lifecycle/Cycle.antt =====
-- The life of the plugin: a start, then what goes on while it is ready, then the end.
use mysql_selective_trace_pl.Common.{
  ℕ, ◌≡◌, sym, ◌∙◌, inl, inr, Bool, false, not, none, some, List, [], arith, if◌then◌else◌,
  if_cases, if_split,
}
use mysql_selective_trace_pl.FileWriter.Handle.{holds, IsSound, file_writer_close-IsSound}
use mysql_selective_trace_pl.Plugin.Output.{Double}
use mysql_selective_trace_pl.Plugin.Status.{Options}
use mysql_selective_trace_pl.Plugin.Dispatch.{Plugin}
use mysql_selective_trace_pl.Plugin.Writers.{Writers, World}
use mysql_selective_trace_pl.Plugin.Writers.Runs.{Activity, run_all}
use mysql_selective_trace_pl.Plugin.Writers.Sound.{run_all-Keeps}
use mysql_selective_trace_pl.Plugin.Lifecycle.{
  Install, Texts, Memory, selective_trace_deinit, selective_trace_init,
}
use mysql_selective_trace_pl.Plugin.Lifecycle.Installed.{IsClean, selective_trace_deinit-IsClean}
use mysql_selective_trace_pl.Plugin.Lifecycle.Start.{
  selective_trace_init_cases, selective_trace_init-IsSound,
}

-- The plugin as events find it, with the values of the variables that the start does not set.
abbrev pub plugin_of : Bool → Options → ℕ → Install → Plugin Writers
plugin_of opt_enabled options logged p = record {
  plugin_ready = p.plugin_ready;
  opt_enabled = opt_enabled;
  active_rules = p.active_rules;
  options = record options { opt_file_path = p.file_path_storage };
  state_map = elim p.state_map [ none ↦ [] | some map ↦ map ];
  log = record { status_events_logged = logged; outputs = record { log = p.log; queue = p.queue } };
}

-- what the events and the SETs changed
abbrev pub changed_by : Plugin Writers → Install → Install
changed_by q p = record p {
  plugin_ready = q.plugin_ready;
  active_rules = q.active_rules;
  file_path_storage = q.options.opt_file_path;
  state_map = some q.state_map;
  log = q.log.outputs.log;
  queue = q.log.outputs.queue;
}

module _ {W : Type 0} (double : Double W) (world : World) where
  -- A start, then the activities, if the start succeeded, and then the end.
  unfoldable pub live : Memory → Texts → Bool → Options → ℕ → List Activity → Install → Install
  unfolding selective_trace_init selective_trace_deinit run_all
  live memory texts opt_enabled options logged activities p =
      let (failed, q) = selective_trace_init world.files memory texts p in
      if failed
      then selective_trace_deinit world.files q
      else selective_trace_deinit world.files (
          changed_by (run_all double world activities (plugin_of opt_enabled options logged q)).0 q)

  deinit-IsSound :
      (p : Install)
      → IsSound world.files p.log
      → IsSound world.files (selective_trace_deinit world.files p).log
  unfolding selective_trace_deinit
  deinit-IsSound p s =
      if_cases (λ (q : Install). IsSound world.files q.log) (not p.plugin_ready) {x = p} s
        (file_writer_close-IsSound world.files p.log s)

  idle-IsClean : (p : Install) → IsClean p → IsClean (selective_trace_deinit world.files p)
  unfolding selective_trace_deinit
  idle-IsClean p clean =
      if_split IsClean (not p.plugin_ready) {x = p} (λ e. clean)
        (λ e. ground (arith, e, clean.not_ready))

  -- Nothing is held, and no file is open as far as the calls of the C library tell.
  record Ended (p : Install) : Type 0 where
    clean : IsClean p
    sound : IsSound world.files p.log

  live-Ended :
      (memory : Memory) (texts : Texts) (opt_enabled : Bool) (options : Options) (logged : ℕ)
      (activities : List Activity) (p : Install)
      → IsClean p
      → IsSound world.files p.log
      → Ended (live memory texts opt_enabled options logged activities p)
  unfolding live
  live-Ended memory texts opt_enabled options logged activities p clean s =
      let q = (selective_trace_init world.files memory texts p).1 in
      let started = selective_trace_init-IsSound world.files memory texts p s in
      let begun = plugin_of opt_enabled options logged q in
      let kept = run_all-Keeps double world activities begun in
      let used = changed_by (run_all double world activities begun).0 q in
      elim (selective_trace_init_cases world.files memory texts p clean) [
        | inl (failed, still, _) ↦
            rw (live, failed)
              (record { clean = idle-IsClean q still; sound = deinit-IsSound q started })
        | inr (succeeded, installed, _, _) ↦
            rw (live, succeeded)
              (record {
                clean =
                    selective_trace_deinit-IsClean world.files used (kept.ready ∙ installed.ready);
                sound = deinit-IsSound used (kept.sound started);
              })
      ]

  -- From a state that holds nothing and a log file that is handled properly: after a start, then, if
  -- it succeeded, any events of the server, SETs of the variables and takes by the writer thread,
  -- and then the end, nothing is held: no text, no rules, no map, no queue, no thread. Over all calls
  -- of the C library a file is opened only while none is open, and written, flushed and closed only
  -- while one is, and at the end none is open. This holds whatever the texts, and whatever memory,
  -- the file system and `pthread_create` answer.
  pub live-IsClean :
      (memory : Memory) (texts : Texts) (opt_enabled : Bool) (options : Options) (logged : ℕ)
      (activities : List Activity) (p : Install)
      → IsClean p
      → IsSound world.files p.log
      → IsClean (live memory texts opt_enabled options logged activities p)
        × IsSound world.files (live memory texts opt_enabled options logged activities p).log
        × (holds world.files (live memory texts opt_enabled options logged activities p).log.calls
            ≡ false)
  live-IsClean memory texts opt_enabled options logged activities p clean s =
      let r = live-Ended memory texts opt_enabled options logged activities p clean s in
      (r.clean, r.sound, sym r.sound.handle ∙ r.clean.closed)
