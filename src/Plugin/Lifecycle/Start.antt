-- ===== src/Plugin/Lifecycle/Start.antt =====
-- The start of the plugin on every branch.
use mysql_selective_trace_pl.Common.{
  ◌≡◌, refl, ◌≢◌, ◌⊎◌, inl, inr, Bool, true, false, not, ◌&&◌, Option, none, some, [], arith,
  if◌then◌else◌, if_cases, if_split, Bytes,
}
use mysql_selective_trace_pl.FileWriter.{Files}
use mysql_selective_trace_pl.FileWriter.Handle.{IsSound, file_writer_close-IsSound}
use mysql_selective_trace_pl.Plugin.Filters.{rebuild_rules_locked, or_empty}
use mysql_selective_trace_pl.Plugin.Filters.Current.{parse_rules-IsGoodText}
use mysql_selective_trace_pl.TableWriter.Queue.{table_writer_init}
use mysql_selective_trace_pl.Plugin.Lifecycle.{
  Install, Texts, Memory, new_string, fail, install, selective_trace_init,
}
use mysql_selective_trace_pl.Plugin.Lifecycle.Installed.{
  IsClean, IsInstalled, IsGoodStart, has_all, rebuild_cases, fail-IsClean,
}

module _ (files : Files) where
  -- what a start does, from a state that holds nothing
  abbrev Started : Memory → Texts → Bool × Install → Type 0
  Started memory texts r =
      ((r.0 ≡ true) × IsClean r.1 × (¬ ((has_all memory ≡ true) × IsGoodStart texts)))
      ⊎ ((r.0 ≡ false) × IsInstalled texts r.1 × (has_all memory ≡ true) × IsGoodStart texts)

  new_string-true :
      (b : Bool) (opt : Option Bytes) → b ≡ true → new_string b opt ≡ some (or_empty opt)
  new_string-true true opt e = refl
  new_string-true false opt e = cc

  not_both : (b : Bool) → b ≡ true → not b ≢ true
  not_both b e f = cc

  and_parts :
      (a b c d : Bool)
      → not (a && b && c && d) ≡ false
      → (a ≡ true) × (b ≡ true) × (c ≡ true) × (d ≡ true)
  and_parts true true true true e = (refl, refl, refl, refl)
  and_parts true true true false e = cc
  and_parts true true false d e = cc
  and_parts true false c d e = cc
  and_parts false b c d e = cc

  all_parts : (m a r : Bool) → (m && a && r) ≡ true → (a ≡ true) × (r ≡ true)
  all_parts true true true e = (refl, refl)
  all_parts true true false e = cc
  all_parts true false r e = cc
  all_parts false a r e = cc

  install-Started :
      (memory : Memory) (texts : Texts) (p : Install)
      → memory.for_map ≡ true
      → p.plugin_ready ≡ false
      → p.active_rules ≡ none
      → p.state_map ≡ some []
      → p.log.is_open ≡ false
      → Started memory texts (install files memory texts p)
  unfolding install
  install-Started memory texts p for_map ready no_rules no_state closed =
      let s = or_empty texts.opt_schemas in
      let t = or_empty texts.opt_tables in
      let c = or_empty texts.opt_connections in
      let r = rebuild_rules_locked memory.for_rules s t c p.active_rules in
      let strings =
        memory.for_schemas && memory.for_tables && memory.for_connections && memory.for_path in
      let stored = record p {
        schemas_storage = new_string memory.for_schemas texts.opt_schemas;
        tables_storage = new_string memory.for_tables texts.opt_tables;
        connections_storage = new_string memory.for_connections texts.opt_connections;
        file_path_storage = new_string memory.for_path texts.opt_file_path;
      } in
      let pointed = record stored { opts_at_storage = true } in
      let done = record pointed { active_rules = r.1; plugin_ready = true } in
      let clean = fail-IsClean files stored ready no_rules in
      let clean' = fail-IsClean files pointed ready no_rules in
      if_split (Started memory texts) (not strings) {x = (true, fail files stored)}
        {y = if r.0 then (true, fail files pointed) else (false, done)}
        (λ e. inl (
          refl,
          clean,
          λ h. not_both strings (all_parts memory.for_map strings memory.for_rules h.0).0 e,
        ))
        (λ e.
          let parts =
            and_parts memory.for_schemas memory.for_tables memory.for_connections memory.for_path
              e in
          elim (rebuild_cases memory.for_rules s t c p.active_rules) [
            | inl (bad, why) ↦ rw bad (
                inl (
                  refl,
                  clean',
                  λ h. why ((all_parts memory.for_map strings memory.for_rules h.0).1, h.1),
                ))
            | inr (good, for_rules, rules, made, active) ↦ rw good (
                inr (
                  refl,
                  record {
                    ready = refl;
                    schemas = new_string-true memory.for_schemas texts.opt_schemas parts.0;
                    tables = new_string-true memory.for_tables texts.opt_tables parts.1;
                    connections =
                        new_string-true memory.for_connections texts.opt_connections parts.2;
                    path = new_string-true memory.for_path texts.opt_file_path parts.3;
                    pointed = refl;
                    rules = rules;
                    made = made;
                    active = active;
                    map = no_state;
                    closed = closed;
                  },
                  ground (arith, for_map, for_rules, e),
                  parse_rules-IsGoodText s t c rules made,
                ))
          ])

  -- From a state that holds nothing, the start fails exactly if memory is missing for one of its parts
  -- other than the queue, or if one of the three texts is not well formed; then it holds nothing
  -- again. Else the plugin is ready, with no state of a connection, its variables point at the stored
  -- texts, and the rules in force are those of the texts.
  pub selective_trace_init_cases :
      (memory : Memory) (texts : Texts) (p : Install)
      → IsClean p
      → (let r = selective_trace_init files memory texts p in
          ((r.0 ≡ true) × IsClean r.1 × (¬ ((has_all memory ≡ true) × IsGoodStart texts)))
          ⊎ ((r.0 ≡ false) × IsInstalled texts r.1 × (has_all memory ≡ true) × IsGoodStart texts))
  unfolding selective_trace_init
  selective_trace_init_cases memory texts p clean =
      let begun = record p {
        state_map = some [];
        queue = table_writer_init memory.for_queue p.queue;
      } in
      let left = record p { state_map = none } in
      if_split (Started memory texts) memory.for_map {x = install files memory texts begun}
        {y = (true, left)}
        (λ e. install-Started memory texts begun e clean.not_ready clean.rules refl clean.closed)
        (λ e. inl (
          refl,
          record {
            not_ready = clean.not_ready;
            schemas = clean.schemas;
            tables = clean.tables;
            connections = clean.connections;
            path = clean.path;
            rules = clean.rules;
            map = refl;
            queue = clean.queue;
            thread = clean.thread;
            closed = clean.closed;
          },
          λ h. ground (arith, h.0, e),
        ))

  install-IsSound :
      (memory : Memory) (texts : Texts) (p : Install)
      → IsSound files p.log
      → IsSound files (install files memory texts p).1.log
  unfolding install fail
  install-IsSound memory texts p s =
      let strings =
        memory.for_schemas && memory.for_tables && memory.for_connections && memory.for_path in
      let r =
        rebuild_rules_locked memory.for_rules (or_empty texts.opt_schemas)
          (or_empty texts.opt_tables) (or_empty texts.opt_connections) p.active_rules in
      let P : Bool × Install → Type 0 = λ r. IsSound files r.1.log in
      let shut = file_writer_close-IsSound files p.log s in
      if_cases P (not strings) shut (if_cases P r.0 shut s)

  -- A start leaves the log file handled properly.
  pub selective_trace_init-IsSound :
      (memory : Memory) (texts : Texts) (p : Install)
      → IsSound files p.log
      → IsSound files (selective_trace_init files memory texts p).1.log
  unfolding selective_trace_init
  selective_trace_init-IsSound memory texts p s =
      let begun = record p {
        state_map = some [];
        queue = table_writer_init memory.for_queue p.queue;
      } in
      if_cases (λ (r : Bool × Install). IsSound files r.1.log) memory.for_map
        {x = install files memory texts begun} (install-IsSound memory texts begun s) s
