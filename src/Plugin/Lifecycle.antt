-- ===== src/Plugin/Lifecycle.antt =====
-- The start and the end of the plugin in src/selective_trace_mysql.cc: `selective_trace_init` and
-- `selective_trace_deinit`, with the status variables. Whether memory is
-- there is an argument. The registration of the locks is left out.
pub mod Installed
pub mod Start
pub mod Cycle
pub mod Tests
use mysql_selective_trace_pl.Common.{
  ℕ, zero, suc, ◌+◌, ◌-◌, ◌*◌, ◌/◌, ◌%◌, ◌^◌, ◌≤◌, ◌<◌, bit_and, bit_or, ◌≡◌, refl, sym, ap, ◌∙◌,
  ◌≢◌, ◌↔◌, ◌⊎◌, inl, inr, Bool, true, false, not, ◌&&◌, ◌||◌, Option, none, some, List, [], ◌∷◌,
  ◌++◌, map, append-nil, append_assoc, map-append, arith, ltb, leb, ◌==◌, if◌then◌else◌, ==_iff,
  ltb→lt, leb→le, Bool-cases, if_cases, if_split, Option-cases, ◌>>=◌, is_some, >>=-eq-some,
  is_some-eq-true, length, is_nil, take, drop, length-append, All, All-append, All-append_inv,
  All-change, All-mono, Any, Any-append, Any-change, Any-concat, Distinct, Distinct-concat, get_or,
  append_each, append_each-append, append_each-cons, append_each-All, Bytes, prepend, codes, equal,
  equal_iff, contains, cut_at, split_on, split_on-ne-nil, cut_at_sound, cut_at-none, contains-All,
  add_front, split_on_sep, split_on_other, iff_trans, iff_sym, or_assoc, or_map_left, or_map_right,
  or_absurd_left, or_absurd_right, iff_refl, and_map_right,
}
use mysql_selective_trace_pl.Engine.Rules.{FilterRules}
use mysql_selective_trace_pl.FileWriter.{Log, Files, file_writer_close, file_writer_failures}
use mysql_selective_trace_pl.TableWriter.{Writer}
use mysql_selective_trace_pl.TableWriter.Queue.{State, table_writer_init, table_writer_shutdown}
use mysql_selective_trace_pl.Plugin.Filters.{rebuild_rules_locked, or_empty}
use mysql_selective_trace_pl.Plugin.Dispatch.{StateMap}

-- The variables that the two functions set, `none` for NULL, with those of the two writers.
pub record Install : Type 0 where
  pub plugin_ready : Bool
  pub schemas_storage : Option Bytes
  pub tables_storage : Option Bytes
  pub connections_storage : Option Bytes
  pub file_path_storage : Option Bytes
  -- whether `opt_schemas`, `opt_tables`, `opt_connections` and `opt_file_path` were set to point at
  -- the four texts above
  pub opts_at_storage : Bool
  pub active_rules : Option FilterRules
  pub state_map : Option StateMap
  pub log : Log
  pub queue : State

-- the values that the variables have when the plugin starts
pub record Texts : Type 0 where
  pub opt_schemas : Option Bytes
  pub opt_tables : Option Bytes
  pub opt_connections : Option Bytes
  pub opt_file_path : Option Bytes

-- whether each `new (std::nothrow)` gives memory
pub record Memory : Type 0 where
  pub for_map : Bool
  pub for_queue : Bool
  pub for_schemas : Bool
  pub for_tables : Bool
  pub for_connections : Bool
  pub for_path : Bool
  pub for_rules : Bool

-- `new (std::nothrow) std::string(opt ? opt : "")`
abbrev pub new_string : Bool → Option Bytes → Option Bytes
new_string has_memory opt = if has_memory then some (or_empty opt) else none

module _ (files : Files) where
  -- behind the label `fail`
  unfoldable pub fail : Install → Install
  unfolding table_writer_shutdown file_writer_close
  fail p = record p {
    schemas_storage = none;
    tables_storage = none;
    connections_storage = none;
    file_path_storage = none;
    queue = table_writer_shutdown p.queue;
    log = file_writer_close files p.log;
    state_map = none;
  }

  -- from the four texts on
  unfoldable pub install : Memory → Texts → Install → Bool × Install
  unfolding fail rebuild_rules_locked
  install memory texts p =
      let (refused, rules) =
        rebuild_rules_locked memory.for_rules (or_empty texts.opt_schemas)
          (or_empty texts.opt_tables) (or_empty texts.opt_connections) p.active_rules in
      let stored = record p {
        schemas_storage = new_string memory.for_schemas texts.opt_schemas;
        tables_storage = new_string memory.for_tables texts.opt_tables;
        connections_storage = new_string memory.for_connections texts.opt_connections;
        file_path_storage = new_string memory.for_path texts.opt_file_path;
      } in
      let pointed = record stored { opts_at_storage = true } in
      if not (memory.for_schemas && memory.for_tables && memory.for_connections && memory.for_path)
      then (true, fail stored)
      else if refused
      then (true, fail pointed)
      else (false, record pointed { active_rules = rules; plugin_ready = true })

  -- The returned number, as whether it is 1.
  unfoldable pub selective_trace_init : Memory → Texts → Install → Bool × Install
  unfolding table_writer_init install
  selective_trace_init memory texts p =
      if memory.for_map
      then install memory texts
          (record p { state_map = some []; queue = table_writer_init memory.for_queue p.queue })
      else (true, record p { state_map = none })

  unfoldable pub selective_trace_deinit : Install → Install
  unfolding table_writer_shutdown file_writer_close
  selective_trace_deinit p = if not p.plugin_ready then p else record p {
    plugin_ready = false;
    queue = table_writer_shutdown p.queue;
    log = file_writer_close files p.log;
    active_rules = none;
    schemas_storage = none;
    tables_storage = none;
    connections_storage = none;
    file_path_storage = none;
    state_map = none;
  }

-- `show_write_failures`, `show_events_dropped` and `show_writer_reconnects`
abbrev pub show_write_failures : Log → Writer → ℕ
show_write_failures log w = (file_writer_failures log + w.insert_failures) % 2 ^ 64

abbrev pub show_events_dropped : State → ℕ
show_events_dropped queue = queue.dropped_events

abbrev pub show_writer_reconnects : Writer → ℕ
show_writer_reconnects w = w.recycle_policy.recycles
