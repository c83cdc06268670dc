-- ===== src/Plugin/Dispatch.antt =====
-- The entry point for events of src/selective_trace_mysql.cc: `get_state`, `forget_state`,
-- `notify_impl` and `selective_trace_notify`, and the update callback `update_file_path`, which
-- changes the outputs too. A THD pointer is a number. The events of one THD come from one thread, so
-- each notice is one step. That memory can run out is left out.
pub mod Store
pub mod Sessions
pub mod Refinement
pub mod Isolation
pub mod Tests
use mysql_selective_trace_pl.Common.{
  ℕ, zero, suc, ◌+◌, ◌-◌, ◌*◌, ◌/◌, ◌%◌, ◌^◌, ◌≤◌, ◌<◌, bit_and, bit_or, ◌≡◌, refl, sym, ap, ◌∙◌,
  ◌≢◌, ◌↔◌, ◌⊎◌, inl, inr, Bool, true, false, not, ◌&&◌, ◌||◌, Option, none, some, List, [], ◌∷◌,
  ◌++◌, map, append-nil, append_assoc, map-append, arith, ltb, leb, ◌==◌, if◌then◌else◌, ==_iff,
  ltb→lt, leb→le, Bool-cases, if_cases, if_split, Option-cases, ◌>>=◌, is_some, >>=-eq-some,
  is_some-eq-true, length, is_nil, take, drop, length-append, All, All-append, All-append_inv,
  All-change, All-mono, Any, Any-append, Any-change, Any-concat, Distinct, Distinct-concat, get_or,
  append_each, append_each-append, append_each-cons, append_each-All, Bytes, prepend, codes, equal,
  equal_iff, contains, cut_at, split_on, split_on-ne-nil, cut_at_sound, cut_at-none, contains-All,
  add_front, split_on_sep, split_on_other, iff_trans, iff_sym, or_assoc, or_map_left, or_map_right,
  or_absurd_left, or_absurd_right, iff_refl, and_map_right,
}
use mysql_selective_trace_pl.Engine.Rules.{FilterRules}
use mysql_selective_trace_pl.Plugin.Statement.{
  StatementState, fresh_state, state_begin_statement, handle_table_access_event,
}
use mysql_selective_trace_pl.Plugin.Output.{Double}
use mysql_selective_trace_pl.Plugin.Filters.{or_empty}
use mysql_selective_trace_pl.Plugin.Status.{
  StatusEvent, Output, file, table, Options, Outputs, Logged, handle_status_event,
}

-- `state_map`
abbrev pub StateMap : Type 0
StateMap = List (ℕ × StatementState)

unfoldable pub find : ℕ → StateMap → Option StatementState
find thd [] = none
find thd ((key, st) ∷ more) = let later = find thd more in if key == thd then some st else later

-- the state, and the map, which gets a new entry if there is none
unfoldable pub get_state : ℕ → StateMap → StatementState × StateMap
get_state thd state_map = elim (find thd state_map) [
  | none ↦ (fresh_state, (thd, fresh_state) ∷ state_map)
  | some st ↦ (st, state_map)
]

-- a write through the pointer that `get_state` returned
unfoldable pub put_state : ℕ → StatementState → StateMap → StateMap
put_state thd st [] = []
put_state thd st ((key, old) ∷ more) =
    let later = put_state thd st more in if key == thd then (key, st) ∷ more else (key, old) ∷ later

unfoldable pub forget_state : ℕ → StateMap → StateMap
forget_state thd [] = []
forget_state thd ((key, st) ∷ more) =
    let later = forget_state thd more in if key == thd then more else (key, st) ∷ later

-- the events, by class and subclass
pub data AuditEvent : Type 0 where
  general_log general_other connection_disconnect connection_other other_class : AuditEvent
  general_status : StatusEvent → AuditEvent
  table_access : Bytes → Bytes → AuditEvent

-- One call of `selective_trace_notify`: whether the thread is the table writer's own, the THD if it
-- is not NULL, the event, and what the clocks give while it is handled.
pub record Notice : Type 0 where
  pub is_self : Bool
  pub thd : Option ℕ
  pub event : AuditEvent
  pub ts : Bytes
  pub now_ns : ℕ

-- what the calls read and change
pub record Plugin (S : Type 0) : Type 0 where
  pub plugin_ready : Bool
  pub opt_enabled : Bool
  pub active_rules : Option FilterRules
  pub options : Options
  pub state_map : StateMap
  pub log : Logged S

-- the path that `update_file_path` stores
abbrev pub path_options : Option Bytes → Options → Options
path_options save options = record options { opt_file_path = some (or_empty save) }

-- `update_file_path` behind the assignment: the file is reopened if it is in use, and else closed
unfoldable pub switch_file :
    {S : Type 0} → Outputs S → Bool → Option Bytes → Options → Logged S → Logged S
switch_file to opt_enabled save options log =
    if opt_enabled && elim options.opt_output [ file ↦ true | table ↦ false ]
    then record log { outputs = (to.file_writer_reopen (some (or_empty save)) log.outputs).1 }
    else record log { outputs = to.file_writer_close log.outputs }

module _ {W : Type 0} (double : Double W) {S : Type 0} (to : Outputs S) where
  unfoldable pub notify_impl : Bytes → ℕ → ℕ → AuditEvent → Plugin S → Plugin S
  unfolding get_state put_state
  notify_impl ts now_ns thd general_log p =
      let (st, map) = get_state thd p.state_map in
      record p { state_map = put_state thd (state_begin_statement now_ns st true) map }
  notify_impl ts now_ns thd (general_status event) p =
      let (st, map) = get_state thd p.state_map in
      let (st', log) =
        handle_status_event double to p.active_rules p.options ts now_ns st event p.log in
      record p { state_map = put_state thd st' map; log = log }
  notify_impl ts now_ns thd (table_access db tbl) p =
      let (st, map) = get_state thd p.state_map in
      record p {
        state_map = put_state thd (handle_table_access_event p.active_rules now_ns st db tbl) map;
      }
  notify_impl ts now_ns thd general_other p = p
  notify_impl ts now_ns thd connection_disconnect p = p
  notify_impl ts now_ns thd connection_other p = p
  notify_impl ts now_ns thd other_class p = p

  -- a THD that is not NULL, on a thread that is not the writer's
  unfoldable pub dispatch : Bytes → ℕ → ℕ → AuditEvent → Plugin S → Plugin S
  unfolding forget_state notify_impl
  dispatch ts now_ns thd connection_disconnect p = record p {
    state_map = forget_state thd p.state_map;
  }
  dispatch ts now_ns thd connection_other p = p
  dispatch ts now_ns thd event p = if p.opt_enabled then notify_impl ts now_ns thd event p else p

  unfoldable pub selective_trace_notify : Notice → Plugin S → Plugin S
  unfolding dispatch
  selective_trace_notify n p = elim n.thd [
    | none ↦ p
    | some thd ↦
        if not p.plugin_ready
        then p
        else if n.is_self
        then p
        else dispatch n.ts n.now_ns thd n.event p
  ]

  -- a SET of `selective_trace_log_file_path`, with the value that the server saved
  unfoldable pub update_file_path : Option Bytes → Plugin S → Plugin S
  unfolding switch_file
  update_file_path save p = record p {
    options = path_options save p.options;
    log = switch_file to p.opt_enabled save p.options p.log;
  }
