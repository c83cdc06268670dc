-- ===== src/Plugin/Status.antt =====
-- `handle_status_event` of src/selective_trace_mysql.cc: the end of a statement. It decides whether the
-- statement is logged, hands the text to one of the two outputs, and closes the statement. The
-- outputs are an interface. The clock, the time stamp and the active rules are arguments. That a
-- `std::string` cannot grow is left out.
pub mod Bits
pub mod Allowed
pub mod Outcome
pub mod Accesses
pub mod Selected
pub mod Traced
pub mod Rows
pub mod Tests
use mysql_selective_trace_pl.Common.{
  ℕ, zero, suc, ◌+◌, ◌-◌, ◌*◌, ◌/◌, ◌%◌, ◌^◌, ◌≤◌, ◌<◌, bit_and, bit_or, ◌≡◌, refl, sym, ap, ◌∙◌,
  ◌≢◌, ◌↔◌, ◌⊎◌, inl, inr, Bool, true, false, not, ◌&&◌, ◌||◌, Option, none, some, List, [], ◌∷◌,
  ◌++◌, map, append-nil, append_assoc, map-append, arith, ltb, leb, ◌==◌, if◌then◌else◌, ==_iff,
  ltb→lt, leb→le, Bool-cases, if_cases, if_split, Option-cases, ◌>>=◌, is_some, >>=-eq-some,
  is_some-eq-true, length, is_nil, take, drop, length-append, All, All-append, All-append_inv,
  All-change, All-mono, Any, Any-append, Any-change, Any-concat, Distinct, Distinct-concat, get_or,
  append_each, append_each-append, append_each-cons, append_each-All, Bytes, prepend, codes, equal,
  equal_iff, contains, cut_at, split_on, split_on-ne-nil, cut_at_sound, cut_at-none, contains-All,
  add_front, split_on_sep, split_on_other, iff_trans, iff_sym, or_assoc, or_map_left, or_map_right,
  or_absurd_left, or_absurd_right, iff_refl, and_map_right,
}
use mysql_selective_trace_pl.Engine.Rules.{FilterRules}
use mysql_selective_trace_pl.Engine.Cmd
use mysql_selective_trace_pl.Engine.Match.{match_schema}
use mysql_selective_trace_pl.Engine.Connections.{match_connection}
use mysql_selective_trace_pl.Engine.Command.{extract_command, command_bit}
use mysql_selective_trace_pl.Engine.Mask.{mask_secrets}
use mysql_selective_trace_pl.Plugin.Statement.{
  StatementState, GeneralEvent, general_command_is, track_current_db,
}
use mysql_selective_trace_pl.Plugin.Output.{ℤ, Double, Entry, json_line, insert_statement}

-- the rest of `mysql_event_general` that the handler reads
pub record StatusEvent : Type 0 where
  pub general : GeneralEvent
  pub general_thread_id : ℕ
  pub general_user : Bytes
  pub general_host : Bytes
  pub general_error_code : ℤ

-- `SELECTIVE_TRACE_OUTPUT_FILE` and `SELECTIVE_TRACE_OUTPUT_TABLE`
pub data Output : Type 0 where
  file table : Output

-- the variables that the handler reads
pub record Options : Type 0 where
  pub opt_output : Output
  pub opt_file_path : Option Bytes
  pub opt_min_duration_ms : ℕ
  pub opt_mask_passwords : Bool

-- the two outputs, on a state of their own
pub record Outputs (S : Type 0) : Type 0 where
  pub file_writer_write : Bytes → Option Bytes → S → Bool × S
  pub file_writer_reopen : Option Bytes → S → Bool × S
  pub file_writer_close : S → S
  pub table_writer_enqueue : Bytes → S → Bool × S

-- that state, and `status_events_logged`
pub record Logged (S : Type 0) : Type 0 where
  pub status_events_logged : ℕ
  pub outputs : S

unfoldable pub is_query_command : GeneralEvent → Bool
unfolding general_command_is
is_query_command event =
    general_command_is event (codes "Query") || general_command_is event (codes "Execute")

-- the text in `cmdbuf`, of 24 bytes
unfoldable pub cmdbuf : GeneralEvent → Bytes
cmdbuf event = elim (extract_command event.general_query 24) [ none ↦ [] | some cmd ↦ cmd ]

-- the filters on the connection and on the current schema
unfoldable pub fall_back : Option FilterRules → ℕ → Bytes → ℕ → ℕ
fall_back none thread_id current_db allowed = allowed
fall_back (some rules) thread_id current_db allowed =
    if match_connection rules thread_id
    then Cmd.all
    else if ltb 0 (length current_db)
    then bit_or allowed (match_schema rules (some current_db))
    else allowed

unfoldable pub allowed_cmds : Option FilterRules → ℕ → ℕ → StatementState → ℕ
unfolding fall_back
allowed_cmds active_rules thread_id cmd_bit st =
    let allowed = if st.in_statement then st.cmd_mask else 0 in
    if bit_and allowed cmd_bit == 0
    then fall_back active_rules thread_id st.current_db allowed
    else allowed

-- `reset`
unfoldable pub reset : StatementState → StatementState
reset st = record st {
  cmd_mask = 0;
  tables = [];
  tables_truncated = false;
  have_start = false;
  in_statement = false;
}

-- the query as it is logged
unfoldable pub logged_query : Bool → Bytes → Bytes
logged_query opt_mask_passwords query =
    let masked = mask_secrets query in if opt_mask_passwords && masked.1 then masked.0 else query

module _ {W : Type 0} (double : Double W) where
  -- `none` for -1
  unfoldable pub duration_ms : ℕ → StatementState → Option W
  duration_ms now_ns st =
      if st.in_statement && st.have_start
      then some (double.of_ns ((now_ns + 2 ^ 64 - st.start_ns) % 2 ^ 64))
      else none

  -- the test against `opt_min_duration_ms`
  unfoldable pub is_too_short : ℕ → Option W → Bool
  is_too_short opt_min_duration_ms duration =
      ltb 0 opt_min_duration_ms
      && elim duration [ none ↦ true | some d ↦ double.below d opt_min_duration_ms ]

  unfoldable pub entry : Options → Bytes → Option W → StatementState → StatusEvent → Entry W
  unfolding cmdbuf logged_query
  entry options ts duration st event = record {
    ts = ts;
    thread_id = event.general_thread_id;
    local_seq = st.local_seq;
    user_host = event.general_user ++ (b'@' ∷ event.general_host);
    db = st.current_db;
    tables = if st.in_statement then st.tables else [];
    tables_truncated = st.tables_truncated;
    command = cmdbuf event.general;
    duration_ms = duration;
    error_code = event.general_error_code;
    query = logged_query options.opt_mask_passwords event.general.general_query;
  }

  module _ {S : Type 0} (to : Outputs S) where
    -- `status_events_logged++` for an output that took the text
    unfoldable pub count_logged : ℕ → Bool × S → Logged S
    count_logged n (ok, s) = record {
      status_events_logged = if ok then (n + 1) % 2 ^ 64 else n;
      outputs = s;
    }

    unfoldable pub emit : Options → Entry W → Logged S → Logged S
    unfolding count_logged
    emit options e log = count_logged log.status_events_logged (elim options.opt_output [
      | file ↦ to.file_writer_write (json_line double e) options.opt_file_path log.outputs
      | table ↦ to.table_writer_enqueue (insert_statement double e) log.outputs
    ])

    -- the statement's command is allowed
    unfoldable pub report : Options → Bytes → ℕ → StatementState → StatusEvent → Logged S → Logged S
    unfolding duration_ms is_too_short entry emit
    report options ts now_ns st event log =
        let duration = duration_ms now_ns st in
        if is_too_short options.opt_min_duration_ms duration
        then log
        else emit options (entry options ts duration st event) log

    unfoldable pub handle_status_event :
        Option FilterRules
        → Options
        → Bytes
        → ℕ
        → StatementState
        → StatusEvent
        → Logged S
        → StatementState × Logged S
    unfolding is_query_command allowed_cmds report reset cmdbuf
    handle_status_event active_rules options ts now_ns st event log =
        let tracked = track_current_db st event.general in
        let cmd_bit = command_bit (cmdbuf event.general) in
        let allowed = allowed_cmds active_rules event.general_thread_id cmd_bit tracked in
        if not (is_query_command event.general)
        then (tracked, log)
        else if bit_and allowed cmd_bit == 0
        then (reset tracked, log)
        else (reset tracked, report options ts now_ns tracked event log)
