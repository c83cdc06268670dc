-- ===== src/Plugin/Status/Outcome.antt =====
-- What `handle_status_event` does on each of its branches.
use mysql_selective_trace_pl.Common.{
  ℕ, ◌^◌, ◌<◌, bit_and, ◌≡◌, sym, ◌∙◌, ◌≢◌, ◌↔◌, ◌⊎◌, inl, inr, true, false, Option, none, some,
  arith, ◌==◌, Bool-cases, Bytes,
}
use mysql_selective_trace_pl.Common.Bits.{HasBit}
use mysql_selective_trace_pl.Engine.Rules.{FilterRules}
use mysql_selective_trace_pl.Engine.Command.{command_bit}
use mysql_selective_trace_pl.Plugin.Statement.{StatementState, fresh_state, track_current_db}
use mysql_selective_trace_pl.Plugin.Output.{Double}
use mysql_selective_trace_pl.Plugin.Status.{
  StatusEvent, Options, Outputs, Logged, is_query_command, cmdbuf, allowed_cmds, reset, duration_ms,
  is_too_short, entry, emit, report, handle_status_event,
}
use mysql_selective_trace_pl.Plugin.Status.Allowed.{table_cmds, FallsBack, allowed_cmds_iff}

-- the statement's command, of bit `k`, is allowed
abbrev pub IsAllowed : FilterRules → StatusEvent → ℕ → StatementState → Type 0
IsAllowed rules event k st =
    HasBit k (table_cmds st) ⊎ FallsBack rules event.general_thread_id st.current_db k

-- a connection between two statements: a fresh one, but for its count, its clock and its schema
abbrev pub idle : StatementState → StatementState
idle st = record fresh_state {
  local_seq = st.local_seq;
  start_ns = st.start_ns;
  current_db = st.current_db;
}

module _ {W : Type 0} (double : Double W) where
  -- No shortest duration is set, or the duration is known and not below it.
  abbrev pub IsLongEnough : ℕ → Option W → Type 0
  IsLongEnough least none = least ≡ 0
  IsLongEnough least (some d) = (least ≡ 0) ⊎ (double.below d least ≡ false)

  true_ne_false : true ≢ false
  true_ne_false e = cc

  is_too_short_iff :
      (least : ℕ) (duration : Option W)
      → (is_too_short double least duration ≡ false) ↔ IsLongEnough least duration
  unfolding is_too_short
  is_too_short_iff least none = (λ h. ground arith, λ h. ground arith)
  is_too_short_iff least (some d) = (λ h. ground arith, λ h. ground arith)

  module _ {S : Type 0} (to : Outputs S) (options : Options) (ts : Bytes) (now_ns : ℕ) where
    report_iff :
        (st : StatementState) (event : StatusEvent) (log : Logged S)
        → (let duration = duration_ms double now_ns st in
            (IsLongEnough options.opt_min_duration_ms duration
              × (report double to options ts now_ns st event log
                  ≡ emit double to options (entry double options ts duration st event) log))
            ⊎ ((¬ IsLongEnough options.opt_min_duration_ms duration)
                × (report double to options ts now_ns st event log ≡ log)))
    unfolding report
    report_iff st event log =
        let duration = duration_ms double now_ns st in
        let (long, short) = is_too_short_iff options.opt_min_duration_ms duration in
        elim (Bool-cases (is_too_short double options.opt_min_duration_ms duration)) [
          | inl e ↦ inr (λ l. absurd (true_ne_false (sym e ∙ short l)), rw e)
          | inr e ↦ inl (long e, rw e)
        ]

    -- For a handler with rules in force and a statement whose command has the bit `k`, with `st` the
    -- connection's state behind the tracker of the current schema: an event that is no query only
    -- leaves `st`; a query that is not allowed, or ran too short, closes the statement and logs
    -- nothing; and a query that is allowed and ran long enough closes the statement and hands its
    -- entry to the output that is set, once.
    pub handle_status_event_cases :
        (rules : FilterRules) (k : ℕ) (before : StatementState) (event : StatusEvent)
        (log : Logged S)
        → k < 32
        → command_bit (cmdbuf event.general) ≡ 2 ^ k
        → (let st = track_current_db before event.general in
            let duration = duration_ms double now_ns st in
            let after =
              handle_status_event double to (some rules) options ts now_ns before event log in
            ((is_query_command event.general ≡ false) × (after ≡ (st, log)))
            ⊎ ((is_query_command event.general ≡ true)
                × (¬ (
                    IsAllowed rules event k st × IsLongEnough options.opt_min_duration_ms duration))
                × (after ≡ (idle st, log)))
            ⊎ ((is_query_command event.general ≡ true)
                × IsAllowed rules event k st
                × IsLongEnough options.opt_min_duration_ms duration
                × (after ≡ (
                  idle st,
                  emit double to options (entry double options ts duration st event) log,
                ))))
    unfolding handle_status_event reset
    handle_status_event_cases rules k before event log small has_bit =
        let st = track_current_db before event.general in
        let allowed = allowed_cmds (some rules) event.general_thread_id (2 ^ k) st in
        let (told, tell) = allowed_cmds_iff rules event.general_thread_id k st small in
        elim (Bool-cases (is_query_command event.general)) [
          | inr other ↦ inl (other, rw (other))
          | inl query ↦ elim (Bool-cases (bit_and allowed (2 ^ k) == 0)) [
            | inl none_left ↦
                inr (inl (query, (λ h. tell h.0 (ground arith)), rw (has_bit, query, none_left)))
            | inr left ↦
                (let is_allowed = told (λ z. ground arith) in
                  elim (report_iff st event log) [
                    | inl (long, same) ↦
                        inr (inr (query, is_allowed, long, rw (has_bit, query, left, same)))
                    | inr (short, same) ↦
                        inr (inl (query, (λ h. short h.1), rw (has_bit, query, left, same)))
                  ])
          ]
        ]
