-- ===== src/Plugin/Status/Traced.antt =====
-- One statement from its start to its end, and what the texts of the filter variables say of it.
use mysql_selective_trace_pl.Common.{
  ℕ, ◌+◌, ◌-◌, ◌%◌, ◌^◌, ◌<◌, ◌≡◌, refl, sym, ap, ◌∙◌, ◌↔◌, ◌⊎◌, inl, inr, true, Option, some, List,
  length, Any, Bytes, iff_trans, or_absurd_left,
}
use mathlib.Core.Path.{subst}
use mysql_selective_trace_pl.Common.Bits.{HasBit, not_HasBit-zero}
use mysql_selective_trace_pl.Engine.Rules.{FilterRules}
use mysql_selective_trace_pl.Engine.Command.{command_bit}
use mysql_selective_trace_pl.Plugin.Statement.{
  StatementState, current_db_buf, track_current_db, state_begin_statement,
}
use mysql_selective_trace_pl.Plugin.Statement.Schema.{track_current_db-Tracks}
use mysql_selective_trace_pl.Plugin.Filters.{Filters}
use mysql_selective_trace_pl.Plugin.Filters.Current.{IsCurrent}
use mysql_selective_trace_pl.Plugin.Filters.Meaning.{Answers, IsCurrent-Answers}
use mysql_selective_trace_pl.Plugin.Output.{Double}
use mysql_selective_trace_pl.Plugin.Status.{
  StatusEvent, Options, Outputs, Logged, is_query_command, cmdbuf, duration_ms, entry, emit,
  handle_status_event,
}
use mysql_selective_trace_pl.Plugin.Status.Allowed.{table_cmds}
use mysql_selective_trace_pl.Plugin.Status.Outcome.{
  idle, IsAllowed, IsLongEnough, handle_status_event_cases,
}
use mysql_selective_trace_pl.Plugin.Status.Accesses.{accesses, accesses-Continues, accesses-mask}
use mysql_selective_trace_pl.Plugin.Status.Selected.{
  or_iff, Any-iff, Grants-iff, FallsBack-iff, SelectsAccess, Selects,
}

module _ {W : Type 0} (double : Double W) {S : Type 0} (to : Outputs S) (options : Options)
    (ts : Bytes) (start now_ns : ℕ) (before : StatementState) (accs : List (Bytes × Bytes))
    (event : StatusEvent) where
  -- the state when the statement's end is reported
  abbrev pub accessed : Option FilterRules → StatementState
  accessed active_rules =
      accesses active_rules now_ns (state_begin_statement start before true) accs

  -- the same, behind the tracker of the current schema
  abbrev pub ended : Option FilterRules → StatementState
  ended active_rules = track_current_db (accessed active_rules) event.general

  -- the time between the two, as the code computes it
  abbrev pub lasted : W
  lasted = double.of_ns ((now_ns + 2 ^ 64 - start) % 2 ^ 64)

  -- the state and the log behind the statement
  abbrev pub closed : Option FilterRules → Logged S → StatementState × Logged S
  closed active_rules log =
      handle_status_event double to active_rules options ts now_ns (accessed active_rules) event log

  -- What the texts and the time say is what happens.
  abbrev pub IsTraced : Filters → ℕ → Option FilterRules → Logged S → Type 0
  IsTraced f k active_rules log =
      let st = ended active_rules in
      let selected = Selects f k accs event.general_thread_id st.current_db in
      let long = IsLongEnough double options.opt_min_duration_ms (some lasted) in
      (selected
        × long
        × (closed active_rules log ≡ (
          idle st,
          emit double to options (entry double options ts (some lasted) st event) log,
        )))
      ⊎ ((¬ (selected × long)) × (closed active_rules log ≡ (idle st, log)))

  begun : (state_begin_statement start before true).in_statement ≡ true
  unfolding state_begin_statement
  begun = refl

  begun_mask : (state_begin_statement start before true).cmd_mask ≡ 0
  unfolding state_begin_statement
  begun_mask = refl

  ended_fields :
      (rules : FilterRules)
      → length before.current_db < current_db_buf
      → ((ended (some rules)).in_statement ≡ true)
        × ((ended (some rules)).cmd_mask ≡ (accessed (some rules)).cmd_mask)
        × (duration_ms double now_ns (ended (some rules)) ≡ some lasted)
  unfolding duration_ms state_begin_statement
  ended_fields rules fits =
      let st = ended (some rules) in
      let steps =
        accesses-Continues rules now_ns (state_begin_statement start before true) accs begun in
      let small : length (accessed (some rules)).current_db < current_db_buf =
        subst (λ (db : Bytes). length db < current_db_buf)
          (sym (ap (λ (s : StatementState). s.current_db) steps)) fits in
      let tracks = (track_current_db-Tracks (accessed (some rules)) event.general small).0 in
      let in_statement =
        ap (λ (s : StatementState). s.in_statement) tracks
        ∙ ap (λ (s : StatementState). s.in_statement) steps in
      let have_start =
        ap (λ (s : StatementState). s.have_start) tracks
        ∙ ap (λ (s : StatementState). s.have_start) steps in
      let start_ns =
        ap (λ (s : StatementState). s.start_ns) tracks
        ∙ ap (λ (s : StatementState). s.start_ns) steps in
      (
        in_statement,
        ap (λ (s : StatementState). s.cmd_mask) tracks,
        rw (in_statement, have_start, start_ns),
      )

  IsAllowed-iff :
      (f : Filters) (rules : FilterRules) (k : ℕ)
      → Answers f rules
      → length before.current_db < current_db_buf
      → IsAllowed rules event k (ended (some rules))
        ↔ Selects f k accs event.general_thread_id (ended (some rules)).current_db
  IsAllowed-iff f rules k a fits =
      let st = ended (some rules) in
      let (in_statement, mask, _) = ended_fields rules fits in
      let cmds : table_cmds st ≡ (accessed (some rules)).cmd_mask = rw in_statement mask in
      let no_bit : ¬ HasBit k (state_begin_statement start before true).cmd_mask =
        λ h. not_HasBit-zero k (subst (HasBit k) begun_mask h) in
      let by_table : HasBit k (accessed (some rules)).cmd_mask ↔ Any (SelectsAccess f k) accs =
        iff_trans
          (accesses-mask rules now_ns (state_begin_statement start before true) accs k begun)
          (iff_trans (or_absurd_left no_bit) (Any-iff accs (Grants-iff f rules k a))) in
      or_iff (subst (λ m. HasBit k m ↔ Any (SelectsAccess f k) accs) (sym cmds) by_table)
        (FallsBack-iff f rules k event.general_thread_id st.current_db a)

  IsTraced-under :
      (f : Filters) (rules : FilterRules) (k : ℕ) (log : Logged S)
      → Answers f rules
      → length before.current_db < current_db_buf
      → is_query_command event.general ≡ true
      → k < 32
      → command_bit (cmdbuf event.general) ≡ 2 ^ k
      → IsTraced f k (some rules) log
  IsTraced-under f rules k log a fits query small has_bit =
      let st = ended (some rules) in
      let (_, _, lasts) = ended_fields rules fits in
      let (told, tell) = IsAllowed-iff f rules k a fits in
      let long : IsLongEnough double options.opt_min_duration_ms (duration_ms double now_ns st)
          → IsLongEnough double options.opt_min_duration_ms (some lasted) =
        subst (IsLongEnough double options.opt_min_duration_ms) lasts in
      let short : IsLongEnough double options.opt_min_duration_ms (some lasted)
          → IsLongEnough double options.opt_min_duration_ms (duration_ms double now_ns st) =
        subst (IsLongEnough double options.opt_min_duration_ms) (sym lasts) in
      elim (handle_status_event_cases double to options ts now_ns rules k (accessed (some rules))
        event log small has_bit) [
          | inl (other, _) ↦ cc
          | inr (inl (_, refused, after)) ↦ inr ((λ h. refused (tell h.0, short h.1)), after)
          | inr (inr (_, allowed, enough, after)) ↦ inl (
            told allowed,
            long enough,
            after
                ∙ ap
                    (λ d.
                      (idle st, emit double to options (entry double options ts d st event) log))
                    lasts,
          )
        ]

  -- For a statement of a connection whose state is any with a current schema that fits in its buffer:
  -- its start is reported, then its table accesses, then its end, as a query whose command has the
  -- bit `k`. If the rules in force are those of the texts that the filter variables show, then in
  -- the end the statement is closed. Its entry, with the time between start and end, is handed to
  -- the output that is set, once, if these texts select one of the accesses, the connection, or the
  -- current schema, and if it lasted long enough; and if not, nothing is handed over or counted.
  pub statement-IsTraced :
      (f : Filters) (k : ℕ) (log : Logged S)
      → IsCurrent f
      → length before.current_db < current_db_buf
      → is_query_command event.general ≡ true
      → k < 32
      → command_bit (cmdbuf event.general) ≡ 2 ^ k
      → IsTraced f k f.active_rules log
  statement-IsTraced f k log v fits query small has_bit =
      subst (λ active. IsTraced f k active log) (sym v.active)
        (IsTraced-under f v.rules k log (IsCurrent-Answers f v) fits query small has_bit)
