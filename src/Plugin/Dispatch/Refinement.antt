-- ===== src/Plugin/Dispatch/Refinement.antt =====
-- The map with entries that come and go implements one state for every THD.
use mysql_selective_trace_pl.Common.{
  ℕ, ◌≡◌, refl, ap, ◌∙◌, inl, inr, Bool, true, false, not, ◌&&◌, ◌||◌, Option, none, some, List, [],
  ◌∷◌, ◌==◌, if◌then◌else◌, ==_iff, if_split, Option-cases, Bytes,
}
use mathlib.Core.Path.{fun_ext}
use mysql_selective_trace_pl.Plugin.Statement.{
  StatementState, state_begin_statement, handle_table_access_event,
}
use mysql_selective_trace_pl.Plugin.Output.{Double}
use mysql_selective_trace_pl.Plugin.Status.{Outputs, Logged, handle_status_event}
use mysql_selective_trace_pl.Plugin.Dispatch.{
  StateMap, AuditEvent, general_log, general_other, connection_disconnect, connection_other,
  other_class, general_status, table_access, Notice, Plugin, notify_impl, dispatch,
  selective_trace_notify, update_file_path,
}
use mysql_selective_trace_pl.Plugin.Dispatch.Store.{
  IsMap, state_of, updated, set_at, updated_states, forgotten_states, updated-IsMap,
  forget_state-IsMap,
}
use mysql_selective_trace_pl.Plugin.Dispatch.Sessions.{
  Sessions, sessions, Step, notice, set_variables, set_file_path, session_event, is_cleanup,
  session_notify, session_run, step, run,
}

module _ {W : Type 0} (double : Double W) {S : Type 0} (to : Outputs S) where
  same_at : (m : StateMap) (thd t : ℕ) → state_of m t ≡ set_at thd (state_of m thd) (state_of m) t
  same_at m thd t =
      if_split (λ (r : StatementState). state_of m t ≡ r) (t == thd) {x = state_of m thd}
        {y = state_of m t} (λ e. ap (state_of m) ((==_iff t thd).0 e)) (λ e. refl)

  -- the plugin with another map and log, seen as sessions
  abbrev with_states : Plugin S → (ℕ → StatementState) → Logged S → Sessions S
  with_states p states log = record (sessions p) { states = states; log = log }

  put :
      (thd : ℕ) (p : Plugin S) (st : StatementState) (log : Logged S)
      → sessions (record p { state_map = updated thd st p.state_map; log = log })
        ≡ with_states p (set_at thd st (state_of p.state_map)) log
  put thd p st log =
      ap (λ states. with_states p states log) (fun_ext (updated_states p.state_map thd st))

  same :
      (thd : ℕ) (p : Plugin S)
      → sessions p
        ≡ with_states p (set_at thd (state_of p.state_map thd) (state_of p.state_map)) p.log
  same thd p = ap (λ states. with_states p states p.log) (fun_ext (same_at p.state_map thd))

  if_same :
      (enabled : Bool) (p q : Plugin S) (s : Sessions S)
      → sessions q ≡ s
      → sessions (if enabled then q else p) ≡ (if enabled || false then s else sessions p)
  if_same true p q s e = e
  if_same false p q s e = refl

  kept :
      (b : Bool) (p q : Plugin S)
      → IsMap p.state_map
      → IsMap q.state_map
      → IsMap (if b then q else p).state_map
  kept true p q h k = k
  kept false p q h k = h

  unchanged :
      (enabled : Bool) (thd : ℕ) (p : Plugin S)
      → sessions p ≡ (
          if enabled || false
          then with_states p (set_at thd (state_of p.state_map thd) (state_of p.state_map)) p.log
          else sessions p)
  unchanged true thd p = same thd p
  unchanged false thd p = refl

  or_true : (b : Bool) → (b || true) ≡ true
  or_true true = refl
  or_true false = refl

  dispatch-sessions :
      (ts : Bytes) (now_ns thd : ℕ) (event : AuditEvent) (p : Plugin S)
      → IsMap p.state_map
      → sessions (dispatch double to ts now_ns thd event p) ≡ (
          if p.opt_enabled || is_cleanup double to event
          then (let (st, log) =
                session_event double to (sessions p) ts now_ns event (state_of p.state_map thd) in
              with_states p (set_at thd st (state_of p.state_map)) log)
          else sessions p)
  unfolding dispatch notify_impl
  dispatch-sessions ts now_ns thd connection_disconnect p h = rw (or_true p.opt_enabled) (
      ap (λ states. with_states p states p.log)
        (fun_ext (λ t. forgotten_states p.state_map thd t h)))
  dispatch-sessions ts now_ns thd connection_other p h = unchanged p.opt_enabled thd p
  dispatch-sessions ts now_ns thd general_other p h = if_same p.opt_enabled p _ _ (same thd p)
  dispatch-sessions ts now_ns thd other_class p h = if_same p.opt_enabled p _ _ (same thd p)
  dispatch-sessions ts now_ns thd general_log p h =
      if_same p.opt_enabled p _ _
        (put thd p (state_begin_statement now_ns (state_of p.state_map thd) true) p.log)
  dispatch-sessions ts now_ns thd (general_status event) p h =
      let (st, log) =
        handle_status_event double to p.active_rules p.options ts now_ns (state_of p.state_map thd)
          event p.log in
      if_same p.opt_enabled p _ _ (put thd p st log)
  dispatch-sessions ts now_ns thd (table_access db tbl) p h = if_same p.opt_enabled p _ _ (
      put thd p (handle_table_access_event p.active_rules now_ns (state_of p.state_map thd) db tbl)
        p.log)

  dispatch-IsMap :
      (ts : Bytes) (now_ns thd : ℕ) (event : AuditEvent) (p : Plugin S)
      → IsMap p.state_map
      → IsMap (dispatch double to ts now_ns thd event p).state_map
  unfolding dispatch notify_impl
  dispatch-IsMap ts now_ns thd connection_disconnect p h = forget_state-IsMap p.state_map thd h
  dispatch-IsMap ts now_ns thd connection_other p h = h
  dispatch-IsMap ts now_ns thd general_other p h = kept p.opt_enabled p p h h
  dispatch-IsMap ts now_ns thd other_class p h = kept p.opt_enabled p p h h
  dispatch-IsMap ts now_ns thd general_log p h =
      kept p.opt_enabled p _ h (updated-IsMap p.state_map thd _ h)
  dispatch-IsMap ts now_ns thd (general_status event) p h =
      kept p.opt_enabled p _ h (updated-IsMap p.state_map thd _ h)
  dispatch-IsMap ts now_ns thd (table_access db tbl) p h =
      kept p.opt_enabled p _ h (updated-IsMap p.state_map thd _ h)

  pub notify-IsMap :
      (n : Notice) (p : Plugin S)
      → IsMap p.state_map
      → IsMap (selective_trace_notify double to n p).state_map
  unfolding selective_trace_notify
  notify-IsMap n p h = elim (Option-cases n.thd) [
    | inl e ↦ rw e h
    | inr (thd, e) ↦ rw e (
        kept (not p.plugin_ready) _ p
          (kept n.is_self _ p (dispatch-IsMap n.ts n.now_ns thd n.event p h) h) h)
  ]

  gate :
      (ready self counts : Bool) (p q : Plugin S) (s : Sessions S)
      → sessions q ≡ (if counts then s else sessions p)
      → sessions (if not ready then p else if self then p else q)
        ≡ (if ready && not self && counts then s else sessions p)
  gate true true counts p q s e = refl
  gate true false counts p q s e = e
  gate false self counts p q s e = refl

  notify-sessions_at :
      (o : Option ℕ) (n : Notice) (p : Plugin S)
      → IsMap p.state_map
      → sessions (elim o [
        | none ↦ p
        | some thd ↦
            if not p.plugin_ready
            then p
            else if n.is_self
            then p
            else dispatch double to n.ts n.now_ns thd n.event p
      ])
        ≡ elim o [
          | none ↦ sessions p
          | some thd ↦
              if p.plugin_ready && not n.is_self && (p.opt_enabled || is_cleanup double to n.event)
              then (let (st, log) =
                    session_event double to
                      (sessions p)
                      n.ts
                      n.now_ns
                      n.event
                      (state_of p.state_map thd) in
                  with_states p (set_at thd st (state_of p.state_map)) log)
              else sessions p
        ]
  notify-sessions_at none n p h = refl
  notify-sessions_at (some thd) n p h =
      gate p.plugin_ready n.is_self (p.opt_enabled || is_cleanup double to n.event) p _ _
        (dispatch-sessions n.ts n.now_ns thd n.event p h)

  notify-sessions :
      (n : Notice) (p : Plugin S)
      → IsMap p.state_map
      → sessions (selective_trace_notify double to n p) ≡ session_notify double to n (sessions p)
  unfolding selective_trace_notify
  notify-sessions n p h = notify-sessions_at n.thd n p h

  -- For every sequence of events and of changes of the variables: if the map has no THD twice, then it
  -- has none afterwards, and the plugin behaves as one that keeps a state for every THD in a
  -- function, which an event of a THD changes at that THD only, and which a disconnect sets back to a
  -- fresh state. The log and its counter are the same.
  pub run-sessions :
      (steps : List Step) (p : Plugin S)
      → IsMap p.state_map
      → IsMap (run double to steps p).state_map
        × (sessions (run double to steps p) ≡ session_run double to steps (sessions p))
  unfolding update_file_path
  run-sessions [] p h = (h, refl)
  run-sessions (notice n ∷ steps) p h =
      let (good, rest) = run-sessions steps (step double to (notice n) p) (notify-IsMap n p h) in
      (good, rest ∙ ap (session_run double to steps) (notify-sessions n p h))
  run-sessions (set_variables enabled rules options ∷ steps) p h =
      run-sessions steps (step double to (set_variables enabled rules options) p) h
  run-sessions (set_file_path save ∷ steps) p h =
      run-sessions steps (step double to (set_file_path save) p) h
