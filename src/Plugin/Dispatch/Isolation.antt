-- ===== src/Plugin/Dispatch/Isolation.antt =====
-- What the events of the other connections leave alone, and what a disconnect leaves behind.
use mysql_selective_trace_pl.Common.{
  ℕ, ◌≡◌, refl, sym, ap, ◌∙◌, ◌≢◌, inl, inr, Bool, true, false, not, none, some, List, [], ◌∷◌,
  if◌then◌else◌, if_cases, Option-cases, All, Bytes,
}
use mysql_selective_trace_pl.Plugin.Output.{Double}
use mysql_selective_trace_pl.Plugin.Status.{Outputs}
use mysql_selective_trace_pl.Plugin.Dispatch.{
  find, AuditEvent, general_log, general_other, connection_disconnect, connection_other,
  other_class, general_status, table_access, Notice, Plugin, notify_impl, dispatch,
  selective_trace_notify, update_file_path,
}
use mysql_selective_trace_pl.Plugin.Dispatch.Store.{
  IsMap, find-updated_other, find-forget_other, find-forget_same,
}
use mysql_selective_trace_pl.Plugin.Dispatch.Sessions.{
  Step, notice, set_variables, set_file_path, step, run,
}

-- not an event of that THD
abbrev pub IsOther : ℕ → Step → Type 0
IsOther t (notice n) = n.thd ≢ some t
IsOther t (set_variables enabled rules options) = Unit
IsOther t (set_file_path save) = Unit

module _ {W : Type 0} (double : Double W) {S : Type 0} (to : Outputs S) where
  kept :
      (t : ℕ) (b : Bool) (p q : Plugin S)
      → find t q.state_map ≡ find t p.state_map
      → find t (if b then q else p).state_map ≡ find t p.state_map
  kept t true p q e = e
  kept t false p q e = refl

  dispatch-find :
      (t : ℕ) (ts : Bytes) (now_ns thd : ℕ) (event : AuditEvent) (p : Plugin S)
      → t ≢ thd
      → find t (dispatch double to ts now_ns thd event p).state_map ≡ find t p.state_map
  unfolding dispatch notify_impl
  dispatch-find t ts now_ns thd connection_disconnect p h = find-forget_other p.state_map thd t h
  dispatch-find t ts now_ns thd connection_other p h = refl
  dispatch-find t ts now_ns thd general_other p h = kept t p.opt_enabled p p refl
  dispatch-find t ts now_ns thd other_class p h = kept t p.opt_enabled p p refl
  dispatch-find t ts now_ns thd general_log p h =
      kept t p.opt_enabled p _ (find-updated_other p.state_map thd t _ h)
  dispatch-find t ts now_ns thd (general_status event) p h =
      kept t p.opt_enabled p _ (find-updated_other p.state_map thd t _ h)
  dispatch-find t ts now_ns thd (table_access db tbl) p h =
      kept t p.opt_enabled p _ (find-updated_other p.state_map thd t _ h)

  notify-find :
      (t : ℕ) (n : Notice) (p : Plugin S)
      → n.thd ≢ some t
      → find t (selective_trace_notify double to n p).state_map ≡ find t p.state_map
  unfolding selective_trace_notify
  notify-find t n p h = elim (Option-cases n.thd) [
    | inl e ↦ rw e refl
    | inr (thd, e) ↦
        (let other : t ≢ thd = λ same. h (e ∙ ap some (sym same)) in
          rw e (
            if_cases (λ (q : Plugin S). find t q.state_map ≡ find t p.state_map)
              (not p.plugin_ready) refl
              (if_cases (λ (q : Plugin S). find t q.state_map ≡ find t p.state_map) n.is_self refl
                (dispatch-find t n.ts n.now_ns thd n.event p other))))
  ]

  -- Whatever events of other THDs and changes of the variables follow each other, the entry of a THD,
  -- or its absence, stays as it is.
  pub run-find :
      (t : ℕ) (steps : List Step) (p : Plugin S)
      → All (IsOther t) steps
      → find t (run double to steps p).state_map ≡ find t p.state_map
  unfolding update_file_path
  run-find t [] p h = refl
  run-find t (notice n ∷ steps) p h =
      run-find t steps (step double to (notice n) p) h.1 ∙ notify-find t n p h.0
  run-find t (set_variables enabled rules options ∷ steps) p h =
      run-find t steps (step double to (set_variables enabled rules options) p) h.1
  run-find t (set_file_path save ∷ steps) p h =
      run-find t steps (step double to (set_file_path save) p) h.1

  disconnect-find :
      (t : ℕ) (n : Notice) (p : Plugin S)
      → IsMap p.state_map
      → p.plugin_ready ≡ true
      → n.is_self ≡ false
      → n.thd ≡ some t
      → n.event ≡ connection_disconnect
      → find t (selective_trace_notify double to n p).state_map ≡ none
  unfolding selective_trace_notify dispatch
  disconnect-find t n p h ready self thd event =
      rw (thd, ready, self, event) (find-forget_same p.state_map t h)

  -- Once a THD's disconnect reached the plugin, it has no entry, whether or not the plugin was enabled
  -- then, and it gets none by events of other THDs or by changes of the variables.
  pub disconnect-run :
      (t : ℕ) (n : Notice) (steps : List Step) (p : Plugin S)
      → IsMap p.state_map
      → p.plugin_ready ≡ true
      → n.is_self ≡ false
      → n.thd ≡ some t
      → n.event ≡ connection_disconnect
      → All (IsOther t) steps
      → find t (run double to (notice n ∷ steps) p).state_map ≡ none
  disconnect-run t n steps p h ready self thd event others =
      run-find t steps (selective_trace_notify double to n p) others
      ∙ disconnect-find t n p h ready self thd event
