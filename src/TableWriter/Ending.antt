-- ===== src/TableWriter/Ending.antt =====
-- The writer thread hands every waiting event to an insert, and returns once it is asked to.
use mysql_selective_trace_pl.Common.{
  ℕ, zero, suc, ◌+◌, ◌<◌, ◌≡◌, refl, sym, ap, inl, inr, Bool, true, false, not, ◌&&◌, Option, none,
  some, List, [], ◌∷◌, arith, if◌then◌else◌, Bool-cases, if_split, Option-cases, length, is_nil,
  Bytes,
}
use mathlib.Core.Path.{subst, ap₂}
use mysql_selective_trace_pl.TableWriter.Release.{finish}
use mysql_selective_trace_pl.TableWriter.{Writer, Server, write_event, write_batch}
use mysql_selective_trace_pl.TableWriter.Queue.{State, swap_batch, waiting}
use mysql_selective_trace_pl.TableWriter.Thread.{
  Phase, at_queue, in_batch, ended, System, writer_step, run_thread,
}

-- a system with the given parts
abbrev pub system : State → Writer → Phase → System
system queue writer phase = record { queue = queue; writer = writer; phase = phase }

swap_rest : (q : State) → waiting (swap_batch q).1 ≡ []
unfolding swap_batch
swap_rest q = at q.queue refl
  where
    at : (o : Option (List Bytes)) → q.queue ≡ o → waiting (swap_batch q).1 ≡ []
    at none e = simp (waiting, swap_batch, e) refl
    at (some events) e = simp (waiting, swap_batch, e) refl

swap_taken : (q : State) → (swap_batch q).0 ≡ waiting q
unfolding swap_batch
swap_taken q = elim (Option-cases q.queue) [ inl e ↦ rw e refl | inr (events, e) ↦ rw e refl ]

swap_stop : (q : State) → (swap_batch q).1.stop_requested ≡ q.stop_requested
unfolding swap_batch
swap_stop q = elim (Option-cases q.queue) [ inl e ↦ rw e refl | inr (events, e) ↦ rw e refl ]

module _ (server : Server) where
  -- the thread waits only if there is nothing to do
  pub step-idle :
      (q : State) (w : Writer)
      → (is_nil (waiting q) && not q.stop_requested) ≡ true
      → writer_step server (system q w at_queue) ≡ none
  unfolding writer_step
  step-idle q w e =
      let (batch, queue) = swap_batch q in
      if_split (λ (r : Option System). r ≡ none) (is_nil (waiting q) && not q.stop_requested)
        {x = none} {y = some (system queue w (in_batch batch q.stop_requested))} (λ _. refl)
        (λ f. cc)

  pub step-take :
      (q : State) (w : Writer)
      → (is_nil (waiting q) && not q.stop_requested) ≡ false
      → writer_step server (system q w at_queue)
        ≡ some (system (swap_batch q).1 w (in_batch (swap_batch q).0 q.stop_requested))
  unfolding writer_step
  step-take q w e =
      let (batch, queue) = swap_batch q in
      let next = some (system queue w (in_batch batch q.stop_requested)) in
      if_split (λ (r : Option System). r ≡ next) (is_nil (waiting q) && not q.stop_requested)
        {x = none} {y = next} (λ f. cc) (λ _. refl)

  run-step :
      (fuel : ℕ) (s next : System)
      → writer_step server s ≡ some next
      → run_thread server (suc fuel) s ≡ run_thread server fuel next
  unfolding run_thread
  run-step fuel s next e = rw (run_thread, e) refl

  run-idle : (fuel : ℕ) (s : System) → writer_step server s ≡ none → run_thread server fuel s ≡ s
  unfolding run_thread
  run-idle zero s e = refl
  run-idle (suc fuel) s e = rw (run_thread, e) refl

  -- The rest of a batch behind which the thread stops.
  run-last :
      (fuel : ℕ) (batch : List Bytes) (q : State) (w : Writer)
      → length batch < fuel
      → run_thread server fuel (system q w (in_batch batch true))
        ≡ system q (finish server (write_batch server batch w)) ended
  unfolding run_thread writer_step write_batch
  run-last zero batch q w h = absurd (omega arith)
  run-last (suc fuel) [] q w h = run-idle fuel (system q (finish server w) ended) refl
  run-last (suc fuel) (sql ∷ batch) q w h =
      run-last fuel batch q (write_event server sql w) (omega arith)

  -- The rest of a batch behind which nothing waits.
  run-through :
      (fuel : ℕ) (batch : List Bytes) (q : State) (w : Writer)
      → (is_nil (waiting q) && not q.stop_requested) ≡ true
      → length batch < fuel
      → run_thread server fuel (system q w (in_batch batch false))
        ≡ system q (write_batch server batch w) at_queue
  unfolding run_thread writer_step write_batch
  run-through zero batch q w e h = absurd (omega arith)
  run-through (suc fuel) [] q w e h = run-idle fuel (system q w at_queue) (step-idle q w e)
  run-through (suc fuel) (sql ∷ batch) q w e h =
      run-through fuel batch q (write_event server sql w) e (omega arith)

  -- The writer did its work, nothing waits, and the thread waits, or has returned if it is to stop.
  abbrev pub Drained : Bool → Writer → System → Type 0
  Drained stop w r =
      (r.phase ≡ (if stop then ended else at_queue))
      × (r.writer ≡ (if stop then finish server w else w))
      × (waiting r.queue ≡ [])

  taken-Drained :
      (stop : Bool) (fuel : ℕ) (batch : List Bytes) (q : State) (w : Writer)
      → waiting q ≡ []
      → q.stop_requested ≡ stop
      → length batch < fuel
      → Drained stop
          (write_batch server batch w)
          (run_thread server fuel (system q w (in_batch batch stop)))
  taken-Drained true fuel batch q w none_left stops h =
      subst (Drained true (write_batch server batch w)) (sym (run-last fuel batch q w h))
        (refl, refl, none_left)
  taken-Drained false fuel batch q w none_left goes_on h =
      let test : (is_nil (waiting q) && not q.stop_requested) ≡ true =
        ap₂ (λ (xs : List Bytes) b. is_nil xs && not b) none_left goes_on in
      subst (Drained false (write_batch server batch w)) (sym (run-through fuel batch q w test h))
        (refl, refl, none_left)

  idle-Drained :
      (stop : Bool) (events : List Bytes) (fuel : ℕ) (q : State) (w : Writer)
      → waiting q ≡ events
      → q.stop_requested ≡ stop
      → (is_nil events && not stop) ≡ true
      → Drained stop (write_batch server events w) (run_thread server fuel (system q w at_queue))
  unfolding write_batch
  idle-Drained true [] fuel q w none_left stops e = cc
  idle-Drained stop (sql ∷ events) fuel q w left stops e = cc
  idle-Drained false [] fuel q w none_left goes_on e =
      let test : (is_nil (waiting q) && not q.stop_requested) ≡ true =
        ap₂ (λ (xs : List Bytes) b. is_nil xs && not b) none_left goes_on in
      subst (Drained false w) (sym (run-idle fuel (system q w at_queue) (step-idle q w test)))
        (refl, refl, none_left)

  take-Drained :
      (fuel : ℕ) (q : State) (w : Writer)
      → length (waiting q) + 1 < fuel
      → Drained q.stop_requested
          (write_batch server (waiting q) w)
          (run_thread server fuel (system q w at_queue))
  take-Drained zero q w h = absurd (omega arith)
  take-Drained (suc fuel) q w h = elim (Bool-cases (is_nil (waiting q) && not q.stop_requested)) [
    | inl e ↦ idle-Drained q.stop_requested (waiting q) (suc fuel) q w refl refl e
    | inr e ↦
        (let (batch, queue) = swap_batch q in
          let small : length batch < fuel = omega (arith, ap length (swap_taken q)) in
          let done =
            taken-Drained q.stop_requested fuel batch queue w (swap_rest q) (swap_stop q) small in
          subst (λ (r : System). Drained q.stop_requested (write_batch server (waiting q) w) r)
            (sym (run-step fuel (system q w at_queue) _ (step-take q w e)))
            (subst
              (λ b.
                Drained q.stop_requested (write_batch server b w)
                  (run_thread server fuel (system queue w (in_batch batch q.stop_requested))))
              (swap_taken q) done))
  ]

  batch-Drained :
      (batch : List Bytes) (fuel : ℕ) (q : State) (w : Writer)
      → length batch + length (waiting q) + 2 < fuel
      → Drained q.stop_requested
          (write_batch server (waiting q) (write_batch server batch w))
          (run_thread server fuel (system q w (in_batch batch false)))
  unfolding run_thread writer_step write_batch
  batch-Drained batch zero q w h = absurd (omega arith)
  batch-Drained [] (suc fuel) q w h = take-Drained fuel q w (omega arith)
  batch-Drained (sql ∷ batch) (suc fuel) q w h =
      batch-Drained batch fuel q (write_event server sql w) (omega arith)

  -- the rest of the batch that the thread is in
  abbrev pub rest_of : Phase → List Bytes
  rest_of at_queue = []
  rest_of (in_batch batch stopping) = batch
  rest_of ended = []

  -- the thread will look at the queue again
  abbrev pub looks_again : Phase → Bool
  looks_again at_queue = true
  looks_again (in_batch batch stopping) = not stopping
  looks_again ended = false

  -- If the writer thread has not yet read that it is to stop, then left to itself, after as many steps
  -- as events are left and three more, it has handed the rest of its batch and then every event that
  -- waits to an insert, each once and in order, and nothing waits. If a stop was requested, it has
  -- then closed its connection, given back its services and returned; if not, it waits for the signal.
  pub run_thread-Drained :
      (phase : Phase) (fuel : ℕ) (q : State) (w : Writer)
      → looks_again phase ≡ true
      → length (rest_of phase) + length (waiting q) + 2 < fuel
      → Drained q.stop_requested
          (write_batch server (waiting q) (write_batch server (rest_of phase) w))
          (run_thread server fuel (system q w phase))
  unfolding write_batch
  run_thread-Drained at_queue fuel q w again h = take-Drained fuel q w (omega arith)
  run_thread-Drained (in_batch batch false) fuel q w again h = batch-Drained batch fuel q w h
  run_thread-Drained (in_batch batch true) fuel q w again h = cc
  run_thread-Drained ended fuel q w again h = cc
