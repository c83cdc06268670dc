-- ===== src/TableWriter/Interleaved.antt =====
-- The users' threads and the writer thread of src/log_writer_table_mysql.cc together, in any order.
use mysql_selective_trace_pl.Common.{
  ◌≡◌, refl, sym, ap, ◌∙◌, inl, inr, Bool, true, false, not, ◌&&◌, none, some, List, [], ◌∷◌, ◌++◌,
  append-nil, append_assoc, if◌then◌else◌, Bool-cases, is_nil, Bytes,
}
use mysql_selective_trace_pl.TableWriter.{Writer, Server, write_event, write_batch}
use mysql_selective_trace_pl.TableWriter.Release.{finish}
use mysql_selective_trace_pl.TableWriter.Queue.{
  State, table_writer_enqueue, waiting, enqueue-waiting, swap-waiting,
}
use mysql_selective_trace_pl.TableWriter.Thread.{
  Phase, at_queue, in_batch, ended, System, writer_step,
}
use mysql_selective_trace_pl.TableWriter.Ending.{system, rest_of, step-idle, step-take}

module _ (server : Server) where
  -- one step of the writer thread, if it does not wait
  abbrev pub advance : System → System
  advance s = elim (writer_step server s) [ none ↦ s | some next ↦ next ]

  -- the event that the step hands to an insert
  abbrev pub inserted_by : Phase → List Bytes
  inserted_by at_queue = []
  inserted_by (in_batch [] stopping) = []
  inserted_by (in_batch (sql ∷ batch) stopping) = sql ∷ []
  inserted_by ended = []

  -- one event, if it was accepted
  abbrev pub accepted_by : Bool × State → Bytes → List Bytes
  accepted_by r sql = if r.0 then sql ∷ [] else []

  -- What is reached from a system, with the events that were accepted and those that were handed to
  -- an insert on the way, in order: a user's thread offers an event, a shutdown asks the writer
  -- thread to stop, or the writer thread makes a step.
  pub data Reaches (first : System) : List Bytes → List Bytes → System → Type 0 where
    here : Reaches first [] [] first
    offer :
        (created has_memory : Bool) (sql : Bytes) (accepted inserted : List Bytes) (s : System)
        → Reaches first accepted inserted s
        → Reaches first
            (accepted ++ accepted_by (table_writer_enqueue created has_memory sql s.queue) sql)
            inserted
            (record s { queue = (table_writer_enqueue created has_memory sql s.queue).1 })
    ask_stop :
        (accepted inserted : List Bytes) (s : System)
        → Reaches first accepted inserted s
        → Reaches first accepted inserted
            (record s { queue = record s.queue { stop_requested = true } })
    work :
        (accepted inserted : List Bytes) (s : System)
        → Reaches first accepted inserted s
        → Reaches first accepted (inserted ++ inserted_by s.phase) (advance s)

  -- the events that are not yet handed over
  abbrev pub left_of : System → List Bytes
  left_of s = rest_of server s.phase ++ waiting s.queue

  at_queue-left :
      (q : State) (w : Writer)
      → left_of (advance (system q w at_queue)) ≡ left_of (system q w at_queue)
  unfolding writer_step
  at_queue-left q w = elim (Bool-cases (is_nil (waiting q) && not q.stop_requested)) [
    | inl e ↦ rw (step-idle server q w e) refl
    | inr e ↦ rw (step-take server q w e) (swap-waiting q)
  ]

  advance-left :
      (phase : Phase) (q : State) (w : Writer)
      → left_of (system q w phase) ≡ inserted_by phase ++ left_of (advance (system q w phase))
  unfolding writer_step
  advance-left at_queue q w = sym (at_queue-left q w)
  advance-left (in_batch [] true) q w = refl
  advance-left (in_batch [] false) q w = refl
  advance-left (in_batch (sql ∷ batch) stopping) q w = refl
  advance-left ended q w = refl

  -- The accounts of the events.
  inserted-left :
      (first s : System) (accepted inserted : List Bytes)
      → Reaches first accepted inserted s
      → left_of first ++ accepted ≡ inserted ++ left_of s
  inserted-left first s accepted inserted here = append-nil (left_of first)
  inserted-left first s accepted inserted (offer created has_memory sql acc ins t r) =
      let got = table_writer_enqueue created has_memory sql t.queue in
      let taken = accepted_by got sql in
      let entered = enqueue-waiting created has_memory sql t.queue in
      let rest = rest_of server t.phase in
      sym (append_assoc (left_of first) acc taken)
      ∙ ap (λ l. l ++ taken) (inserted-left first t acc ins r)
      ∙ append_assoc ins (left_of t) taken
      ∙ ap (λ l. ins ++ l)
          (append_assoc rest (waiting t.queue) taken ∙ ap (λ l. rest ++ l) (sym entered))
  inserted-left first s accepted inserted (ask_stop acc ins t r) = inserted-left first t acc ins r
  inserted-left first s accepted inserted (work acc ins t r) =
      inserted-left first t acc ins r
      ∙ ap (λ l. ins ++ l) (advance-left t.phase t.queue t.writer)
      ∙ sym (append_assoc ins (inserted_by t.phase) (left_of (advance t)))

  write_batch-append :
      (a b : List Bytes) (w : Writer)
      → write_batch server (a ++ b) w ≡ write_batch server b (write_batch server a w)
  unfolding write_batch
  write_batch-append [] b w = refl
  write_batch-append (sql ∷ a) b w = write_batch-append a b (write_event server sql w)

  abbrev pub has_ended : Phase → Bool
  has_ended at_queue = false
  has_ended (in_batch batch stopping) = false
  has_ended ended = true

  -- The writer's variables and calls after it was given these events, one after the other, and, if
  -- the thread has returned, then closed its connection and gave back its services.
  abbrev pub after_inserts : Phase → List Bytes → Writer → Writer
  after_inserts phase inserted w =
      if has_ended phase
      then finish server (write_batch server inserted w)
      else write_batch server inserted w

  queue_step-writer :
      (q : State) (w : Writer)
      → ((advance (system q w at_queue)).writer ≡ w)
        × (has_ended (advance (system q w at_queue)).phase ≡ false)
  unfolding writer_step
  queue_step-writer q w = elim (Bool-cases (is_nil (waiting q) && not q.stop_requested)) [
    | inl e ↦ rw (step-idle server q w e) (refl, refl)
    | inr e ↦ rw (step-take server q w e) (refl, refl)
  ]

  advance-writer :
      (first : Writer) (phase : Phase) (q : State) (w : Writer) (inserted : List Bytes)
      → w ≡ after_inserts phase inserted first
      → (advance (system q w phase)).writer
        ≡ after_inserts (advance (system q w phase)).phase (inserted ++ inserted_by phase) first
  unfolding writer_step write_batch
  advance-writer first at_queue q w ins e =
      let (same, on) = queue_step-writer q w in
      same
      ∙ e
      ∙ sym (ap (λ l. write_batch server l first) (append-nil ins))
      ∙ sym (
          ap
            (λ b.
              if b
              then finish server (write_batch server (ins ++ []) first)
              else write_batch server (ins ++ []) first)
            on)
  advance-writer first (in_batch [] true) q w ins e =
      ap (finish server) (e ∙ sym (ap (λ l. write_batch server l first) (append-nil ins)))
  advance-writer first (in_batch [] false) q w ins e =
      e ∙ sym (ap (λ l. write_batch server l first) (append-nil ins))
  advance-writer first (in_batch (sql ∷ batch) stopping) q w ins e =
      ap (write_event server sql) e ∙ sym (write_batch-append ins (sql ∷ []) first)
  advance-writer first ended q w ins e =
      e ∙ sym (ap (λ l. finish server (write_batch server l first)) (append-nil ins))

  inserted-writer :
      (first s : System) (accepted inserted : List Bytes)
      → has_ended first.phase ≡ false
      → Reaches first accepted inserted s
      → s.writer ≡ after_inserts s.phase inserted first.writer
  unfolding write_batch
  inserted-writer first s accepted inserted on here = sym (
      ap
        (λ b.
          if b
          then finish server (write_batch server [] first.writer)
          else write_batch server [] first.writer)
        on)
  inserted-writer first s accepted inserted on (offer created has_memory sql acc ins t r) =
      inserted-writer first t acc ins on r
  inserted-writer first s accepted inserted on (ask_stop acc ins t r) =
      inserted-writer first t acc ins on r
  inserted-writer first s accepted inserted on (work acc ins t r) =
      advance-writer first.writer t.phase t.queue t.writer ins
        (inserted-writer first t acc ins on r)

  -- From a system whose writer thread has not returned, in every order of users' calls, steps of the
  -- writer thread and a request to stop: the events that were there at first and those accepted since
  -- are, in this order, a list of events that were inserted followed by those that are left; and the
  -- writer's calls and variables are exactly those after the insert of each event of that list, one
  -- after the other, and then, if the thread has returned, the closing of the connection and the
  -- release of the services. So none is inserted twice, out of order, or without being accepted, and
  -- none is lost before the queue is deleted.
  pub Reaches-left :
      (first s : System) (accepted inserted : List Bytes)
      → has_ended first.phase ≡ false
      → Reaches first accepted inserted s
      → (left_of first ++ accepted ≡ inserted ++ left_of s)
        × (s.writer ≡ after_inserts s.phase inserted first.writer)
  Reaches-left first s accepted inserted on r =
      (inserted-left first s accepted inserted r, inserted-writer first s accepted inserted on r)
