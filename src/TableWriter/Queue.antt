-- ===== src/TableWriter/Queue.antt =====
-- src/log_writer_table_mysql.cc: the queue in front of the writer thread. Each function holds the
-- lock, so a run is a sequence of them. Whether `pthread_create` succeeds, and whether memory for an
-- entry is there, are arguments.
use mysql_selective_trace_pl.Common.{
  ◌||◌, ℕ, ◌+◌, ◌%◌, ◌^◌, ◌≤◌, ◌≡◌, refl, sym, ap, ◌∙◌, inl, inr, Bool, true, false, Option, none,
  some, List, [], ◌∷◌, ◌++◌, append-nil, append_assoc, arith, leb, if◌then◌else◌, Option-cases,
  length, length-append, Bytes,
}

-- `QUEUE_MAX_EVENTS`
abbrev pub queue_max_events : ℕ
queue_max_events = 10000

pub record State : Type 0 where
  -- `none` for NULL
  pub queue : Option (List Bytes)
  pub thread_running : Bool
  pub stop_requested : Bool
  pub dropped_events : ℕ

-- `table_writer_init`; the argument is whether `new` succeeds
unfoldable pub table_writer_init : Bool → State → State
table_writer_init allocated s = elim s.queue [
  | none ↦ if allocated then record s { queue = some [] } else s
  | some _ ↦ s
]

unfoldable pub start_thread_locked : Bool → State → Bool × State
start_thread_locked created s =
    let asked = record s { stop_requested = false } in
    if s.thread_running
    then (true, s)
    else if created
    then (true, record asked { thread_running = true })
    else (false, asked)

unfoldable pub drop_event : State → State
drop_event s = record s { dropped_events = (s.dropped_events + 1) % 2 ^ 64 }

-- an event for a running thread
unfoldable pub push : Bool → Bytes → List Bytes → State → Bool × State
unfolding drop_event
push has_memory sql events s =
    if leb queue_max_events (length events)
    then (false, drop_event s)
    else if has_memory
    then (true, record s { queue = some (events ++ sql ∷ []) })
    else (false, drop_event s)

-- `table_writer_enqueue`: the returned value, and the state
unfoldable pub table_writer_enqueue : Bool → Bool → Bytes → State → Bool × State
unfolding start_thread_locked push
table_writer_enqueue created has_memory sql s = elim s.queue [
  | none ↦ (false, s)
  | some events ↦
      let (started, s1) = start_thread_locked created s in
      if started then push has_memory sql events s1 else (false, s1)
]

-- `batch.swap(*queue)` in the writer thread, whose batch is empty there
unfoldable pub swap_batch : State → List Bytes × State
swap_batch s = elim s.queue [
  | none ↦ ([], s)
  | some events ↦ (events, record s { queue = some [] })
]

-- `table_writer_shutdown`: a running thread is asked to stop and joined, then the queue is deleted.
-- What the thread does before it ends is not part of this function.
unfoldable pub table_writer_shutdown : State → State
table_writer_shutdown s = record s {
  queue = none;
  thread_running = false;
  stop_requested = s.thread_running || s.stop_requested;
}

-- the events that wait
abbrev pub waiting : State → List Bytes
waiting s = elim s.queue [ none ↦ [] | some events ↦ events ]

-- one of the calls that users' threads and the writer thread make
pub data Event : Type 0 where
  enqueue : Bool → Bool → Bytes → Event
  swap : Event

-- The state behind the calls, the events that `table_writer_enqueue` returned true for, and those
-- that the writer thread took, both in the order of the calls.
unfoldable pub play : State → List Event → State × List Bytes × List Bytes
play s [] = (s, [], [])
play s (enqueue created has_memory sql ∷ es) =
    let (ok, s1) = table_writer_enqueue created has_memory sql s in
    let (s2, accepted, taken) = play s1 es in (s2, (if ok then sql ∷ accepted else accepted), taken)
play s (swap ∷ es) =
    let (batch, s1) = swap_batch s in
    let (s2, accepted, taken) = play s1 es in (s2, accepted, batch ++ taken)

-- What a call of `table_writer_enqueue` does to the waiting events.
pub enqueue-waiting :
    (created has_memory : Bool) (sql : Bytes) (s : State)
    → waiting (table_writer_enqueue created has_memory sql s).1
      ≡ waiting s ++ (if (table_writer_enqueue created has_memory sql s).0 then sql ∷ [] else [])
unfolding table_writer_enqueue
enqueue-waiting created has_memory sql s = elim (Option-cases s.queue) [
  | inl e ↦ rw e refl
  | inr (events, e) ↦ ground (arith, e, append-nil events)
]

pub swap-waiting : (s : State) → (swap_batch s).0 ++ waiting (swap_batch s).1 ≡ waiting s
unfolding swap_batch
swap-waiting s = elim (Option-cases s.queue) [
  | inl e ↦ rw e refl
  | inr (events, e) ↦ ground (arith, e, append-nil events)
]

enqueue-length :
    (created has_memory : Bool) (sql : Bytes) (s : State)
    → length (waiting s) ≤ queue_max_events
    → length (waiting (table_writer_enqueue created has_memory sql s).1) ≤ queue_max_events
unfolding table_writer_enqueue
enqueue-length created has_memory sql s h = elim (Option-cases s.queue) [
  | inl e ↦ ground (arith, e)
  | inr (events, e) ↦ ground (arith, e, h, length-append events (sql ∷ []))
]

swap-length :
    (s : State)
    → length (waiting s) ≤ queue_max_events
    → length (waiting (swap_batch s).1) ≤ queue_max_events
unfolding swap_batch
swap-length s h = elim (Option-cases s.queue) [
  | inl e ↦ ground (arith, e)
  | inr (events, e) ↦ ground (arith, e)
]

-- Whatever the order of the calls of users' threads and of the writer thread, and whatever fails:
-- the events that waited and those accepted since, in this order, are exactly those that the writer
-- thread took and those that still wait, in this order. So every accepted event is taken once and in
-- order, and no refused one is; and if no more than 10000 events waited, no more do at the end.
pub play-waiting :
    (es : List Event) (s : State)
    → length (waiting s) ≤ queue_max_events
    → (waiting s ++ (play s es).1 ≡ (play s es).2 ++ waiting (play s es).0)
      × (length (waiting (play s es).0) ≤ queue_max_events)
unfolding play
play-waiting [] s h = (append-nil (waiting s), h)
play-waiting (enqueue created has_memory sql ∷ es) s h =
    let (ok, s1) = table_writer_enqueue created has_memory sql s in
    let (order, bound) = play-waiting es s1 (enqueue-length created has_memory sql s h) in
    let entered = enqueue-waiting created has_memory sql s in
    (joined (waiting s) (waiting s1) sql ok (play s1 es).1 entered ∙ order, bound)
  where
    joined :
        (front now : List Bytes) (sql : Bytes) (ok : Bool) (rest : List Bytes)
        → now ≡ front ++ (if ok then sql ∷ [] else [])
        → front ++ (if ok then sql ∷ rest else rest) ≡ now ++ rest
    joined front now sql true rest e =
        sym (ap (λ t. t ++ rest) e ∙ append_assoc front (sql ∷ []) rest)
    joined front now sql false rest e = sym (ap (λ t. t ++ rest) (e ∙ append-nil front))
play-waiting (swap ∷ es) s h =
    let (batch, s1) = swap_batch s in
    let (order, bound) = play-waiting es s1 (swap-length s h) in
    let (s2, accepted, taken) = play s1 es in
    (
      ap (λ t. t ++ accepted) (sym (swap-waiting s))
          ∙ append_assoc batch (waiting s1) accepted
          ∙ ap (λ t. batch ++ t) order
          ∙ sym (append_assoc batch taken (waiting s2)),
      bound,
    )
