-- ===== src/TableWriter.antt =====
-- src/log_writer_table_mysql.cc: the writer's connection and its inserts. The registry and the
-- command services of the server are not in the repository: what a call of them answers is a
-- parameter, which may depend on all of the calls before it. A call returns true for a failure, as
-- in the source. Text on stderr, the calls that fetch an error's text for it, and exceptions are
-- left out.
pub mod Queue
pub mod Pinned
pub mod Inserts
pub mod Release
pub mod Thread
pub mod Ending
pub mod Interleaved
pub mod Tests
use mysql_selective_trace_pl.Common.{
  ℕ, zero, suc, ◌+◌, ◌-◌, ◌*◌, ◌/◌, ◌%◌, ◌^◌, ◌≤◌, ◌<◌, bit_and, bit_or, ◌≡◌, refl, sym, ap, ◌∙◌,
  ◌≢◌, ◌↔◌, ◌⊎◌, inl, inr, Bool, true, false, not, ◌&&◌, ◌||◌, Option, none, some, List, [], ◌∷◌,
  ◌++◌, map, append-nil, append_assoc, map-append, arith, ltb, leb, ◌==◌, if◌then◌else◌, ==_iff,
  ltb→lt, leb→le, Bool-cases, if_cases, Option-cases, ◌>>=◌, is_some, >>=-eq-some, is_some-eq-true,
  length, is_nil, take, drop, length-append, All, All-append, All-append_inv, All-change, All-mono,
  Any, Any-append, Any-change, Any-concat, Distinct, Distinct-concat, get_or, append_each,
  append_each-append, append_each-cons, append_each-All, Bytes, prepend, codes, equal, equal_iff,
  contains, cut_at, split_on, split_on-ne-nil, cut_at_sound, cut_at-none, contains-All, add_front,
  split_on_sep, split_on_other, iff_trans, iff_sym, or_assoc, or_map_left, or_map_right,
  or_absurd_left, or_absurd_right, iff_refl, and_map_right,
}
use mysql_selective_trace_pl.Recycle.{Policy, note_insert, note_connection_reset}

-- the calls of the server; an `acquire` names its service by the row of `wanted[]`
pub data Call : Type 0 where
  registry_acquire : Call
  acquire : ℕ → Call
  thread_init factory_init connect close sql_errno : Call
  thread_end registry_release : Call
  release : ℕ → Call
  query : Bytes → Call

abbrev pub set_mode : Bytes
set_mode = codes "SET SESSION sql_mode=''"

-- The variables of the writer thread, and the calls made so far, the last one first. A handle is
-- true if it is not NULL.
pub record Writer : Type 0 where
  pub calls : List Call
  pub services_acquired : Bool
  pub com_factory : Bool
  pub com_options : Bool
  pub com_query : Bool
  pub com_query_result : Bool
  pub com_field_info : Bool
  pub com_error_info : Bool
  pub com_thread : Bool
  pub command_thread_inited : Bool
  -- `command_h != NULL`
  pub connected : Bool
  pub recycle_policy : Policy
  pub insert_failures : ℕ
  pub last_logged_errno : ℕ

-- the server: whether the first call of the list fails, behind the others, and the number that
-- sql_errno stores
pub record Server : Type 0 where
  pub fails : List Call → Bool
  pub errno : List Call → ℕ
  pub create_log_table : Bytes

module _ (server : Server) where
  unfoldable pub make : Call → Writer → Bool × Writer
  make c w = (server.fails (c ∷ w.calls), record w { calls = c ∷ w.calls })

  -- The handles of the services, in the order of `wanted[]`.
  unfoldable pub acquire_services : Writer → Bool × Writer
  unfolding make
  acquire_services w =
      let (no_registry, w0) = make registry_acquire w in
      let (no_factory, w1) = make (acquire 0) w0 in
      let (no_options, w2) = make (acquire 1) w1 in
      let (no_query, w3) = make (acquire 2) w2 in
      let (no_result, w4) = make (acquire 3) w3 in
      let (no_field, w5) = make (acquire 4) w4 in
      let (no_error, w6) = make (acquire 5) w5 in
      let (no_thread, w7) = make (acquire 6) w6 in
      let held = record w7 {
        services_acquired = true;
        com_factory = not no_factory;
        com_options = not no_options;
        com_query = not no_query;
        com_query_result = not no_result;
        com_field_info = not no_field;
        com_error_info = not no_error;
        com_thread = not no_thread;
      } in
      if w.services_acquired
      then (w.com_factory && w.com_query && w.com_error_info && w.com_thread, w)
      else if no_registry
      then (false, w0)
      else (not no_factory && not no_query && not no_error && not no_thread, held)

  unfoldable pub close_conn : Writer → Writer
  unfolding make
  close_conn w =
      let (_, closed) = make close w in
      if w.connected && w.com_factory then record closed { connected = false } else w

  unfoldable pub last_errno : Writer → ℕ × Writer
  unfolding make
  last_errno w =
      let (failed, asked) = make sql_errno w in
      if not w.com_error_info || not w.connected
      then (0, w)
      else ((if failed then 0 else server.errno asked.calls), asked)

  -- The connection behind a successful `init`: connect, pin the sql_mode, create the table. The
  -- result of the CREATE is only reported, with the error's number.
  unfoldable pub open_conn : Writer → Bool × Writer
  unfolding make close_conn last_errno
  open_conn w =
      let (not_connected, w1) = make connect w in
      let (not_set, w2) = make (query set_mode) w1 in
      let (not_created, w3) = make (query server.create_log_table) w2 in
      if not_connected
      then (false, close_conn w1)
      else if not_set
      then (false, close_conn w2)
      else (true, (if not_created then (last_errno w3).1 else w3))

  -- `com_factory->init(&command_h)`
  unfoldable pub init_conn : Writer → Bool × Writer
  unfolding make open_conn
  init_conn w =
      let (failed, w1) = make factory_init w in
      if failed
      then (false, record w1 { connected = false })
      else open_conn (record w1 { connected = true })

  unfoldable pub init_thread : Writer → Bool × Writer
  unfolding make init_conn
  init_thread w =
      let (failed, w1) = make thread_init w in
      if w.command_thread_inited
      then init_conn w
      else if failed
      then (false, w1)
      else init_conn (record w1 { command_thread_inited = true })

  unfoldable pub ensure_conn : Writer → Bool × Writer
  unfolding acquire_services init_thread
  ensure_conn w =
      let (available, w1) = acquire_services w in
      if w.connected then (true, w) else if available then init_thread w1 else (false, w1)

  -- the end of `run_insert`
  unfoldable pub count_failure : ℕ → Writer → Writer
  count_failure err w = record w {
    insert_failures = (w.insert_failures + 1) % 2 ^ 64;
    last_logged_errno = err;
  }

  unfoldable pub fail_with_errno : Writer → Writer
  unfolding last_errno count_failure
  fail_with_errno w = let (err, w1) = last_errno w in count_failure err w1

  -- the retry on a new connection
  unfoldable pub retry_insert : Bytes → Writer → Writer
  unfolding make close_conn ensure_conn fail_with_errno
  retry_insert sql w =
      let closed = close_conn w in
      let reset = record closed { recycle_policy = note_connection_reset closed.recycle_policy } in
      let (ok, w1) = ensure_conn reset in
      let (failed, w2) = make (query sql) w1 in
      if ok then if failed then fail_with_errno w2 else w2 else fail_with_errno w1

  -- the retry behind a new table
  unfoldable pub recreate_insert : Bytes → Writer → Writer
  unfolding make fail_with_errno
  recreate_insert sql w =
      let (_, w1) = make (query server.create_log_table) w in
      let (failed, w2) = make (query sql) w1 in if failed then fail_with_errno w2 else w2

  -- what an insert that failed leads to
  unfoldable pub insert_failed : Bytes → ℕ → Writer → Writer
  unfolding recreate_insert retry_insert count_failure
  insert_failed sql err w =
      if err == 1146 || err == 1049
      then recreate_insert sql w
      else if err == 2006 || err == 2013
      then retry_insert sql w
      else count_failure err w

  unfoldable pub run_insert : Bytes → Writer → Writer
  unfolding make ensure_conn last_errno insert_failed
  run_insert sql w =
      let (ok, w1) = ensure_conn w in
      let (failed, w2) = make (query sql) w1 in
      let (err, w3) = last_errno w2 in
      if ok
      then if failed then insert_failed sql err w3 else w2
      else record w1 { insert_failures = (w1.insert_failures + 1) % 2 ^ 64 }

  -- one event of a batch: the insert, and the periodic close
  unfoldable pub write_event : Bytes → Writer → Writer
  unfolding run_insert close_conn
  write_event sql w =
      let w1 = run_insert sql w in
      let (policy, recycle) = note_insert w1.recycle_policy in
      let w2 = record w1 { recycle_policy = policy } in if recycle then close_conn w2 else w2

  -- the `for` loop over the batch
  unfoldable pub write_batch : List Bytes → Writer → Writer
  unfolding write_event
  write_batch [] w = w
  write_batch (sql ∷ batch) w = write_batch batch (write_event sql w)
