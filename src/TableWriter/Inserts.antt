-- ===== src/TableWriter/Inserts.antt =====
-- The inserts of the writer, retries and recycles included, keep its connection safe.
use mysql_selective_trace_pl.Common.{
  ℕ, ◌+◌, ◌%◌, ◌^◌, ◌≡◌, ◌∙◌, true, ◌||◌, List, [], ◌∷◌, ◌==◌, if◌then◌else◌, if_cases, if_split,
  All, Bytes,
}
use mysql_selective_trace_pl.Recycle.{note_insert, note_connection_reset}
use mysql_selective_trace_pl.TableWriter.{
  query, Writer, Server, make, close_conn, last_errno, ensure_conn, count_failure, fail_with_errno,
  retry_insert, recreate_insert, insert_failed, run_insert, write_event, write_batch,
}
use mysql_selective_trace_pl.TableWriter.Pinned.{
  IsSafe, IsOther, query-IsSafe, close_conn_keeps, last_errno-IsSafe, last_errno-connected,
  make-connected, ensure_conn-Opened,
}

module _ (server : Server) where
  fail_with_errno-IsSafe : (w : Writer) → IsSafe server w → IsSafe server (fail_with_errno server w)
  unfolding fail_with_errno count_failure
  fail_with_errno-IsSafe w s =
      let safe = last_errno-IsSafe server w s in record { all = safe.all; live = safe.live }

  -- a statement, and the count if it fails
  try-IsSafe :
      (sql : Bytes) (w : Writer)
      → IsOther server sql
      → IsSafe server w
      → w.connected ≡ true
      → IsSafe server (
          if (make server (query sql) w).0
          then fail_with_errno server (make server (query sql) w).1
          else (make server (query sql) w).1)
  try-IsSafe sql w other s on =
      let asked = make server (query sql) w in
      let safe = query-IsSafe server sql w other s on in
      if_cases (IsSafe server) asked.0 {x = fail_with_errno server asked.1} {y = asked.1}
        (fail_with_errno-IsSafe asked.1 safe) safe

  module _ (create : IsOther server server.create_log_table) (sql : Bytes)
      (insert : IsOther server sql) where
    retry_insert-IsSafe : (w : Writer) → IsSafe server w → IsSafe server (retry_insert server sql w)
    unfolding retry_insert
    retry_insert-IsSafe w s =
        let closed = close_conn server w in
        let quiet = close_conn_keeps server w s in
        let reset = record closed {
          recycle_policy = note_connection_reset closed.recycle_policy;
        } in
        let (safe, on) =
          ensure_conn-Opened server reset create (record { all = quiet.all; live = quiet.live }) in
        let (ok, w1) = ensure_conn server reset in
        let asked = make server (query sql) w1 in
        if_split (IsSafe server) ok
          {x = if asked.0 then fail_with_errno server asked.1 else asked.1}
          {y = fail_with_errno server w1} (λ yes. try-IsSafe sql w1 insert safe (on yes))
          (λ _. fail_with_errno-IsSafe w1 safe)

    recreate_insert-IsSafe :
        (w : Writer)
        → IsSafe server w
        → w.connected ≡ true
        → IsSafe server (recreate_insert server sql w)
    unfolding recreate_insert
    recreate_insert-IsSafe w s on =
        let created = query-IsSafe server server.create_log_table w create s on in
        try-IsSafe sql (make server (query server.create_log_table) w).1 insert created
          (make-connected server (query server.create_log_table) w on)

    insert_failed-IsSafe :
        (err : ℕ) (w : Writer)
        → IsSafe server w
        → w.connected ≡ true
        → IsSafe server (insert_failed server sql err w)
    unfolding insert_failed count_failure
    insert_failed-IsSafe err w s on =
        let counted : IsSafe server (count_failure server err w) = record {
          all = s.all;
          live = s.live;
        } in
        if_cases (IsSafe server) (err == 1146 || err == 1049) {x = recreate_insert server sql w}
          {y = if err == 2006 || err == 2013
            then retry_insert server sql w
            else count_failure server err w}
          (recreate_insert-IsSafe w s on)
          (if_cases (IsSafe server) (err == 2006 || err == 2013) {x = retry_insert server sql w}
            {y = count_failure server err w} (retry_insert-IsSafe w s) counted)

    run_insert-IsSafe : (w : Writer) → IsSafe server w → IsSafe server (run_insert server sql w)
    unfolding run_insert
    run_insert-IsSafe w s =
        let (safe, on) = ensure_conn-Opened server w create s in
        let (ok, w1) = ensure_conn server w in
        let asked = make server (query sql) w1 in
        let (err, w3) = last_errno server asked.1 in
        let failures = record w1 { insert_failures = (w1.insert_failures + 1) % 2 ^ 64 } in
        if_split (IsSafe server) ok
          {x = if asked.0 then insert_failed server sql err w3 else asked.1} {y = failures}
          (λ yes.
            let sent = query-IsSafe server sql w1 insert safe (on yes) in
            let still = make-connected server (query sql) w1 (on yes) in
            if_cases (IsSafe server) asked.0 {x = insert_failed server sql err w3} {y = asked.1}
              (insert_failed-IsSafe err w3 (last_errno-IsSafe server asked.1 sent)
                (last_errno-connected server asked.1 ∙ still))
              sent)
          (λ _. record { all = safe.all; live = safe.live })

    write_event-IsSafe : (w : Writer) → IsSafe server w → IsSafe server (write_event server sql w)
    unfolding write_event
    write_event-IsSafe w s =
        let w1 = run_insert server sql w in
        let ran = run_insert-IsSafe w s in
        let (policy, recycle) = note_insert w1.recycle_policy in
        let w2 = record w1 { recycle_policy = policy } in
        let safe : IsSafe server w2 = record { all = ran.all; live = ran.live } in
        if_cases (IsSafe server) recycle {x = close_conn server w2} {y = w2}
          (close_conn_keeps server w2 safe) safe

  -- Whatever the server answers to each call, from a state where all was safe: through a batch of
  -- statements, retries and recycles included, every statement that runs on the connection, except
  -- for the one that sets the sql_mode, runs after that one succeeded on this same connection. The
  -- condition is that no statement of the batch, nor the CREATE, is that one itself.
  pub write_batch-IsSafe :
      (batch : List Bytes) (w : Writer)
      → IsOther server server.create_log_table
      → All (IsOther server) batch
      → IsSafe server w
      → IsSafe server (write_batch server batch w)
  unfolding write_batch
  write_batch-IsSafe [] w create others s = s
  write_batch-IsSafe (sql ∷ batch) w create (other, others) s =
      write_batch-IsSafe batch (write_event server sql w) create others
        (write_event-IsSafe create sql other w s)
