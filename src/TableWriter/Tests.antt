-- ===== src/TableWriter/Tests.antt =====
-- Runs of the writer against concrete servers, and the theorems at concrete inputs.
use mysql_selective_trace_pl.Common.{
  ◌≤◌, ◌≡◌, refl, Bool, true, false, some, List, [], ◌∷◌, ◌++◌, arith, length, codes, equal, Bytes,
}
use mysql_selective_trace_pl.TableWriter.Thread.{
  at_queue, in_batch, System, writer_step, run_thread,
}
use mysql_selective_trace_pl.TableWriter.Interleaved.{
  advance, inserted_by, accepted_by, left_of, Reaches, here, offer, work, after_inserts,
  Reaches-left,
}
use mysql_selective_trace_pl.TableWriter.Ending.{system, Drained, run_thread-Drained}
use mysql_selective_trace_pl.Recycle.{fresh, reconnect_every}
use mysql_selective_trace_pl.TableWriter.{
  Call, set_mode, query, Writer, Server, run_insert, write_batch,
}
use mysql_selective_trace_pl.TableWriter.Pinned.{IsSafe}
use mysql_selective_trace_pl.TableWriter.Inserts.{write_batch-IsSafe}
use mysql_selective_trace_pl.TableWriter.Queue.{
  State, Event, table_writer_enqueue, swap_batch, enqueue, swap, waiting, play, queue_max_events,
  play-waiting,
}

-- a server that refuses to set the sql_mode
abbrev refuses : List Call → Bool
refuses [] = false
refuses (query sql ∷ h) = equal sql set_mode
refuses (_ ∷ h) = false

abbrev strict_server : Server
strict_server = record { fails = refuses; errno = λ _. 0; create_log_table = codes "CREATE" }

abbrev idle : Writer
idle = record {
  calls = [];
  services_acquired = false;
  com_factory = false;
  com_options = false;
  com_query = false;
  com_query_result = false;
  com_field_info = false;
  com_error_info = false;
  com_thread = false;
  command_thread_inited = false;
  connected = false;
  recycle_policy = fresh reconnect_every;
  insert_failures = 0;
  last_logged_errno = 0;
}

not_inserted : (run_insert strict_server (codes "INSERT 1") idle).insert_failures ≡ 1
unfolding run_insert equal
not_inserted = refl

idle-IsSafe : IsSafe strict_server idle
idle-IsSafe = record { all = tt; live = λ c. absurd (cc c) }

write_batch-IsSafe_example :
    IsSafe strict_server (write_batch strict_server (codes "INSERT 1" ∷ codes "INSERT 2" ∷ []) idle)
unfolding equal
write_batch-IsSafe_example =
    write_batch-IsSafe strict_server (codes "INSERT 1" ∷ codes "INSERT 2" ∷ []) idle refl
      (refl, (refl, tt)) idle-IsSafe

abbrev empty_queue : State
empty_queue = record {
  queue = some [];
  thread_running = false;
  stop_requested = false;
  dropped_events = 0;
}

abbrev calls : List Event
calls =
    enqueue true true (codes "a")
    ∷ swap
    ∷ enqueue true false (codes "b")
    ∷ enqueue true true (codes "c")
    ∷ []

calls_run : (play empty_queue calls).1 ≡ codes "a" ∷ codes "c" ∷ []
unfolding play table_writer_enqueue swap_batch
calls_run = refl

play-waiting_example :
    (waiting empty_queue ++ (play empty_queue calls).1
      ≡ (play empty_queue calls).2 ++ waiting (play empty_queue calls).0)
    × (length (waiting (play empty_queue calls).0) ≤ queue_max_events)
play-waiting_example = play-waiting calls empty_queue (omega arith)

abbrev stopping_queue : State
stopping_queue = record empty_queue {
  queue = some (codes "a" ∷ codes "b" ∷ []);
  thread_running = true;
  stop_requested = true;
}

run_thread-Drained_example :
    Drained strict_server true
      (write_batch strict_server
        (codes "a" ∷ codes "b" ∷ [])
        (write_batch strict_server (codes "c" ∷ []) idle))
      (run_thread strict_server 6 (system stopping_queue idle (in_batch (codes "c" ∷ []) false)))
run_thread-Drained_example =
    run_thread-Drained strict_server (in_batch (codes "c" ∷ []) false) 6 stopping_queue idle refl
      (omega arith)

abbrev at_start : System
at_start = system (record empty_queue { thread_running = true }) idle at_queue

abbrev offered : System
offered = record at_start { queue = (table_writer_enqueue true true (codes "a") at_start.queue).1 }

abbrev one_offer :
    Reaches strict_server at_start
      ([]
        ++ accepted_by strict_server
            (table_writer_enqueue true true (codes "a") at_start.queue)
            (codes "a"))
      []
      offered
one_offer = offer true true (codes "a") [] [] at_start here

-- the writer thread has taken the batch
abbrev at_work : System
at_work = advance strict_server offered

abbrev handed : List Bytes
handed = ([] ++ []) ++ inserted_by strict_server at_work.phase

handed_one : handed ≡ codes "a" ∷ []
unfolding writer_step table_writer_enqueue swap_batch
handed_one = refl

Reaches-left_example :
    (left_of strict_server at_start
        ++ ([]
            ++ accepted_by strict_server
                (table_writer_enqueue true true (codes "a") at_start.queue)
                (codes "a"))
      ≡ handed ++ left_of strict_server (advance strict_server at_work))
    × ((advance strict_server at_work).writer
        ≡ after_inserts strict_server (advance strict_server at_work).phase handed at_start.writer)
Reaches-left_example =
    Reaches-left strict_server at_start (advance strict_server at_work) _ _ refl
      (work _ ([] ++ []) at_work (work _ [] offered one_offer))
