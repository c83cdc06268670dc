-- ===== src/TableWriter/Thread.antt =====
-- `writer_thread_func` of src/log_writer_table_mysql.cc: the loop of the writer thread, one round of its
-- two loops at a time, on the queue that the users' threads change between the steps.
use mysql_selective_trace_pl.Common.{
  ℕ, zero, suc, Bool, true, false, not, ◌&&◌, Option, none, some, List, [], ◌∷◌, if◌then◌else◌,
  is_nil, Bytes,
}
use mysql_selective_trace_pl.Recycle.{note_connection_reset}
use mysql_selective_trace_pl.TableWriter.Release.{finish}
use mysql_selective_trace_pl.TableWriter.{Writer, Server, write_event}
use mysql_selective_trace_pl.TableWriter.Queue.{State, swap_batch, waiting}

-- where the thread stands: in front of the queue, in a batch with the `stopping` that it read, or
-- at its return
pub data Phase : Type 0 where
  at_queue : Phase
  in_batch : List Bytes → Bool → Phase
  ended : Phase

pub record System : Type 0 where
  pub queue : State
  pub writer : Writer
  pub phase : Phase

-- the start of the thread
unfoldable pub start : Writer → Writer
start w = record w { recycle_policy = note_connection_reset w.recycle_policy }

module _ (server : Server) where
  -- One step of the thread, and `none` while it waits for the signal or has returned.
  unfoldable pub writer_step : System → Option System
  unfolding swap_batch write_event finish
  writer_step s = elim s.phase [
    | at_queue ↦
        if is_nil (waiting s.queue) && not s.queue.stop_requested
        then none
        else (let (batch, queue) = swap_batch s.queue in
            some (record s { queue = queue; phase = in_batch batch s.queue.stop_requested }))
    | in_batch [] true ↦ some (record s { writer = finish server s.writer; phase = ended })
    | in_batch [] false ↦ some (record s { phase = at_queue })
    | in_batch (sql ∷ batch) stopping ↦
        some
          (record s { writer = write_event server sql s.writer; phase = in_batch batch stopping })
    | ended ↦ none
  ]

  -- the steps until it waits or has returned, on fuel
  unfoldable pub run_thread : ℕ → System → System
  unfolding writer_step
  run_thread zero s = s
  run_thread (suc fuel) s = elim (writer_step s) [ none ↦ s | some next ↦ run_thread fuel next ]
