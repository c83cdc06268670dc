-- ===== src/Plugin/Writers/Counted.antt =====
-- What the counter of logged events counts, up to one entry.
use mysql_selective_trace_pl.Common.{
  ℕ, ◌+◌, ◌%◌, ◌^◌, ◌≡◌, sym, ap, ◌∙◌, Bool, true, false, ◌&&◌, Option, some, List, [], ◌∷◌, ◌++◌,
  append-nil, append_assoc, arith, if◌then◌else◌, if_cases, length, length-append, Bytes,
}
use mysql_selective_trace_pl.FileWriter.{Files}
use mysql_selective_trace_pl.FileWriter.Lines.{
  whole_lines, file_writer_write-Adds, file_writer_close-lines, file_writer_reopen-lines,
}
use mysql_selective_trace_pl.TableWriter.Queue.{
  State, waiting, swap_batch, enqueue-waiting, swap-waiting,
}
use mysql_selective_trace_pl.Plugin.Statement.{StatementState}
use mysql_selective_trace_pl.Plugin.Output.{Double, Entry, json_line, insert_statement}
use mysql_selective_trace_pl.Plugin.Status.{
  Output, file, table, Options, Logged, StatusEvent, count_logged, emit, report, duration_ms,
  is_too_short, entry,
}
use mysql_selective_trace_pl.Plugin.Writers.{
  Writers, World, write_file, reopen_file, close_file, enqueue, writers,
}
use mysql_selective_trace_pl.Plugin.Filters.{or_empty}
use mysql_selective_trace_pl.Plugin.Dispatch.{switch_file}

-- From one log to another, lines were appended to the file and events to the queue, and the counter
-- went up by their number.
pub record Counted (files : Files) (a b : Logged Writers) : Type 0 where
  pub lines : List Bytes
  pub events : List Bytes
  pub appended :
      whole_lines files b.outputs.log.calls ≡ whole_lines files a.outputs.log.calls ++ lines
  pub queued : waiting b.outputs.queue ≡ waiting a.outputs.queue ++ events
  pub counted :
      b.status_events_logged % 2 ^ 64
      ≡ (a.status_events_logged + length lines + length events) % 2 ^ 64

-- From one log to another, lines were appended to the file, events were put into the queue, the
-- writer thread took some from its front, and the counter went up by the number of the new ones.
pub record Accounted (files : Files) (a : Logged Writers) (out : List Bytes) (b : Logged Writers)
    : Type 0 where
  pub lines : List Bytes
  pub events : List Bytes
  pub appended :
      whole_lines files b.outputs.log.calls ≡ whole_lines files a.outputs.log.calls ++ lines
  pub queued : waiting a.outputs.queue ++ events ≡ out ++ waiting b.outputs.queue
  pub counted :
      b.status_events_logged % 2 ^ 64
      ≡ (a.status_events_logged + length lines + length events) % 2 ^ 64

pub Counted-refl : (files : Files) (a : Logged Writers) → Counted files a a
Counted-refl files a = record {
  lines = [];
  events = [];
  appended = sym (append-nil _);
  queued = sym (append-nil _);
  counted = omega arith;
}

pub Accounted-refl : (files : Files) (a : Logged Writers) → Accounted files a [] a
Accounted-refl files a = record {
  lines = [];
  events = [];
  appended = sym (append-nil _);
  queued = append-nil _;
  counted = omega arith;
}

-- What was counted in front of a run.
pub Accounted-step :
    (files : Files) (a b c : Logged Writers) (out : List Bytes)
    → Counted files a b
    → Accounted files b out c
    → Accounted files a out c
Accounted-step files a b c out f g = record {
  lines = f.lines ++ g.lines;
  events = f.events ++ g.events;
  appended =
      g.appended
      ∙ ap (λ t. t ++ g.lines) f.appended
      ∙ append_assoc (whole_lines files a.outputs.log.calls) f.lines g.lines;
  queued =
      sym (append_assoc (waiting a.outputs.queue) f.events g.events)
      ∙ ap (λ t. t ++ g.events) (sym f.queued)
      ∙ g.queued;
  counted =
      omega (
        arith,
        f.counted,
        g.counted,
        length-append f.lines g.lines,
        length-append f.events g.events,
      );
}

-- the log with another queue
abbrev pub with_queue : State → Logged Writers → Logged Writers
with_queue queue log = record log { outputs = record log.outputs { queue = queue } }

-- The writer thread took the events in front of a run.
pub Accounted-take :
    (files : Files) (a c : Logged Writers) (out : List Bytes)
    → Accounted files (with_queue (swap_batch a.outputs.queue).1 a) out c
    → Accounted files a ((swap_batch a.outputs.queue).0 ++ out) c
Accounted-take files a c out g =
    let (batch, queue) = swap_batch a.outputs.queue in
    record {
      lines = g.lines;
      events = g.events;
      appended = g.appended;
      queued =
          ap (λ t. t ++ g.events) (sym (swap-waiting a.outputs.queue))
          ∙ append_assoc batch (waiting queue) g.events
          ∙ ap (λ t. batch ++ t) g.queued
          ∙ sym (append_assoc batch out (waiting c.outputs.queue));
      counted = g.counted;
    }

-- one text, if the output took it
abbrev taken : Bool → Bytes → List Bytes
taken ok text = if ok then text ∷ [] else []

count_taken :
    (n : ℕ) (ok : Bool) (text : Bytes)
    → (if ok then (n + 1) % 2 ^ 64 else n) % 2 ^ 64 ≡ (n + length (taken ok text)) % 2 ^ 64
count_taken n true text = omega arith
count_taken n false text = omega arith

module _ {W : Type 0} (double : Double W) (world : World) where
  file-Counted :
      (line : Bytes) (path : Option Bytes) (log : Logged Writers)
      → Counted world.files log (
          count_logged double
            (writers world)
            log.status_events_logged
            (write_file world line path log.outputs))
  unfolding count_logged write_file
  file-Counted line path log =
      let ok = (write_file world line path log.outputs).0 in
      let counted = count_taken log.status_events_logged ok line in
      record {
        lines = taken ok line;
        events = [];
        appended = file_writer_write-Adds world.files line path log.outputs.log;
        queued = sym (append-nil _);
        counted = omega (arith, counted);
      }

  queue-Counted :
      (sql : Bytes) (log : Logged Writers)
      → Counted world.files log (
          count_logged double
            (writers world)
            log.status_events_logged
            (enqueue world sql log.outputs))
  unfolding count_logged enqueue
  queue-Counted sql log =
      let ok = (enqueue world sql log.outputs).0 in
      let queue = log.outputs.queue in
      let counted = count_taken log.status_events_logged ok sql in
      record {
        lines = [];
        events = taken ok sql;
        appended = sym (append-nil _);
        queued = enqueue-waiting (world.created queue) (world.has_memory sql queue) sql queue;
        counted = omega (arith, counted);
      }

  chosen-Counted :
      (o : Output) (path : Option Bytes) (e : Entry W) (log : Logged Writers)
      → Counted world.files log (
          count_logged double (writers world) log.status_events_logged (elim o [
            | file ↦ write_file world (json_line double e) path log.outputs
            | table ↦ enqueue world (insert_statement double e) log.outputs
          ]))
  chosen-Counted file path e log = file-Counted (json_line double e) path log
  chosen-Counted table path e log = queue-Counted (insert_statement double e) log

  emit-Counted :
      (options : Options) (e : Entry W) (log : Logged Writers)
      → Counted world.files log (emit double (writers world) options e log)
  unfolding emit
  emit-Counted options e log = chosen-Counted options.opt_output options.opt_file_path e log

  pub report-Counted :
      (options : Options) (ts : Bytes) (now_ns : ℕ) (st : StatementState) (event : StatusEvent)
      (log : Logged Writers)
      → Counted world.files log (report double (writers world) options ts now_ns st event log)
  unfolding report
  report-Counted options ts now_ns st event log =
      let duration = duration_ms double now_ns st in
      if_cases (Counted world.files log) (is_too_short double options.opt_min_duration_ms duration)
        {x = log} (Counted-refl world.files log)
        (emit-Counted options (entry double options ts duration st event) log)

  -- A SET of the path of the file changes no line, no event and no count.
  pub switch-Counted :
      (opt_enabled : Bool) (save : Option Bytes) (options : Options) (log : Logged Writers)
      → Counted world.files log (switch_file (writers world) opt_enabled save options log)
  unfolding switch_file reopen_file close_file
  switch-Counted opt_enabled save options log =
      let path = some (or_empty save) in
      let is_file = elim options.opt_output as (λ o. Bool) [ file ↦ true | table ↦ false ] in
      let reopened = record log { outputs = (reopen_file world path log.outputs).1 } in
      let closed = record log { outputs = close_file world log.outputs } in
      if_cases (Counted world.files log) (opt_enabled && is_file) {x = reopened} {y = closed}
        (record {
          lines = [];
          events = [];
          appended = file_writer_reopen-lines world.files path log.outputs.log ∙ sym (append-nil _);
          queued = sym (append-nil _);
          counted = omega arith;
        })
        (record {
          lines = [];
          events = [];
          appended = file_writer_close-lines world.files log.outputs.log ∙ sym (append-nil _);
          queued = sym (append-nil _);
          counted = omega arith;
        })
