-- ===== src/Plugin/Writers.antt =====
-- The two writers behind the interface of `handle_status_event`: src/log_writer_file_mysql.cc and the
-- queue of src/log_writer_table_mysql.cc.
pub mod Counted
pub mod Runs
pub mod Sound
pub mod Tests
use mysql_selective_trace_pl.Common.{
  ℕ, zero, suc, ◌+◌, ◌-◌, ◌*◌, ◌/◌, ◌%◌, ◌^◌, ◌≤◌, ◌<◌, bit_and, bit_or, ◌≡◌, refl, sym, ap, ◌∙◌,
  ◌≢◌, ◌↔◌, ◌⊎◌, inl, inr, Bool, true, false, not, ◌&&◌, ◌||◌, Option, none, some, List, [], ◌∷◌,
  ◌++◌, map, append-nil, append_assoc, map-append, arith, ltb, leb, ◌==◌, if◌then◌else◌, ==_iff,
  ltb→lt, leb→le, Bool-cases, if_cases, if_split, Option-cases, ◌>>=◌, is_some, >>=-eq-some,
  is_some-eq-true, length, is_nil, take, drop, length-append, All, All-append, All-append_inv,
  All-change, All-mono, Any, Any-append, Any-change, Any-concat, Distinct, Distinct-concat, get_or,
  append_each, append_each-append, append_each-cons, append_each-All, Bytes, prepend, codes, equal,
  equal_iff, contains, cut_at, split_on, split_on-ne-nil, cut_at_sound, cut_at-none, contains-All,
  add_front, split_on_sep, split_on_other, iff_trans, iff_sym, or_assoc, or_map_left, or_map_right,
  or_absurd_left, or_absurd_right, iff_refl, and_map_right,
}
use mysql_selective_trace_pl.FileWriter
use mysql_selective_trace_pl.FileWriter.{
  Log, Files, file_writer_write, file_writer_reopen, file_writer_close,
}
use mysql_selective_trace_pl.TableWriter.Queue.{State, table_writer_enqueue}
use mysql_selective_trace_pl.Plugin.Status.{Outputs}

-- the variables of the two files
pub record Writers : Type 0 where
  pub log : Log
  pub queue : State

-- What a call depends on beside the variables: the file system, whether a thread can be created, and
-- whether there is memory for an event.
pub record World : Type 0 where
  pub files : Files
  pub created : State → Bool
  pub has_memory : Bytes → State → Bool

unfoldable pub write_file : World → Bytes → Option Bytes → Writers → Bool × Writers
write_file world line path w =
    let (ok, log) = file_writer_write world.files line path w.log in (ok, record w { log = log })

unfoldable pub reopen_file : World → Option Bytes → Writers → Bool × Writers
reopen_file world path w =
    let (ok, log) = file_writer_reopen world.files path w.log in (ok, record w { log = log })

unfoldable pub close_file : World → Writers → Writers
close_file world w = record w { log = file_writer_close world.files w.log }

unfoldable pub enqueue : World → Bytes → Writers → Bool × Writers
enqueue world sql w =
    let (ok, queue) =
      table_writer_enqueue (world.created w.queue) (world.has_memory sql w.queue) sql w.queue in
    (ok, record w { queue = queue })

abbrev pub writers : World → Outputs Writers
writers world = record {
  file_writer_write = write_file world;
  file_writer_reopen = reopen_file world;
  file_writer_close = close_file world;
  table_writer_enqueue = enqueue world;
}
