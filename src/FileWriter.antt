-- ===== src/FileWriter.antt =====
-- src/log_writer_file_mysql.cc: the FILE output. What the C library's calls answer depends
-- on the file system: it is a parameter, which may depend on all calls so far. The lock
-- makes each function one step. Text on stderr is left out.
pub mod Handle
pub mod Lines
pub mod Tests
use mysql_selective_trace_pl.Common.{
  ℕ, zero, suc, ◌+◌, ◌-◌, ◌*◌, ◌/◌, ◌%◌, ◌^◌, ◌≤◌, ◌<◌, bit_and, bit_or, ◌≡◌, refl, sym, ap, ◌∙◌,
  ◌≢◌, ◌↔◌, ◌⊎◌, inl, inr, Bool, true, false, not, ◌&&◌, ◌||◌, Option, none, some, List, [], ◌∷◌,
  ◌++◌, map, append-nil, append_assoc, map-append, arith, ltb, leb, ◌==◌, if◌then◌else◌, ==_iff,
  ltb→lt, leb→le, Bool-cases, if_cases, if_split, Option-cases, ◌>>=◌, is_some, >>=-eq-some,
  is_some-eq-true, length, is_nil, take, drop, length-append, All, All-append, All-append_inv,
  All-change, All-mono, Any, Any-append, Any-change, Any-concat, Distinct, Distinct-concat, get_or,
  append_each, append_each-append, append_each-cons, append_each-All, Bytes, prepend, codes, equal,
  equal_iff, contains, cut_at, split_on, split_on-ne-nil, cut_at_sound, cut_at-none, contains-All,
  add_front, split_on_sep, split_on_other, iff_trans, iff_sym, or_assoc, or_map_left, or_map_right,
  or_absurd_left, or_absurd_right, iff_refl, and_map_right,
}

-- the calls of the C library that reach the file system
pub data Call : Type 0 where
  fopen : Bytes → Call
  fwrite : Bytes → Call
  fclose fflush : Call

-- `log_fp != NULL`, `write_failures`, `open_failed_logged`, and the calls so far, last one first
pub record Log : Type 0 where
  pub calls : List Call
  pub is_open : Bool
  pub write_failures : ℕ
  pub open_failed_logged : Bool

-- The answers to the first call of a list, behind the others: whether fopen gives a file, the number
-- that fwrite returns, and whether fflush succeeds, which the code does not look at.
pub record Files : Type 0 where
  pub opens : List Call → Bool
  pub written : List Call → ℕ
  pub flushes : List Call → Bool

abbrev pub call : Call → Log → Log
call c log = record log { calls = c ∷ log.calls }

abbrev pub count_failure : Log → Log
count_failure log = record log { write_failures = (log.write_failures + 1) % 2 ^ 64 }

module _ (files : Files) where
  -- `fopen` and what follows it
  unfoldable pub open_path : Bytes → Log → Bool × Log
  open_path path log =
      let opened = call (fopen path) log in
      if files.opens opened.calls
      then (true, record opened { is_open = true; open_failed_logged = false })
      else (false, count_failure (record opened { is_open = false; open_failed_logged = true }))

  -- `none` for a NULL path
  unfoldable pub open_locked : Option Bytes → Log → Bool × Log
  unfolding open_path
  open_locked none log = (false, log)
  open_locked (some []) log = (false, log)
  open_locked (some (c ∷ path)) log = open_path (c ∷ path) log

  unfoldable pub file_writer_close : Log → Log
  file_writer_close log = if log.is_open then record (call fclose log) { is_open = false } else log

  unfoldable pub file_writer_reopen : Option Bytes → Log → Bool × Log
  unfolding file_writer_close open_locked
  file_writer_reopen path log = open_locked path (file_writer_close log)

  -- `fwrite` and what follows it
  unfoldable pub put_line : Bytes → Log → Bool × Log
  put_line line log =
      let wrote = call (fwrite line) log in
      if files.written wrote.calls == length line
      then (true, call fflush wrote)
      else (false, count_failure wrote)

  -- the file, opened first if it is not open
  unfoldable pub ready : Option Bytes → Log → Bool × Log
  unfolding open_locked
  ready path log = if log.is_open then (true, log) else open_locked path log

  unfoldable pub file_writer_write : Bytes → Option Bytes → Log → Bool × Log
  unfolding ready put_line
  file_writer_write line path log =
      let (ok, log1) = ready path log in if ok then put_line line log1 else (false, log1)

-- `file_writer_failures`
abbrev pub file_writer_failures : Log → ℕ
file_writer_failures log = log.write_failures

-- what the plugin does with the writer
pub data Event : Type 0 where
  write : Bytes → Option Bytes → Event
  reopen : Option Bytes → Event
  close : Event

-- The log behind the events, and the lines for which a write returned true, in order.
unfoldable pub play : Files → Log → List Event → Log × List Bytes
play files log [] = (log, [])
play files log (write line path ∷ es) =
    let (ok, log1) = file_writer_write files line path log in
    let (log2, lines) = play files log1 es in (log2, if ok then line ∷ lines else lines)
play files log (reopen path ∷ es) = play files (file_writer_reopen files path log).1 es
play files log (close ∷ es) = play files (file_writer_close files log) es
