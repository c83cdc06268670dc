-- ===== src/FileWriter/Handle.antt =====
-- The handle of the log file, and the count of failures.
use mysql_selective_trace_pl.Common.{
  ℕ, ◌+◌, ◌%◌, ◌^◌, ◌≡◌, refl, sym, ◌∙◌, Bool, true, false, Option, none, some, List, [], ◌∷◌,
  arith, ◌==◌, if◌then◌else◌, if_split, length, Bytes,
}
use mysql_selective_trace_pl.FileWriter.{
  Call, fopen, fwrite, fclose, fflush, Log, Files, call, count_failure, open_path, open_locked,
  file_writer_close, file_writer_reopen, put_line, ready, file_writer_write, Event, write, reopen,
  close, play,
}

module _ (files : Files) where
  -- Whether a file is open behind the calls.
  abbrev pub holds : List Call → Bool
  holds [] = false
  holds (fopen path ∷ h) = files.opens (fopen path ∷ h)
  holds (fwrite _ ∷ h) = holds h
  holds (fclose ∷ h) = false
  holds (fflush ∷ h) = holds h

  -- Each file is opened while none is open, and written, flushed and closed while it is.
  abbrev pub IsProper : List Call → Type 0
  IsProper [] = Unit
  IsProper (fopen _ ∷ h) = (holds h ≡ false) × IsProper h
  IsProper (fwrite _ ∷ h) = (holds h ≡ true) × IsProper h
  IsProper (fclose ∷ h) = (holds h ≡ true) × IsProper h
  IsProper (fflush ∷ h) = (holds h ≡ true) × IsProper h

  -- the calls that failed: a file that is not opened, a line that is not written whole
  abbrev pub failures : List Call → ℕ
  failures [] = 0
  failures (fopen path ∷ h) = (if files.opens (fopen path ∷ h) then 0 else 1) + failures h
  failures (fwrite line ∷ h) =
      (if files.written (fwrite line ∷ h) == length line then 0 else 1) + failures h
  failures (fclose ∷ h) = failures h
  failures (fflush ∷ h) = failures h

  pub record IsSound (log : Log) : Type 0 where
    pub proper : IsProper log.calls
    pub handle : log.is_open ≡ holds log.calls
    pub counted : log.write_failures % 2 ^ 64 ≡ failures log.calls % 2 ^ 64

  pub file_writer_close-IsSound : (log : Log) → IsSound log → IsSound (file_writer_close files log)
  unfolding file_writer_close
  file_writer_close-IsSound log s =
      if_split IsSound log.is_open {x = record (call fclose log) { is_open = false }} {y = log}
        (λ e. record { proper = (sym s.handle ∙ e, s.proper); handle = refl; counted = s.counted })
        (λ _. s)

  pub file_writer_close-closed : (log : Log) → (file_writer_close files log).is_open ≡ false
  unfolding file_writer_close
  file_writer_close-closed log =
      if_split (λ (l : Log). l.is_open ≡ false) log.is_open
        {x = record (call fclose log) { is_open = false }} {y = log} (λ _. refl) (λ e. e)

  -- What a try to open or to write leaves: a sound log, and an open file if it succeeded.
  abbrev Leaves : Bool × Log → Type 0
  Leaves r = IsSound r.1 × (r.0 ≡ true → r.1.is_open ≡ true)

  open_path-Leaves :
      (path : Bytes) (log : Log)
      → IsSound log
      → log.is_open ≡ false
      → Leaves (open_path files path log)
  unfolding open_path
  open_path-Leaves path log s off =
      let h = fopen path ∷ log.calls in
      let opened = call (fopen path) log in
      let shut = sym s.handle ∙ off in
      let before = s.counted in
      if_split Leaves (files.opens h)
        {x = (true, record opened { is_open = true; open_failed_logged = false })}
        {y = (false, count_failure (record opened { is_open = false; open_failed_logged = true }))}
        (λ e. (
          record { proper = (shut, s.proper); handle = sym e; counted = rw e (omega arith) },
          (λ _. refl),
        ))
        (λ e. (
          record { proper = (shut, s.proper); handle = sym e; counted = rw e (omega arith) },
          (λ t. absurd (cc t)),
        ))

  open_locked-Leaves :
      (path : Option Bytes) (log : Log)
      → IsSound log
      → log.is_open ≡ false
      → Leaves (open_locked files path log)
  unfolding open_locked
  open_locked-Leaves none log s off = (s, (λ t. absurd (cc t)))
  open_locked-Leaves (some []) log s off = (s, (λ t. absurd (cc t)))
  open_locked-Leaves (some (c ∷ path)) log s off = open_path-Leaves (c ∷ path) log s off

  ready-Leaves : (path : Option Bytes) (log : Log) → IsSound log → Leaves (ready files path log)
  unfolding ready
  ready-Leaves path log s =
      if_split Leaves log.is_open {x = (true, log)} {y = open_locked files path log}
        (λ e. (s, (λ _. e))) (open_locked-Leaves path log s)

  put_line-IsSound :
      (line : Bytes) (log : Log)
      → IsSound log
      → log.is_open ≡ true
      → IsSound (put_line files line log).1
  unfolding put_line
  put_line-IsSound line log s on =
      let wrote = call (fwrite line) log in
      let held = sym s.handle ∙ on in
      let before = s.counted in
      if_split (λ (r : Bool × Log). IsSound r.1) (files.written wrote.calls == length line)
        {x = (true, call fflush wrote)} {y = (false, count_failure wrote)}
        (λ e. record {
          proper = (held, (held, s.proper));
          handle = s.handle;
          counted = rw e (omega arith);
        })
        (λ e. record { proper = (held, s.proper); handle = s.handle; counted = rw e (omega arith) })

  pub file_writer_write-IsSound :
      (line : Bytes) (path : Option Bytes) (log : Log)
      → IsSound log
      → IsSound (file_writer_write files line path log).1
  unfolding file_writer_write
  file_writer_write-IsSound line path log s =
      let (ok, log1) = ready files path log in
      let (sound, on) = ready-Leaves path log s in
      if_split (λ (r : Bool × Log). IsSound r.1) ok {x = put_line files line log1}
        {y = (false, log1)} (λ e. put_line-IsSound line log1 sound (on e)) (λ _. sound)

  pub file_writer_reopen-IsSound :
      (path : Option Bytes) (log : Log)
      → IsSound log
      → IsSound (file_writer_reopen files path log).1
  unfolding file_writer_reopen
  file_writer_reopen-IsSound path log s =
      (open_locked-Leaves path (file_writer_close files log) (file_writer_close-IsSound log s)
        (file_writer_close-closed log)).0

-- Whatever the file system answers, and whatever the order of writes, reopenings and closings, from
-- a log where it was so before: a file is opened only while none is open, and written, flushed and
-- closed only while one is; the handle is not NULL exactly while one is; and the count of failures
-- is, modulo 2^64, the number of files that could not be opened and of lines not written whole.
pub play-IsSound :
    (files : Files) (es : List Event) (log : Log)
    → IsSound files log
    → IsSound files (play files log es).0
unfolding play
play-IsSound files [] log s = s
play-IsSound files (write line path ∷ es) log s =
    play-IsSound files es (file_writer_write files line path log).1
      (file_writer_write-IsSound files line path log s)
play-IsSound files (reopen path ∷ es) log s =
    play-IsSound files es (file_writer_reopen files path log).1
      (file_writer_reopen-IsSound files path log s)
play-IsSound files (close ∷ es) log s =
    play-IsSound files es (file_writer_close files log) (file_writer_close-IsSound files log s)
