-- ===== src/FileWriter/Lines.antt =====
-- The lines in the file.
use mysql_selective_trace_pl.Common.{
  ◌≡◌, refl, sym, ap, ◌∙◌, Bool, true, false, Option, none, some, List, [], ◌∷◌, ◌++◌, append-nil,
  append_assoc, ◌==◌, if◌then◌else◌, if_cases, if_split, length, Bytes,
}
use mysql_selective_trace_pl.FileWriter.{
  Call, fopen, fwrite, fclose, fflush, Log, Files, call, count_failure, open_path, open_locked,
  file_writer_close, file_writer_reopen, put_line, ready, file_writer_write, Event, write, reopen,
  close, play,
}

module _ (files : Files) where
  -- The lines that the calls wrote whole, in order.
  abbrev pub whole_lines : List Call → List Bytes
  whole_lines [] = []
  whole_lines (fwrite line ∷ h) =
      whole_lines h ++ (if files.written (fwrite line ∷ h) == length line then line ∷ [] else [])
  whole_lines (fopen _ ∷ h) = whole_lines h
  whole_lines (fclose ∷ h) = whole_lines h
  whole_lines (fflush ∷ h) = whole_lines h

  abbrev lines_of : Log → List Bytes
  lines_of log = whole_lines log.calls

  pub file_writer_close-lines : (log : Log) → lines_of (file_writer_close files log) ≡ lines_of log
  unfolding file_writer_close
  file_writer_close-lines log =
      if_cases (λ (l : Log). lines_of l ≡ lines_of log) log.is_open
        {x = record (call fclose log) { is_open = false }} {y = log} refl refl

  open_locked-lines :
      (path : Option Bytes) (log : Log) → lines_of (open_locked files path log).1 ≡ lines_of log
  unfolding open_locked open_path
  open_locked-lines none log = refl
  open_locked-lines (some []) log = refl
  open_locked-lines (some (c ∷ path)) log =
      let opened = call (fopen (c ∷ path)) log in
      if_cases (λ (r : Bool × Log). lines_of r.1 ≡ lines_of log) (files.opens opened.calls)
        {x = (true, record opened { is_open = true; open_failed_logged = false })}
        {y = (false, count_failure (record opened { is_open = false; open_failed_logged = true }))}
        refl refl

  pub file_writer_reopen-lines :
      (path : Option Bytes) (log : Log)
      → lines_of (file_writer_reopen files path log).1 ≡ lines_of log
  unfolding file_writer_reopen
  file_writer_reopen-lines path log =
      open_locked-lines path (file_writer_close files log) ∙ file_writer_close-lines log

  -- what a write adds to the lines of the log before it
  abbrev Adds : Bytes → Log → Bool × Log → Type 0
  Adds line log r = lines_of r.1 ≡ lines_of log ++ (if r.0 then line ∷ [] else [])

  put_line-Adds : (line : Bytes) (log : Log) → Adds line log (put_line files line log)
  unfolding put_line
  put_line-Adds line log =
      let wrote = call (fwrite line) log in
      if_split (Adds line log) (files.written wrote.calls == length line)
        {x = (true, call fflush wrote)} {y = (false, count_failure wrote)} (λ e. rw e refl)
        (λ e. rw e refl)

  ready-lines : (path : Option Bytes) (log : Log) → lines_of (ready files path log).1 ≡ lines_of log
  unfolding ready
  ready-lines path log =
      if_cases (λ (r : Bool × Log). lines_of r.1 ≡ lines_of log) log.is_open {x = (true, log)}
        {y = open_locked files path log} refl (open_locked-lines path log)

  pub file_writer_write-Adds :
      (line : Bytes) (path : Option Bytes) (log : Log)
      → Adds line log (file_writer_write files line path log)
  unfolding file_writer_write
  file_writer_write-Adds line path log =
      let (ok, log1) = ready files path log in
      let same = ready-lines path log in
      if_cases (Adds line log) ok {x = put_line files line log1} {y = (false, log1)}
        (put_line-Adds line log1
          ∙ ap (λ t. t ++ (if (put_line files line log1).0 then line ∷ [] else [])) same)
        (same ∙ sym (append-nil (lines_of log)))

-- Whatever the file system answers, and whatever the order of writes, reopenings and closings: the
-- lines written whole since the start are those that were before, followed by exactly the lines for
-- which a write returned true, in order.
pub play-lines :
    (files : Files) (es : List Event) (log : Log)
    → whole_lines files (play files log es).0.calls
      ≡ whole_lines files log.calls ++ (play files log es).1
unfolding play
play-lines files [] log = sym (append-nil (whole_lines files log.calls))
play-lines files (write line path ∷ es) log =
    let (ok, log1) = file_writer_write files line path log in
    let rest = (play files log1 es).1 in
    play-lines files es log1
    ∙ ap (λ t. t ++ rest) (file_writer_write-Adds files line path log)
    ∙ joined (whole_lines files log.calls) line ok rest
  where
    joined :
        (front : List Bytes) (line : Bytes) (ok : Bool) (rest : List Bytes)
        → (front ++ (if ok then line ∷ [] else [])) ++ rest
          ≡ front ++ (if ok then line ∷ rest else rest)
    joined front line true rest = append_assoc front (line ∷ []) rest
    joined front line false rest = ap (λ t. t ++ rest) (append-nil front)
play-lines files (reopen path ∷ es) log =
    play-lines files es (file_writer_reopen files path log).1
    ∙ ap (λ t. t ++ (play files (file_writer_reopen files path log).1 es).1)
        (file_writer_reopen-lines files path log)
play-lines files (close ∷ es) log =
    play-lines files es (file_writer_close files log)
    ∙ ap (λ t. t ++ (play files (file_writer_close files log) es).1)
        (file_writer_close-lines files log)
