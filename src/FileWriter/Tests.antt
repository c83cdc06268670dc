-- ===== src/FileWriter/Tests.antt =====
-- Runs of the writer against a concrete file system, and the theorems at concrete inputs.
use mysql_selective_trace_pl.Common.{
  ℕ, ◌≡◌, refl, Bool, true, false, none, some, List, [], ◌∷◌, ◌++◌, length, codes, equal,
}
use mysql_selective_trace_pl.FileWriter.{
  Call, fopen, fwrite, Log, Files, file_writer_write, file_writer_reopen, Event, write, reopen,
  close, play,
}
use mysql_selective_trace_pl.FileWriter.Handle.{IsSound, play-IsSound}
use mysql_selective_trace_pl.FileWriter.Lines.{whole_lines, play-lines}

abbrev first_length : List Call → ℕ
first_length (fwrite line ∷ h) = length line
first_length _ = 0

abbrev first_opens : List Call → Bool
first_opens (fopen path ∷ h) = equal path (codes "log.json")
first_opens _ = false

-- one path can be opened, each line is written whole, and no flush succeeds
abbrev disk : Files
disk = record { opens = first_opens; written = first_length; flushes = λ calls. false }

abbrev closed : Log
closed = record { calls = []; is_open = false; write_failures = 0; open_failed_logged = false }

abbrev events : List Event
events =
    write (codes "a") (some (codes "no/such"))
    ∷ write (codes "b") (some (codes "log.json"))
    ∷ close
    ∷ reopen (some (codes "log.json"))
    ∷ write (codes "c") none
    ∷ []

events_run : (play disk closed events).1 ≡ codes "b" ∷ codes "c" ∷ []
unfolding play equal file_writer_write file_writer_reopen
events_run = refl

closed-IsSound : IsSound disk closed
closed-IsSound = record { proper = tt; handle = refl; counted = refl }

play-IsSound_example : IsSound disk (play disk closed events).0
play-IsSound_example = play-IsSound disk events closed closed-IsSound

play-lines_example :
    whole_lines disk (play disk closed events).0.calls
    ≡ whole_lines disk closed.calls ++ (play disk closed events).1
play-lines_example = play-lines disk events closed

-- a line counts as written though its flush fails
flush_ignored : (file_writer_write disk (codes "b") (some (codes "log.json")) closed).0 ≡ true
unfolding equal file_writer_write
flush_ignored = refl
