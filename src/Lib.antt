-- ===== src/Lib.antt =====
-- A verification library for the selective_trace audit plugin of MySQL 8.
--
-- The plugin receives the server's audit events, decides by filters which statements are logged, and
-- writes them to a file as JSON or to a table by INSERT. Its parts, and the modules that model them:
--
-- - core/filter_engine.h and core/filter_engine.cc, the pure engine, module Engine: the character
--   tests (Engine.Chars: ascii_lower, is_space, up, is_ident_char), the command bits (Engine.Cmd),
--   the rules with ci_eq, ci_eq_qualified and add_entry (Engine.Rules), match_schema and match_table
--   (Engine.Match), split_csv, clean_token, strip_ticks and the command qualifiers (Engine.Tokens),
--   parse_filter_lists (Engine.Parse), parse_connection_list and match_connection
--   (Engine.Connections), command_bit and extract_command (Engine.Command), kw_at and mask_secrets
--   (Engine.Mask), json_escape_append and sql_escape_append (Engine.Escape).
-- - src/writer_recycle_policy.h, module Recycle: WriterRecyclePolicy.
-- - src/log_writer_table_mysql.cc: the queue between the users' threads and the writer thread
--   (TableWriter.Queue), the writer's connection and inserts (TableWriter), which use Recycle, what it
--   gives back (TableWriter.Release), and writer_thread_func as a sequence of steps
--   (TableWriter.Thread).
-- - src/log_writer_file_mysql.cc, module FileWriter: open_locked, file_writer_reopen,
--   file_writer_close, file_writer_write.
-- - src/selective_trace_mysql.cc: the state of a statement with its list of tables and the tracker of
--   the current schema (Plugin.Statement), the filter variables with their check and update callbacks
--   and rebuild_rules_locked (Plugin.Filters), the texts of the two outputs (Plugin.Output),
--   handle_status_event, which decides and logs (Plugin.Status), the map of states with notify_impl
--   and selective_trace_notify (Plugin.Dispatch), the two writers as the outputs that it uses
--   (Plugin.Writers), with the steps that change both: notices of the server, SETs of variables with
--   update_file_path, and takes by the writer thread (Plugin.Writers.Runs), and selective_trace_init
--   and selective_trace_deinit (Plugin.Lifecycle).
--
-- An event comes in by Plugin.Dispatch, which finds the state of its connection and calls
-- Plugin.Statement or Plugin.Status. These ask the rules that Plugin.Filters keeps, by Engine.Match
-- and Engine.Connections. What is logged is made by Plugin.Output and handed to the interface
-- Plugin.Status.Outputs, which Plugin.Writers fills with FileWriter and TableWriter.Queue; from there
-- TableWriter.Thread takes the events of the table.
--
-- A text is the list of its bytes, a (pointer, length) pair is that list, a pointer that may be NULL
-- is an option. Numbers are natural numbers, with the wrap-around of 64 bits written out where the
-- source counts or reads numbers of its user. A function that stores through pointers returns what it
-- stores. A return of false with an error text is a constructor of a result type.
--
-- Fuel: the skipping loop of extract_command, the loop of mask_secrets and the loop over the listed
-- tables run on fuel equal to the length of the text, which is enough since each round passes a byte
-- at least; the lemmas skip_loop_stops, mask_loop-Ends and listed_complete show it. The loop over
-- the tables for the JSON line has the same fuel. A number is printed with fuel for 20 digits, which
-- is enough for 64 bits (decimal-print_unsigned). All other loops are structural recursion.
--
-- The server is not part of the repository. How it reads a string literal is a record with the
-- documented laws (Engine.Escape.Sql.SqlReader; the reader of JSON is written out), and what its
-- registry and command services answer is a parameter that may depend on all calls so far
-- (TableWriter.Server); so is what fopen, fwrite and fflush answer (FileWriter.Files). The type of a double
-- with the three operations that the code uses is a parameter (Plugin.Output.Double).
--
-- The writer thread runs on fuel in TableWriter.Thread.run_thread; the number of events left and
-- three steps more are enough (run_thread-Drained).
--
-- Not modelled: messages on stderr, exceptions for lack of memory beside the allocations that the code
-- tests, locks (each function that holds one is a step; reads of a variable without a lock see its
-- value at that step), the registration of locks, the descriptors that the server reads, and the
-- tests, scripts and build files.
pub mod Common
pub mod Engine
pub mod Recycle
pub mod Plugin
pub mod TableWriter
pub mod FileWriter
