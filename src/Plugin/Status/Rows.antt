-- ===== src/Plugin/Status/Rows.antt =====
-- The row that the server reads from the INSERT of a logged statement, and its JSON line.
use mysql_selective_trace_pl.Common.{
  ℕ, ◌≡◌, inl, inr, Option, some, [], ◌∷◌, ◌++◌, arith, if◌then◌else◌, All, All-mono, Bytes,
}
use mysql_selective_trace_pl.Engine.Command.Shape.{IsCommandByte, extract_command_total}
use mysql_selective_trace_pl.Engine.Escape.Sql.{SqlReader}
use mysql_selective_trace_pl.Plugin.Statement.{StatementState, GeneralEvent}
use mysql_selective_trace_pl.Plugin.Output.{
  Double, print_unsigned, print_int, sql_duration, sql_values, json_line,
}
use mysql_selective_trace_pl.Plugin.Output.Line.{IsPrintable, IsLine, json_line-IsLine}
use mysql_selective_trace_pl.Plugin.Output.Reader.{columns, read_values, IsPlain, IsInner}
use mysql_selective_trace_pl.Plugin.Output.Sql.{shown_tables, sql_values_lem}
use mysql_selective_trace_pl.Plugin.Status.{StatusEvent, Options, cmdbuf, logged_query, entry}

IsCommandByte-IsPlain : (c : ℕ) → IsCommandByte c → IsPlain c
IsCommandByte-IsPlain c h = ground arith

IsCommandByte-IsPrintable : (c : ℕ) → IsCommandByte c → IsPrintable c
IsCommandByte-IsPrintable c h = ground arith

cmdbuf-IsCommandByte : (event : GeneralEvent) → All IsCommandByte (cmdbuf event)
unfolding cmdbuf
cmdbuf-IsCommandByte event = elim (extract_command_total event.general_query 24) [
  | inl (zero_size, _) ↦ absurd (omega arith)
  | inr (cmd, found, _, _, good) ↦ rw (cmdbuf, found) good
]

-- For every event, state and set of options: if the time stamp holds no quote and no backslash and
-- the printed duration no comma and no parenthesis, then the server reads the VALUES list made of
-- them as exactly the ten values of the row and nothing more: the time stamp, the connection's id,
-- the statement's number, user@host, the current schema, the tables of the statement, the command
-- found in the query, the duration, the error code, and the query as it is to be logged.
pub entry-values :
    {W : Type 0} (server : SqlReader) (double : Double W) (options : Options) (ts : Bytes)
    (duration : Option W) (st : StatementState) (event : StatusEvent)
    → All IsPlain ts
    → All IsInner (sql_duration double duration)
    → read_values server columns (sql_values double (entry double options ts duration st event))
      ≡ some (
          ts
          ∷ print_unsigned event.general_thread_id
          ∷ print_unsigned st.local_seq
          ∷ (event.general_user ++ (b'@' ∷ event.general_host))
          ∷ st.current_db
          ∷ shown_tables (if st.in_statement then st.tables else []) st.tables_truncated
          ∷ cmdbuf event.general
          ∷ sql_duration double duration
          ∷ print_int event.general_error_code
          ∷ logged_query options.opt_mask_passwords event.general.general_query
          ∷ [])
unfolding entry
entry-values server double options ts duration st event plain inner =
    sql_values_lem server double (entry double options ts duration st event) plain
      (All-mono {P = IsCommandByte} {Q = IsPlain} IsCommandByte-IsPlain (cmdbuf event.general)
        (cmdbuf-IsCommandByte event.general))
      inner

-- For every event, state and set of options: if the time stamp and every printed `double` hold no
-- control character, the JSON line is bytes that are not control characters with one newline at its
-- end, whatever bytes the user, the schema, the tables and the query hold. So an event is one line
-- of the log file.
pub entry-IsLine :
    {W : Type 0} (double : Double W) (options : Options) (ts : Bytes) (duration : Option W)
    (st : StatementState) (event : StatusEvent)
    → All IsPrintable ts
    → ((w : W) → All IsPrintable (double.print w))
    → IsLine (json_line double (entry double options ts duration st event))
unfolding entry
entry-IsLine double options ts duration st event printable prints =
    json_line-IsLine double (entry double options ts duration st event) printable
      (All-mono {P = IsCommandByte} {Q = IsPrintable} IsCommandByte-IsPrintable
        (cmdbuf event.general) (cmdbuf-IsCommandByte event.general))
      prints
