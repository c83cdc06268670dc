-- ===== src/Plugin/Output/Tests.antt =====
-- The two texts of one event, with the theorems.
use mysql_selective_trace_pl.Common.{
  ◌≡◌, refl, Bool, true, some, [], ◌++◌, ◌-◌, ◌^◌, length, ltb, codes, cut_at, Bytes,
}
use mysql_selective_trace_pl.Engine.Escape.{json_escape_append}
use mysql_selective_trace_pl.Plugin.Output.{
  negsuc, Double, Entry, print_unsigned, print_int, numbuf, json_tables, json_duration, json_line,
}

-- a `double` with one value
abbrev eight : Double Bool
eight = record { of_ns = λ n. true; below = λ d m. ltb 8 m; print = λ d. codes "8.000" }

abbrev one_entry : Entry Bool
one_entry = record {
  ts = codes "T";
  thread_id = 7;
  local_seq = 1;
  user_host = codes "app@web";
  db = [];
  tables = codes "a.b,c";
  tables_truncated = true;
  command = codes "SELECT";
  duration_ms = some true;
  error_code = negsuc 4;
  query = codes "x\"";
}

one_line :
    json_line eight one_entry
    ≡ codes
        "{\"ts\":\"T\",\"conn_id\":7,\"query_seq\":1,\"user\":\"app@web\",\"db\":\"\",\"tables\":[\"a.b\",\"c\"],\"tables_truncated\":true,\"command\":\"SELECT\",\"duration_ms\":8.000,\"error_code\":-5,\"query\":\"x\\\"\"}\n"
unfolding json_line print_unsigned print_int numbuf json_escape_append json_tables cut_at
    json_duration
one_line = refl

-- The piece with the two numbers, 20 digits each, does not fit in the buffer.
abbrev long_piece : Bytes
long_piece =
    codes "\",\"conn_id\":"
    ++ (print_unsigned (2 ^ 64 - 1) ++ (codes ",\"query_seq\":" ++ print_unsigned (2 ^ 64 - 1)))

long_piece_cut : (length long_piece ≡ 65) × (length (numbuf long_piece) ≡ 63)
unfolding print_unsigned numbuf
long_piece_cut = (refl, refl)
