-- ===== src/Plugin/Output.antt =====
-- The text of the two outputs in `handle_status_event` of src/selective_trace_mysql.cc: the JSON line
-- and the INSERT. Of the C library, `%lu`, `%llu` and `%d` are written out; the time stamp, which
-- `localtime_r` and `snprintf` make, is an argument, and so is the type of a `double` with its
-- operations. A duration that is not known (-1 in the source) is `none`.
pub mod Numbers
pub mod Reader
pub mod Sql
pub mod Line
pub mod Tests
use mysql_selective_trace_pl.Common.{
  ℕ, zero, suc, ◌+◌, ◌-◌, ◌*◌, ◌/◌, ◌%◌, ◌^◌, ◌≤◌, ◌<◌, bit_and, bit_or, ◌≡◌, refl, sym, ap, ◌∙◌,
  ◌≢◌, ◌↔◌, ◌⊎◌, inl, inr, Bool, true, false, not, ◌&&◌, ◌||◌, Option, none, some, List, [], ◌∷◌,
  ◌++◌, map, append-nil, append_assoc, map-append, arith, ltb, leb, ◌==◌, if◌then◌else◌, ==_iff,
  ltb→lt, leb→le, Bool-cases, if_cases, if_split, Option-cases, ◌>>=◌, is_some, >>=-eq-some,
  is_some-eq-true, length, is_nil, take, drop, length-append, All, All-append, All-append_inv,
  All-change, All-mono, Any, Any-append, Any-change, Any-concat, Distinct, Distinct-concat, get_or,
  append_each, append_each-append, append_each-cons, append_each-All, Bytes, prepend, codes, equal,
  equal_iff, contains, cut_at, split_on, split_on-ne-nil, cut_at_sound, cut_at-none, contains-All,
  add_front, split_on_sep, split_on_other, iff_trans, iff_sym, or_assoc, or_map_left, or_map_right,
  or_absurd_left, or_absurd_right, iff_refl, and_map_right,
}
use mysql_selective_trace_pl.Engine.Escape.{json_escape_append, sql_escape_append}

-- What the code does with a `double`: a number of nanoseconds as milliseconds, the test against the
-- variable, and `%.3f`.
pub record Double {ℓ} (W : Type ℓ) : Type ℓ where
  pub of_ns : ℕ → W
  pub below : W → ℕ → Bool
  pub print : W → Bytes

-- an `int`
pub data ℤ : Type 0 where
  pos negsuc : ℕ → ℤ

-- the decimal digits, on fuel
unfoldable pub print_digits : ℕ → ℕ → Bytes
print_digits zero n = []
print_digits (suc fuel) n =
    let front = print_digits fuel (n / 10) in
    if ltb n 10 then (b'0' + n) ∷ [] else front ++ (b'0' + n % 10) ∷ []

-- `%lu` and `%llu`: a number of 64 bits has at most 20 digits
unfoldable pub print_unsigned : ℕ → Bytes
unfolding print_digits
print_unsigned n = print_digits 20 n

-- `%d`
unfoldable pub print_int : ℤ → Bytes
unfolding print_unsigned
print_int (pos n) = print_unsigned n
print_int (negsuc n) = b'-' ∷ print_unsigned (n + 1)

-- `snprintf` into `numbuf`, of 64 bytes
unfoldable pub numbuf : Bytes → Bytes
numbuf text = take 63 text

-- What the code puts together: the fields of the event and of the state.
pub record Entry {ℓ} (W : Type ℓ) : Type ℓ where
  pub ts : Bytes
  pub thread_id : ℕ
  pub local_seq : ℕ
  pub user_host : Bytes
  pub db : Bytes
  -- empty unless `have_tables`
  pub tables : Bytes
  pub tables_truncated : Bool
  pub command : Bytes
  pub duration_ms : Option W
  pub error_code : ℤ
  pub query : Bytes

-- one name in quotes; `first` is the flag of the loop
unfoldable pub json_name : Bool → Bytes → Bytes
json_name first name =
    (if first then [] else b',' ∷ []) ++ (b'"' ∷ (json_escape_append [] name ++ (b'"' ∷ [])))

-- The loop over `st->tables` from `p` on, on fuel: each round passes a comma or ends.
unfoldable pub json_names : ℕ → Bool → Bytes → Bytes
unfolding json_name
json_names zero first p = []
json_names (suc fuel) first [] = []
json_names (suc fuel) first (c ∷ p) = elim (cut_at b',' (c ∷ p)) [
  | none ↦ json_name first (c ∷ p)
  | some (entry, rest) ↦ json_name first entry ++ json_names fuel false rest
]

unfoldable pub json_tables : Bytes → Bytes
unfolding json_names
json_tables tables = json_names (length tables) true tables

-- the text in the literal for the tables
unfoldable pub sql_tables : Bytes → Bool → Bytes
sql_tables [] truncated = []
sql_tables (c ∷ tables) truncated =
    sql_escape_append [] (c ∷ tables) ++ (if truncated then codes ",..." else [])

abbrev pub insert_head : Bytes
insert_head =
    codes
      "INSERT INTO mysql.selective_trace_events (`ts`,`conn_id`,`query_id`,`user`,`db`,`tables_involved`,`command`,`duration_ms`,`error_code`,`query`) VALUES ("

module _ {ℓ} {W : Type ℓ} (double : Double W) where
  unfoldable pub json_duration : Option W → Bytes
  json_duration none = numbuf (codes "\",\"duration_ms\":null")
  json_duration (some d) = numbuf (codes "\",\"duration_ms\":" ++ double.print d)

  -- the branch for SELECTIVE_TRACE_OUTPUT_FILE
  unfoldable pub json_line : Entry W → Bytes
  json_line e =
      codes "{\"ts\":\""
      ++ (e.ts
          ++ (numbuf (
                codes "\",\"conn_id\":"
                ++ (print_unsigned e.thread_id
                    ++ (codes ",\"query_seq\":" ++ print_unsigned e.local_seq)))
              ++ (codes ",\"user\":\""
                  ++ (json_escape_append [] e.user_host
                      ++ (codes "\",\"db\":\""
                          ++ (json_escape_append [] e.db
                              ++ (codes "\",\"tables\":["
                                  ++ (json_tables e.tables
                                      ++ ((b']' ∷ [])
                                          ++ ((if not (is_nil e.tables) && e.tables_truncated
                                                then codes ",\"tables_truncated\":true"
                                                else [])
                                              ++ (codes ",\"command\":\""
                                                  ++ (e.command
                                                      ++ (json_duration e.duration_ms
                                                          ++ (numbuf (
                                                            codes ",\"error_code\":"
                                                            ++ (print_int e.error_code
                                                            ++ codes ",\"query\":\""))
                                                            ++ (json_escape_append [] e.query
                                                            ++ codes "\"}\n")))))))))))))))

  unfoldable pub sql_duration : Option W → Bytes
  sql_duration none = codes "NULL"
  sql_duration (some d) = numbuf (double.print d)

  -- the branch for SELECTIVE_TRACE_OUTPUT_TABLE, behind `VALUES (`
  unfoldable pub sql_values : Entry W → Bytes
  sql_values e =
      (b'\'' ∷ [])
      ++ (e.ts
          ++ (numbuf (
                codes "',"
                ++ (print_unsigned e.thread_id
                    ++ (codes "," ++ (print_unsigned e.local_seq ++ codes ",'"))))
              ++ (sql_escape_append [] e.user_host
                  ++ (codes "','"
                      ++ (sql_escape_append [] e.db
                          ++ (codes "','"
                              ++ (sql_tables e.tables e.tables_truncated
                                  ++ (codes "','"
                                      ++ (e.command
                                          ++ (codes "',"
                                              ++ (sql_duration e.duration_ms
                                                  ++ (numbuf (
                                                        codes ","
                                                        ++ (print_int e.error_code ++ codes ",'"))
                                                      ++ (sql_escape_append [] e.query
                                                          ++ codes "')")))))))))))))

  unfoldable pub insert_statement : Entry W → Bytes
  insert_statement e = insert_head ++ sql_values e
