-- ===== src/Plugin/Statement.antt =====
-- `StatementState` of src/selective_trace_mysql.cc and the functions that change it:
-- `set_current_db`, `track_current_db`, `state_begin_statement`, `state_add_table` and
-- `handle_table_access_event`. A buffer with its length field is the text in it. The clock's value and
-- the active rules are arguments.
pub mod Tables
pub mod Fits
pub mod Schema
pub mod Tests
use mysql_selective_trace_pl.Common.{
  ℕ, zero, suc, ◌+◌, ◌-◌, ◌*◌, ◌/◌, ◌%◌, ◌^◌, ◌≤◌, ◌<◌, bit_and, bit_or, ◌≡◌, refl, sym, ap, ◌∙◌,
  ◌≢◌, ◌↔◌, ◌⊎◌, inl, inr, Bool, true, false, not, ◌&&◌, ◌||◌, Option, none, some, List, [], ◌∷◌,
  ◌++◌, map, append-nil, append_assoc, map-append, arith, ltb, leb, ◌==◌, if◌then◌else◌, ==_iff,
  ltb→lt, leb→le, Bool-cases, if_cases, Option-cases, ◌>>=◌, is_some, >>=-eq-some, is_some-eq-true,
  length, is_nil, take, drop, length-append, All, All-append, All-append_inv, All-change, All-mono,
  Any, Any-append, Any-change, Any-concat, Distinct, Distinct-concat, get_or, append_each,
  append_each-append, append_each-cons, append_each-All, Bytes, prepend, codes, equal, equal_iff,
  contains, cut_at, split_on, split_on-ne-nil, cut_at_sound, cut_at-none, contains-All, add_front,
  split_on_sep, split_on_other, iff_trans, iff_sym, or_assoc, or_map_left, or_map_right,
  or_absurd_left, or_absurd_right, iff_refl, and_map_right,
}
use mysql_selective_trace_pl.Engine.Chars.{ascii_lower}
use mysql_selective_trace_pl.Engine.Rules.{FilterRules}
use mysql_selective_trace_pl.Engine.Match.{match_schema, match_table}
use mysql_selective_trace_pl.Engine.Command.{extract_command}

-- `STATE_TABLES_BUF` and `STATE_CURRENT_DB_BUF`
abbrev pub tables_buf : ℕ
tables_buf = 3968

abbrev pub current_db_buf : ℕ
current_db_buf = 192

pub record StatementState : Type 0 where
  pub local_seq : ℕ
  pub start_ns : ℕ
  pub have_start : Bool
  pub in_statement : Bool
  pub cmd_mask : ℕ
  pub tables_truncated : Bool
  pub tables : Bytes
  pub current_db : Bytes

-- the value-initialized entry of the map
abbrev pub fresh_state : StatementState
fresh_state = record {
  local_seq = 0;
  start_ns = 0;
  have_start = false;
  in_statement = false;
  cmd_mask = 0;
  tables_truncated = false;
  tables = [];
  current_db = [];
}

unfoldable pub set_current_db : StatementState → Bytes → StatementState
set_current_db st db = record st {
  current_db = if leb current_db_buf (length db) then take (current_db_buf - 1) db else db;
}

-- the part of `mysql_event_general` that the tracker reads
pub record GeneralEvent : Type 0 where
  pub general_command : Bytes
  pub general_query : Bytes

unfoldable pub general_command_is : GeneralEvent → Bytes → Bool
general_command_is event label = equal event.general_command label

-- a loop that passes over the bytes that satisfy the test
unfoldable pub skip_while : (ℕ → Bool) → Bytes → Bytes
skip_while test [] = []
skip_while test (c ∷ p) = let rest = skip_while test p in if test c then rest else c ∷ p

-- the bytes that such a loop passes over
unfoldable pub take_while : (ℕ → Bool) → Bytes → Bytes
take_while test [] = []
take_while test (c ∷ p) = let rest = take_while test p in if test c then c ∷ rest else []

unfoldable pub is_gap : ℕ → Bool
is_gap c = c == b' ' || c == b'\t' || c == b'\r' || c == b'\n'

unfoldable pub is_name_char : ℕ → Bool
is_name_char c =
    leb b'a' c && leb c b'z'
    || leb b'A' c && leb c b'Z'
    || leb b'0' c && leb c b'9'
    || c == b'_'
    || c == b'$'

-- The name at `p`, in backticks or not; the empty text where there is none.
unfoldable pub name_at : Bytes → Bytes
unfolding take_while is_name_char
name_at [] = []
name_at (c ∷ p) =
    if c == b'`' then take_while (λ d. not (d == b'`')) p else take_while is_name_char (c ∷ p)

-- The second scan of a USE statement: the name behind three bytes that it takes for the keyword.
unfoldable pub use_name : Bytes → Bytes
unfolding skip_while is_gap name_at
use_name query =
    let p = skip_while (λ c. is_gap c || c == b'(') query in
    if ltb (length p) 3 then [] else name_at (skip_while is_gap (drop 3 p))

-- `if (p > name_begin)`
unfoldable pub set_if_named : StatementState → Bytes → StatementState
unfolding set_current_db
set_if_named st [] = st
set_if_named st (c ∷ name) = set_current_db st (c ∷ name)

unfoldable pub track_current_db : StatementState → GeneralEvent → StatementState
unfolding general_command_is set_current_db use_name set_if_named
track_current_db st event =
    if general_command_is event (codes "Init DB")
    then set_if_named st event.general_query
    else if not (general_command_is event (codes "Query")) || is_nil event.general_query
    then st
    else elim (extract_command event.general_query 8) [
      | none ↦ st
      | some cmd ↦
          if equal cmd (codes "USE") then set_if_named st (use_name event.general_query) else st
    ]

unfoldable pub state_begin_statement : ℕ → StatementState → Bool → StatementState
state_begin_statement now_ns st with_start = record st {
  local_seq = (st.local_seq + 1) % 2 ^ 64;
  cmd_mask = 0;
  tables = [];
  tables_truncated = false;
  in_statement = true;
  have_start = with_start;
  start_ns = if with_start then now_ns else 0;
}

unfoldable pub is_internal_stats_table : Bytes → Bytes → Bool
is_internal_stats_table db tbl =
    equal (map ascii_lower db) (codes "mysql")
    && (equal (map ascii_lower tbl) (codes "innodb_table_stats")
        || equal (map ascii_lower tbl) (codes "innodb_index_stats"))

-- The loop over the entries from `pos` on, on fuel: each round passes a comma, so the length of the
-- text is enough.
unfoldable pub listed : ℕ → Bytes → Bytes → Bool
listed zero name hay = false
listed (suc fuel) name hay =
    if ltb (length hay) (length name) then false else elim (cut_at b',' hay) [
      | none ↦ equal hay name
      | some (entry, rest) ↦ let later = listed fuel name rest in equal entry name || later
    ]

-- `db.tbl`
abbrev pub full_name : Bytes → Bytes → Bytes
full_name db tbl = db ++ (b'.' ∷ tbl)

-- the text with one more entry
abbrev pub add_name : Bytes → Bytes → Bytes
add_name [] name = name
add_name (c ∷ tables) name = (c ∷ tables) ++ (b',' ∷ name)

unfoldable pub state_add_table : StatementState → Bytes → Bytes → StatementState
unfolding listed
state_add_table st db tbl =
    let name = full_name db tbl in
    let truncated = record st { tables_truncated = true } in
    if leb tables_buf (length db + 1 + length tbl)
    then truncated
    else if not (is_nil st.tables) && listed (length st.tables) name st.tables
    then st
    else if leb tables_buf
        (length st.tables + (if is_nil st.tables then 0 else 1) + (length db + 1 + length tbl))
    then truncated
    else record st { tables = add_name st.tables name }

-- the two masks, 0 before there are rules
unfoldable pub explicit_cmds : Option FilterRules → Bytes → Bytes → ℕ
explicit_cmds none db tbl = 0
explicit_cmds (some rules) db tbl = match_table rules (some db) (some tbl)

unfoldable pub schema_cmds : Option FilterRules → Bytes → ℕ
schema_cmds none db = 0
schema_cmds (some rules) db = match_schema rules (some db)

unfoldable pub handle_table_access_event :
    Option FilterRules → ℕ → StatementState → Bytes → Bytes → StatementState
unfolding explicit_cmds schema_cmds is_internal_stats_table state_begin_statement state_add_table
handle_table_access_event active_rules now_ns st db tbl =
    let begun = if st.in_statement then st else state_begin_statement now_ns st false in
    let explicit = explicit_cmds active_rules db tbl in
    let by_schema = schema_cmds active_rules db in
    let added = state_add_table begun db tbl in
    if explicit == 0 && is_internal_stats_table db tbl
    then begun
    else record added { cmd_mask = bit_or added.cmd_mask (bit_or explicit by_schema) }
