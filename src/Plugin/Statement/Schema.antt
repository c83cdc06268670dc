-- ===== src/Plugin/Statement/Schema.antt =====
-- The tracker of the current schema.
use mysql_selective_trace_pl.Common.{
  ℕ, zero, suc, ◌-◌, ◌≤◌, ◌<◌, ◌≡◌, refl, inl, inr, not, ◌||◌, [], ◌∷◌, arith, leb, if◌then◌else◌,
  Bool-cases, Option-cases, length, is_nil, take, Bytes, codes, equal,
}
use mysql_selective_trace_pl.Plugin.Statement.{
  StatementState, current_db_buf, set_current_db, set_if_named, GeneralEvent, general_command_is,
  use_name, track_current_db,
}
use mysql_selective_trace_pl.Engine.Command.{extract_command}

length-take : (n : ℕ) (s : Bytes) → length (take n s) ≤ n
length-take zero s = omega arith
length-take (suc n) [] = omega arith
length-take (suc n) (c ∷ s) = omega (arith, length-take n s)

-- the state with another current schema, which fits in its buffer
abbrev pub Tracks : StatementState → StatementState → Type 0
Tracks st st' =
    (st' ≡ record st { current_db = st'.current_db }) × (length st'.current_db < current_db_buf)

length_capped :
    (size : ℕ) (db : Bytes)
    → 0 < size
    → length (if leb size (length db) then take (size - 1) db else db) < size
length_capped size db pos = elim (Bool-cases (leb size (length db))) [
  | inl e ↦ rw e (omega (arith, length-take (size - 1) db))
  | inr e ↦ rw e (ground arith)
]

set_current_db-Tracks : (st : StatementState) (db : Bytes) → Tracks st (set_current_db st db)
unfolding set_current_db
set_current_db-Tracks st db = (refl, length_capped current_db_buf db (omega arith))

set_if_named-Tracks :
    (st : StatementState) (name : Bytes)
    → length st.current_db < current_db_buf
    → Tracks st (set_if_named st name)
unfolding set_if_named
set_if_named-Tracks st [] h = (refl, h)
set_if_named-Tracks st (c ∷ name) h = set_current_db-Tracks st (c ∷ name)

-- Whatever the event, the tracker changes nothing but the current schema, and that stays below the
-- size of its buffer if it was.
pub track_current_db-Tracks :
    (st : StatementState) (event : GeneralEvent)
    → length st.current_db < current_db_buf
    → Tracks st (track_current_db st event)
unfolding track_current_db
track_current_db-Tracks st event h =
    let query = event.general_query in
    let same : Tracks st st = (refl, h) in
    let by_query = set_if_named-Tracks st query h in
    let by_name = set_if_named-Tracks st (use_name query) h in
    elim (Bool-cases (general_command_is event (codes "Init DB"))) [
      | inl e ↦ rw e by_query
      | inr e ↦ elim (Bool-cases (not (general_command_is event (codes "Query")) || is_nil query)) [
        | inl other ↦ rw (e, other) same
        | inr is_query ↦ elim (Option-cases (extract_command query 8)) [
          | inl none_here ↦ rw (e, is_query, none_here) same
          | inr (cmd, found) ↦ elim (Bool-cases (equal cmd (codes "USE"))) [
            | inl use_found ↦ rw (e, is_query, found, use_found) by_name
            | inr no_use ↦ rw (e, is_query, found, no_use) same
          ]
        ]
      ]
    ]
