-- ===== src/Plugin/Status/Accesses.antt =====
-- The table accesses of one statement, between its start and its end.
use mysql_selective_trace_pl.Common.{
  ℕ, ◌+◌, bit_or, ◌≡◌, refl, sym, ap, ◌∙◌, ◌≢◌, ◌↔◌, ◌⊎◌, inl, inr, true, false, not, ◌&&◌, Option,
  some, List, [], ◌∷◌, arith, leb, ◌==◌, if◌then◌else◌, Bool-cases, if_cases, if_split, length,
  is_nil, Any, Bytes, iff_trans, or_assoc, or_map_left, or_map_right,
}
use mathlib.Core.Path.{subst}
use mysql_selective_trace_pl.Common.Bits.{HasBit, HasBit-bit_or}
use mysql_selective_trace_pl.Plugin.Status.Bits.{not_HasBit_zero}
use mysql_selective_trace_pl.Engine.Rules.{FilterRules}
use mysql_selective_trace_pl.Engine.Match.{match_schema, match_table}
use mysql_selective_trace_pl.Plugin.Statement.{
  StatementState, tables_buf, full_name, add_name, listed, state_add_table, state_begin_statement,
  is_internal_stats_table, explicit_cmds, schema_cmds, handle_table_access_event,
}

-- `TABLE_ACCESS` events of a schema and a table, one after another
abbrev pub accesses :
    Option FilterRules → ℕ → StatementState → List (Bytes × Bytes) → StatementState
accesses active_rules now_ns st [] = st
accesses active_rules now_ns st ((db, tbl) ∷ more) =
    accesses active_rules now_ns (handle_table_access_event active_rules now_ns st db tbl) more

-- The rules grant bit `k` to an access: by the table, or by its schema; by the schema only if the
-- table is none of the server's statistics tables or is granted something by its own name.
abbrev pub Grants : FilterRules → ℕ → Bytes × Bytes → Type 0
Grants rules k (db, tbl) =
    HasBit k (match_table rules (some db) (some tbl))
    ⊎ (HasBit k (match_schema rules (some db))
        × ((is_internal_stats_table db tbl ≡ false) ⊎ (match_table rules (some db) (some tbl) ≢ 0)))

-- equal but for the mask and the list of tables
abbrev pub Continues : StatementState → StatementState → Type 0
Continues st st' = st' ≡ record st {
  cmd_mask = st'.cmd_mask;
  tables = st'.tables;
  tables_truncated = st'.tables_truncated;
}

abbrev AddsTable : StatementState → StatementState → Type 0
AddsTable st st' = st' ≡ record st { tables = st'.tables; tables_truncated = st'.tables_truncated }

state_add_table-AddsTable :
    (st : StatementState) (db tbl : Bytes) → AddsTable st (state_add_table st db tbl)
unfolding state_add_table
state_add_table-AddsTable st db tbl =
    let truncated = record st { tables_truncated = true } in
    let added = record st { tables = add_name st.tables (full_name db tbl) } in
    if_cases (AddsTable st) (leb tables_buf (length db + 1 + length tbl)) {x = truncated} refl (
      if_cases (AddsTable st)
        (not (is_nil st.tables) && listed (length st.tables) (full_name db tbl) st.tables) {x = st}
        refl
        (if_cases (AddsTable st)
          (leb tables_buf
            (length st.tables + (if is_nil st.tables then 0 else 1) + (length db + 1 + length tbl)))
          {x = truncated} {y = added} refl refl))

-- what one access within a statement does
record Step (rules : FilterRules) (a : Bytes × Bytes) (st st' : StatementState) : Type 0 where
  continues : Continues st st'
  mask : (k : ℕ) → HasBit k st'.cmd_mask ↔ (HasBit k st.cmd_mask ⊎ Grants rules k a)

-- what the handler does with an access once a statement has begun
recorded : FilterRules → Bytes → Bytes → StatementState → StatementState
recorded rules db tbl st =
    let explicit = match_table rules (some db) (some tbl) in
    let schema = match_schema rules (some db) in
    let added = state_add_table st db tbl in
    if explicit == 0 && is_internal_stats_table db tbl
    then st
    else record added { cmd_mask = bit_or added.cmd_mask (bit_or explicit schema) }

not_granted :
    (rules : FilterRules) (db tbl : Bytes) (k : ℕ)
    → (match_table rules (some db) (some tbl) == 0 && is_internal_stats_table db tbl) ≡ true
    → ¬ Grants rules k (db, tbl)
not_granted rules db tbl k e (inl g) =
    not_HasBit_zero k (match_table rules (some db) (some tbl)) g (ground arith)
not_granted rules db tbl k e (inr (g, inl plain)) = ground arith
not_granted rules db tbl k e (inr (g, inr explicit)) = ground arith

granted_iff :
    (rules : FilterRules) (db tbl : Bytes) (k : ℕ)
    → (match_table rules (some db) (some tbl) == 0 && is_internal_stats_table db tbl) ≡ false
    → HasBit k (bit_or (match_table rules (some db) (some tbl)) (match_schema rules (some db)))
      ↔ Grants rules k (db, tbl)
granted_iff rules db tbl k e =
    let explicit = match_table rules (some db) (some tbl) in
    let (to, from) = HasBit-bit_or k explicit (match_schema rules (some db)) in
    let plain : (is_internal_stats_table db tbl ≡ false) ⊎ (explicit ≢ 0) =
      elim (Bool-cases (is_internal_stats_table db tbl)) [
        | inl internal ↦ inr (λ z. ground arith)
        | inr other ↦ inl other
      ] in
    (
      λ h. elim (to h) [ inl m ↦ inl m | inr m ↦ inr (m, plain) ],
      λ h. elim h [ inl m ↦ from (inl m) | inr (m, _) ↦ from (inr m) ],
    )

recorded-Step :
    (rules : FilterRules) (st : StatementState) (db tbl : Bytes)
    → Step rules (db, tbl) st (recorded rules db tbl st)
unfolding recorded
recorded-Step rules st db tbl =
    let explicit = match_table rules (some db) (some tbl) in
    let granted = bit_or explicit (match_schema rules (some db)) in
    let added = state_add_table st db tbl in
    let adds = state_add_table-AddsTable st db tbl in
    if_split (Step rules (db, tbl) st) (explicit == 0 && is_internal_stats_table db tbl) {x = st}
      {y = record added { cmd_mask = bit_or added.cmd_mask granted }}
      (λ e. record {
        continues = refl;
        mask = λ k. (
          λ h. inl h,
          λ h. elim h [ inl m ↦ m | inr g ↦ absurd (not_granted rules db tbl k e g) ],
        );
      })
      (λ e. record {
        continues =
            ap (λ (s : StatementState). record s { cmd_mask = bit_or added.cmd_mask granted }) adds;
        mask = λ k.
            subst
              (λ m. HasBit k (bit_or m granted) ↔ (HasBit k st.cmd_mask ⊎ Grants rules k (db, tbl)))
              (sym (ap (λ (s : StatementState). s.cmd_mask) adds))
              (iff_trans (HasBit-bit_or k st.cmd_mask granted)
                (or_map_right (granted_iff rules db tbl k e)));
      })

access-Step :
    (rules : FilterRules) (now_ns : ℕ) (st : StatementState) (db tbl : Bytes)
    → st.in_statement ≡ true
    → Step rules (db, tbl) st (handle_table_access_event (some rules) now_ns st db tbl)
unfolding handle_table_access_event explicit_cmds schema_cmds recorded
access-Step rules now_ns st db tbl begun =
    if_split (λ b. Step rules (db, tbl) st (recorded rules db tbl b)) st.in_statement {x = st}
      {y = state_begin_statement now_ns st false} (λ e. recorded-Step rules st db tbl) (λ e. cc)

-- The whole statement: nothing else changes, and the mask has the bits that the accesses were
-- granted.
pub accesses-Continues :
    (rules : FilterRules) (now_ns : ℕ) (st : StatementState) (accs : List (Bytes × Bytes))
    → st.in_statement ≡ true
    → Continues st (accesses (some rules) now_ns st accs)
accesses-Continues rules now_ns st [] begun = refl
accesses-Continues rules now_ns st ((db, tbl) ∷ more) begun =
    let next = handle_table_access_event (some rules) now_ns st db tbl in
    let step = access-Step rules now_ns st db tbl begun in
    let rest =
      accesses-Continues rules now_ns next more (ap (λ s. s.in_statement) step.continues ∙ begun) in
    let last = accesses (some rules) now_ns next more in
    rest
    ∙ ap
        (λ (s : StatementState). record s {
          cmd_mask = last.cmd_mask;
          tables = last.tables;
          tables_truncated = last.tables_truncated;
        })
        step.continues

pub accesses-mask :
    (rules : FilterRules) (now_ns : ℕ) (st : StatementState) (accs : List (Bytes × Bytes)) (k : ℕ)
    → st.in_statement ≡ true
    → HasBit k (accesses (some rules) now_ns st accs).cmd_mask
      ↔ (HasBit k st.cmd_mask ⊎ Any (Grants rules k) accs)
accesses-mask rules now_ns st [] k begun =
    (λ h. inl h, λ h. elim h [ inl m ↦ m | inr z ↦ absurd z ])
accesses-mask rules now_ns st ((db, tbl) ∷ more) k begun =
    let next = handle_table_access_event (some rules) now_ns st db tbl in
    let step = access-Step rules now_ns st db tbl begun in
    let rest =
      accesses-mask rules now_ns next more k (ap (λ s. s.in_statement) step.continues ∙ begun) in
    iff_trans rest (iff_trans (or_map_left (step.mask k)) or_assoc)
