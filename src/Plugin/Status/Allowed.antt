-- ===== src/Plugin/Status/Allowed.antt =====
-- Which commands `handle_status_event` allows.
use mysql_selective_trace_pl.Common.{
  ℕ, ◌^◌, ◌<◌, bit_and, bit_or, ◌≡◌, refl, ◌↔◌, ◌⊎◌, inl, inr, true, some, [], ◌∷◌, arith, ltb,
  ◌==◌, if◌then◌else◌, if_split, length, Bytes,
}
use mathlib.Core.Path.{subst}
use mysql_selective_trace_pl.Common.Bits.{HasBit, HasBit-bit_or, not_HasBit-zero}
use mysql_selective_trace_pl.Engine.Rules.{FilterRules}
use mysql_selective_trace_pl.Engine.Cmd
use mysql_selective_trace_pl.Engine.Match.{match_schema}
use mysql_selective_trace_pl.Engine.Connections.{match_connection}
use mysql_selective_trace_pl.Plugin.Statement.{StatementState}
use mysql_selective_trace_pl.Plugin.Status.{fall_back, allowed_cmds}
use mysql_selective_trace_pl.Plugin.Status.Bits.{HasBit-all}

-- the mask that the table accesses left
abbrev pub table_cmds : StatementState → ℕ
table_cmds st = if st.in_statement then st.cmd_mask else 0

-- what the active rules say of the connection and of its current schema
abbrev pub FallsBack : FilterRules → ℕ → Bytes → ℕ → Type 0
FallsBack rules thread_id current_db k =
    (match_connection rules thread_id ≡ true) ⊎ HasBit k (match_schema rules (some current_db))

schema_nil : (rules : FilterRules) → match_schema rules (some []) ≡ 0
unfolding match_schema
schema_nil rules = refl

fall_back_db :
    (rules : FilterRules) (db : Bytes) (k allowed : ℕ)
    → HasBit k
        (if ltb 0 (length db) then bit_or allowed (match_schema rules (some db)) else allowed)
      ↔ (HasBit k allowed ⊎ HasBit k (match_schema rules (some db)))
fall_back_db rules [] k allowed = (
  λ h. inl h,
  λ h. elim h [
    | inl found ↦ found
    | inr found ↦ absurd (not_HasBit-zero k (subst (HasBit k) (schema_nil rules) found))
  ],
)
fall_back_db rules (c ∷ db) k allowed =
    let schema = match_schema rules (some (c ∷ db)) in
    if_split (λ m. HasBit k m ↔ (HasBit k allowed ⊎ HasBit k schema)) (ltb 0 (length (c ∷ db)))
      {x = bit_or allowed schema} {y = allowed} (λ e. HasBit-bit_or k allowed schema)
      (λ e. absurd (ground arith))

fall_back_iff :
    (rules : FilterRules) (id : ℕ) (db : Bytes) (k allowed : ℕ)
    → k < 32
    → HasBit k (fall_back (some rules) id db allowed) ↔ (HasBit k allowed ⊎ FallsBack rules id db k)
unfolding fall_back
fall_back_iff rules id db k allowed small =
    if_split (λ m. HasBit k m ↔ (HasBit k allowed ⊎ FallsBack rules id db k))
      (match_connection rules id) {x = Cmd.all}
      {y = if ltb 0 (length db) then bit_or allowed (match_schema rules (some db)) else allowed}
      (λ e. (λ h. inr (inl e), λ h. HasBit-all k small))
      (λ e.
        let (to, from) = fall_back_db rules db k allowed in
        (
          λ h. elim (to h) [ inl a ↦ inl a | inr b ↦ inr (inr b) ],
          λ h. elim h [ inl a ↦ from (inl a) | inr (inl t) ↦ cc | inr (inr b) ↦ from (inr b) ],
        ))

-- With rules in force, the command of bit `k` is allowed if and only if a table access of the
-- statement set its bit, or the connection is listed, or the current schema grants it.
pub allowed_cmds_iff :
    (rules : FilterRules) (id k : ℕ) (st : StatementState)
    → k < 32
    → HasBit k (allowed_cmds (some rules) id (2 ^ k) st)
      ↔ (HasBit k (table_cmds st) ⊎ FallsBack rules id st.current_db k)
unfolding allowed_cmds
allowed_cmds_iff rules id k st small =
    let back = fall_back (some rules) id st.current_db (table_cmds st) in
    if_split (λ m. HasBit k m ↔ (HasBit k (table_cmds st) ⊎ FallsBack rules id st.current_db k))
      (bit_and (table_cmds st) (2 ^ k) == 0) {x = back} {y = table_cmds st}
      (λ e. fall_back_iff rules id st.current_db k (table_cmds st) small)
      (λ e. (λ h. inl h, λ h z. ground arith))
