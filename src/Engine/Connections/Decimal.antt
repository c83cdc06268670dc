-- ===== src/Engine/Connections/Decimal.antt =====
-- What a token of the connection list is read as.
use mysql_selective_trace_pl.Common.{
  ℕ, ◌+◌, ◌-◌, ◌*◌, ◌%◌, ◌^◌, ◌≤◌, ◌<◌, ◌≡◌, sym, ap, ◌∙◌, ◌↔◌, some, [], ◌∷◌, arith, All, Bytes,
}
use mysql_selective_trace_pl.Engine.Connections.{digits_value, connection_id}

abbrev pub IsDigit : ℕ → Type 0
IsDigit c = (b'0' ≤ c) × (c ≤ b'9')

-- the number that decimal digits spell behind `v`
abbrev pub decimal : ℕ → Bytes → ℕ
decimal v [] = v
decimal v (c ∷ tok) = decimal (v * 10 + (c - b'0')) tok

decimal-mod :
    (tok : Bytes) (v w : ℕ)
    → v % 2 ^ 64 ≡ w % 2 ^ 64
    → decimal v tok % 2 ^ 64 ≡ decimal w tok % 2 ^ 64
decimal-mod [] v w h = h
decimal-mod (c ∷ tok) v w h = decimal-mod tok _ _ (omega arith)

digits_value_sound :
    (tok : Bytes) (v r : ℕ)
    → digits_value v tok ≡ some r
    → v < 2 ^ 64
    → All IsDigit tok × (r ≡ decimal v tok % 2 ^ 64)
unfolding digits_value
digits_value_sound [] v r e h = (tt, ground arith)
digits_value_sound (c ∷ tok) v r e h =
    let next = (v * 10 + (c - b'0')) % 2 ^ 64 in
    let same = decimal-mod tok next (v * 10 + (c - b'0')) (omega arith) in
    ground (arith, digits_value_sound tok next r, same)

digits_value_complete :
    (tok : Bytes) (v : ℕ)
    → All IsDigit tok
    → v < 2 ^ 64
    → digits_value v tok ≡ some (decimal v tok % 2 ^ 64)
unfolding digits_value
digits_value_complete [] v d h = ap some (omega arith)
digits_value_complete (c ∷ tok) v d h =
    let next = (v * 10 + (c - b'0')) % 2 ^ 64 in
    let same = decimal-mod tok next (v * 10 + (c - b'0')) (omega arith) in
    ground (arith, digits_value_complete tok next d.1, same)

-- A token is accepted exactly if it is all digits, and then read as its decimal value modulo 2^64:
-- a number too large for 64 bits is not refused, it wraps around to another connection id.
pub connection_id_iff :
    (tok : Bytes) (v : ℕ)
    → (connection_id tok ≡ some v) ↔ (All IsDigit tok × (v ≡ decimal 0 tok % 2 ^ 64))
unfolding connection_id
connection_id_iff tok v = (
  (λ e. digits_value_sound tok 0 v e (omega arith)),
  (λ h. digits_value_complete tok 0 h.0 (omega arith) ∙ ap some (sym h.1)),
)
