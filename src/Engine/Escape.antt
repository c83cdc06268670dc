-- ===== src/Engine/Escape.antt =====
-- `json_escape_append` and `sql_escape_append` of core/filter_engine.cc. Each loop appends the
-- bytes for one source byte to `out`. The proofs are in the modules below.
pub mod Json
pub mod Sql
pub mod Tests
use mysql_selective_trace_pl.Common.{
  ℕ, ◌+◌, ◌/◌, ◌%◌, List, [], ◌∷◌, ltb, ◌==◌, if◌then◌else◌, Bytes, codes, get_or, append_each,
}

-- the table `hexdig[]`
hexdig : ℕ → ℕ
hexdig n = get_or (codes "0123456789abcdef") n 0

-- one round of the loop: the `switch` and its default
json_escape_byte : ℕ → Bytes
json_escape_byte c =
    if c == b'"'
    then b'\\' ∷ b'"' ∷ []
    else if c == b'\\'
    then b'\\' ∷ b'\\' ∷ []
    else if c == 8
    then b'\\' ∷ b'b' ∷ []
    else if c == 12
    then b'\\' ∷ b'f' ∷ []
    else if c == b'\n'
    then b'\\' ∷ b'n' ∷ []
    else if c == b'\r'
    then b'\\' ∷ b'r' ∷ []
    else if c == b'\t'
    then b'\\' ∷ b't' ∷ []
    else if ltb c 0x20
    then b'\\' ∷ b'u' ∷ b'0' ∷ b'0' ∷ hexdig (c / 16 % 16) ∷ hexdig (c % 16) ∷ []
    else c ∷ []

unfoldable pub json_escape_append : Bytes → Bytes → Bytes
unfolding json_escape_byte hexdig
json_escape_append = append_each json_escape_byte

sql_escape_byte : ℕ → Bytes
sql_escape_byte c =
    if c == b'\''
    then b'\\' ∷ b'\'' ∷ []
    else if c == b'\\'
    then b'\\' ∷ b'\\' ∷ []
    else if c == 0
    then b'\\' ∷ b'0' ∷ []
    else if c == b'\n'
    then b'\\' ∷ b'n' ∷ []
    else if c == b'\r'
    then b'\\' ∷ b'r' ∷ []
    else if c == 26
    then b'\\' ∷ b'Z' ∷ []
    else c ∷ []

unfoldable pub sql_escape_append : Bytes → Bytes → Bytes
unfolding sql_escape_byte
sql_escape_append = append_each sql_escape_byte
