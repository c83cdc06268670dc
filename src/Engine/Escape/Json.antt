-- ===== src/Engine/Escape/Json.antt =====
-- What `json_escape_append` writes is a JSON string body that reads back as its source.
use mysql_selective_trace_pl.Common.{
  ℕ, ◌+◌, ◌-◌, ◌*◌, ◌/◌, ◌%◌, ◌≤◌, ◌<◌, ◌≡◌, refl, true, ◌&&◌, ◌||◌, [], ◌∷◌, ◌++◌, append_assoc,
  Option, some, none, arith, ltb, leb, ◌==◌, ==_iff, if◌then◌else◌, Bytes, prepend, All, All-append,
  leb→le, append_each, append_each-append, append_each-cons, append_each-All,
}
use mysql_selective_trace_pl.Common.Tables.{holds_below, holds_below_at}
use mysql_selective_trace_pl.Engine.Escape.{hexdig, json_escape_byte, json_escape_append}

-- the value of a hexadecimal digit, and 16 for any other byte
hex_value : ℕ → ℕ
hex_value c =
    if leb b'0' c && leb c b'9'
    then c - b'0'
    else if leb b'a' c && leb c b'f'
    then c - b'a' + 10
    else if leb b'A' c && leb c b'F'
    then c - b'A' + 10
    else 16

-- the byte behind a backslash, for the two-character escapes of JSON
short_escape : ℕ → Option ℕ
short_escape c =
    if c == b'"' || c == b'\\' || c == b'/'
    then some c
    else if c == b'b'
    then some 8
    else if c == b'f'
    then some 12
    else if c == b'n'
    then some 10
    else if c == b'r'
    then some 13
    else if c == b't'
    then some 9
    else none

-- where the reader stands: in plain text, behind a backslash, or behind `\u` and `n` digits of `v`
data Mode : Type 0 where
  plain slash : Mode
  digits : ℕ → ℕ → Mode

-- A reader of JSON string bodies (RFC 8259), from behind the opening quote. It returns the bytes
-- that the body stands for and what follows the closing quote. `\uXXXX` is read where it stands
-- for one byte of UTF-8, so below 128.
read : Mode → Bytes → Option (Bytes × Bytes)
read m [] = none
read plain (c ∷ s) =
    let escape = read slash s in
    let more = prepend c (read plain s) in
    if c == b'"'
    then some ([], s)
    else if c == b'\\'
    then escape
    else if ltb c 0x20
    then none
    else more
read slash (c ∷ s) =
    let unicode = read (digits 0 0) s in
    let more = read plain s in
    if c == b'u' then unicode else elim (short_escape c) [ none ↦ none | some d ↦ prepend d more ]
read (digits n v) (c ∷ s) =
    let v' = v * 16 + hex_value c in
    let last = prepend v' (read plain s) in
    let more = read (digits (n + 1) v') s in
    if leb 16 (hex_value c)
    then none
    else if ltb n 3
    then more
    else if ltb v' 128
    then last
    else none

pub read_json : Bytes → Option (Bytes × Bytes)
unfolding read short_escape hex_value
read_json s = read plain s

hex_value_table : holds_below (λ n. hex_value (hexdig n) == n) 16 ≡ true
unfolding holds_below hex_value hexdig
hex_value_table = refl

hex_value-hexdig : (n : ℕ) → n < 16 → hex_value (hexdig n) ≡ n
hex_value-hexdig n h = (==_iff _ n).0 (holds_below_at _ 16 n h hex_value_table)

zero_digit : hex_value b'0' ≡ 0
unfolding hex_value
zero_digit = refl

read_unicode :
    (c : ℕ) (t : Bytes)
    → c < 0x20
    → read (digits 0 0) (b'0' ∷ b'0' ∷ hexdig (c / 16 % 16) ∷ hexdig (c % 16) ∷ t)
      ≡ prepend c (read plain t)
unfolding read
read_unicode c t h = ground (
  arith,
  zero_digit,
  hex_value-hexdig (c / 16 % 16) (omega arith),
  hex_value-hexdig (c % 16) (omega arith),
)

read_byte : (c : ℕ) (t : Bytes) → read plain (json_escape_byte c ++ t) ≡ prepend c (read plain t)
unfolding read json_escape_byte short_escape
read_byte c t = ground (arith, read_unicode c t)

read-append_each :
    (src rest : Bytes)
    → read plain (append_each json_escape_byte [] src ++ (b'"' ∷ rest)) ≡ some (src, rest)
read-append_each [] rest = unfold read in refl
read-append_each (c ∷ src) rest =
    rw (append_each-cons json_escape_byte c src, append_assoc, read_byte, read-append_each src rest)

-- Whatever bytes the source holds, the text that `json_escape_append` appends to `out` is read by
-- a JSON string reader, up to the first quote behind it, as exactly the source; `out` is kept.
pub read_json-json_escape_append :
    (out src rest : Bytes)
    → (body : Bytes) × (json_escape_append out src ≡ out ++ body)
      × (read_json (body ++ (b'"' ∷ rest)) ≡ some (src, rest))
unfolding read_json json_escape_append
read_json-json_escape_append out src rest =
    (append_each json_escape_byte [] src, append_each-append _ out src, read-append_each src rest)

hexdig_table : holds_below (λ n. leb 0x20 (hexdig n)) 16 ≡ true
unfolding holds_below hexdig
hexdig_table = refl

hexdig_printable : (n : ℕ) → n < 16 → 0x20 ≤ hexdig n
hexdig_printable n h = leb→le _ _ (holds_below_at _ 16 n h hexdig_table)

json_escape_byte_printable : (c : ℕ) → All (λ b. 0x20 ≤ b) (json_escape_byte c)
unfolding json_escape_byte
json_escape_byte_printable c =
    ground
      (arith, hexdig_printable (c / 16 % 16) (omega arith), hexdig_printable (c % 16) (omega arith))

-- If `out` holds no control character, nor does `out` with the escaped source behind it: an event
-- stays on one line of the log file.
pub json_escape_append_printable :
    (out src : Bytes) → All (λ b. 0x20 ≤ b) out → All (λ b. 0x20 ≤ b) (json_escape_append out src)
unfolding json_escape_append
json_escape_append_printable out src h =
    rw (append_each-append json_escape_byte out src)
      (All-append _ out _ h (append_each-All _ _ json_escape_byte_printable src))
