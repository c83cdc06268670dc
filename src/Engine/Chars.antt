-- ===== src/Engine/Chars.antt =====
-- The character tests of core/filter_engine.cc. A `char` above 127 is negative in the source and a
-- number above 127 here; it lies outside of every range that is tested on both readings.
use mysql_selective_trace_pl.Common.{
  ℕ, ◌+◌, ◌-◌, ◌≡◌, Bool, ◌&&◌, ◌||◌, leb, ◌==◌, if◌then◌else◌, arith, [], ◌∷◌, false, Bytes,
}

unfoldable pub ascii_lower : ℕ → ℕ
ascii_lower c = if leb b'A' c && leb c b'Z' then c - b'A' + b'a' else c

unfoldable pub is_space : ℕ → Bool
is_space c = c == b' ' || c == b'\t' || c == b'\r' || c == b'\n'

unfoldable pub up : ℕ → ℕ
up c = if leb b'a' c && leb c b'z' then c - b'a' + b'A' else c

unfoldable pub is_ident_char : ℕ → Bool
is_ident_char c =
    leb b'a' c && leb c b'z' || leb b'A' c && leb c b'Z' || leb b'0' c && leb c b'9' || c == b'_'

-- whether a text starts with such a character
abbrev pub starts_ident : Bytes → Bool
starts_ident [] = false
starts_ident (c ∷ s) = is_ident_char c

pub ascii_lower_idem : (c : ℕ) → ascii_lower (ascii_lower c) ≡ ascii_lower c
unfolding ascii_lower
ascii_lower_idem c = ground arith
