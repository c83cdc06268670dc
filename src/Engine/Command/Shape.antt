-- ===== src/Engine/Command/Shape.antt =====
-- What `extract_command` leaves in the buffer, whatever the query, and what `command_bit` reads.
use mysql_selective_trace_pl.Common.{
  ℕ, zero, suc, ◌+◌, ◌-◌, ◌≤◌, ◌<◌, ◌≡◌, refl, sym, ◌∙◌, ◌≢◌, ◌⊎◌, inl, inr, true, false, ◌&&◌,
  ◌||◌, none, some, List, [], ◌∷◌, arith, leb, ◌==◌, leb→le, Bool-cases, if_cases, Option-cases,
  length, take, All, Any, Bytes, codes, equal, equal_iff,
}
use mathlib.Core.Path.{subst}
use mysql_selective_trace_pl.Engine.Cmd
use mysql_selective_trace_pl.Engine.Command.{
  keywords, keyword_bit, command_bit, skip_loop, word_byte, read_word, join_start, or_other,
  extract_command, read_letters, skip_spaces,
}

-- the bytes that a command is made of: capitals, digits and the underscore
abbrev pub IsCommandByte : ℕ → Type 0
IsCommandByte c = (leb b'A' c && leb c b'Z' || leb b'0' c && leb c b'9' || c == b'_') ≡ true

word_byte-IsCommandByte : (c u : ℕ) → word_byte c ≡ some u → IsCommandByte u
unfolding word_byte
word_byte-IsCommandByte c u e = ground arith

-- a text that fits in the buffer with its NUL, and in 16 bytes
abbrev pub Fits : ℕ → ℕ → Bytes → Type 0
Fits buf_size n w = (n + length w < buf_size) × (n + length w ≤ 16) × All IsCommandByte w

read_word-Fits :
    (buf_size n : ℕ) (p : Bytes)
    → n < buf_size
    → n ≤ 16
    → Fits buf_size n (read_word buf_size n p).0
unfolding read_word
read_word-Fits buf_size n [] lt le = (omega arith, omega arith, tt)
read_word-Fits buf_size n (c ∷ p) lt le = elim (Option-cases (word_byte c)) [
  | inl e ↦ ground arith
  | inr (u, e) ↦
      let rest = read_word-Fits buf_size (n + 1) p in
      let good = word_byte-IsCommandByte c u e in ground arith
]

begin-Fits : (buf_size : ℕ) → 6 ≤ buf_size → Fits buf_size 0 (codes "BEGIN")
begin-Fits buf_size h = (omega arith, omega arith, (refl, (refl, (refl, (refl, (refl, tt))))))

join_start-Fits :
    (buf_size : ℕ) (w p : Bytes) → Fits buf_size 0 w → Fits buf_size 0 (join_start buf_size (w, p))
unfolding join_start
join_start-Fits buf_size w p h = elim (Bool-cases (leb 6 buf_size)) [
  | inl e ↦
      if_cases (λ t. Fits buf_size 0 t)
        (equal w (codes "START")
          && leb 6 buf_size
          && equal (read_letters 0 (skip_spaces p)) (codes "TRANSACTION"))
        {x = codes "BEGIN"} {y = w} (begin-Fits buf_size (leb→le 6 buf_size e)) h
  | inr e ↦ ground arith
]

take-Fits :
    (n room : ℕ) (w : Bytes)
    → n + length w ≤ 16
    → All IsCommandByte w
    → Fits (n + room + 1) n (take room w)
take-Fits n zero w le h = (omega arith, omega arith, tt)
take-Fits n (suc room) [] le h = (omega arith, omega arith, tt)
take-Fits n (suc room) (c ∷ w) le (h, hs) =
    let (lt, fits, good) = take-Fits (n + 1) room w (omega arith) hs in
    (omega arith, omega arith, (h, good))

or_other-Fits :
    (buf_size : ℕ) (w : Bytes)
    → 0 < buf_size
    → Fits buf_size 0 w
    → Fits buf_size 0 (or_other buf_size w)
unfolding or_other
or_other-Fits buf_size [] pos h =
    let room : 0 + (buf_size - 1) + 1 ≡ buf_size = omega arith in
    subst (λ t. Fits t 0 (take (buf_size - 1) (codes "OTHER"))) room
      (take-Fits 0 (buf_size - 1) (codes "OTHER") (omega arith)
        (refl, (refl, (refl, (refl, (refl, tt))))))
or_other-Fits buf_size (c ∷ w) pos h = h

-- Whatever the query, a buffer of at least one byte gets a text that fits in it with its NUL, has
-- at most 16 bytes, and is made of capitals, digits and underscores only. A buffer of no bytes is
-- left alone.
pub extract_command_total :
    (query : Bytes) (buf_size : ℕ)
    → ((buf_size ≡ 0) × (extract_command query buf_size ≡ none))
      ⊎ ((cmd : Bytes) × (extract_command query buf_size ≡ some cmd)
          × (length cmd < buf_size)
          × (length cmd ≤ 16)
          × All IsCommandByte cmd)
unfolding extract_command
extract_command_total query zero = inl (refl, refl)
extract_command_total query (suc n) =
    let word = read_word (suc n) 0 (skip_loop (length query) query) in
    let joined =
      join_start-Fits (suc n) word.0 word.1
        (read_word-Fits (suc n) 0 _ (omega arith) (omega arith)) in
    let (lt, le, good) = or_other-Fits (suc n) _ (omega arith) joined in
    inr (or_other (suc n) (join_start (suc n) word), ground arith, omega arith, omega arith, good)

-- A command that occurs in the table of keywords.
abbrev pub IsKeyword : List (Bytes × ℕ) → Bytes → ℕ → Type 0
IsKeyword table cmd bit = Any (λ (row : Bytes × ℕ). (row.0 ≡ cmd) × (row.1 ≡ bit)) table

keyword_bit_next :
    (kw : Bytes) (bit : ℕ) (table : List (Bytes × ℕ)) (cmd : Bytes)
    → equal cmd kw ≡ false
    → keyword_bit ((kw, bit) ∷ table) cmd ≡ keyword_bit table cmd
unfolding keyword_bit
keyword_bit_next kw bit table cmd e = rw (e, keyword_bit) refl

keyword_bit_cases :
    (table : List (Bytes × ℕ)) (cmd : Bytes)
    → IsKeyword table cmd (keyword_bit table cmd)
      ⊎ (All (λ (row : Bytes × ℕ). row.0 ≢ cmd) table × (keyword_bit table cmd ≡ Cmd.other))
unfolding keyword_bit
keyword_bit_cases [] cmd = inr (tt, refl)
keyword_bit_cases ((kw, bit) ∷ table) cmd = elim (Bool-cases (equal cmd kw)) [
  | inl e ↦ inl (inl (sym ((equal_iff cmd kw).0 e), sym (rw (e, keyword_bit) refl)))
  | inr e ↦ elim (keyword_bit_cases table cmd) [
    | inl found ↦
        inl (inr (subst (IsKeyword table cmd) (sym (keyword_bit_next kw bit table cmd e)) found))
    | inr (absent, other) ↦ inr (
      ((λ same. cc (e, (equal_iff cmd kw).1 (sym same))), absent),
      keyword_bit_next kw bit table cmd e ∙ other,
    )
  ]
]

-- The bit of a command is that of a row of the table with this very keyword, or the bit of other
-- commands if the table has no such row.
pub command_bit_cases :
    (cmd : Bytes)
    → IsKeyword keywords cmd (command_bit cmd)
      ⊎ (All (λ (row : Bytes × ℕ). row.0 ≢ cmd) keywords × (command_bit cmd ≡ Cmd.other))
unfolding command_bit
command_bit_cases cmd = keyword_bit_cases keywords cmd
