-- ===== src/Engine/Command.antt =====
-- `command_bit` and `extract_command` of core/filter_engine.cc: the first keyword of a statement.
-- The pointer `p` is the text from it to the end. The buffer is the text in front of its NUL.
pub mod Skip
pub mod Layout
pub mod Word
pub mod Shape
pub mod Tests
use mysql_selective_trace_pl.Common.{
  ℕ, zero, suc, ◌+◌, ◌-◌, ◌*◌, ◌/◌, ◌%◌, ◌^◌, ◌≤◌, ◌<◌, bit_and, bit_or, ◌≡◌, refl, sym, ap, ◌∙◌,
  ◌≢◌, ◌↔◌, ◌⊎◌, inl, inr, Bool, true, false, not, ◌&&◌, ◌||◌, Option, none, some, List, [], ◌∷◌,
  ◌++◌, map, append-nil, append_assoc, map-append, arith, ltb, leb, ◌==◌, if◌then◌else◌, ==_iff,
  ltb→lt, leb→le, Bool-cases, if_cases, Option-cases, ◌>>=◌, is_some, >>=-eq-some, is_some-eq-true,
  length, is_nil, take, drop, length-append, All, All-append, All-append_inv, All-change, All-mono,
  Any, Any-append, Any-change, Any-concat, Distinct, Distinct-concat, get_or, append_each,
  append_each-append, append_each-cons, append_each-All, Bytes, prepend, codes, equal, equal_iff,
  contains, cut_at, split_on, split_on-ne-nil, cut_at_sound, cut_at-none, contains-All, add_front,
  split_on_sep, split_on_other, iff_trans, iff_sym, or_assoc, or_map_left, or_map_right,
  or_absurd_left, or_absurd_right, iff_refl, and_map_right,
}
use mysql_selective_trace_pl.Engine.Chars.{is_space}
use mysql_selective_trace_pl.Engine.Cmd

-- `keywords[]`
abbrev pub keywords : List (Bytes × ℕ)
keywords =
    (codes "SELECT", Cmd.select)
    ∷ (codes "WITH", Cmd.select)
    ∷ (codes "INSERT", Cmd.insert)
    ∷ (codes "UPDATE", Cmd.update)
    ∷ (codes "DELETE", Cmd.delete)
    ∷ (codes "REPLACE", Cmd.replace)
    ∷ (codes "LOAD", Cmd.load)
    ∷ (codes "CALL", Cmd.call)
    ∷ (codes "CREATE", Cmd.create)
    ∷ (codes "ALTER", Cmd.alter)
    ∷ (codes "DROP", Cmd.drop)
    ∷ (codes "TRUNCATE", Cmd.truncate)
    ∷ (codes "RENAME", Cmd.rename)
    ∷ (codes "COMMIT", Cmd.commit)
    ∷ (codes "ROLLBACK", Cmd.rollback)
    ∷ (codes "BEGIN", Cmd.begin)
    ∷ (codes "SAVEPOINT", Cmd.savepoint)
    ∷ []

-- the loop over the table and the return behind it
unfoldable pub keyword_bit : List (Bytes × ℕ) → Bytes → ℕ
keyword_bit [] cmd = Cmd.other
keyword_bit ((kw, bit) ∷ table) cmd = if equal cmd kw then bit else keyword_bit table cmd

unfoldable pub command_bit : Bytes → ℕ
unfolding keyword_bit
command_bit cmd = keyword_bit keywords cmd

-- `p + k < end && p[k] == c`
unfoldable pub byte_is : ℕ → ℕ → Bytes → Bool
byte_is k c p = elim (drop k p) [ [] ↦ false | d ∷ _ ↦ d == c ]

-- `while (p < end && *p >= '0' && *p <= '9') p++`
unfoldable pub skip_digits : Bytes → Bytes
skip_digits [] = []
skip_digits (c ∷ p) = let rest = skip_digits p in if leb b'0' c && leb c b'9' then rest else c ∷ p

-- `while (p < end && *p != '\n') p++`
unfoldable pub skip_line : Bytes → Bytes
skip_line [] = []
skip_line (c ∷ p) = let rest = skip_line p in if c == b'\n' then c ∷ p else rest

-- to the end of a comment, or of the text
unfoldable pub skip_block : Bytes → Bytes
skip_block [] = []
skip_block (c ∷ []) = []
skip_block (c ∷ d ∷ p) = let rest = skip_block (d ∷ p) in if c == b'*' && d == b'/' then p else rest

-- behind `/*`
unfoldable pub skip_comment : Bytes → Bytes
unfolding byte_is skip_digits skip_block
skip_comment p =
    if byte_is 0 b'!' p
    then skip_digits (drop 1 p)
    else if byte_is 0 b'M' p && byte_is 1 b'!' p
    then skip_digits (drop 2 p)
    else skip_block p

-- `p == end || is_space(*p)`
unfoldable pub ends_dashes : Bytes → Bool
ends_dashes [] = true
ends_dashes (c ∷ p) = is_space c

-- One round of the skipping loop: `p` after a `continue`, or `none` for the `break`.
unfoldable pub skip_one : Bytes → Option Bytes
unfolding byte_is skip_comment ends_dashes skip_line
skip_one [] = none
skip_one (c ∷ p) =
    if is_space c || c == b'('
    then some p
    else if c == b'/' && byte_is 0 b'*' p
    then some (skip_comment (drop 1 p))
    else if c == b'-' && byte_is 0 b'-' p && ends_dashes (drop 1 p)
    then some (skip_line (c ∷ p))
    else if c == b'#'
    then some (skip_line (c ∷ p))
    else none

-- The `for (;;)`, on fuel: each round moves `p`, so the length of the text is enough.
unfoldable pub skip_loop : ℕ → Bytes → Bytes
unfolding skip_one
skip_loop zero p = p
skip_loop (suc fuel) p = elim (skip_one p) [ none ↦ p | some next ↦ skip_loop fuel next ]

-- the byte that the first word's loop stores for `c`, and `none` for its `break`
unfoldable pub word_byte : ℕ → Option ℕ
word_byte c =
    if leb b'a' c && leb c b'z'
    then some (c - b'a' + b'A')
    else if not (leb b'A' c && leb c b'Z') && not (leb b'0' c && leb c b'9') && not (c == b'_')
    then none
    else some c

-- The word's loop from `n` bytes on: what it stores, and `p` behind it.
unfoldable pub read_word : ℕ → ℕ → Bytes → Bytes × Bytes
unfolding word_byte
read_word buf_size n [] = ([], [])
read_word buf_size n (c ∷ p) =
    let rest = read_word buf_size (n + 1) p in
    if ltb (n + 1) buf_size && ltb n 16
    then elim (word_byte c) [ none ↦ ([], c ∷ p) | some u ↦ (u ∷ rest.0, rest.1) ]
    else ([], c ∷ p)

-- `while (q < end && is_space(*q)) q++`
unfoldable pub skip_spaces : Bytes → Bytes
skip_spaces [] = []
skip_spaces (c ∷ q) = let rest = skip_spaces q in if is_space c then rest else c ∷ q

-- The loop that fills `w[12]` from `m` bytes on.
unfoldable pub read_letters : ℕ → Bytes → Bytes
read_letters m [] = []
read_letters m (c ∷ q) =
    let rest = read_letters (m + 1) q in
    if ltb (m + 1) 12
    then if leb b'a' c && leb c b'z'
      then (c - b'a' + b'A') ∷ rest
      else if leb b'A' c && leb c b'Z'
      then c ∷ rest
      else []
    else []

-- The buffer after the test for START TRANSACTION.
unfoldable pub join_start : ℕ → Bytes × Bytes → Bytes
unfolding skip_spaces read_letters
join_start buf_size (buf, p) =
    if equal buf (codes "START")
      && leb 6 buf_size
      && equal (read_letters 0 (skip_spaces p)) (codes "TRANSACTION")
    then codes "BEGIN"
    else buf

-- `if (n == 0)`: the text OTHER, as far as it fits
unfoldable pub or_other : ℕ → Bytes → Bytes
or_other buf_size [] = take (buf_size - 1) (codes "OTHER")
or_other buf_size (c ∷ buf) = c ∷ buf

-- `none`: a buffer of no bytes is left alone
unfoldable pub extract_command : Bytes → ℕ → Option Bytes
unfolding skip_loop read_word join_start or_other
extract_command query buf_size =
    if buf_size == 0
    then none
    else some (
        or_other buf_size
          (join_start buf_size (read_word buf_size 0 (skip_loop (length query) query))))
