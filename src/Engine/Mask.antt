-- ===== src/Engine/Mask.antt =====
-- The masking of secrets in core/filter_engine.cc: `kw_at`, `mask_following_quote` and
-- `mask_secrets`. An index `i` into the query is a cursor: the byte in front of it, if there is one,
-- and the text from it on. What a function appends to `*out` is returned.
pub mod Moves
pub mod Copy
pub mod Hide
pub mod Secrets
pub mod Identified
pub mod Tests
use mysql_selective_trace_pl.Common.{
  ℕ, zero, suc, ◌+◌, ◌-◌, ◌*◌, ◌/◌, ◌%◌, ◌^◌, ◌≤◌, ◌<◌, bit_and, bit_or, ◌≡◌, refl, sym, ap, ◌∙◌,
  ◌≢◌, ◌↔◌, ◌⊎◌, inl, inr, Bool, true, false, not, ◌&&◌, ◌||◌, Option, none, some, List, [], ◌∷◌,
  ◌++◌, map, append-nil, append_assoc, map-append, arith, ltb, leb, ◌==◌, if◌then◌else◌, ==_iff,
  ltb→lt, leb→le, Bool-cases, if_cases, Option-cases, ◌>>=◌, is_some, >>=-eq-some, is_some-eq-true,
  length, is_nil, take, drop, length-append, All, All-append, All-append_inv, All-change, All-mono,
  Any, Any-append, Any-change, Any-concat, Distinct, Distinct-concat, get_or, append_each,
  append_each-append, append_each-cons, append_each-All, Bytes, prepend, codes, equal, equal_iff,
  contains, cut_at, split_on, split_on-ne-nil, cut_at_sound, cut_at-none, contains-All, add_front,
  split_on_sep, split_on_other, iff_trans, iff_sym, or_assoc, or_map_left, or_map_right,
  or_absurd_left, or_absurd_right, iff_refl, and_map_right,
}
use mysql_selective_trace_pl.Engine.Chars.{is_space, is_ident_char, starts_ident, up}

abbrev pub Cursor : Type 0
Cursor = Option ℕ × Bytes

-- `i += n`
abbrev pub advance : ℕ → Cursor → Cursor
advance zero cur = cur
advance (suc n) (before, []) = (before, [])
advance (suc n) (before, c ∷ q) = advance n (some c, q)

-- the text behind the keyword, if the text starts with it in any case
unfoldable pub behind : Bytes → Bytes → Option Bytes
behind [] q = some q
behind (k ∷ kw) [] = none
behind (k ∷ kw) (c ∷ q) = if up c == k then behind kw q else none

-- `i > 0 && is_ident_char(q[i - 1])`
abbrev pub ident_before : Option ℕ → Bool
ident_before none = false
ident_before (some c) = is_ident_char c

unfoldable pub kw_at : Cursor → Bytes → Bool
unfolding behind
kw_at (before, q) kw = elim (behind kw q) [
  | none ↦ false
  | some tail ↦ not (ident_before before) && not (starts_ident tail)
]

-- What a part of the loop appends, where it leaves `i`, and whether it sets `*masked`.
pub record Step : Type 0 where
  pub out : Bytes
  pub cursor : Cursor
  pub masked : Bool

unfoldable pub is_separator : ℕ → Bool
is_separator c = c == b' ' || c == b'\t' || c == b'\n' || c == b'\r' || c == b'(' || c == b'='

-- a loop that copies the bytes that satisfy the test
unfoldable pub copy_while : (ℕ → Bool) → Option ℕ → Bytes → Bytes × Cursor
copy_while test before [] = ([], (before, []))
copy_while test before (c ∷ q) =
    let (copied, cur) = copy_while test (some c) q in
    if test c then (c ∷ copied, cur) else ([], (before, c ∷ q))

-- The loop to the closing quote, or to the end.
unfoldable pub skip_quoted : ℕ → Option ℕ → Bytes → Cursor
skip_quoted quote before [] = (before, [])
skip_quoted quote before (c ∷ []) = if c == quote then (before, c ∷ []) else (some c, [])
skip_quoted quote before (c ∷ d ∷ q) =
    let escaped = skip_quoted quote (some d) q in
    let plain = skip_quoted quote (some c) (d ∷ q) in
    if c == b'\\' then escaped else if c == quote then (before, c ∷ d ∷ q) else plain

unfoldable pub is_hex : ℕ → Bool
is_hex c = leb b'0' c && leb c b'9' || leb b'a' c && leb c b'f' || leb b'A' c && leb c b'F'

-- `q[i] == '0' && (q[i + 1] == 'x' || q[i + 1] == 'X')`, inside of the text
unfoldable pub starts_hex : Bytes → Bool
starts_hex [] = false
starts_hex (c ∷ []) = false
starts_hex (c ∷ d ∷ q) = c == b'0' && (d == b'x' || d == b'X')

-- The closing quote, if the text goes on.
unfoldable pub close_quote : ℕ → Cursor → Step
close_quote quote (before, []) = record {
  out = quote ∷ codes "***";
  cursor = (before, []);
  masked = true;
}
close_quote quote (before, c ∷ q) = record {
  out = quote ∷ codes "***" ++ quote ∷ [];
  cursor = (some c, q);
  masked = true;
}

-- `mask_following_quote` behind the separators
unfoldable pub mask_value : Cursor → Step
unfolding close_quote skip_quoted starts_hex copy_while is_hex
mask_value (before, []) = record { out = []; cursor = (before, []); masked = false }
mask_value (before, c ∷ q) =
    let (cb, cq) = advance 2 (before, c ∷ q) in
    if c == b'\'' || c == b'"'
    then close_quote c (skip_quoted c (some c) q)
    else if starts_hex (c ∷ q)
    then record { out = codes "0x***"; cursor = (copy_while is_hex cb cq).1; masked = true }
    else record { out = []; cursor = (before, c ∷ q); masked = false }

-- more text in front of what a step appends
abbrev pub after : Bytes → Step → Step
after text s = record s { out = text ++ s.out }

unfoldable pub mask_following_quote : Cursor → Step
unfolding is_separator copy_while mask_value
mask_following_quote (before, q) =
    let (copied, cur) = copy_while is_separator before q in after copied (mask_value cur)

-- The loop behind IDENTIFIED, to a connector keyword or a literal.
unfoldable pub copy_connector : Option ℕ → Bytes → Bytes × Cursor
unfolding kw_at starts_hex
copy_connector before [] = ([], (before, []))
copy_connector before (c ∷ q) =
    let (copied, cur) = copy_connector (some c) q in
    let here : Cursor = (before, c ∷ q) in
    if kw_at here (codes "BY")
    then (take 2 (c ∷ q), advance 2 here)
    else if kw_at here (codes "AS")
    then (take 2 (c ∷ q), advance 2 here)
    else if kw_at here (codes "USING")
    then (take 5 (c ∷ q), advance 5 here)
    else if c == b'\'' || c == b'"'
    then ([], here)
    else if starts_hex (c ∷ q)
    then ([], here)
    else (c ∷ copied, cur)

-- the optional keyword in front of the literal
unfoldable pub copy_password : Cursor → Bytes × Cursor
unfolding kw_at copy_while is_space
copy_password (before, q) =
    let (spaces, cur) = copy_while is_space before q in
    if kw_at cur (codes "PASSWORD")
    then (spaces ++ take 8 cur.1, advance 8 cur)
    else ([], (before, q))

-- the branch for IDENTIFIED
unfoldable pub mask_identified : Cursor → Step
unfolding copy_connector copy_password mask_following_quote
mask_identified cur =
    let (before, q) = advance 10 cur in
    let (connector, cur') = copy_connector before q in
    let (password, cur'') = copy_password cur' in
    after (take 10 cur.1 ++ (connector ++ password)) (mask_following_quote cur'')

-- the branches for OLD_PASSWORD and PASSWORD, keywords of `n` bytes
unfoldable pub mask_password : ℕ → Cursor → Step
unfolding mask_following_quote
mask_password n cur = after (take n cur.1) (mask_following_quote (advance n cur))

-- one round of the loop, inside of the text
unfoldable pub mask_one : Cursor → Step
unfolding kw_at mask_identified mask_password
mask_one cur =
    if kw_at cur (codes "IDENTIFIED")
    then mask_identified cur
    else if kw_at cur (codes "OLD_PASSWORD")
    then mask_password 12 cur
    else if kw_at cur (codes "PASSWORD")
    then mask_password 8 cur
    else record { out = take 1 cur.1; cursor = advance 1 cur; masked = false }

-- The loop, on fuel: each round moves the cursor, so the length of the text is enough.
unfoldable pub mask_loop : ℕ → Cursor → Bytes × Bool
unfolding mask_one
mask_loop zero cur = ([], false)
mask_loop (suc fuel) (before, []) = ([], false)
mask_loop (suc fuel) (before, c ∷ q) =
    let s = mask_one (before, c ∷ q) in
    let (out, masked) = mask_loop fuel s.cursor in (s.out ++ out, s.masked || masked)

-- `*out` and the returned flag
unfoldable pub mask_secrets : Bytes → Bytes × Bool
unfolding mask_loop
mask_secrets query = mask_loop (length query) (none, query)
