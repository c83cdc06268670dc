-- ===== src/Engine/Mask/Hide.antt =====
-- A quoted secret behind PASSWORD or OLD_PASSWORD does not reach the output.
use mysql_selective_trace_pl.Common.{
  ℕ, ◌≤◌, ◌≡◌, refl, ap, ◌∙◌, ◌≢◌, ◌⊎◌, inl, inr, Bool, true, false, not, ◌&&◌, ◌||◌, Option, some,
  [], ◌∷◌, ◌++◌, map, arith, ◌==◌, if◌then◌else◌, ==_iff, Bool-cases, length, take, drop, All,
  get_or, Bytes, codes,
}
use mysql_selective_trace_pl.Engine.Chars.{is_ident_char, starts_ident, up}
use mysql_selective_trace_pl.Engine.Mask.{
  Cursor, advance, behind, ident_before, kw_at, Step, is_separator, copy_while, skip_quoted,
  close_quote, mask_value, after, mask_following_quote, mask_one, mask_loop,
}
use mysql_selective_trace_pl.Engine.Mask.Copy.{mask_loop_enough}
use mysql_selective_trace_pl.Engine.Mask.Moves.{mask_one-MovesOn}

-- the byte in front of what follows the text
abbrev pub last_of : Option ℕ → Bytes → Option ℕ
last_of before [] = before
last_of before (c ∷ t) = last_of (some c) t

-- No keyword stands at the cursor.
abbrev pub NoKeyword : Cursor → Type 0
NoKeyword cur =
    (kw_at cur (codes "IDENTIFIED") ≡ false)
    × (kw_at cur (codes "OLD_PASSWORD") ≡ false)
    × (kw_at cur (codes "PASSWORD") ≡ false)

-- No keyword starts inside of the text, in front of what follows.
abbrev pub Quiet : Option ℕ → Bytes → Bytes → Type 0
Quiet before [] follow = Unit
Quiet before (c ∷ t) follow = NoKeyword (before, c ∷ t ++ follow) × Quiet (some c) t follow

-- Whether the text is the body of a literal in these quotes: every such quote in it is escaped by a
-- backslash, and no backslash at the end escapes the closing one.
abbrev pub is_body : ℕ → Bytes → Bool
is_body quote [] = true
is_body quote (c ∷ []) = not (c == quote) && not (c == b'\\')
is_body quote (c ∷ d ∷ s) =
    let escaped = is_body quote s in
    let plain = is_body quote (d ∷ s) in if c == b'\\' then escaped else not (c == quote) && plain

abbrev pub IsQuote : ℕ → Type 0
IsQuote quote = (quote ≡ b'\'') ⊎ (quote ≡ b'"')

-- the loop with the fuel that is enough
abbrev pub loop : Cursor → Bytes × Bool
loop cur = mask_loop (length cur.1) cur

pub loop_round :
    (b : Option ℕ) (c : ℕ) (q : Bytes) (s : Step)
    → mask_one (b, c ∷ q) ≡ s
    → loop (b, c ∷ q) ≡ (s.out ++ (loop s.cursor).0, s.masked || (loop s.cursor).1)
unfolding mask_loop
loop_round b c q s e =
    let on : length s.cursor.1 ≤ length q =
      omega (arith, (mask_one-MovesOn b c q).on, ap (λ (t : Step). length t.cursor.1) e) in
    let fuel = mask_loop_enough (length q) (length s.cursor.1) s.cursor on (omega arith) in
    ap
      (λ (t : Step).
        (t.out ++ (mask_loop (length q) t.cursor).0, t.masked || (mask_loop (length q) t.cursor).1))
      e
    ∙ ap (λ (t : Bytes × Bool). (s.out ++ t.0, s.masked || t.1)) fuel

mask_one_quiet :
    (b : Option ℕ) (c : ℕ) (q : Bytes)
    → NoKeyword (b, c ∷ q)
    → mask_one (b, c ∷ q) ≡ record { out = c ∷ []; cursor = (some c, q); masked = false }
unfolding mask_one
mask_one_quiet b c q (i, o, p) = rw (i, o, p) refl

-- Quiet text is copied.
pub loop-Quiet :
    (b : Option ℕ) (t follow : Bytes)
    → Quiet b t follow
    → loop (b, t ++ follow) ≡ (t ++ (loop (last_of b t, follow)).0, (loop (last_of b t, follow)).1)
loop-Quiet b [] follow h = refl
loop-Quiet b (c ∷ t) follow (none_here, h) =
    loop_round b c (t ++ follow) _ (mask_one_quiet b c (t ++ follow) none_here)
    ∙ ap (λ (r : Bytes × Bool). (c ∷ r.0, r.1)) (loop-Quiet (some c) t follow h)

pub copy_while-append :
    (test : ℕ → Bool) (b : Option ℕ) (gap : Bytes) (c : ℕ) (q : Bytes)
    → All (λ d. test d ≡ true) gap
    → test c ≡ false
    → copy_while test b (gap ++ (c ∷ q)) ≡ (gap, (last_of b gap, c ∷ q))
unfolding copy_while
copy_while-append test b [] c q h e = rw e refl
copy_while-append test b (d ∷ gap) c q (h, hs) e =
    rw (h, copy_while-append test (some d) gap c q hs e) refl

skip_quoted-append :
    (quote : ℕ) (b : Option ℕ) (s post : Bytes)
    → quote ≢ b'\\'
    → is_body quote s ≡ true
    → (b' : Option ℕ) × (skip_quoted quote b (s ++ (quote ∷ post)) ≡ (b', quote ∷ post))
unfolding skip_quoted
skip_quoted-append quote b [] [] ne h = (b, ground arith)
skip_quoted-append quote b [] (d ∷ post) ne h = (b, ground arith)
skip_quoted-append quote b (c ∷ []) post ne h =
    let (b', e) = skip_quoted-append quote (some c) [] post ne refl in (b', ground (arith, e))
skip_quoted-append quote b (c ∷ d ∷ s) post ne h = elim (Bool-cases (c == b'\\')) [
  | inl e ↦ let (b', r) = skip_quoted-append quote (some d) s post ne (ground arith) in (b', rw e r)
  | inr e ↦
      let (b', r) = skip_quoted-append quote (some c) (d ∷ s) post ne (ground arith) in
      (b', ground arith)
]

-- What a quoted literal becomes.
abbrev pub hidden : ℕ → Bytes → Step
hidden quote post = record {
  out = quote ∷ codes "***" ++ quote ∷ [];
  cursor = (some quote, post);
  masked = true;
}

mask_value_quoted :
    (b : Option ℕ) (quote : ℕ) (s post : Bytes)
    → IsQuote quote
    → is_body quote s ≡ true
    → mask_value (b, quote ∷ s ++ (quote ∷ post)) ≡ hidden quote post
unfolding mask_value close_quote
mask_value_quoted b quote s post k h =
    let (b', e) = skip_quoted-append quote (some quote) s post (λ bad. omega (arith, k, bad)) h in
    let test : (quote == b'\'' || quote == b'"') ≡ true = ground (arith, k) in rw (test, e) refl

pub quote-not_separator : (quote : ℕ) → IsQuote quote → is_separator quote ≡ false
unfolding is_separator
quote-not_separator quote k = ground (arith, k)

-- The separators are copied, and the literal is hidden.
pub mask_following_quote_hides :
    (b : Option ℕ) (gap : Bytes) (quote : ℕ) (s post : Bytes)
    → All (λ c. is_separator c ≡ true) gap
    → IsQuote quote
    → is_body quote s ≡ true
    → mask_following_quote (b, gap ++ (quote ∷ s ++ (quote ∷ post))) ≡ after gap (hidden quote post)
unfolding mask_following_quote
mask_following_quote_hides b gap quote s post g k h =
    let copied =
      copy_while-append is_separator b gap quote (s ++ (quote ∷ post)) g
        (quote-not_separator quote k) in
    rw (copied, mask_value_quoted (last_of b gap) quote s post k h) refl

behind-append : (kw w r : Bytes) → map up w ≡ kw → behind kw (w ++ r) ≡ some r
unfolding behind
behind-append [] [] r e = refl
behind-append [] (c ∷ w) r e = cc
behind-append (k ∷ kw) [] r e = cc
behind-append (k ∷ kw) (c ∷ w) r e =
    let head : up c ≡ k = ap (λ t. get_or t 0 0) e in
    let rest = behind-append kw w r (ap (drop 1) e) in rw ((==_iff (up c) k).1 head, rest) refl

-- The keyword is found between boundaries.
pub kw_at-append :
    (b : Option ℕ) (kw w r : Bytes)
    → map up w ≡ kw
    → ident_before b ≡ false
    → starts_ident r ≡ false
    → kw_at (b, w ++ r) kw ≡ true
unfolding kw_at
kw_at-append b kw w r e before next =
    let found = behind-append kw w r e in ground (arith, found, before, next)

-- Another keyword with a different first letter is not.
pub kw_at_other :
    (b : Option ℕ) (k : ℕ) (kw : Bytes) (c : ℕ) (q : Bytes)
    → up c ≢ k
    → kw_at (b, c ∷ q) (k ∷ kw) ≡ false
unfolding kw_at behind
kw_at_other b k kw c q ne = ground arith

pub take-append : (w r : Bytes) → take (length w) (w ++ r) ≡ w
take-append [] r = refl
take-append (c ∷ w) r = ap (λ t. c ∷ t) (take-append w r)

pub advance-append :
    (b : Option ℕ) (w r : Bytes) → advance (length w) (b, w ++ r) ≡ (last_of b w, r)
advance-append b [] r = refl
advance-append b (c ∷ w) r = advance-append (some c) w r

pub gap-boundary :
    (gap : Bytes) (quote : ℕ) (r : Bytes)
    → All (λ c. is_separator c ≡ true) gap
    → IsQuote quote
    → starts_ident (gap ++ (quote ∷ r)) ≡ false
unfolding is_separator is_ident_char
gap-boundary [] quote r g k = ground (arith, k)
gap-boundary (c ∷ gap) quote r (g, gs) k = ground (arith, g)
