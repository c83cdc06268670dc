-- ===== src/Engine/Mask/Identified.antt =====
-- A quoted secret behind IDENTIFIED and a connector keyword does not reach the output.
use mysql_selective_trace_pl.Common.{
  ℕ, ◌≡◌, refl, sym, ap, ◌∙◌, ◌⊎◌, inl, inr, true, false, ◌||◌, Option, none, some, [], ◌∷◌, ◌++◌,
  map, append-nil, append_assoc, arith, ◌==◌, length, take, All, get_or, Bytes, codes,
}
use mysql_selective_trace_pl.Engine.Chars.{is_space, starts_ident, up}
use mysql_selective_trace_pl.Engine.Mask.{
  Cursor, advance, ident_before, kw_at, Step, is_separator, copy_while, starts_hex, after,
  mask_following_quote, copy_connector, copy_password, mask_identified, mask_one, mask_secrets,
}
use mysql_selective_trace_pl.Engine.Mask.Hide.{
  last_of, Quiet, is_body, IsQuote, hidden, mask_following_quote_hides, kw_at-append, kw_at_other,
  take-append, advance-append, gap-boundary,
}
use mysql_selective_trace_pl.Engine.Mask.Secrets.{quoted, resumed, length_eq, loop_hides}

-- Nothing in the text ends the loop that looks for the connector.
abbrev pub Unconnected : Option ℕ → Bytes → Bytes → Type 0
Unconnected b [] follow = Unit
Unconnected b (c ∷ t) follow =
    (kw_at (b, c ∷ t ++ follow) (codes "BY") ≡ false)
    × (kw_at (b, c ∷ t ++ follow) (codes "AS") ≡ false)
    × (kw_at (b, c ∷ t ++ follow) (codes "USING") ≡ false)
    × ((c == b'\'' || c == b'"') ≡ false)
    × (starts_hex (c ∷ t ++ follow) ≡ false)
    × Unconnected (some c) t follow

-- the connector keywords
abbrev pub IsConnector : Bytes → Type 0
IsConnector w = (map up w ≡ codes "BY") ⊎ (map up w ≡ codes "AS") ⊎ (map up w ≡ codes "USING")

-- `n` bytes copied
abbrev copy_next : ℕ → Option ℕ → Bytes → Bytes × Cursor
copy_next n b q = (take n q, advance n (b, q))

taken :
    (n : ℕ) (b : Option ℕ) (w r : Bytes)
    → length w ≡ n
    → copy_next n b (w ++ r) ≡ (w, (last_of b w, r))
taken n b w r e =
    ap (λ m. copy_next m b (w ++ r)) (sym e)
    ∙ ap (λ t. (t, advance (length w) (b, w ++ r))) (take-append w r)
    ∙ ap (λ cur. (w, cur)) (advance-append b w r)

connector_here :
    (b : Option ℕ) (c : ℕ) (w r : Bytes)
    → IsConnector (c ∷ w)
    → ident_before b ≡ false
    → starts_ident r ≡ false
    → copy_connector b ((c ∷ w) ++ r) ≡ (c ∷ w, (last_of b (c ∷ w), r))
unfolding copy_connector
connector_here b c w r (inl e) before next =
    let found = kw_at-append b (codes "BY") (c ∷ w) r e before next in
    rw found (taken 2 b (c ∷ w) r (length_eq (c ∷ w) (codes "BY") e))
connector_here b c w r (inr (inl e)) before next =
    let head : up c ≡ b'A' = ap (λ t. get_or t 0 0) e in
    let not_by = kw_at_other b b'B' (codes "Y") c (w ++ r) (λ x. omega (arith, x, head)) in
    let found = kw_at-append b (codes "AS") (c ∷ w) r e before next in
    rw (not_by, found) (taken 2 b (c ∷ w) r (length_eq (c ∷ w) (codes "AS") e))
connector_here b c w r (inr (inr e)) before next =
    let head : up c ≡ b'U' = ap (λ t. get_or t 0 0) e in
    let not_by = kw_at_other b b'B' (codes "Y") c (w ++ r) (λ x. omega (arith, x, head)) in
    let not_as = kw_at_other b b'A' (codes "S") c (w ++ r) (λ x. omega (arith, x, head)) in
    let found = kw_at-append b (codes "USING") (c ∷ w) r e before next in
    rw (not_by, not_as, found) (taken 5 b (c ∷ w) r (length_eq (c ∷ w) (codes "USING") e))

copy_connector_step :
    (b : Option ℕ) (c : ℕ) (t follow : Bytes)
    → Unconnected b (c ∷ t) follow
    → copy_connector b (c ∷ t ++ follow)
      ≡ (c ∷ (copy_connector (some c) (t ++ follow)).0, (copy_connector (some c) (t ++ follow)).1)
unfolding copy_connector
copy_connector_step b c t follow (by, as_, using, quote, hex, rest) =
    rw (by, as_, using, quote, hex) refl

copy_connector-append :
    (b : Option ℕ) (mid : Bytes) (c : ℕ) (w r : Bytes)
    → Unconnected b mid ((c ∷ w) ++ r)
    → IsConnector (c ∷ w)
    → ident_before (last_of b mid) ≡ false
    → starts_ident r ≡ false
    → copy_connector b (mid ++ ((c ∷ w) ++ r))
      ≡ (mid ++ (c ∷ w), (last_of (last_of b mid) (c ∷ w), r))
copy_connector-append b [] c w r u k before next = connector_here b c w r k before next
copy_connector-append b (d ∷ mid) c w r (by, as_, using, quote, hex, u) k before next =
    copy_connector_step b d mid ((c ∷ w) ++ r) (by, as_, using, quote, hex, u)
    ∙ ap (λ (t : Bytes × Cursor). (d ∷ t.0, t.1))
        (copy_connector-append (some d) mid c w r u k before next)

no_password_here :
    (b : Option ℕ) (gap : Bytes) (quote : ℕ) (r : Bytes)
    → All (λ c. is_separator c ≡ true) gap
    → IsQuote quote
    → kw_at (copy_while is_space b (gap ++ (quote ∷ r))).1 (codes "PASSWORD") ≡ false
unfolding copy_while is_space is_separator up
no_password_here b [] quote r g k =
    let here = kw_at_other b b'P' (codes "ASSWORD") quote r in ground (arith, k, here)
no_password_here b (c ∷ gap) quote r (g, gs) k =
    let here = kw_at_other b b'P' (codes "ASSWORD") c (gap ++ (quote ∷ r)) in
    ground (arith, g, here, no_password_here (some c) gap quote r gs k)

copy_password_none :
    (b : Option ℕ) (gap : Bytes) (quote : ℕ) (r : Bytes)
    → All (λ c. is_separator c ≡ true) gap
    → IsQuote quote
    → copy_password (b, gap ++ (quote ∷ r)) ≡ ([], (b, gap ++ (quote ∷ r)))
unfolding copy_password
copy_password_none b gap quote r g k = rw (no_password_here b gap quote r g k) refl

-- what the branch for IDENTIFIED does behind the optional PASSWORD, and behind the connector
abbrev behind_connector : Bytes → Bytes → Bytes × Cursor → Step
behind_connector v connector (password, cur) =
    after (v ++ (connector ++ password)) (mask_following_quote cur)

abbrev behind_word : Bytes → Bytes × Cursor → Step
behind_word v (connector, cur) = behind_connector v connector (copy_password cur)

mask_identified_hides :
    (b : Option ℕ) (v mid : Bytes) (c : ℕ) (w gap : Bytes) (quote : ℕ) (s post : Bytes)
    → length v ≡ 10
    → Unconnected (last_of b v) mid ((c ∷ w) ++ (gap ++ quoted quote s post))
    → IsConnector (c ∷ w)
    → ident_before (last_of (last_of b v) mid) ≡ false
    → All (λ d. is_separator d ≡ true) gap
    → IsQuote quote
    → is_body quote s ≡ true
    → mask_identified (b, v ++ (mid ++ ((c ∷ w) ++ (gap ++ quoted quote s post))))
      ≡ after (v ++ ((mid ++ (c ∷ w)) ++ [])) (after gap (hidden quote post))
unfolding mask_identified
mask_identified_hides b v mid c w gap quote s post ten u k before g q h =
    let r = gap ++ quoted quote s post in
    let whole = v ++ (mid ++ ((c ∷ w) ++ r)) in
    let next = gap-boundary gap quote (s ++ (quote ∷ post)) g q in
    let start = taken 10 b v (mid ++ ((c ∷ w) ++ r)) ten in
    let connector = copy_connector-append (last_of b v) mid c w r u k before next in
    let at = last_of (last_of (last_of b v) mid) (c ∷ w) in
    let password = copy_password_none at gap quote (s ++ (quote ∷ post)) g q in
    ap (λ (t : Bytes × Cursor). behind_word t.0 (copy_connector t.1.0 t.1.1)) start
    ∙ ap (λ (t : Bytes × Cursor). behind_word v t) connector
    ∙ ap (λ (t : Bytes × Cursor). behind_connector v (mid ++ (c ∷ w)) t) password
    ∙ ap (λ t. after (v ++ ((mid ++ (c ∷ w)) ++ [])) t)
        (mask_following_quote_hides at gap quote s post g q h)

mask_one_identified :
    (b : Option ℕ) (v r : Bytes)
    → map up v ≡ codes "IDENTIFIED"
    → ident_before b ≡ false
    → starts_ident r ≡ false
    → mask_one (b, v ++ r) ≡ mask_identified (b, v ++ r)
unfolding mask_one
mask_one_identified b v r e before next =
    rw (kw_at-append b (codes "IDENTIFIED") v r e before next) refl

-- IDENTIFIED in any case as a word of its own, behind text without a trigger keyword, then text
-- (such as WITH and the name of a plugin that is not in quotes) in which no connector keyword, no
-- quote and no 0x occurs, then the connector BY, AS or USING as a word of its own, separators
-- (spaces, parentheses, equal signs) and a quoted literal whose body holds its own quote only behind
-- a backslash and does not end in a backslash that escapes the closing quote: the body is replaced by
-- ***, the text in front of it is kept, and what the output holds behind it is a function of the text
-- behind the literal. So of two such bodies the output is the same. A body with a doubled quote, as
-- in 'a''b', is not among them.
pub mask_secrets-identified :
    (pre : Bytes) (a : ℕ) (v mid : Bytes) (c : ℕ) (w gap : Bytes) (quote : ℕ) (s post : Bytes)
    → Quiet none pre ((a ∷ v) ++ (mid ++ ((c ∷ w) ++ (gap ++ quoted quote s post))))
    → ident_before (last_of none pre) ≡ false
    → map up (a ∷ v) ≡ codes "IDENTIFIED"
    → starts_ident (mid ++ ((c ∷ w) ++ (gap ++ quoted quote s post))) ≡ false
    → Unconnected (last_of (last_of none pre) (a ∷ v)) mid ((c ∷ w) ++ (gap ++ quoted quote s post))
    → ident_before (last_of (last_of (last_of none pre) (a ∷ v)) mid) ≡ false
    → IsConnector (c ∷ w)
    → All (λ d. is_separator d ≡ true) gap
    → IsQuote quote
    → is_body quote s ≡ true
    → mask_secrets (pre ++ ((a ∷ v) ++ (mid ++ ((c ∷ w) ++ (gap ++ quoted quote s post))))) ≡ (
      pre
          ++ (((a ∷ v) ++ (mid ++ (c ∷ w)))
              ++ (gap ++ quoted quote (codes "***") (resumed quote post))),
      true,
    )
mask_secrets-identified pre a v mid c w gap quote s post quiet before id next u before' k g q h =
    let r = mid ++ ((c ∷ w) ++ (gap ++ quoted quote s post)) in
    let b = last_of none pre in
    let front = (a ∷ v) ++ (mid ++ (c ∷ w)) in
    let hides =
      mask_identified_hides b (a ∷ v) mid c w gap quote s post
        (length_eq (a ∷ v) (codes "IDENTIFIED") id) u k before' g q h in
    let tidy : after ((a ∷ v) ++ ((mid ++ (c ∷ w)) ++ [])) (after gap (hidden quote post))
        ≡ after (front ++ gap) (hidden quote post) =
      ap (λ (t : Bytes). after ((a ∷ v) ++ t) (after gap (hidden quote post)))
        (append-nil (mid ++ (c ∷ w)))
      ∙ ap (λ t. record { out = t; cursor = (hidden quote post).cursor; masked = true })
          (sym (append_assoc front gap (hidden quote post).out)) in
    let round = mask_one_identified b (a ∷ v) r id before next ∙ hides ∙ tidy in
    loop_hides pre a (v ++ r) (front ++ gap) quote post quiet round
    ∙ ap (λ t. (pre ++ t, true))
        (append_assoc (front ++ gap) (hidden quote post).out (resumed quote post)
          ∙ append_assoc front gap ((hidden quote post).out ++ resumed quote post))
