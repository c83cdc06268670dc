-- ===== src/Engine/Mask/Secrets.antt =====
-- Whole queries with a quoted secret.
use mysql_selective_trace_pl.Common.{
  ℕ, suc, ◌≡◌, refl, sym, ap, ◌∙◌, ◌⊎◌, inl, inr, Bool, true, false, Option, none, some, [], ◌∷◌,
  ◌++◌, map, append_assoc, arith, length, drop, All, get_or, Bytes, codes,
}
use mysql_selective_trace_pl.Engine.Chars.{starts_ident, up}
use mysql_selective_trace_pl.Engine.Mask.{
  Cursor, advance, ident_before, is_separator, after, mask_following_quote, mask_password, mask_one,
  mask_loop, mask_secrets,
}
use mysql_selective_trace_pl.Engine.Mask.Hide.{
  last_of, Quiet, is_body, IsQuote, loop_round, loop-Quiet, hidden, mask_following_quote_hides,
  kw_at-append, kw_at_other, take-append, advance-append, gap-boundary,
}

-- a literal in quotes, and what stands in its place
abbrev pub quoted : ℕ → Bytes → Bytes → Bytes
quoted quote s post = quote ∷ s ++ (quote ∷ post)

-- the output for the text behind a literal, which does not depend on the literal
abbrev pub resumed : ℕ → Bytes → Bytes
resumed quote post = (mask_loop (length post) (some quote, post)).0

mask_password_hides :
    (b : Option ℕ) (w gap : Bytes) (quote : ℕ) (s post : Bytes)
    → All (λ c. is_separator c ≡ true) gap
    → IsQuote quote
    → is_body quote s ≡ true
    → mask_password (length w) (b, w ++ (gap ++ quoted quote s post))
      ≡ after w (after gap (hidden quote post))
unfolding mask_password
mask_password_hides b w gap quote s post g k h =
    let r = gap ++ quoted quote s post in
    ap (λ t. after t (mask_following_quote (advance (length w) (b, w ++ r)))) (take-append w r)
    ∙ ap (λ (cur : Cursor). after w (mask_following_quote cur)) (advance-append b w r)
    ∙ ap (after w) (mask_following_quote_hides (last_of b w) gap quote s post g k h)

-- the keywords of this branch
abbrev pub IsPassword : Bytes → Type 0
IsPassword w = (map up w ≡ codes "PASSWORD") ⊎ (map up w ≡ codes "OLD_PASSWORD")

pub length_eq : (w kw : Bytes) → map up w ≡ kw → length w ≡ length kw
length_eq [] [] e = refl
length_eq [] (k ∷ kw) e = cc
length_eq (c ∷ w) [] e = cc
length_eq (c ∷ w) (k ∷ kw) e = ap suc (length_eq w kw (ap (drop 1) e))

mask_one_password :
    (b : Option ℕ) (c : ℕ) (w r : Bytes)
    → IsPassword (c ∷ w)
    → ident_before b ≡ false
    → starts_ident r ≡ false
    → mask_one (b, (c ∷ w) ++ r) ≡ mask_password (length (c ∷ w)) (b, (c ∷ w) ++ r)
unfolding mask_one
mask_one_password b c w r (inl e) before next =
    let head : up c ≡ b'P' = ap (λ t. get_or t 0 0) e in
    let not_identified =
      kw_at_other b b'I' (codes "DENTIFIED") c (w ++ r) (λ x. omega (arith, x, head)) in
    let not_old =
      kw_at_other b b'O' (codes "LD_PASSWORD") c (w ++ r) (λ x. omega (arith, x, head)) in
    let found = kw_at-append b (codes "PASSWORD") (c ∷ w) r e before next in
    rw (not_identified, not_old, found)
      (ap (λ n. mask_password n (b, (c ∷ w) ++ r)) (sym (length_eq (c ∷ w) (codes "PASSWORD") e)))
mask_one_password b c w r (inr e) before next =
    let head : up c ≡ b'O' = ap (λ t. get_or t 0 0) e in
    let not_identified =
      kw_at_other b b'I' (codes "DENTIFIED") c (w ++ r) (λ x. omega (arith, x, head)) in
    let found = kw_at-append b (codes "OLD_PASSWORD") (c ∷ w) r e before next in
    rw (not_identified, found)
      (ap (λ n. mask_password n (b, (c ∷ w) ++ r))
        (sym (length_eq (c ∷ w) (codes "OLD_PASSWORD") e)))

-- A step that hides a literal, behind quiet text.
pub loop_hides :
    (pre : Bytes) (c : ℕ) (q copied : Bytes) (quote : ℕ) (post : Bytes)
    → Quiet none pre (c ∷ q)
    → mask_one (last_of none pre, c ∷ q) ≡ after copied (hidden quote post)
    → mask_secrets (pre ++ (c ∷ q))
      ≡ (pre ++ ((copied ++ (quote ∷ codes "***" ++ quote ∷ [])) ++ resumed quote post), true)
unfolding mask_secrets
loop_hides pre c q copied quote post quiet e =
    loop-Quiet none pre (c ∷ q) quiet
    ∙ ap (λ (t : Bytes × Bool). (pre ++ t.0, t.1)) (loop_round (last_of none pre) c q _ e)

-- PASSWORD or OLD_PASSWORD in any case as a word of its own, behind text without a trigger keyword,
-- then separators (spaces, parentheses, equal signs), then a quoted literal whose body holds its own
-- quote only behind a backslash and does not end in a backslash that escapes the closing quote: the
-- body is replaced by ***, the text in front of it is kept, and what the output holds behind it is a
-- function of the text behind the literal. So of two such bodies the output is the same. A body with
-- a doubled quote, as in 'a''b', is not among them.
pub mask_secrets-password :
    (pre : Bytes) (c : ℕ) (w gap : Bytes) (quote : ℕ) (s post : Bytes)
    → Quiet none pre ((c ∷ w) ++ (gap ++ quoted quote s post))
    → ident_before (last_of none pre) ≡ false
    → IsPassword (c ∷ w)
    → All (λ d. is_separator d ≡ true) gap
    → IsQuote quote
    → is_body quote s ≡ true
    → mask_secrets (pre ++ ((c ∷ w) ++ (gap ++ quoted quote s post)))
      ≡ (pre ++ (((c ∷ w) ++ gap) ++ quoted quote (codes "***") (resumed quote post)), true)
mask_secrets-password pre c w gap quote s post quiet before password g k h =
    let r = gap ++ quoted quote s post in
    let next = gap-boundary gap quote (s ++ (quote ∷ post)) g k in
    let hides = mask_password_hides (last_of none pre) (c ∷ w) gap quote s post g k h in
    let round = mask_one_password (last_of none pre) c w r password before next ∙ hides in
    let together =
      ap (λ t. record { out = t; cursor = (hidden quote post).cursor; masked = true })
        (sym (append_assoc (c ∷ w) gap (hidden quote post).out)) in
    loop_hides pre c (w ++ r) ((c ∷ w) ++ gap) quote post quiet (round ∙ together)
    ∙ ap (λ t. (pre ++ t, true))
        (append_assoc ((c ∷ w) ++ gap) (hidden quote post).out (resumed quote post))
