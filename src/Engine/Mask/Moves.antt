-- ===== src/Engine/Mask/Moves.antt =====
-- Each round of `mask_secrets` moves on by a byte at least, and copies the text where it masks nothing.
use mysql_selective_trace_pl.Common.{
  ℕ, zero, suc, ◌≤◌, ◌<◌, ◌≡◌, refl, sym, ap, ◌∙◌, Bool, true, false, ◌||◌, Option, some, [], ◌∷◌,
  ◌++◌, append_assoc, arith, ◌==◌, if◌then◌else◌, if_cases, length, take, length-append, Bytes,
  codes,
}
use mathlib.Core.Path.{subst}
use mysql_selective_trace_pl.Engine.Chars.{is_space}
use mysql_selective_trace_pl.Engine.Mask.{
  Cursor, advance, kw_at, Step, is_separator, copy_while, skip_quoted, is_hex, starts_hex,
  close_quote, mask_value, after, mask_following_quote, copy_connector, copy_password,
  mask_identified, mask_password, mask_one,
}

take-advance : (n : ℕ) (b : Option ℕ) (q : Bytes) → take n q ++ (advance n (b, q)).1 ≡ q
take-advance zero b q = refl
take-advance (suc n) b [] = refl
take-advance (suc n) b (c ∷ q) = ap (λ t. c ∷ t) (take-advance n (some c) q)

length-advance : (n : ℕ) (b : Option ℕ) (q : Bytes) → length (advance n (b, q)).1 ≤ length q
length-advance n b q =
    omega (arith, length-append (take n q) (advance n (b, q)).1, ap length (take-advance n b q))

-- text copied up to a cursor
abbrev pub Copied : Bytes → Bytes × Cursor → Type 0
Copied q r = r.0 ++ r.1.1 ≡ q

copy_while-Copied : (test : ℕ → Bool) (b : Option ℕ) (q : Bytes) → Copied q (copy_while test b q)
unfolding copy_while
copy_while-Copied test b [] = refl
copy_while-Copied test b (c ∷ q) =
    if_cases (Copied (c ∷ q)) (test c)
      {x = (c ∷ (copy_while test (some c) q).0, (copy_while test (some c) q).1)}
      {y = ([], (b, c ∷ q))} (ap (λ t. c ∷ t) (copy_while-Copied test (some c) q)) refl

length-Copied : (q : Bytes) (r : Bytes × Cursor) → Copied q r → length r.1.1 ≤ length q
length-Copied q r e = omega (arith, length-append r.0 r.1.1, ap length e)

length-skip_quoted :
    (quote : ℕ) (b : Option ℕ) (q : Bytes) → length (skip_quoted quote b q).1 ≤ length q
unfolding skip_quoted
length-skip_quoted quote b [] = omega arith
length-skip_quoted quote b (c ∷ []) = ground arith
length-skip_quoted quote b (c ∷ d ∷ q) =
    ground (arith, length-skip_quoted quote (some d) q, length-skip_quoted quote (some c) (d ∷ q))

-- What a step leaves, and what it copied if it masked nothing.
pub record Moves (q : Bytes) (s : Step) : Type 0 where
  pub shorter : length s.cursor.1 ≤ length q
  pub copies : s.masked ≡ false → s.out ++ s.cursor.1 ≡ q

length-close_quote :
    (quote : ℕ) (cur : Cursor) → length (close_quote quote cur).cursor.1 ≤ length cur.1
unfolding close_quote
length-close_quote quote (b, []) = omega arith
length-close_quote quote (b, c ∷ q) = omega arith

close_quote-masked : (quote : ℕ) (cur : Cursor) → (close_quote quote cur).masked ≡ true
unfolding close_quote
close_quote-masked quote (b, []) = refl
close_quote-masked quote (b, c ∷ q) = refl

mask_value-Moves : (b : Option ℕ) (q : Bytes) → Moves q (mask_value (b, q))
unfolding mask_value
mask_value-Moves b [] = record { shorter = omega arith; copies = λ _. refl }
mask_value-Moves b (c ∷ q) =
    let quoted = skip_quoted c (some c) q in
    let (hb, hq) = advance 2 (b, c ∷ q) in
    let hex = copy_while is_hex hb hq in
    let short = length-close_quote c quoted in
    let shorter = length-skip_quoted c (some c) q in
    let value =
      λ (e : (close_quote c quoted).masked ≡ false). absurd (cc (e, close_quote-masked c quoted)) in
    if_cases (Moves (c ∷ q)) (c == b'\'' || c == b'"') {x = close_quote c quoted}
      {y = if starts_hex (c ∷ q)
        then (record { out = codes "0x***"; cursor = hex.1; masked = true })
        else (record { out = []; cursor = (b, c ∷ q); masked = false })}
      (record { shorter = omega arith; copies = value })
      (if_cases (Moves (c ∷ q)) (starts_hex (c ∷ q))
        {x = record { out = codes "0x***"; cursor = hex.1; masked = true }}
        {y = record { out = []; cursor = (b, c ∷ q); masked = false }}
        (record {
          shorter = omega (
            arith,
            length-Copied hq hex (copy_while-Copied is_hex hb hq),
            length-advance 2 b (c ∷ q),
          );
          copies = λ e. absurd (cc e);
        })
        (record { shorter = omega arith; copies = λ _. refl }))

-- Copied text in front of a step.
after-Moves :
    (q text rest : Bytes) (s : Step) → text ++ rest ≡ q → Moves rest s → Moves q (after text s)
after-Moves q text rest s e m = record {
  shorter = omega (arith, length-append text rest, ap length e, m.shorter);
  copies = λ u. append_assoc text s.out s.cursor.1 ∙ ap (λ t. text ++ t) (m.copies u) ∙ e;
}

mask_following_quote-Moves : (b : Option ℕ) (q : Bytes) → Moves q (mask_following_quote (b, q))
unfolding mask_following_quote
mask_following_quote-Moves b q =
    let (copied, (b', q')) = copy_while is_separator b q in
    after-Moves q copied q' (mask_value (b', q')) (copy_while-Copied is_separator b q)
      (mask_value-Moves b' q')

record IsCopy (q : Bytes) (r : Bytes × Cursor) : Type 0 where
  whole : Copied q r

IsCopy-ahead : (n : ℕ) (b : Option ℕ) (q : Bytes) → IsCopy q (take n q, advance n (b, q))
IsCopy-ahead n b q = record { whole = take-advance n b q }

IsCopy-here : (b : Option ℕ) (q : Bytes) → IsCopy q ([], (b, q))
IsCopy-here b q = record { whole = refl }

copy_connector-IsCopy : (b : Option ℕ) (q : Bytes) → IsCopy q (copy_connector b q)
unfolding copy_connector
copy_connector-IsCopy b [] = IsCopy-here b []
copy_connector-IsCopy b (c ∷ q) =
    let rest = copy_connector (some c) q in
    let further : IsCopy (c ∷ q) (c ∷ rest.0, rest.1) = record {
      whole = ap (λ t. c ∷ t) (copy_connector-IsCopy (some c) q).whole;
    } in
    let two = IsCopy-ahead 2 b (c ∷ q) in
    let here = IsCopy-here b (c ∷ q) in
    let at = λ (kw : Bytes). kw_at (b, c ∷ q) kw in
    if_cases (IsCopy (c ∷ q)) (at (codes "BY")) two (
      if_cases (IsCopy (c ∷ q)) (at (codes "AS")) two (
        if_cases (IsCopy (c ∷ q)) (at (codes "USING")) (IsCopy-ahead 5 b (c ∷ q)) (
          if_cases (IsCopy (c ∷ q)) (c == b'\'' || c == b'"') here
            (if_cases (IsCopy (c ∷ q)) (starts_hex (c ∷ q)) here further))))

copy_connector-Copied : (b : Option ℕ) (q : Bytes) → Copied q (copy_connector b q)
copy_connector-Copied b q = (copy_connector-IsCopy b q).whole

copy_password-Copied : (b : Option ℕ) (q : Bytes) → Copied q (copy_password (b, q))
unfolding copy_password
copy_password-Copied b q =
    let (spaces, (b', q')) = copy_while is_space b q in
    let all : (spaces ++ take 8 q') ++ (advance 8 (b', q')).1 ≡ q =
      append_assoc spaces (take 8 q') (advance 8 (b', q')).1
      ∙ ap (λ t. spaces ++ t) (take-advance 8 b' q')
      ∙ copy_while-Copied is_space b q in
    if_cases (Copied q) (kw_at (b', q') (codes "PASSWORD"))
      {x = (spaces ++ take 8 q', advance 8 (b', q'))} {y = ([], (b, q))} all refl

-- the steps behind a keyword of `n` bytes
abbrev pub MovesBehind : ℕ → Cursor → Step → Type 0
MovesBehind n cur s = (rest : Step) × (s ≡ after (take n cur.1) rest) × Moves (advance n cur).1 rest

mask_password-Moves :
    (n : ℕ) (b : Option ℕ) (q : Bytes) → MovesBehind n (b, q) (mask_password n (b, q))
unfolding mask_password
mask_password-Moves n b q =
    let (b', q') = advance n (b, q) in
    (mask_following_quote (b', q'), refl, mask_following_quote-Moves b' q')

mask_identified-Moves : (b : Option ℕ) (q : Bytes) → MovesBehind 10 (b, q) (mask_identified (b, q))
unfolding mask_identified
mask_identified-Moves b q =
    let (b0, q0) = advance 10 (b, q) in
    let (connector, (b1, q1)) = copy_connector b0 q0 in
    let (password, (b2, q2)) = copy_password (b1, q1) in
    let value = mask_following_quote (b2, q2) in
    let front =
      after-Moves q1 password q2 value (copy_password-Copied b1 q1)
        (mask_following_quote-Moves b2 q2) in
    let whole =
      after-Moves q0 connector q1 (after password value) (copy_connector-Copied b0 q0) front in
    (
      after connector (after password value),
      ap (λ t. record { out = t; cursor = value.cursor; masked = value.masked })
          (append_assoc (take 10 q) (connector ++ password) value.out
            ∙ ap (λ t. take 10 q ++ t) (append_assoc connector password value.out)),
      whole,
    )

-- A round inside of the text moves on by a byte at least.
pub record MovesOn (q : Bytes) (s : Step) : Type 0 where
  pub on : length s.cursor.1 < length q
  pub copies : s.masked ≡ false → s.out ++ s.cursor.1 ≡ q

MovesBehind-MovesOn :
    (n : ℕ) (b : Option ℕ) (c : ℕ) (q : Bytes) (s : Step)
    → MovesBehind (suc n) (b, c ∷ q) s
    → MovesOn (c ∷ q) s
MovesBehind-MovesOn n b c q s (rest, e, m) =
    let all =
      after-Moves (c ∷ q) (take (suc n) (c ∷ q)) (advance (suc n) (b, c ∷ q)).1 rest
        (take-advance (suc n) b (c ∷ q)) m in
    record {
      on =
          omega
            (arith, length-advance n (some c) q, m.shorter, ap (λ (t : Step). length t.cursor.1) e);
      copies =
          λ u. subst (λ t. t.masked ≡ false → t.out ++ t.cursor.1 ≡ c ∷ q) (sym e) all.copies u;
    }

pub mask_one-MovesOn : (b : Option ℕ) (c : ℕ) (q : Bytes) → MovesOn (c ∷ q) (mask_one (b, c ∷ q))
unfolding mask_one
mask_one-MovesOn b c q =
    let identified = MovesBehind-MovesOn 9 b c q _ (mask_identified-Moves b (c ∷ q)) in
    let old = MovesBehind-MovesOn 11 b c q _ (mask_password-Moves 12 b (c ∷ q)) in
    let plain = MovesBehind-MovesOn 7 b c q _ (mask_password-Moves 8 b (c ∷ q)) in
    let copy : MovesOn (c ∷ q)
        (record { out = take 1 (c ∷ q); cursor = advance 1 (b, c ∷ q); masked = false }) =
      record { on = omega arith; copies = λ _. refl } in
    let at = λ (kw : Bytes). kw_at (b, c ∷ q) kw in
    if_cases (MovesOn (c ∷ q)) (at (codes "IDENTIFIED")) identified (
      if_cases (MovesOn (c ∷ q)) (at (codes "OLD_PASSWORD")) old
        (if_cases (MovesOn (c ∷ q)) (at (codes "PASSWORD")) plain copy))
