-- ===== src/Engine/Mask/Copy.antt =====
-- What the loop of `mask_secrets` copies, and that it ends.
use mysql_selective_trace_pl.Common.{
  ℕ, zero, suc, ◌+◌, ◌≤◌, ◌≡◌, refl, ap, ◌∙◌, Bool, true, false, ◌||◌, Option, none, [], ◌∷◌, ◌++◌,
  arith, length, Bytes,
}
use mysql_selective_trace_pl.Engine.Mask.Moves.{mask_one-MovesOn}
use mysql_selective_trace_pl.Engine.Mask.{Cursor, mask_one, mask_loop, mask_secrets}

neither : (a b : Bool) → (a || b) ≡ false → (a ≡ false) × (b ≡ false)
neither true b e = cc
neither false b e = (refl, e)

mask_loop-copies :
    (fuel : ℕ) (cur : Cursor)
    → length cur.1 ≤ fuel
    → (mask_loop fuel cur).1 ≡ false
    → (mask_loop fuel cur).0 ≡ cur.1
unfolding mask_loop
mask_loop-copies zero (b, []) h e = refl
mask_loop-copies zero (b, c ∷ q) h e = absurd (omega arith)
mask_loop-copies (suc fuel) (b, []) h e = refl
mask_loop-copies (suc fuel) (b, c ∷ q) h e =
    let s = mask_one (b, c ∷ q) in
    let m = mask_one-MovesOn b c q in
    let (out, masked) = mask_loop fuel s.cursor in
    let (no_step, no_rest) = neither s.masked masked e in
    let rest = mask_loop-copies fuel s.cursor (omega (arith, m.on)) no_rest in
    ap (λ t. s.out ++ t) rest ∙ m.copies no_step

-- If `mask_secrets` reports that it masked nothing, its output is the query.
pub mask_secrets-copies :
    (query : Bytes) → (mask_secrets query).1 ≡ false → (mask_secrets query).0 ≡ query
unfolding mask_secrets
mask_secrets-copies query e = mask_loop-copies (length query) (none, query) (omega arith) e

-- More fuel than the text has bytes changes nothing.
pub mask_loop_enough :
    (fuel more : ℕ) (cur : Cursor)
    → length cur.1 ≤ fuel
    → length cur.1 ≤ more
    → mask_loop fuel cur ≡ mask_loop more cur
unfolding mask_loop
mask_loop_enough zero zero cur h k = refl
mask_loop_enough zero (suc more) (b, []) h k = refl
mask_loop_enough zero (suc more) (b, c ∷ q) h k = absurd (omega arith)
mask_loop_enough (suc fuel) zero (b, []) h k = refl
mask_loop_enough (suc fuel) zero (b, c ∷ q) h k = absurd (omega arith)
mask_loop_enough (suc fuel) (suc more) (b, []) h k = refl
mask_loop_enough (suc fuel) (suc more) (b, c ∷ q) h k =
    let s = mask_one (b, c ∷ q) in
    let m = mask_one-MovesOn b c q in
    let rest = mask_loop_enough fuel more s.cursor (omega (arith, m.on)) (omega (arith, m.on)) in
    ap (λ (t : Bytes × Bool). (s.out ++ t.0, s.masked || t.1)) rest

-- The runs of the source's loop from a cursor that end by its test, `i` at the end of the text: the
-- number of rounds, what they append and whether one of them masked. There is no fuel in them.
pub data Ends : ℕ → Cursor → Bytes × Bool → Type 0 where
  at_end : (before : Option ℕ) → Ends 0 (before, []) ([], false)
  round :
      (n : ℕ) (before : Option ℕ) (c : ℕ) (q : Bytes) (r : Bytes × Bool)
      → Ends n (mask_one (before, c ∷ q)).cursor r
      → Ends
          (n + 1)
          (before, c ∷ q)
          ((mask_one (before, c ∷ q)).out ++ r.0, (mask_one (before, c ∷ q)).masked || r.1)

-- The loop of `mask_secrets` ends by its own test: from every cursor, with fuel of at least the
-- length of its text, there is a run of the loop that reaches the end of the text, in no more rounds
-- than the text has bytes, and what `mask_loop` returns is what this run appends and marks.
pub mask_loop-Ends :
    (fuel : ℕ) (cur : Cursor)
    → length cur.1 ≤ fuel
    → (n : ℕ) × (n ≤ length cur.1) × Ends n cur (mask_loop fuel cur)
unfolding mask_loop
mask_loop-Ends zero (b, []) h = (0, omega arith, at_end b)
mask_loop-Ends zero (b, c ∷ q) h = absurd (omega arith)
mask_loop-Ends (suc fuel) (b, []) h = (0, omega arith, at_end b)
mask_loop-Ends (suc fuel) (b, c ∷ q) h =
    let s = mask_one (b, c ∷ q) in
    let m = mask_one-MovesOn b c q in
    let (n, few, rest) = mask_loop-Ends fuel s.cursor (omega (arith, m.on)) in
    (n + 1, omega (arith, m.on, few), round n b c q (mask_loop fuel s.cursor) rest)
