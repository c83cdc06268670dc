-- ===== src/Engine/Command/Skip.antt =====
-- The skipping loop of `extract_command` ends, and each round may be taken alone.
use mysql_selective_trace_pl.Common.{
  ℕ, zero, suc, ◌≤◌, ◌<◌, ◌≡◌, refl, sym, ◌∙◌, inl, inr, false, none, some, [], ◌∷◌, arith, ◌==◌,
  Option-cases, length, drop, Bytes,
}
use mysql_selective_trace_pl.Engine.Command.{
  skip_digits, skip_line, skip_block, skip_comment, skip_one, skip_loop,
}

length-skip_digits : (p : Bytes) → length (skip_digits p) ≤ length p
unfolding skip_digits
length-skip_digits [] = omega arith
length-skip_digits (c ∷ p) = ground (arith, length-skip_digits p)

length-skip_line : (p : Bytes) → length (skip_line p) ≤ length p
unfolding skip_line
length-skip_line [] = omega arith
length-skip_line (c ∷ p) = ground (arith, length-skip_line p)

length-skip_block : (p : Bytes) → length (skip_block p) ≤ length p
unfolding skip_block
length-skip_block [] = omega arith
length-skip_block (c ∷ []) = omega arith
length-skip_block (c ∷ d ∷ p) = ground (arith, length-skip_block (d ∷ p))

length-drop : (n : ℕ) (p : Bytes) → length (drop n p) ≤ length p
length-drop zero p = omega arith
length-drop (suc n) [] = omega arith
length-drop (suc n) (c ∷ p) = omega (arith, length-drop n p)

length-skip_comment : (p : Bytes) → length (skip_comment p) ≤ length p
unfolding skip_comment
length-skip_comment p = ground (
  arith,
  length-drop 1 p,
  length-drop 2 p,
  length-skip_digits (drop 1 p),
  length-skip_digits (drop 2 p),
  length-skip_block p,
)

-- a line that does not start with its end gets shorter
length-skip_line_other :
    (c : ℕ) (p : Bytes) → (c == b'\n') ≡ false → length (skip_line (c ∷ p)) ≤ length p
unfolding skip_line
length-skip_line_other c p h = ground (arith, length-skip_line p)

-- a round moves `p`
pub length-skip_one : (p next : Bytes) → skip_one p ≡ some next → length next < length p
unfolding skip_one
length-skip_one [] next e = cc
length-skip_one (c ∷ p) next e =
    ground (arith, length-skip_comment (drop 1 p), length-drop 1 p, length-skip_line_other c p)

skip_loop_stop : (fuel : ℕ) (p : Bytes) → skip_one p ≡ none → skip_loop fuel p ≡ p
unfolding skip_loop
skip_loop_stop zero p e = refl
skip_loop_stop (suc fuel) p e = rw (e, skip_loop)

skip_loop_round :
    (fuel : ℕ) (p next : Bytes)
    → skip_one p ≡ some next
    → skip_loop (suc fuel) p ≡ skip_loop fuel next
unfolding skip_loop
skip_loop_round fuel p next e = rw (e, skip_loop)

-- With as much fuel as there is text, the loop stops where a round breaks.
pub skip_loop_stops : (fuel : ℕ) (p : Bytes) → length p ≤ fuel → skip_one (skip_loop fuel p) ≡ none
unfolding skip_loop skip_one
skip_loop_stops zero [] h = refl
skip_loop_stops zero (c ∷ p) h = absurd (omega arith)
skip_loop_stops (suc fuel) p h = elim (Option-cases (skip_one p)) [
  | inl e ↦ rw (skip_loop_stop (suc fuel) p e) e
  | inr (next, e) ↦
      rw (skip_loop_round fuel p next e)
        (skip_loop_stops fuel next (omega (arith, length-skip_one p next e)))
]

-- More fuel changes nothing.
skip_loop_enough :
    (fuel more : ℕ) (p : Bytes)
    → length p ≤ fuel
    → length p ≤ more
    → skip_loop fuel p ≡ skip_loop more p
unfolding skip_loop
skip_loop_enough zero more p h k = sym (skip_loop_stop more p (skip_loop_stops zero p h))
skip_loop_enough (suc fuel) zero p h k = skip_loop_stop (suc fuel) p (skip_loop_stops zero p k)
skip_loop_enough (suc fuel) (suc more) p h k = elim (Option-cases (skip_one p)) [
  | inl e ↦ skip_loop_stop (suc fuel) p e ∙ sym (skip_loop_stop (suc more) p e)
  | inr (next, e) ↦
      let shorter = length-skip_one p next e in
      skip_loop_round fuel p next e
      ∙ skip_loop_enough fuel more next (omega arith) (omega arith)
      ∙ sym (skip_loop_round more p next e)
]

-- the loop as `extract_command` starts it
abbrev pub skip : Bytes → Bytes
skip p = skip_loop (length p) p

pub skip-skip_one : (p next : Bytes) → skip_one p ≡ some next → skip p ≡ skip next
skip-skip_one p next e =
    let shorter = length-skip_one p next e in
    skip_loop_enough (length p) (suc (length p)) p (omega arith) (omega arith)
    ∙ skip_loop_round (length p) p next e
    ∙ skip_loop_enough (length p) (length next) next (omega arith) (omega arith)

pub skip_stop : (p : Bytes) → skip_one p ≡ none → skip p ≡ p
skip_stop p e = skip_loop_stop (length p) p e
