-- ===== src/Plugin/Status/Bits.antt =====
-- The bit of a command: a single one, which CMD_ALL has.
use mysql_selective_trace_pl.Common.{
  ℕ, zero, suc, ◌/◌, ◌%◌, ◌^◌, ◌≤◌, ◌<◌, bit_and, ◌≡◌, refl, ◌≢◌, inl, inr, true, not, List, [],
  ◌∷◌, arith, ◌==◌, Bool-cases, if_cases, All, Bytes, equal,
}
use mathlib.Core.Path.{subst}
use mysql_selective_trace_pl.Common.Bits.{bit, HasBit, bit_and-pow_iff, not_HasBit-zero}
use mysql_selective_trace_pl.Common.Tables.{holds_below, holds_below_at}
use mysql_selective_trace_pl.Engine.Cmd
use mysql_selective_trace_pl.Engine.Command.{keywords, keyword_bit, command_bit}

-- a power of two that fits in CMD_ALL
abbrev pub IsBit : ℕ → Type 0
IsBit m = (k : ℕ) × (k < 32) × (m ≡ 2 ^ k)

keyword_bit-IsBit :
    (table : List (Bytes × ℕ)) (cmd : Bytes)
    → All (λ (row : Bytes × ℕ). IsBit row.1) table
    → IsBit (keyword_bit table cmd)
unfolding keyword_bit
keyword_bit-IsBit [] cmd h = (12, omega arith, refl)
keyword_bit-IsBit ((kw, b) ∷ table) cmd h =
    if_cases IsBit (equal cmd kw) {x = b} {y = keyword_bit table cmd} h.0
      (keyword_bit-IsBit table cmd h.1)

pub command_bit-IsBit : (cmd : Bytes) → IsBit (command_bit cmd)
unfolding command_bit
command_bit-IsBit cmd = keyword_bit-IsBit keywords cmd (
  (0, omega arith, refl),
  (
    (0, omega arith, refl),
    (
      (1, omega arith, refl),
      (
        (2, omega arith, refl),
        (
          (3, omega arith, refl),
          (
            (4, omega arith, refl),
            (
              (5, omega arith, refl),
              (
                (6, omega arith, refl),
                (
                  (7, omega arith, refl),
                  (
                    (8, omega arith, refl),
                    (
                      (9, omega arith, refl),
                      (
                        (10, omega arith, refl),
                        (
                          (11, omega arith, refl),
                          (
                            (13, omega arith, refl),
                            (
                              (14, omega arith, refl),
                              ((15, omega arith, refl), ((16, omega arith, refl), tt)),
                            ),
                          ),
                        ),
                      ),
                    ),
                  ),
                ),
              ),
            ),
          ),
        ),
      ),
    ),
  ),
)

all_table : holds_below (λ k. not (bit_and Cmd.all (2 ^ k) == 0)) 32 ≡ true
unfolding holds_below
all_table = refl

pub HasBit-all : (k : ℕ) → k < 32 → HasBit k Cmd.all
HasBit-all k h =
    let found = holds_below_at (λ k. not (bit_and Cmd.all (2 ^ k) == 0)) 32 k h all_table in
    λ e. ground (arith, found, e)

some_bit : (fuel m : ℕ) → m ≤ fuel → m ≢ 0 → (k : ℕ) × (bit m k ≡ 1)
some_bit zero m le h = absurd (h (omega arith))
some_bit (suc fuel) m le h = elim (Bool-cases (m % 2 == 0)) [
  | inl e ↦
      (let (k, found) = some_bit fuel (m / 2) (omega arith) (λ z. h (ground arith)) in
        (suc k, found))
  | inr e ↦ (0, ground arith)
]

-- a mask that is not 0 has some bit
pub some-HasBit : (m : ℕ) → m ≢ 0 → (k : ℕ) × HasBit k m
some-HasBit m h =
    let (k, found) = some_bit m m (omega arith) h in (k, (bit_and-pow_iff k m).1 found)

pub not_HasBit_zero : (k m : ℕ) → HasBit k m → m ≢ 0
not_HasBit_zero k m h e = not_HasBit-zero k (subst (HasBit k) e h)
