-- ===== src/Common/Bits.antt =====
-- One bit of a mask, and how `|` and `&` act on it.
use Prim.Native.Nat.{
  ℕ, zero, suc, ◌+◌, ◌-◌, ◌*◌, ◌/◌, ◌%◌, ◌^◌, ◌≤◌, min, max, bit_and, bit_or, digits, bitwise,
  bit_and-bitwise, bit_or-bitwise,
}
use mathlib.Core.Path.{◌≡◌, refl, ◌∙◌, ap, sym}
use mathlib.Core.Logic.{◌≢◌, ◌↔◌, ◌⊎◌, inl, inr}
use native.Mathlib.Omega.{arith}
use native.Mathlib.Nat.{le_refl, pow-suc, one-le-pow}

-- The native operations mean a recursion on binary digits with fuel; more fuel changes nothing.
module _ (z : ℕ → ℕ) (f : ℕ → ℕ → ℕ) where
  digits_one_more : (a b fuel : ℕ) → a ≤ fuel → digits z f (suc fuel) a b ≡ digits z f fuel a b
  digits_one_more zero b zero le = refl
  digits_one_more zero b (suc fuel) le = refl
  digits_one_more (suc a) b zero le = absurd (omega arith)
  digits_one_more (suc a) b (suc fuel) le =
      ap (λ t. t * 2 + f (suc a % 2) (b % 2))
        (digits_one_more (suc a / 2) (b / 2) fuel (omega arith))

  digits_more :
      (spare a b fuel : ℕ) → a ≤ fuel → digits z f (spare + fuel) a b ≡ digits z f fuel a b
  digits_more zero a b fuel le =
      let none : 0 + fuel ≡ fuel = omega arith in ap (λ t. digits z f t a b) none
  digits_more (suc spare) a b fuel le =
      let one : suc spare + fuel ≡ suc (spare + fuel) = omega arith in
      ap (λ t. digits z f t a b) one
      ∙ digits_one_more a b (spare + fuel) (omega arith)
      ∙ digits_more spare a b fuel le

  bitwise_digit :
      (a b : ℕ)
      → bitwise z f (suc a) b ≡ bitwise z f (suc a / 2) (b / 2) * 2 + f (suc a % 2) (b % 2)
  bitwise_digit a b =
      let half : ℕ = suc a / 2 in
      let exact : a - half + half ≡ a = omega arith in
      let trim = digits_more (a - half) half (b / 2) half (le_refl half) in
      ap (λ t. t * 2 + f (suc a % 2) (b % 2))
        (ap (λ t. digits z f t half (b / 2)) (sym exact) ∙ trim)

pub bit_or_digit : (a b : ℕ) → bit_or a b ≡ bit_or (a / 2) (b / 2) * 2 + max (a % 2) (b % 2)
bit_or_digit zero b = simp bit_or-bitwise (omega arith)
bit_or_digit (suc a) b = simp bit_or-bitwise (bitwise_digit (λ y. y) max a b)

pub bit_and_digit : (a b : ℕ) → bit_and a b ≡ bit_and (a / 2) (b / 2) * 2 + min (a % 2) (b % 2)
bit_and_digit zero b = simp bit_and-bitwise (omega arith)
bit_and_digit (suc a) b = simp bit_and-bitwise (bitwise_digit (λ y. 0) min a b)

-- bit `k` of `m`, as 0 or 1
abbrev pub bit : ℕ → ℕ → ℕ
bit m zero = m % 2
bit m (suc k) = bit (m / 2) k

pub bit-le : (m k : ℕ) → bit m k ≤ 1
bit-le m zero = omega arith
bit-le m (suc k) = bit-le (m / 2) k

pub bit-bit_or : (k a b : ℕ) → bit (bit_or a b) k ≡ max (bit a k) (bit b k)
bit-bit_or zero a b = omega (arith, bit_or_digit a b)
bit-bit_or (suc k) a b =
    let half : bit_or a b / 2 ≡ bit_or (a / 2) (b / 2) = omega (arith, bit_or_digit a b) in
    ap (λ t. bit t k) half ∙ bit-bit_or k (a / 2) (b / 2)

digits_min-zero : (fuel a : ℕ) → digits (λ y. 0) min fuel a 0 ≡ 0
digits_min-zero zero zero = refl
digits_min-zero zero (suc a) = refl
digits_min-zero (suc fuel) zero = refl
digits_min-zero (suc fuel) (suc a) = omega (arith, digits_min-zero fuel (suc a / 2))

bit_and-zero : (a : ℕ) → bit_and a 0 ≡ 0
bit_and-zero a = bit_and-bitwise a 0 ∙ digits_min-zero a a

bit_and_even : (m p : ℕ) → bit_and m (p * 2) ≡ bit_and (m / 2) p * 2
bit_and_even m p =
    let half : p * 2 / 2 ≡ p = omega arith in
    let rest : bit_and (m / 2) (p * 2 / 2) ≡ bit_and (m / 2) p = ap (bit_and (m / 2)) half in
    omega (arith, bit_and_digit m (p * 2), rest)

-- `m & (1 << k)` is that bit in its place.
pub bit_and-pow : (k m : ℕ) → bit_and m (2 ^ k) ≡ bit m k * 2 ^ k
bit_and-pow zero m = omega (arith, bit_and_digit m 1, bit_and-zero (m / 2))
bit_and-pow (suc k) m =
    rw (pow-suc 2 k, bit_and_even m (2 ^ k), bit_and-pow k (m / 2)) (grind arith)

-- The C test `m & bit` is about bit `k` alone.
pub bit_and-pow_iff : (k m : ℕ) → (bit_and m (2 ^ k) ≢ 0) ↔ (bit m k ≡ 1)
bit_and-pow_iff k m = (to, from)
  where
    to : bit_and m (2 ^ k) ≢ 0 → bit m k ≡ 1
    to h = grind (arith, bit-le m k, bit_and-pow k m)

    from : bit m k ≡ 1 → bit_and m (2 ^ k) ≢ 0
    from e z = absurd (grind (arith, bit_and-pow k m, one-le-pow k 2 (omega arith)))

pub bit_or-one_iff : (k a b : ℕ) → (bit (bit_or a b) k ≡ 1) ↔ ((bit a k ≡ 1) ⊎ (bit b k ≡ 1))
bit_or-one_iff k a b = (to, from)
  where
    to : bit (bit_or a b) k ≡ 1 → (bit a k ≡ 1) ⊎ (bit b k ≡ 1)
    to h = omega (arith, bit-bit_or k a b, bit-le a k, bit-le b k)

    from : (bit a k ≡ 1) ⊎ (bit b k ≡ 1) → bit (bit_or a b) k ≡ 1
    from h = omega (arith, bit-bit_or k a b, bit-le a k, bit-le b k)

-- The C test `mask & (1 << k)`.
abbrev pub HasBit : ℕ → ℕ → Type 0
HasBit k mask = bit_and mask (2 ^ k) ≢ 0

pub HasBit-bit_or : (k a b : ℕ) → HasBit k (bit_or a b) ↔ (HasBit k a ⊎ HasBit k b)
HasBit-bit_or k a b = (to, from)
  where
    split : (bit a k ≡ 1) ⊎ (bit b k ≡ 1) → HasBit k a ⊎ HasBit k b
    split (inl e) = inl ((bit_and-pow_iff k a).1 e)
    split (inr e) = inr ((bit_and-pow_iff k b).1 e)

    to : HasBit k (bit_or a b) → HasBit k a ⊎ HasBit k b
    to h = split ((bit_or-one_iff k a b).0 ((bit_and-pow_iff k (bit_or a b)).0 h))

    join : HasBit k a ⊎ HasBit k b → (bit a k ≡ 1) ⊎ (bit b k ≡ 1)
    join (inl h) = inl ((bit_and-pow_iff k a).0 h)
    join (inr h) = inr ((bit_and-pow_iff k b).0 h)

    from : HasBit k a ⊎ HasBit k b → HasBit k (bit_or a b)
    from h = (bit_and-pow_iff k (bit_or a b)).1 ((bit_or-one_iff k a b).1 (join h))

pub not_HasBit-zero : (k : ℕ) → ¬ HasBit k 0
not_HasBit-zero k h = h (bit_and-bitwise 0 (2 ^ k))

le-digits_max : (fuel a b : ℕ) → a ≤ fuel → a ≤ digits (λ y. y) max fuel a b
le-digits_max zero zero b le = omega arith
le-digits_max zero (suc a) b le = absurd (omega arith)
le-digits_max (suc fuel) zero b le = omega arith
le-digits_max (suc fuel) (suc a) b le =
    omega (arith, le-digits_max fuel (suc a / 2) (b / 2) (omega arith))

-- Joining bits to a mask loses none, so a mask that is not empty stays so.
pub le-bit_or : (a b : ℕ) → a ≤ bit_or a b
le-bit_or a b = rw (bit_or-bitwise a b) (le-digits_max a a b (le_refl a))

pub zero-bit_or : (b : ℕ) → bit_or 0 b ≡ b
zero-bit_or b = bit_or-bitwise 0 b
