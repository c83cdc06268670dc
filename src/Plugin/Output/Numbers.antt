-- ===== src/Plugin/Output/Numbers.antt =====
-- Printed numbers: their length, their bytes, and what they are read back as.
use mysql_selective_trace_pl.Common.{
  ℕ, zero, suc, ◌+◌, ◌-◌, ◌*◌, ◌/◌, ◌%◌, ◌^◌, ◌≤◌, ◌<◌, ◌≡◌, refl, ap, ◌⊎◌, inl, inr, [], ◌∷◌, ◌++◌,
  arith, ltb, if_split, length, take, length-append, All, All-append, All-mono, Bytes,
}
use native.Mathlib.Nat.{pow-suc, pow-zero}
use mysql_selective_trace_pl.Engine.Connections.Decimal.{decimal, IsDigit}
use mysql_selective_trace_pl.Plugin.Output.{
  ℤ, pos, negsuc, print_digits, print_unsigned, print_int, numbuf,
}

length-print_digits : (fuel n : ℕ) → length (print_digits fuel n) ≤ fuel
unfolding print_digits
length-print_digits zero n = omega arith
length-print_digits (suc fuel) n =
    let front = length-print_digits fuel (n / 10) in
    let whole = length-append (print_digits fuel (n / 10)) ((b'0' + n % 10) ∷ []) in
    ground (arith, front, whole)

print_digits-IsDigit : (fuel n : ℕ) → All IsDigit (print_digits fuel n)
unfolding print_digits
print_digits-IsDigit zero n = tt
print_digits-IsDigit (suc fuel) n =
    if_split (All IsDigit) (ltb n 10) {x = (b'0' + n) ∷ []}
      {y = print_digits fuel (n / 10) ++ (b'0' + n % 10) ∷ []} (λ e. ground arith)
      (λ e.
        All-append IsDigit (print_digits fuel (n / 10)) ((b'0' + n % 10) ∷ [])
          (print_digits-IsDigit fuel (n / 10)) (omega arith))

pub length-print_unsigned : (n : ℕ) → length (print_unsigned n) ≤ 20
unfolding print_unsigned
length-print_unsigned n = length-print_digits 20 n

pub length-print_int : (z : ℤ) → length (print_int z) ≤ 21
unfolding print_int
length-print_int (pos n) = omega (arith, length-print_unsigned n)
length-print_int (negsuc n) = omega (arith, length-print_unsigned (n + 1))

pub print_unsigned-IsDigit : (n : ℕ) → All IsDigit (print_unsigned n)
unfolding print_unsigned
print_unsigned-IsDigit n = print_digits-IsDigit 20 n

-- the bytes of a printed `int`
abbrev pub IsIntByte : ℕ → Type 0
IsIntByte c = IsDigit c ⊎ (c ≡ b'-')

pub print_int-IsIntByte : (z : ℤ) → All IsIntByte (print_int z)
unfolding print_int
print_int-IsIntByte (pos n) =
    All-mono {P = IsDigit} {Q = IsIntByte} (λ c d. inl d) (print_unsigned n)
      (print_unsigned-IsDigit n)
print_int-IsIntByte (negsuc n) = (
  inr refl,
  All-mono {P = IsDigit} {Q = IsIntByte} (λ c d. inl d) (print_unsigned (n + 1))
      (print_unsigned-IsDigit (n + 1)),
)

decimal-append :
    (v : ℕ) (s : Bytes) (c : ℕ) → decimal v (s ++ c ∷ []) ≡ decimal v s * 10 + (c - b'0')
decimal-append v [] c = refl
decimal-append v (d ∷ s) c = decimal-append (v * 10 + (d - b'0')) s c

-- with enough fuel, the digits are those of the number
decimal-print_digits : (fuel n : ℕ) → n < 10 ^ fuel → decimal 0 (print_digits fuel n) ≡ n
unfolding print_digits
decimal-print_digits zero n h = omega (arith, pow-zero 10)
decimal-print_digits (suc fuel) n h =
    let front = decimal-print_digits fuel (n / 10) in
    let whole = decimal-append 0 (print_digits fuel (n / 10)) (b'0' + n % 10) in
    let small : n / 10 < 10 ^ fuel = omega (arith, pow-suc 10 fuel) in
    if_split (λ (s : Bytes). decimal 0 s ≡ n) (ltb n 10) {x = (b'0' + n) ∷ []}
      {y = print_digits fuel (n / 10) ++ (b'0' + n % 10) ∷ []} (λ e. omega arith)
      (λ e. omega (arith, front small, whole))

-- A printed number of 64 bits is read back as that number.
pub decimal-print_unsigned : (n : ℕ) → n < 2 ^ 64 → decimal 0 (print_unsigned n) ≡ n
unfolding print_unsigned
decimal-print_unsigned n h = decimal-print_digits 20 n (omega arith)

take_all : (n : ℕ) (s : Bytes) → length s ≤ n → take n s ≡ s
take_all zero [] h = refl
take_all zero (c ∷ s) h = absurd (omega arith)
take_all (suc n) [] h = refl
take_all (suc n) (c ∷ s) h = ap (λ t. c ∷ t) (take_all n s (omega arith))

-- a text that fits is not cut
pub numbuf_fits : (s : Bytes) → length s ≤ 63 → numbuf s ≡ s
unfolding numbuf
numbuf_fits s h = take_all 63 s h
