-- ===== src/Common/Text.antt =====
-- Text is a list of bytes, each a number below 256.
use Prim.Native.Char.{code}
use Prim.Native.String.{String}
use Prim.Native.Nat.{ℕ}
use mathlib.Core.Path.{◌≡◌, refl}
use mathlib.Core.Logic.{◌↔◌, ◌≢◌, inl, inr}
use mathlib.Core.Bool.{Bool, true, false, ◌&&◌, ◌||◌}
use mathlib.Core.List.{List, [], ◌∷◌, ◌++◌, cons-ne-nil}
use mathlib.Core.Option.{Option, none, some}
use native.Mathlib.Omega.{arith}
use mysql_selective_trace_pl.Common.Lists.{All}
use mysql_selective_trace_pl.Common.Tests.{◌==◌, if◌then◌else◌, Option-cases}

abbrev pub Bytes : Type 0
Bytes = List ℕ

-- the bytes of an ASCII literal
abbrev pub codes : String → Bytes
codes String.[] = []
codes (String.◌∷◌ c s) = code c ∷ codes s

-- a reader's result, one byte longer at the front
abbrev pub prepend : ℕ → Option (Bytes × Bytes) → Option (Bytes × Bytes)
prepend c none = none
prepend c (some (s, rest)) = some (c ∷ s, rest)

-- `std::string` equality, `strcmp(...) == 0`, and `memcmp` on equal lengths
unfoldable pub equal : Bytes → Bytes → Bool
equal [] [] = true
equal [] (y ∷ ys) = false
equal (x ∷ xs) [] = false
equal (x ∷ xs) (y ∷ ys) = x == y && equal xs ys

pub equal_iff : (a b : Bytes) → (equal a b ≡ true) ↔ (a ≡ b)
unfolding equal
equal_iff [] [] = ground arith
equal_iff [] (y ∷ b) = ground arith
equal_iff (x ∷ a) [] = ground arith
equal_iff (x ∷ a) (y ∷ b) = ground (arith, equal_iff a b)

-- whether the byte occurs: `s.find(c) != npos`
unfoldable pub contains : ℕ → Bytes → Bool
contains b [] = false
contains b (c ∷ s) = c == b || contains b s

-- `s.substr(0, i)` and `s.substr(i + 1)` for `i = s.find(b)`, and `none` where that is npos
unfoldable pub cut_at : ℕ → Bytes → Option (Bytes × Bytes)
cut_at b [] = none
cut_at b (c ∷ s) =
    if c == b
    then some ([], s)
    else elim (cut_at b s) [ none ↦ none | some (l, r) ↦ some (c ∷ l, r) ]

unfoldable pub add_front : ℕ → List Bytes → List Bytes
add_front c [] = []
add_front c (p ∷ ps) = (c ∷ p) ∷ ps

-- The pieces between the separators, at least one: what a loop visits that looks for the next
-- separator with `find` and takes the piece up to it with `substr`.
unfoldable pub split_on : ℕ → Bytes → List Bytes
unfolding add_front
split_on b [] = [] ∷ []
split_on b (c ∷ s) = if c == b then [] ∷ split_on b s else add_front c (split_on b s)

pub split_on-ne-nil : (b : ℕ) (s : Bytes) → split_on b s ≢ []
unfolding split_on
split_on-ne-nil b [] = cons-ne-nil [] []
split_on-ne-nil b (c ∷ s) = ground (arith, split_on-ne-nil b s)

-- `cut_at` takes a text apart at the first separator.
pub cut_at_sound :
    (b : ℕ) (s l r : Bytes) → cut_at b s ≡ some (l, r) → (s ≡ l ++ (b ∷ r)) × (contains b l ≡ false)
unfolding cut_at contains
cut_at_sound b [] l r e = cc
cut_at_sound b (c ∷ s) l r e = elim (Option-cases (cut_at b s)) [
  | inl e' ↦ ground arith
  | inr ((l', r'), e') ↦ ground (arith, cut_at_sound b s l' r' e')
]

pub cut_at-none : (b : ℕ) (s : Bytes) → cut_at b s ≡ none → contains b s ≡ false
unfolding cut_at contains
cut_at-none b [] e = refl
cut_at-none b (c ∷ s) e = ground (arith, cut_at-none b s)

pub split_on_sep : (b c : ℕ) (s : Bytes) → (c == b) ≡ true → split_on b (c ∷ s) ≡ [] ∷ split_on b s
unfolding split_on
split_on_sep b c s h = rw h

pub split_on_other :
    (b c : ℕ) (s : Bytes) → (c == b) ≡ false → split_on b (c ∷ s) ≡ add_front c (split_on b s)
unfolding split_on
split_on_other b c s h = rw h

pub contains-All : (b : ℕ) (s : Bytes) → contains b s ≡ false → All (λ c. c ≢ b) s
unfolding contains
contains-All b [] h = tt
contains-All b (c ∷ s) h = ground (arith, contains-All b s)
