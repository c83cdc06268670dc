-- ===== src/Plugin/Statement/Tables.antt =====
-- The list of tables of a statement: the text in `tables` as a list of names.
use mysql_selective_trace_pl.Common.{
  ℕ, zero, suc, ◌+◌, ◌≤◌, ◌<◌, ◌≡◌, refl, sym, ap, ◌∙◌, ◌≢◌, inl, inr, true, false, none, some,
  List, [], ◌∷◌, ◌++◌, arith, ◌==◌, Bool-cases, if_cases, Option-cases, length, length-append, All,
  All-mono, Any, Bytes, equal, equal_iff, contains, cut_at, split_on, split_on-ne-nil, cut_at_sound,
  add_front,
}
use mathlib.Core.Path.{subst}
use mysql_selective_trace_pl.Plugin.Statement.{add_name, listed}

-- the names that the text lists
abbrev pub entries : Bytes → List Bytes
entries [] = []
entries (c ∷ tables) = split_on b',' (c ∷ tables)

-- what `cut_at` says of the pieces
split_on-cut_at-none : (s : Bytes) → cut_at b',' s ≡ none → split_on b',' s ≡ s ∷ []
unfolding cut_at split_on add_front
split_on-cut_at-none [] e = refl
split_on-cut_at-none (c ∷ s) e = elim (Option-cases (cut_at b',' s)) [
  | inl e' ↦ ground (arith, split_on-cut_at-none s e')
  | inr ((l, r), e') ↦ ground arith
]

split_on-cut_at :
    (s l r : Bytes) → cut_at b',' s ≡ some (l, r) → split_on b',' s ≡ l ∷ split_on b',' r
unfolding cut_at split_on add_front
split_on-cut_at [] l r e = cc
split_on-cut_at (c ∷ s) l r e = elim (Option-cases (cut_at b',' s)) [
  | inl e' ↦ ground arith
  | inr ((l', r'), e') ↦ ground (arith, split_on-cut_at s l' r' e')
]

-- a piece is not longer than the text
add_front-le :
    (c n : ℕ) (ps : List Bytes)
    → All (λ e. length e ≤ n) ps
    → All (λ e. length e ≤ suc n) (add_front c ps)
unfolding add_front
add_front-le c n [] h = tt
add_front-le c n (p ∷ ps) (h, hs) = (omega arith, All-mono (λ e k. omega arith) ps hs)

split_on-le : (s : Bytes) → All (λ e. length e ≤ length s) (split_on b',' s)
unfolding split_on
split_on-le [] = (omega arith, tt)
split_on-le (c ∷ s) =
    if_cases (All (λ (e : Bytes). length e ≤ suc (length s))) (c == b',') {x = [] ∷ split_on b',' s}
      {y = add_front c (split_on b',' s)}
      (omega arith, All-mono (λ e k. omega arith) (split_on b',' s) (split_on-le s))
      (add_front-le c (length s) (split_on b',' s) (split_on-le s))

piece-le :
    (n : ℕ) (name : Bytes) (ps : List Bytes)
    → All (λ e. length e ≤ n) ps
    → Any (λ e. e ≡ name) ps
    → length name ≤ n
piece-le n name [] h k = absurd k
piece-le n name (p ∷ ps) (h, hs) (inl e) = omega (arith, ap length e)
piece-le n name (p ∷ ps) (h, hs) (inr k) = piece-le n name ps hs k

length-cut_at : (s l r : Bytes) → cut_at b',' s ≡ some (l, r) → length l + length r + 1 ≡ length s
length-cut_at s l r e =
    omega (arith, length-append l (b',' ∷ r), ap length (cut_at_sound b',' s l r e).0)

-- The loop finds the name exactly if it is one of the pieces.
pub listed_sound :
    (fuel : ℕ) (name hay : Bytes)
    → listed fuel name hay ≡ true
    → Any (λ e. e ≡ name) (split_on b',' hay)
unfolding listed
listed_sound zero name hay h = cc
listed_sound (suc fuel) name hay h = elim (Option-cases (cut_at b',' hay)) [
  | inl e ↦
      let same : equal hay name ≡ true = ground (arith, e) in
      subst (Any (λ e. e ≡ name)) (sym (split_on-cut_at-none hay e))
        (inl ((equal_iff hay name).0 same))
  | inr ((l, r), e) ↦
      subst (Any (λ e. e ≡ name)) (sym (split_on-cut_at hay l r e))
        (elim (Bool-cases (equal l name)) [
          | inl same ↦ inl ((equal_iff l name).0 same)
          | inr other ↦
              let later : listed fuel name r ≡ true = ground (arith, e, other) in
              inr (listed_sound fuel name r later)
        ])
]

pub listed_complete :
    (fuel : ℕ) (name hay : Bytes)
    → length hay ≤ fuel
    → 0 < length name
    → Any (λ e. e ≡ name) (split_on b',' hay)
    → listed fuel name hay ≡ true
unfolding listed
listed_complete zero name hay le pos h =
    let fits = piece-le (length hay) name (split_on b',' hay) (split_on-le hay) h in
    absurd (omega arith)
listed_complete (suc fuel) name hay le pos h =
    let fits = piece-le (length hay) name (split_on b',' hay) (split_on-le hay) h in
    elim (Option-cases (cut_at b',' hay)) [
      | inl e ↦ elim (subst (Any (λ e. e ≡ name)) (split_on-cut_at-none hay e) h) [
        | inl same ↦ let found = (equal_iff hay name).1 same in ground (arith, e, found)
        | inr nothing ↦ absurd nothing
      ]
      | inr ((l, r), e) ↦
          let size = length-cut_at hay l r e in
          elim (subst (Any (λ e. e ≡ name)) (split_on-cut_at hay l r e) h) [
            | inl same ↦ let found = (equal_iff l name).1 same in ground (arith, e, found)
            | inr k ↦
                let found = listed_complete fuel name r (omega arith) pos k in
                ground (arith, e, found)
          ]
    ]

add_front-append :
    (c : ℕ) (xs ys : List Bytes) → xs ≢ [] → add_front c (xs ++ ys) ≡ add_front c xs ++ ys
unfolding add_front
add_front-append c [] ys ne = absurd (ne refl)
add_front-append c (x ∷ xs) ys ne = refl

split_on-append :
    (t name : Bytes) → split_on b',' (t ++ (b',' ∷ name)) ≡ split_on b',' t ++ split_on b',' name
unfolding split_on
split_on-append [] name = refl
split_on-append (c ∷ t) name = elim (Bool-cases (c == b',')) [
  | inl e ↦ rw e (ap (λ ps. [] ∷ ps) (split_on-append t name))
  | inr e ↦ rw e (
      ap (add_front c) (split_on-append t name)
      ∙ add_front-append c (split_on b',' t) (split_on b',' name) (split_on-ne-nil b',' t))
]

split_on-plain : (name : Bytes) → contains b',' name ≡ false → split_on b',' name ≡ name ∷ []
unfolding split_on contains add_front
split_on-plain [] h = refl
split_on-plain (c ∷ name) h = ground (arith, split_on-plain name)

-- One more name in the text is one more name in the list.
pub entries-add_name :
    (tables : Bytes) (c : ℕ) (name : Bytes)
    → contains b',' (c ∷ name) ≡ false
    → entries (add_name tables (c ∷ name)) ≡ entries tables ++ (c ∷ name) ∷ []
entries-add_name [] c name h = split_on-plain (c ∷ name) h
entries-add_name (d ∷ tables) c name h =
    split_on-append (d ∷ tables) (c ∷ name)
    ∙ ap (λ ps. split_on b',' (d ∷ tables) ++ ps) (split_on-plain (c ∷ name) h)
