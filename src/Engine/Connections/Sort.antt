-- ===== src/Engine/Connections/Sort.antt =====
-- `sort` and `unique` of the id list: the same ids, in ascending order.
use mysql_selective_trace_pl.Common.{
  ℕ, ◌≤◌, ◌<◌, ◌≡◌, ◌↔◌, ◌⊎◌, inl, inr, List, [], ◌∷◌, arith, ltb, ◌==◌, ltb→lt, Bool-cases,
  if_cases, All, All-mono, Any, iff_trans, or_map_right, iff_refl,
}
use mysql_selective_trace_pl.Engine.Connections.{insert_sorted, sort, keep_new, unique}

-- `v` stands in the list.
abbrev pub Holds : ℕ → List ℕ → Type 0
Holds v = Any (λ x. x ≡ v)

abbrev pub IsSorted : List ℕ → Type 0
IsSorted [] = Unit {0}
IsSorted (x ∷ xs) = All (λ y. x ≤ y) xs × IsSorted xs

-- sorted, with no repetition
abbrev pub IsAscending : List ℕ → Type 0
IsAscending [] = Unit {0}
IsAscending (x ∷ xs) = All (λ y. x < y) xs × IsAscending xs

or_swap : {A B C : Type 0} → (A ⊎ (B ⊎ C)) ↔ (B ⊎ (A ⊎ C))
or_swap = (swap, swap)
  where
    swap : {A B C : Type 0} → A ⊎ (B ⊎ C) → B ⊎ (A ⊎ C)
    swap (inl a) = inr (inl a)
    swap (inr (inl b)) = inl b
    swap (inr (inr c)) = inr (inr c)

insert_sorted_iff : (v a : ℕ) (xs : List ℕ) → Holds v (insert_sorted a xs) ↔ ((a ≡ v) ⊎ Holds v xs)
unfolding insert_sorted
insert_sorted_iff v a [] = iff_refl
insert_sorted_iff v a (x ∷ xs) =
    if_cases (λ l. Holds v l ↔ ((a ≡ v) ⊎ Holds v (x ∷ xs))) (ltb x a)
      (iff_trans (or_map_right (insert_sorted_iff v a xs)) or_swap) iff_refl

pub sort_iff : (v : ℕ) (xs : List ℕ) → Holds v (sort xs) ↔ Holds v xs
unfolding sort
sort_iff v [] = iff_refl
sort_iff v (x ∷ xs) = iff_trans (insert_sorted_iff v x (sort xs)) (or_map_right (sort_iff v xs))

keep_new_iff : (v a : ℕ) (xs : List ℕ) → Holds v (keep_new a xs) ↔ ((a ≡ v) ⊎ Holds v xs)
unfolding keep_new
keep_new_iff v a [] = iff_refl
keep_new_iff v a (x ∷ xs) = elim (Bool-cases (a == x)) [
  | inl same ↦
      let e : a ≡ x = ground arith in
      rw (same, e) ((λ h. inr h), (λ h. elim h [ inl p ↦ inl p | inr q ↦ q ]))
  | inr other ↦ rw other iff_refl
]

pub unique_iff : (v : ℕ) (xs : List ℕ) → Holds v (unique xs) ↔ Holds v xs
unfolding unique
unique_iff v [] = iff_refl
unique_iff v (x ∷ xs) = iff_trans (keep_new_iff v x (unique xs)) (or_map_right (unique_iff v xs))

module _ (P : ℕ → Type 0) where
  insert_sorted-All : (a : ℕ) (xs : List ℕ) → P a → All P xs → All P (insert_sorted a xs)
  unfolding insert_sorted
  insert_sorted-All a [] p h = (p, tt)
  insert_sorted-All a (x ∷ xs) p (q, h) =
      if_cases (All P) (ltb x a) (q, insert_sorted-All a xs p h) (p, (q, h))

  keep_new-All : (a : ℕ) (xs : List ℕ) → P a → All P xs → All P (keep_new a xs)
  unfolding keep_new
  keep_new-All a [] p h = (p, tt)
  keep_new-All a (x ∷ xs) p h = if_cases (All P) (a == x) h (p, h)

  unique-All : (xs : List ℕ) → All P xs → All P (unique xs)
  unfolding unique
  unique-All [] h = tt
  unique-All (x ∷ xs) (p, h) = keep_new-All x (unique xs) p (unique-All xs h)

insert_sorted-IsSorted : (a : ℕ) (xs : List ℕ) → IsSorted xs → IsSorted (insert_sorted a xs)
unfolding insert_sorted
insert_sorted-IsSorted a [] h = (tt, tt)
insert_sorted-IsSorted a (x ∷ xs) (least, h) = elim (Bool-cases (ltb x a)) [
  | inl below ↦
      let lt = ltb→lt x a below in
      rw below
        (insert_sorted-All (λ y. x ≤ y) a xs (omega arith) least, insert_sorted-IsSorted a xs h)
  | inr not_below ↦
      let le : a ≤ x = ground arith in
      rw not_below ((le, All-mono (λ y q. omega arith) xs least), (least, h))
]

pub sort-IsSorted : (xs : List ℕ) → IsSorted (sort xs)
unfolding sort
sort-IsSorted [] = tt
sort-IsSorted (x ∷ xs) = insert_sorted-IsSorted x (sort xs) (sort-IsSorted xs)

keep_new-IsAscending :
    (a : ℕ) (xs : List ℕ) → All (λ y. a ≤ y) xs → IsAscending xs → IsAscending (keep_new a xs)
unfolding keep_new
keep_new-IsAscending a [] le h = (tt, tt)
keep_new-IsAscending a (x ∷ xs) (le, _) (least, h) = elim (Bool-cases (a == x)) [
  | inl same ↦ rw same (least, h)
  | inr other ↦
      let lt : a < x = ground arith in
      rw other ((lt, All-mono (λ y q. omega arith) xs least), (least, h))
]

pub unique-IsAscending : (xs : List ℕ) → IsSorted xs → IsAscending (unique xs)
unfolding unique
unique-IsAscending [] h = tt
unique-IsAscending (x ∷ xs) (least, h) =
    keep_new-IsAscending x (unique xs) (unique-All (λ y. x ≤ y) xs least) (unique-IsAscending xs h)
