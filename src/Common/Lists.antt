-- ===== src/Common/Lists.antt =====
-- Lists measured and indexed by native numbers, and predicates on their elements.
use Prim.Native.Nat.{ℕ, zero, suc, ◌+◌}
use mathlib.Core.Path.{◌≡◌, ap, sym, subst, ◌∙◌}
use mathlib.Core.Bool.{Bool, true, false}
use mathlib.Core.Logic.{◌⊎◌, inl, inr, ◌↔◌, ◌≢◌}
use mathlib.Core.List.{List, [], ◌∷◌, ◌++◌, append-nil, append_assoc}
use native.Mathlib.Omega.{arith}

module _ {ℓ} {A : Type ℓ} where
  abbrev pub length : List A → ℕ
  length [] = 0
  length (x ∷ xs) = suc (length xs)

  abbrev pub take : ℕ → List A → List A
  take zero xs = []
  take (suc n) [] = []
  take (suc n) (x ∷ xs) = x ∷ take n xs

  abbrev pub drop : ℕ → List A → List A
  drop zero xs = xs
  drop (suc n) [] = []
  drop (suc n) (x ∷ xs) = drop n xs

  -- `empty()`
  abbrev pub is_nil : List A → Bool
  is_nil [] = true
  is_nil (x ∷ xs) = false

  pub length-append : (xs ys : List A) → length (xs ++ ys) ≡ length xs + length ys
  length-append [] ys = omega arith
  length-append (x ∷ xs) ys = omega (arith, length-append xs ys)

module _ {ℓ κ} {A : Type ℓ} (P : A → Type κ) where
  -- every element satisfies `P`
  abbrev pub All : List A → Type κ
  All [] = Unit
  All (x ∷ xs) = P x × All xs

  pub All-append_inv : (xs ys : List A) → All (xs ++ ys) → All xs × All ys
  All-append_inv [] ys h = (tt, h)
  All-append_inv (x ∷ xs) ys (p, h) = let (a, b) = All-append_inv xs ys h in ((p, a), b)

  pub All-append : (xs ys : List A) → All xs → All ys → All (xs ++ ys)
  All-append [] ys _ hy = hy
  All-append (x ∷ xs) ys (px, hx) hy = (px, All-append xs ys hx hy)

module _ {ℓ} {A : Type ℓ} (P : A → Type 0) where
  -- some element satisfies `P`, and which one is kept
  abbrev pub Any : List A → Type 0
  Any [] = ⊥
  Any (x ∷ xs) = P x ⊎ Any xs

module _ {ℓ} {A : Type ℓ} where
  abbrev pub get_or : List A → ℕ → A → A
  get_or [] i d = d
  get_or (x ∷ xs) zero d = x
  get_or (x ∷ xs) (suc i) d = get_or xs i d

-- `for (x in xs) out.append(f(x))`
module _ {A : Type 0} {B : Type 0} (f : A → List B) where
  abbrev pub append_each : List B → List A → List B
  append_each out [] = out
  append_each out (x ∷ xs) = append_each (out ++ f x) xs

  pub append_each-append :
      (out : List B) (xs : List A) → append_each out xs ≡ out ++ append_each [] xs
  append_each-append out [] = sym (append-nil out)
  append_each-append out (x ∷ xs) =
      append_each-append (out ++ f x) xs
      ∙ append_assoc out (f x) _
      ∙ ap (λ t. out ++ t) (sym (append_each-append (f x) xs))

  pub append_each-cons : (x : A) (xs : List A) → append_each [] (x ∷ xs) ≡ f x ++ append_each [] xs
  append_each-cons x xs = append_each-append (f x) xs

  -- What holds of each piece holds of the whole.
  pub append_each-All :
      (P : B → Type 0) → ((x : A) → All P (f x)) → (xs : List A) → All P (append_each [] xs)
  append_each-All P h [] = tt
  append_each-All P h (x ∷ xs) =
      subst (All P) (sym (append_each-cons x xs))
        (All-append P (f x) (append_each [] xs) (h x) (append_each-All P h xs))

module _ {ℓ} {A : Type ℓ} (P : A → Type 0) where
  pub Any-append : (xs ys : List A) → Any P (xs ++ ys) ↔ (Any P xs ⊎ Any P ys)
  Any-append xs ys = (to xs, from xs)
    where
      to : (xs : List A) → Any P (xs ++ ys) → Any P xs ⊎ Any P ys
      to [] h = inr h
      to (x ∷ xs) (inl p) = inl (inl p)
      to (x ∷ xs) (inr h) = elim (to xs h) [ inl a ↦ inl (inr a) | inr b ↦ inr b ]

      from : (xs : List A) → Any P xs ⊎ Any P ys → Any P (xs ++ ys)
      from [] (inl h) = absurd h
      from [] (inr h) = h
      from (x ∷ xs) (inl (inl p)) = inl p
      from (x ∷ xs) (inl (inr a)) = inr (from xs (inl a))
      from (x ∷ xs) (inr h) = inr (from xs (inr h))

-- no two elements are equal
abbrev pub Distinct {ℓ} : {A : Type ℓ} → List A → Type ℓ
Distinct [] = Unit
Distinct (x ∷ xs) = All (λ y. y ≢ x) xs × Distinct xs

pub Distinct-concat {ℓ} :
    {A : Type ℓ} (xs : List A) (a : A) → All (λ y. y ≢ a) xs → Distinct xs → Distinct (xs ++ a ∷ [])
Distinct-concat [] a h d = (tt, tt)
Distinct-concat (x ∷ xs) a (ne, h) (fresh, d) =
    (All-append (λ y. y ≢ x) xs (a ∷ []) fresh ((λ e. ne (sym e)), tt), Distinct-concat xs a h d)

module _ {ℓ} {A : Type ℓ} (P : A → Type 0) (Q : Type 0) where
  -- Changing one element so that it satisfies `P` in the further case `Q`.
  pub Any-change :
      (before : List A) (x y : A) (behind : List A)
      → P y ↔ (P x ⊎ Q)
      → Any P (before ++ (y ∷ behind)) ↔ (Any P (before ++ (x ∷ behind)) ⊎ Q)
  Any-change before x y behind h = (to before, from before)
    where
      to : (before : List A) → Any P (before ++ (y ∷ behind)) → Any P (before ++ (x ∷ behind)) ⊎ Q
      to [] (inl p) = elim (h.0 p) [ inl a ↦ inl (inl a) | inr q ↦ inr q ]
      to [] (inr r) = inl (inr r)
      to (b ∷ before) (inl p) = inl (inl p)
      to (b ∷ before) (inr r) = elim (to before r) [ inl a ↦ inl (inr a) | inr q ↦ inr q ]

      from : (before : List A) → Any P (before ++ (x ∷ behind)) ⊎ Q → Any P (before ++ (y ∷ behind))
      from [] (inl (inl p)) = inl (h.1 (inl p))
      from [] (inl (inr r)) = inr r
      from [] (inr q) = inl (h.1 (inr q))
      from (b ∷ before) (inl (inl p)) = inl p
      from (b ∷ before) (inl (inr r)) = inr (from before (inl r))
      from (b ∷ before) (inr q) = inr (from before (inr q))

  pub Any-concat : (xs : List A) (y : A) → P y ↔ Q → Any P (xs ++ y ∷ []) ↔ (Any P xs ⊎ Q)
  Any-concat xs y h = (to xs, from xs)
    where
      to : (xs : List A) → Any P (xs ++ y ∷ []) → Any P xs ⊎ Q
      to [] (inl p) = inr (h.0 p)
      to [] (inr r) = absurd r
      to (x ∷ xs) (inl p) = inl (inl p)
      to (x ∷ xs) (inr r) = elim (to xs r) [ inl a ↦ inl (inr a) | inr q ↦ inr q ]

      from : (xs : List A) → Any P xs ⊎ Q → Any P (xs ++ y ∷ [])
      from [] (inl r) = absurd r
      from [] (inr q) = inl (h.1 q)
      from (x ∷ xs) (inl (inl p)) = inl p
      from (x ∷ xs) (inl (inr r)) = inr (from xs (inl r))
      from (x ∷ xs) (inr q) = inr (from xs (inr q))

pub All-change {ℓ κ} :
    {A : Type ℓ} (P : A → Type κ) (before : List A) (x y : A) (behind : List A)
    → (P x → P y)
    → All P (before ++ (x ∷ behind))
    → All P (before ++ (y ∷ behind))
All-change P [] x y behind f (p, h) = (f p, h)
All-change P (b ∷ before) x y behind f (p, h) = (p, All-change P before x y behind f h)

pub All-mono {ℓ κ μ} :
    {A : Type ℓ} {P : A → Type κ} {Q : A → Type μ}
    → ((a : A) → P a → Q a)
    → (xs : List A) → All P xs
    → All Q xs
All-mono f [] h = tt
All-mono f (x ∷ xs) (p, h) = (f x p, All-mono f xs h)
