-- ===== src/Common/Iff.antt =====
-- Equivalences of statements, composed.
use mathlib.Core.Logic.{◌↔◌, ◌⊎◌, inl, inr}

module _ {ℓ κ μ} {A : Type ℓ} {B : Type κ} {C : Type μ} where
  pub iff_trans : A ↔ B → B ↔ C → A ↔ C
  iff_trans f g = ((λ a. g.0 (f.0 a)), (λ c. f.1 (g.1 c)))

  pub or_assoc : ((A ⊎ B) ⊎ C) ↔ (A ⊎ (B ⊎ C))
  or_assoc = (to, from)
    where
      to : (A ⊎ B) ⊎ C → A ⊎ (B ⊎ C)
      to (inl (inl a)) = inl a
      to (inl (inr b)) = inr (inl b)
      to (inr c) = inr (inr c)

      from : A ⊎ (B ⊎ C) → (A ⊎ B) ⊎ C
      from (inl a) = inl (inl a)
      from (inr (inl b)) = inl (inr b)
      from (inr (inr c)) = inr c

  pub or_map_left : A ↔ B → (A ⊎ C) ↔ (B ⊎ C)
  or_map_left f = (to, from)
    where
      to : A ⊎ C → B ⊎ C
      to (inl a) = inl (f.0 a)
      to (inr c) = inr c

      from : B ⊎ C → A ⊎ C
      from (inl b) = inl (f.1 b)
      from (inr c) = inr c

  pub or_map_right : A ↔ B → (C ⊎ A) ↔ (C ⊎ B)
  or_map_right f = (to, from)
    where
      to : C ⊎ A → C ⊎ B
      to (inl c) = inl c
      to (inr a) = inr (f.0 a)

      from : C ⊎ B → C ⊎ A
      from (inl c) = inl c
      from (inr b) = inr (f.1 b)

module _ {ℓ κ} {A : Type ℓ} {B : Type κ} where
  pub iff_sym : A ↔ B → B ↔ A
  iff_sym f = (f.1, f.0)

  -- A side that cannot hold is dropped.
  pub or_absurd_left : ¬ A → (A ⊎ B) ↔ B
  or_absurd_left no_a = (to, (λ b. inr b))
    where
      to : A ⊎ B → B
      to (inl a) = absurd (no_a a)
      to (inr b) = b

module _ {ℓ κ} {A : Type ℓ} {B : Type κ} where
  pub or_absurd_right : ¬ B → A ↔ (A ⊎ B)
  or_absurd_right no_b = ((λ a. inl a), from)
    where
      from : A ⊎ B → A
      from (inl a) = a
      from (inr b) = absurd (no_b b)

pub iff_refl {ℓ} : {A : Type ℓ} → A ↔ A
iff_refl = ((λ a. a), (λ a. a))

pub and_map_right {ℓ κ μ} : {A : Type ℓ} {B : Type κ} {C : Type μ} → B ↔ C → (A × B) ↔ (A × C)
and_map_right f = ((λ h. (h.0, f.0 h.1)), (λ h. (h.0, f.1 h.1)))
