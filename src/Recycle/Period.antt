-- ===== src/Recycle/Period.antt =====
-- How often the connection is recycled.
use mysql_selective_trace_pl.Common.{
  ℕ, zero, suc, ◌+◌, ◌*◌, ◌/◌, ◌%◌, ◌^◌, ◌<◌, ◌≡◌, refl, sym, ap, ◌⊎◌, inl, inr, true, false, List,
  [], ◌∷◌, arith, if◌then◌else◌,
}
use native.Mathlib.Nat.{div-eq_of_lt-le, div-add-mod'}
use mysql_selective_trace_pl.Recycle.{Policy, fresh, note_insert, note_connection_reset}

-- What the writer does to the policy: an insert, or a reset of the connection for another reason.
pub data Event : Type 0 where
  insert reset : Event

-- The policy after the events, and how often `note_insert` returned true.
unfoldable pub play : Policy → List Event → Policy × ℕ
play p [] = (p, 0)
play p (insert ∷ es) =
    let (p', close) = note_insert p in let (q, n) = play p' es in (q, (if close then 1 else 0) + n)
play p (reset ∷ es) = play (note_connection_reset p) es

-- `n` inserts in a row
abbrev pub inserts : ℕ → List Event
inserts zero = []
inserts (suc n) = insert ∷ inserts n

-- The counter stays below a threshold that fits in 64 bits.
pub record IsBounded (p : Policy) : Type 0 where
  pub below : p.since_recycle < p.threshold
  pub fits : p.threshold < 2 ^ 64

-- One insert either counts up, or closes a full period.
note_insert-cases :
    (p : Policy)
    → IsBounded p
    → ((note_insert p ≡ (record p { since_recycle = p.since_recycle + 1 }, false))
        × (p.since_recycle + 1 < p.threshold))
      ⊎ ((note_insert p
            ≡ (record p { since_recycle = 0; recycles = (p.recycles + 1) % 2 ^ 64 }, true))
          × (p.since_recycle + 1 ≡ p.threshold))
unfolding note_insert
note_insert-cases p v = ground arith

abbrev pub Accounts : Policy → List Event → Type 0
Accounts p es =
    IsBounded (play p es).0
    × ((play p es).0.threshold ≡ p.threshold)
    × ((play p es).0.recycles % 2 ^ 64 ≡ (p.recycles + (play p es).1) % 2 ^ 64)

-- The accounts of any order of inserts and resets.
play-IsBounded : (p : Policy) (es : List Event) → IsBounded p → Accounts p es
unfolding play note_connection_reset
play-IsBounded p [] v = (v, refl, ground arith)
play-IsBounded p (insert ∷ es) v = elim (note_insert-cases p v) [
  | inl (e, lt) ↦
      let p' = record p { since_recycle = p.since_recycle + 1 } in
      let (b, t, r) = play-IsBounded p' es (record { below = lt; fits = v.fits }) in
      rw (e, play) (b, t, omega arith)
  | inr (e, full) ↦
      let p' = record p { since_recycle = 0; recycles = (p.recycles + 1) % 2 ^ 64 } in
      let (b, t, r) = play-IsBounded p' es (record { below = omega arith; fits = v.fits }) in
      rw (e, play) (b, t, omega arith)
]
play-IsBounded p (reset ∷ es) v =
    play-IsBounded (record p { since_recycle = 0 }) es
      (record { below = omega (arith, v.below); fits = v.fits })

-- The inserts that the present connection has taken after the events, if it had taken `n` before
-- them: a close or a reset is a new connection.
unfoldable pub taken : ℕ → Policy → List Event → ℕ
unfolding note_insert note_connection_reset
taken n p [] = n
taken n p (insert ∷ es) =
    let (p', close) = note_insert p in taken (if close then 0 else n + 1) p' es
taken n p (reset ∷ es) = taken 0 (note_connection_reset p) es

taken-since :
    (p : Policy) (es : List Event)
    → IsBounded p
    → taken p.since_recycle p es ≡ (play p es).0.since_recycle
unfolding taken play note_connection_reset
taken-since p [] v = refl
taken-since p (insert ∷ es) v = elim (note_insert-cases p v) [
  | inl (e, lt) ↦
      let p' = record p { since_recycle = p.since_recycle + 1 } in
      rw (e, taken, play) (taken-since p' es (record { below = lt; fits = v.fits }))
  | inr (e, full) ↦
      let p' = record p { since_recycle = 0; recycles = (p.recycles + 1) % 2 ^ 64 } in
      rw (e, taken, play) (taken-since p' es (record { below = omega arith; fits = v.fits }))
]
taken-since p (reset ∷ es) v =
    taken-since (record p { since_recycle = 0 }) es
      (record { below = omega (arith, v.below); fits = v.fits })

-- From a counter below a threshold that fits in 64 bits, which counts the inserts that the present
-- connection has taken, whatever the order of inserts and resets: the connection that is then in use
-- has taken fewer than `threshold` inserts, so that the next one is the `threshold`-th at most; the
-- counter is their number; the threshold stays; and `recycles` has grown, modulo 2^64, by the number
-- of times that `note_insert` returned true.
pub taken_bounded :
    (p : Policy) (es : List Event)
    → IsBounded p
    → (taken p.since_recycle p es < p.threshold)
      × ((play p es).0.since_recycle ≡ taken p.since_recycle p es)
      × ((play p es).0.threshold ≡ p.threshold)
      × ((play p es).0.recycles % 2 ^ 64 ≡ (p.recycles + (play p es).1) % 2 ^ 64)
taken_bounded p es v =
    let (b, same, total) = play-IsBounded p es v in
    let counted = taken-since p es v in
    (omega (arith, counted, b.below, same), sym counted, same, total)

-- From such a counter, `n` inserts in a row close the connection once for each full period: the
-- number of times that `note_insert` returned true, times the threshold, and the counter at the
-- end add up to the counter at the start and `n`.
pub play-inserts :
    (n : ℕ) (p : Policy)
    → IsBounded p
    → (play p (inserts n)).1 * p.threshold + (play p (inserts n)).0.since_recycle
      ≡ p.since_recycle + n
unfolding play
play-inserts zero p v = omega arith
play-inserts (suc n) p v = elim (note_insert-cases p v) [
  | inl (e, lt) ↦
      let p' = record p { since_recycle = p.since_recycle + 1 } in
      let rest = play-inserts n p' (record { below = lt; fits = v.fits }) in
      rw (e, play) (omega (arith, rest))
  | inr (e, full) ↦
      let p' = record p { since_recycle = 0; recycles = (p.recycles + 1) % 2 ^ 64 } in
      let rest = play-inserts n p' (record { below = omega arith; fits = v.fits }) in
      rw (e, play) (omega (arith, rest))
]

quotient_of : (n t q r : ℕ) → 0 < t → r < t → q * t + r ≡ n → (q ≡ n / t) × (r ≡ n % t)
quotient_of n t q r pos below sum = (sym is_quotient, omega (arith, rest, div-add-mod' n t))
  where
    is_quotient : n / t ≡ q
    is_quotient = div-eq_of_lt-le t (omega arith) (omega arith)

    rest : n / t * t ≡ q * t
    rest = ap (λ (x : ℕ). x * t) is_quotient

-- A fresh policy with a threshold `t` that is positive and fits in 64 bits recycles, in `n`
-- inserts, exactly `n / t` times, and `n % t` inserts are left on the counter.
pub play-fresh :
    (t n : ℕ)
    → 0 < t
    → t < 2 ^ 64
    → ((play (fresh t) (inserts n)).1 ≡ n / t)
      × ((play (fresh t) (inserts n)).0.since_recycle ≡ n % t)
unfolding fresh
play-fresh t n pos fits =
    let v : IsBounded (fresh t) = record { below = pos; fits = fits } in
    let sum = play-inserts n (fresh t) v in
    let (b, same, _) = play-IsBounded (fresh t) (inserts n) v in
    quotient_of n t _ _ pos (omega (arith, b.below)) (omega (arith, sum))

-- A threshold of 0 disables recycling: whatever the events, no insert asks for it, and the total
-- stays.
pub play_disabled :
    (p : Policy) (es : List Event)
    → p.threshold ≡ 0
    → ((play p es).1 ≡ 0) × ((play p es).0.recycles ≡ p.recycles)
unfolding play note_insert note_connection_reset
play_disabled p [] h = (refl, refl)
play_disabled p (insert ∷ es) h = ground (arith, play_disabled p es)
play_disabled p (reset ∷ es) h = play_disabled (record p { since_recycle = 0 }) es h
