-- ===== src/Plugin/Dispatch/Store.antt =====
-- The map of connection states: what a lookup gives behind each operation.
use mysql_selective_trace_pl.Common.{
  ℕ, ◌≡◌, refl, sym, ◌∙◌, ◌≢◌, inl, inr, none, some, [], ◌∷◌, arith, ◌==◌, if◌then◌else◌, ==_iff,
  if_split, Option-cases,
}
use mathlib.Core.Path.{subst}
use mysql_selective_trace_pl.Plugin.Statement.{StatementState, fresh_state}
use mysql_selective_trace_pl.Plugin.Dispatch.{StateMap, find, get_state, put_state, forget_state}

-- no key twice
abbrev pub IsMap : StateMap → Type 0
IsMap [] = Unit
IsMap ((key, st) ∷ more) = (find key more ≡ none) × IsMap more

pub find-put_other :
    (m : StateMap) (thd t : ℕ) (st : StatementState)
    → t ≢ thd
    → find t (put_state thd st m) ≡ find t m
unfolding find put_state
find-put_other [] thd t st h = refl
find-put_other ((key, old) ∷ more) thd t st h = ground (arith, find-put_other more thd t st h)

find-put_same :
    (m : StateMap) (thd : ℕ) (st old : StatementState)
    → find thd m ≡ some old
    → find thd (put_state thd st m) ≡ some st
unfolding find put_state
find-put_same [] thd st old e = cc
find-put_same ((key, first) ∷ more) thd st old e = ground (arith, find-put_same more thd st old, e)

put_state-IsMap :
    (m : StateMap) (thd : ℕ) (st : StatementState) → IsMap m → IsMap (put_state thd st m)
unfolding put_state
put_state-IsMap [] thd st h = tt
put_state-IsMap ((key, old) ∷ more) thd st h =
    if_split IsMap (key == thd) {x = (key, st) ∷ more} {y = (key, old) ∷ put_state thd st more}
      (λ e. h)
      (λ e. (find-put_other more thd key st (ground arith) ∙ h.0, put_state-IsMap more thd st h.1))

pub find-forget_other :
    (m : StateMap) (thd t : ℕ) → t ≢ thd → find t (forget_state thd m) ≡ find t m
unfolding find forget_state
find-forget_other [] thd t h = refl
find-forget_other ((key, old) ∷ more) thd t h = ground (arith, find-forget_other more thd t h)

pub find-forget_same : (m : StateMap) (thd : ℕ) → IsMap m → find thd (forget_state thd m) ≡ none
unfolding find forget_state
find-forget_same [] thd h = refl
find-forget_same ((key, old) ∷ more) thd h =
    if_split (λ (r : StateMap). find thd r ≡ none) (key == thd) {x = more}
      {y = (key, old) ∷ forget_state thd more}
      (λ e. subst (λ k. find k more ≡ none) ((==_iff key thd).0 e) h.0)
      (λ e. rw e (find-forget_same more thd h.1))

pub forget_state-IsMap : (m : StateMap) (thd : ℕ) → IsMap m → IsMap (forget_state thd m)
unfolding forget_state
forget_state-IsMap [] thd h = tt
forget_state-IsMap ((key, old) ∷ more) thd h =
    if_split IsMap (key == thd) {x = more} {y = (key, old) ∷ forget_state thd more} (λ e. h.1)
      (λ e. (find-forget_other more thd key (ground arith) ∙ h.0, forget_state-IsMap more thd h.1))

-- the state that `get_state` would return
abbrev pub state_of : StateMap → ℕ → StatementState
state_of m thd = (get_state thd m).0

-- what each handler does: it reads the state and writes through the pointer
abbrev pub updated : ℕ → StatementState → StateMap → StateMap
updated thd st m = put_state thd st (get_state thd m).1

get_state_cases :
    (P : StateMap → Type 0) (m : StateMap) (thd : ℕ)
    → (find thd m ≡ none → P ((thd, fresh_state) ∷ m))
    → ((st : StatementState) → find thd m ≡ some st → P m)
    → P (get_state thd m).1
unfolding get_state
get_state_cases P m thd new old = elim (Option-cases (find thd m)) [
  | inl e ↦ rw (get_state, e) (new e)
  | inr (st, e) ↦ rw (get_state, e) (old st e)
]

find_new : (m : StateMap) (thd : ℕ) → find thd ((thd, fresh_state) ∷ m) ≡ some fresh_state
unfolding find
find_new m thd = ground arith

find_new_other : (m : StateMap) (thd t : ℕ) → t ≢ thd → find t ((thd, fresh_state) ∷ m) ≡ find t m
unfolding find
find_new_other m thd t h = ground arith

pub find-updated_same :
    (m : StateMap) (thd : ℕ) (st : StatementState) → find thd (updated thd st m) ≡ some st
find-updated_same m thd st =
    get_state_cases (λ r. find thd (put_state thd st r) ≡ some st) m thd
      (λ e. find-put_same ((thd, fresh_state) ∷ m) thd st fresh_state (find_new m thd))
      (λ old e. find-put_same m thd st old e)

pub find-updated_other :
    (m : StateMap) (thd t : ℕ) (st : StatementState)
    → t ≢ thd
    → find t (updated thd st m) ≡ find t m
find-updated_other m thd t st h =
    get_state_cases (λ r. find t (put_state thd st r) ≡ find t m) m thd
      (λ e. find-put_other ((thd, fresh_state) ∷ m) thd t st h ∙ find_new_other m thd t h)
      (λ old e. find-put_other m thd t st h)

pub updated-IsMap :
    (m : StateMap) (thd : ℕ) (st : StatementState) → IsMap m → IsMap (updated thd st m)
updated-IsMap m thd st h =
    get_state_cases (λ r. IsMap (put_state thd st r)) m thd
      (λ e. put_state-IsMap ((thd, fresh_state) ∷ m) thd st (e, h))
      (λ old e. put_state-IsMap m thd st h)

-- `state_of` by what is found
pub state_of_found :
    (m : StateMap) (t : ℕ) (st : StatementState) → find t m ≡ some st → state_of m t ≡ st
unfolding get_state
state_of_found m t st e = rw (state_of, get_state, e)

pub state_of-none : (m : StateMap) (t : ℕ) → find t m ≡ none → state_of m t ≡ fresh_state
unfolding get_state
state_of-none m t e = rw (state_of, get_state, e)

pub state_of_same : (m n : StateMap) (t : ℕ) → find t m ≡ find t n → state_of m t ≡ state_of n t
state_of_same m n t e = elim (Option-cases (find t n)) [
  | inl f ↦ state_of-none m t (e ∙ f) ∙ sym (state_of-none n t f)
  | inr (st, f) ↦ state_of_found m t st (e ∙ f) ∙ sym (state_of_found n t st f)
]

-- the states as a function, with another one for a THD
abbrev pub set_at : ℕ → StatementState → (ℕ → StatementState) → ℕ → StatementState
set_at thd st states t = if t == thd then st else states t

pub updated_states :
    (m : StateMap) (thd : ℕ) (st : StatementState) (t : ℕ)
    → state_of (updated thd st m) t ≡ set_at thd st (state_of m) t
updated_states m thd st t =
    if_split (λ (r : StatementState). state_of (updated thd st m) t ≡ r) (t == thd) {x = st}
      {y = state_of m t}
      (λ e. state_of_found (updated thd st m) t st (
        subst (λ u. find u (updated thd st m) ≡ some st) (sym ((==_iff t thd).0 e))
          (find-updated_same m thd st)))
      (λ e. state_of_same (updated thd st m) m t (find-updated_other m thd t st (ground arith)))

pub forgotten_states :
    (m : StateMap) (thd t : ℕ)
    → IsMap m
    → state_of (forget_state thd m) t ≡ set_at thd fresh_state (state_of m) t
forgotten_states m thd t h =
    if_split (λ (r : StatementState). state_of (forget_state thd m) t ≡ r) (t == thd)
      {x = fresh_state} {y = state_of m t}
      (λ e. state_of-none (forget_state thd m) t (
        subst (λ u. find u (forget_state thd m) ≡ none) (sym ((==_iff t thd).0 e))
          (find-forget_same m thd h)))
      (λ e. state_of_same (forget_state thd m) m t (find-forget_other m thd t (ground arith)))
