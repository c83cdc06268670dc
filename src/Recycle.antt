-- ===== src/Recycle.antt =====
-- src/writer_recycle_policy.h: `WriterRecyclePolicy`. Counters are unsigned of 64 bits.
pub mod Period
pub mod Tests
use mysql_selective_trace_pl.Common.{
  ℕ, zero, suc, ◌+◌, ◌-◌, ◌*◌, ◌/◌, ◌%◌, ◌^◌, ◌≤◌, ◌<◌, bit_and, bit_or, ◌≡◌, refl, sym, ap, ◌∙◌,
  ◌≢◌, ◌↔◌, ◌⊎◌, inl, inr, Bool, true, false, not, ◌&&◌, ◌||◌, Option, none, some, List, [], ◌∷◌,
  ◌++◌, map, append-nil, append_assoc, map-append, arith, ltb, leb, ◌==◌, if◌then◌else◌, ==_iff,
  ltb→lt, leb→le, Bool-cases, if_cases, Option-cases, ◌>>=◌, is_some, >>=-eq-some, is_some-eq-true,
  length, take, drop, length-append, All, All-append, All-append_inv, All-change, All-mono, Any,
  Any-append, Any-change, Any-concat, Distinct, Distinct-concat, get_or, append_each,
  append_each-append, append_each-cons, append_each-All, Bytes, prepend, codes, equal, equal_iff,
  contains, cut_at, split_on, split_on-ne-nil, cut_at_sound, cut_at-none, contains-All, add_front,
  split_on_sep, split_on_other, iff_trans, iff_sym, or_assoc, or_map_left, or_map_right,
  or_absurd_left, or_absurd_right, iff_refl, and_map_right,
}

pub record Policy : Type 0 where
  pub since_recycle : ℕ
  pub recycles : ℕ
  pub threshold : ℕ

-- `SELECTIVE_TRACE_RECONNECT_EVERY`, the default threshold
abbrev pub reconnect_every : ℕ
reconnect_every = 20000

unfoldable pub fresh : ℕ → Policy
fresh threshold = record { since_recycle = 0; recycles = 0; threshold = threshold }

-- `note_insert`: the policy afterwards, and whether the connection is to be closed now.
unfoldable pub note_insert : Policy → Policy × Bool
note_insert p =
    let since = (p.since_recycle + 1) % 2 ^ 64 in
    if p.threshold == 0
    then (p, false)
    else if ltb since p.threshold
    then (record p { since_recycle = since }, false)
    else (record p { since_recycle = 0; recycles = (p.recycles + 1) % 2 ^ 64 }, true)

unfoldable pub note_connection_reset : Policy → Policy
note_connection_reset p = record p { since_recycle = 0 }
