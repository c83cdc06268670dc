-- ===== src/Recycle/Tests.antt =====
-- Runs of the recycle policy, and its theorems at concrete inputs.
use mysql_selective_trace_pl.Common.{◌+◌, ◌%◌, ◌^◌, ◌<◌, ◌≡◌, refl, true, List, [], ◌∷◌, arith}
use mysql_selective_trace_pl.Recycle.{Policy, fresh, note_insert, reconnect_every}
use mysql_selective_trace_pl.Recycle.Period.{
  Event, insert, reset, play, inserts, IsBounded, taken, taken_bounded, play-fresh,
}

abbrev full : Policy
full = record { since_recycle = 19999; recycles = 74; threshold = reconnect_every }

full_run : note_insert full ≡ (record full { since_recycle = 0; recycles = 75 }, true)
unfolding note_insert
full_run = refl

ninety_five : (play (fresh 10) (inserts 95)).1 ≡ 9
unfolding play note_insert fresh
ninety_five = refl

full-IsBounded : IsBounded full
full-IsBounded = record { below = omega arith; fits = omega arith }

abbrev mixed : List Event
mixed = insert ∷ insert ∷ reset ∷ insert ∷ []

taken_bounded_example :
    (taken full.since_recycle full mixed < full.threshold)
    × ((play full mixed).0.since_recycle ≡ taken full.since_recycle full mixed)
    × ((play full mixed).0.threshold ≡ full.threshold)
    × ((play full mixed).0.recycles % 2 ^ 64 ≡ (full.recycles + (play full mixed).1) % 2 ^ 64)
taken_bounded_example = taken_bounded full mixed full-IsBounded

play-fresh_example :
    ((play (fresh 7) (inserts 100)).1 ≡ 14) × ((play (fresh 7) (inserts 100)).0.since_recycle ≡ 2)
play-fresh_example = play-fresh 7 100 (omega arith) (omega arith)
