-- ===== src/Core/Tests.antt =====
-- Runs of the clock, and the theorems about it at concrete values.
use atomic_mesh.Base.{◌<◌, ◌≡◌, refl, [], ◌∷◌, arith}
use atomic_mesh.Core.Metrics.{avg_ns, new_histogram, record_sample}
use atomic_mesh.Core.Metrics.Buckets.{recorded}
use atomic_mesh.Core.Clock.{LamportClock, witness}
use atomic_mesh.Core.Clock.Order.{witness_advances}

abbrev at_seven : LamportClock
at_seven = record { counter = 7 }

witness_run : (witness (9 ∷ []) at_seven 12).1 ≡ 13
unfolding witness
witness_run = refl

witness_advances_example :
    (12 < (witness (9 ∷ []) at_seven 12).1)
    × (7 < (witness (9 ∷ []) at_seven 12).1)
    × ((witness (9 ∷ []) at_seven 12).0.counter ≡ (witness (9 ∷ []) at_seven 12).1)
witness_advances_example = witness_advances (9 ∷ []) at_seven 12 (omega arith) (omega arith)

average_of_two : avg_ns (recorded (100 ∷ 50 ∷ [])) ≡ 75
unfolding avg_ns new_histogram record_sample
average_of_two = refl
