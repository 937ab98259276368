-- ===== src/Core/Clock/Order.antt =====
-- The order that the Lamport clock gives to events.
use atomic_mesh.Base.{ℕ, ◌+◌, ◌^◌, ◌≤◌, ◌<◌, ◌≡◌, List, [], ◌∷◌, arith}
use atomic_mesh.Core.Clock.{LamportClock, tick, witness}

-- A tick returns the new counter, which is above the old one unless that was the last `u64`.
pub tick_advances :
    (c : LamportClock)
    → c.counter + 1 < 2 ^ 64
    → (c.counter < (tick c).1) × ((tick c).0.counter ≡ (tick c).1)
unfolding tick
tick_advances c h = ground arith

-- The counter never falls while `witness` is at work, and no value met is the last `u64`.
abbrev pub Rises : ℕ → List ℕ → Type 0
Rises n [] = n + 1 < 2 ^ 64
Rises n (s ∷ rest) = (n ≤ s) × (n + 1 < 2 ^ 64) × Rises s rest

-- However often other threads step in, the time that `witness` returns is above the remote time and
-- above the counter at the call, and is what the counter is left at; this holds if no other thread
-- lowers the counter, and neither it nor the remote time is the last `u64`.
pub witness_advances :
    (seen : List ℕ) (c : LamportClock) (remote_ts : ℕ)
    → remote_ts + 1 < 2 ^ 64
    → Rises c.counter seen
    → (remote_ts < (witness seen c remote_ts).1)
      × (c.counter < (witness seen c remote_ts).1)
      × ((witness seen c remote_ts).0.counter ≡ (witness seen c remote_ts).1)
unfolding witness
witness_advances [] c remote_ts hr hs = ground arith
witness_advances (s ∷ rest) c remote_ts hr hs =
    ground (arith, witness_advances rest (record { counter = s }) remote_ts hr hs.2)
