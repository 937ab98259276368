-- ===== src/Core/Clock.antt =====
-- crates/atomic-core/src/clock.rs. An atomic counter is its number, and each operation returns the
-- new one with its result.
pub mod Order
use atomic_mesh.Base.{ℕ, ◌+◌, List, [], ◌∷◌, ◌==◌, nat_eq, if◌then◌else◌, max}
use atomic_mesh.Base.Word.{u64}

pub record LamportClock : Type 0 where
  pub counter : ℕ

unfoldable pub new_clock : LamportClock
new_clock = record { counter = 0 }

unfoldable pub clock_from : ℕ → LamportClock
clock_from initial = record { counter = initial }

-- `fetch_add(1)`, plus 1.
unfoldable pub tick : LamportClock → LamportClock × ℕ
tick c = let next = u64 (c.counter + 1) in (record { counter = next }, next)

-- The loop of `witness`. The list holds, for each attempt at the exchange that may fail, what the
-- other threads have made of the counter between the load and the exchange; behind its end the
-- exchange meets the value that was loaded.
unfoldable pub witness : List ℕ → LamportClock → ℕ → LamportClock × ℕ
witness [] c remote_ts =
    let next = u64 (max c.counter remote_ts + 1) in (record { counter = next }, next)
witness (seen ∷ rest) c remote_ts =
    let next = u64 (max c.counter remote_ts + 1) in
    let again = witness rest (record { counter = seen }) remote_ts in
    if seen == c.counter then (record { counter = next }, next) else again

unfoldable pub now : LamportClock → ℕ
now c = c.counter

unfoldable pub reset : LamportClock → LamportClock
reset c = record { counter = 0 }

pub record SequenceGenerator : Type 0 where
  pub next : ℕ

unfoldable pub new_generator : SequenceGenerator
new_generator = record { next = 1 }

unfoldable pub generator_from : ℕ → SequenceGenerator
generator_from start = record { next = start }

unfoldable pub next_seq : SequenceGenerator → SequenceGenerator × ℕ
next_seq g = (record { next = u64 (g.next + 1) }, g.next)

unfoldable pub peek : SequenceGenerator → ℕ
peek g = g.next
