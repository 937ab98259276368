-- ===== src/Replay/Player.antt =====
-- `ReplayPlayer` of crates/atomic-replay/src/player.rs, once its events are loaded; the log that it
-- keeps is never read again. The factor of a speed, an `f64`, is the number of its bit pattern.
pub mod Batches
pub mod Seek
use atomic_mesh.Base.{
  ℕ, zero, suc, ◌+◌, ◌-◌, min, Bool, true, false, Option, none, some, List, [], ◌∷◌, length,
  get_elem?, take, drop, leb, if◌then◌else◌,
}
use atomic_mesh.Base.Word.{u64}
use atomic_mesh.Core.Event.{Event}

pub data ReplaySpeed : Type 0 where
  maximum real_time : ReplaySpeed
  multiplier : ℕ → ReplaySpeed

pub record ReplayPlayer : Type 0 where
  pub current_index : ℕ
  pub events : List Event
  pub speed : ReplaySpeed

unfoldable pub from_events : List Event → ReplayPlayer
from_events events = record { current_index = 0; events = events; speed = maximum }

unfoldable pub set_speed : ReplayPlayer → ReplaySpeed → ReplayPlayer
set_speed p speed = record p { speed = speed }

unfoldable pub peek_event : ReplayPlayer → Option Event
peek_event p = get_elem? p.events p.current_index

abbrev advance : ReplayPlayer → Option Event → ReplayPlayer × Option Event
advance p none = (p, none)
advance p (some event) = (record p { current_index = p.current_index + 1 }, some event)

unfoldable pub next_event : ReplayPlayer → ReplayPlayer × Option Event
next_event p = advance p (get_elem? p.events p.current_index)

-- `position` with its default, the number of the events.
unfoldable pub position_from : ℕ → List Event → ℕ
position_from seq [] = 0
position_from seq (e ∷ es) =
    let rest = position_from seq es in if leb seq e.seq then 0 else suc rest

unfoldable pub seek_to_seq : ReplayPlayer → ℕ → ReplayPlayer
unfolding position_from
seek_to_seq p seq = record p { current_index = position_from seq p.events }

unfoldable pub reset_player : ReplayPlayer → ReplayPlayer
reset_player p = record p { current_index = 0 }

unfoldable pub next_batch : ReplayPlayer → ℕ → ReplayPlayer × List Event
next_batch p n =
    let end = min (u64 (p.current_index + n)) (length p.events) in
    (record p { current_index = end }, take (end - p.current_index) (drop p.current_index p.events))

unfoldable pub total_events : ReplayPlayer → ℕ
total_events p = length p.events

unfoldable pub is_done : ReplayPlayer → Bool
is_done p = leb (length p.events) p.current_index
