-- ===== src/Bus/Ring.antt =====
-- `SpscRing` of crates/atomic-bus/src/ring.rs, each call in one step. The slots are a list; an index
-- is always below the capacity, which is a power of two, where `& (capacity - 1)` is the remainder.
pub mod Refinement
pub mod Capacity
use atomic_mesh.Base.{
  ℕ, zero, suc, ◌+◌, ◌-◌, ◌*◌, ◌%◌, Bool, true, false, Option, none, some, List, [], ◌∷◌, get_elem?,
  leb, ◌==◌, nat_eq, if◌then◌else◌,
}

pub record SpscRing {ℓ} (T : Type ℓ) : Type ℓ where
  pub buffer : List (Option T)
  pub capacity : ℕ
  pub head : ℕ
  pub tail : ℕ

-- The first power of two from `p` on that is at least `n`, with `fuel` doublings at most; 64 reach
-- every `usize`.
unfoldable pub power_from : ℕ → ℕ → ℕ → ℕ
power_from zero p n = p
power_from (suc fuel) p n = let rest = power_from fuel (2 * p) n in if leb n p then p else rest

unfoldable pub next_power_of_two : ℕ → ℕ
next_power_of_two n = power_from 64 1 n

abbrev pub empty_slots {ℓ} : {T : Type ℓ} → ℕ → List (Option T)
empty_slots zero = []
empty_slots (suc n) = none ∷ empty_slots n

module _ {ℓ} {T : Type ℓ} where
  unfoldable pub new_ring : ℕ → SpscRing T
  new_ring capacity = record {
    buffer = empty_slots (next_power_of_two capacity);
    capacity = next_power_of_two capacity;
    head = 0;
    tail = 0;
  }

  abbrev pub set_slot : List (Option T) → ℕ → Option T → List (Option T)
  set_slot [] i v = []
  set_slot (x ∷ xs) zero v = v ∷ xs
  set_slot (x ∷ xs) (suc i) v = x ∷ set_slot xs i v

  -- The value comes back where the ring is full.
  unfoldable pub try_push : SpscRing T → T → SpscRing T × Option T
  try_push r value =
      let next_head = (r.head + 1) % r.capacity in
      if next_head == r.tail
      then (r, some value)
      else (record r { buffer = set_slot r.buffer r.head (some value); head = next_head }, none)

  -- `take` of a slot, which is read within the buffer.
  abbrev slot_value : Option (Option T) → Option T
  slot_value none = none
  slot_value (some v) = v

  unfoldable pub try_pop : SpscRing T → SpscRing T × Option T
  try_pop r = if r.tail == r.head then (r, none) else (
    record r { buffer = set_slot r.buffer r.tail none; tail = (r.tail + 1) % r.capacity },
    slot_value (get_elem? r.buffer r.tail),
  )

  unfoldable pub ring_len : SpscRing T → ℕ
  ring_len r = (r.head + r.capacity - r.tail) % r.capacity

  unfoldable pub ring_is_empty : SpscRing T → Bool
  unfolding ring_len
  ring_is_empty r = ring_len r == 0

  -- One slot stays free, to tell a full ring from an empty one.
  unfoldable pub ring_capacity : SpscRing T → ℕ
  ring_capacity r = r.capacity - 1
