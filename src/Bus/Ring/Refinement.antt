-- ===== src/Bus/Ring/Refinement.antt =====
-- The ring is a bounded queue.
use native.Mathlib.Nat.{mod-eq_of_lt, mod_self, add-mod_right}
use atomic_mesh.Base.{
  ℕ, zero, suc, ◌+◌, ◌-◌, ◌%◌, ◌≤◌, ◌<◌, ◌≡◌, refl, sym, ◌∙◌, ap, ◌⊎◌, inl, inr, true, false,
  Option, none, some, List, [], ◌∷◌, ◌++◌, length, get_elem?, arith, ◌==◌, nat_eq, if◌then◌else◌,
  Bool-cases, beq_refl, subst, ap₂,
}
use atomic_mesh.Bus.Ring.Capacity.{next_power_of_two-positive}
use atomic_mesh.Bus.Ring.{
  SpscRing, next_power_of_two, new_ring, empty_slots, set_slot, try_push, try_pop, ring_len,
  ring_capacity, slot_value,
}

-- The index behind another one.
abbrev pub next_index : ℕ → ℕ → ℕ
next_index cap i = if i + 1 == cap then 0 else i + 1

mod-next_index : (cap i : ℕ) → i < cap → (i + 1) % cap ≡ next_index cap i
mod-next_index cap i h = elim (Bool-cases (i + 1 == cap)) [
  | inl last ↦ rw last (ap (λ n. n % cap) ((nat_eq.beq_decides (i + 1) cap).0 last) ∙ mod_self cap)
  | inr inner ↦ rw inner (mod-eq_of_lt (ground arith))
]

length-empty_slots {ℓ} : (T : Type ℓ) (n : ℕ) → length (empty_slots {T = T} n) ≡ n
length-empty_slots T zero = refl
length-empty_slots T (suc n) = ap suc (length-empty_slots T n)

module _ {ℓ} {T : Type ℓ} where
  get_elem?-set_slot :
      (xs : List (Option T)) (i j : ℕ) (v : Option T)
      → i < length xs
      → get_elem? (set_slot xs i v) j ≡ (if i == j then some v else get_elem? xs j)
  get_elem?-set_slot [] i j v h = absurd (omega (arith, h))
  get_elem?-set_slot (x ∷ xs) zero zero v h = ground arith
  get_elem?-set_slot (x ∷ xs) zero (suc j) v h = ground arith
  get_elem?-set_slot (x ∷ xs) (suc i) zero v h = ground arith
  get_elem?-set_slot (x ∷ xs) (suc i) (suc j) v h =
      ground (arith, get_elem?-set_slot xs i j v (omega arith))

  length-set_slot :
      (xs : List (Option T)) (i : ℕ) (v : Option T) → length (set_slot xs i v) ≡ length xs
  length-set_slot [] i v = refl
  length-set_slot (x ∷ xs) zero v = refl
  length-set_slot (x ∷ xs) (suc i) v = ap suc (length-set_slot xs i v)

  -- The slots from an index on hold a queue.
  abbrev pub Slots : List (Option T) → ℕ → ℕ → List T → Type ℓ
  Slots buffer cap i [] = Unit
  Slots buffer cap i (x ∷ xs) =
      (get_elem? buffer i ≡ some (some x)) × Slots buffer cap (next_index cap i) xs

  -- The ring holds a queue: its slots between the tail and the head.
  pub record IsQueue (r : SpscRing T) (q : List T) : Type ℓ where
    pub slots_in_place : length r.buffer ≡ r.capacity
    pub head_in_range : r.head < r.capacity
    pub tail_in_range : r.tail < r.capacity
    pub room : length q < r.capacity
    pub span : (r.tail + length q ≡ r.head) ⊎ (r.tail + length q ≡ r.head + r.capacity)
    pub held : Slots r.buffer r.capacity r.tail q

  -- A slot outside the queue may change.
  Slots-set_slot :
      (q : List T) (buffer : List (Option T)) (cap i k : ℕ) (v : Option T)
      → length buffer ≡ cap
      → k < cap
      → i < cap
      → ((k < i) × (i + length q ≤ cap + k)) ⊎ (i + length q ≤ k)
      → Slots buffer cap i q
      → Slots (set_slot buffer k v) cap i q
  Slots-set_slot [] buffer cap i k v n b c d s = tt
  Slots-set_slot (x ∷ q) buffer cap i k v n b c d s =
      let elsewhere : (k == i) ≡ false = ground arith in
      (
        get_elem?-set_slot buffer k i v (omega arith) ∙ rw elsewhere s.0,
        Slots-set_slot q buffer cap (next_index cap i) k v n b (ground arith) (ground arith) s.1,
      )

  Slots-append :
      (q : List T) (buffer : List (Option T)) (cap i h : ℕ) (x : T)
      → i < cap
      → h < cap
      → (i + length q ≡ h) ⊎ (i + length q ≡ h + cap)
      → length q < cap
      → get_elem? buffer h ≡ some (some x)
      → Slots buffer cap i q
      → Slots buffer cap i (q ++ x ∷ [])
  Slots-append [] buffer cap i h x c d e f g s =
      let here : h ≡ i = omega arith in (ap (get_elem? buffer) (sym here) ∙ g, tt)
  Slots-append (y ∷ q) buffer cap i h x c d e f g s = (
    s.0,
    Slots-append q buffer cap (next_index cap i) h x (ground arith) d (ground arith) (ground arith)
        g s.1,
  )

-- What a producer and a consumer may ask for.
pub data RingOp {ℓ} (T : Type ℓ) : Type ℓ where
  push : T → RingOp T
  pop : RingOp T

module _ {ℓ} {T : Type ℓ} where
  abbrev pub ring_op : SpscRing T → RingOp T → SpscRing T × Option T
  ring_op r (push x) = try_push r x
  ring_op r pop = try_pop r

  -- The same of a queue with a bound.
  abbrev pub queue_op : ℕ → List T → RingOp T → List T × Option T
  queue_op bound q (push x) = if length q == bound then (q, some x) else (q ++ x ∷ [], none)
  queue_op bound [] pop = ([], none)
  queue_op bound (x ∷ q) pop = (q, some x)

  length-snoc : (q : List T) (x : T) → length (q ++ x ∷ []) ≡ length q + 1
  length-snoc [] x = omega arith
  length-snoc (y ∷ q) x = omega (arith, length-snoc q x)

  abbrev Step : SpscRing T → List T → SpscRing T × Option T → List T × Option T → Type ℓ
  Step r q (r', v) (q', w) = (v ≡ w) × IsQueue r' q' × (r'.capacity ≡ r.capacity)

  pushed-IsQueue :
      (r : SpscRing T) (q : List T) (x : T)
      → IsQueue r q
      → (next_index r.capacity r.head == r.tail) ≡ false
      → IsQueue
          (record r {
            buffer = set_slot r.buffer r.head (some x);
            head = next_index r.capacity r.head;
          })
          (q ++ x ∷ [])
  pushed-IsQueue r q x i free =
      let put : get_elem? (set_slot r.buffer r.head (some x)) r.head ≡ some (some x) =
        get_elem?-set_slot r.buffer r.head r.head (some x)
          (omega (arith, i.slots_in_place, i.head_in_range))
        ∙ rw (beq_refl r.head) refl in
      record {
        slots_in_place = length-set_slot r.buffer r.head (some x) ∙ i.slots_in_place;
        head_in_range = ground (arith, i.head_in_range);
        tail_in_range = i.tail_in_range;
        room = ground (arith, length-snoc q x, i.span, i.room, i.head_in_range, i.tail_in_range);
        span = ground (arith, length-snoc q x, i.span, i.room, i.head_in_range, i.tail_in_range);
        held =
            Slots-append q (set_slot r.buffer r.head (some x)) r.capacity r.tail r.head x
              i.tail_in_range i.head_in_range i.span i.room put
              (Slots-set_slot q r.buffer r.capacity r.tail r.head (some x) i.slots_in_place
                i.head_in_range i.tail_in_range
                (ground (arith, i.span, i.room, i.head_in_range, i.tail_in_range)) i.held);
      }

  popped-IsQueue :
      (r : SpscRing T) (q : List T) (x : T)
      → IsQueue r (x ∷ q)
      → IsQueue
          (record r { buffer = set_slot r.buffer r.tail none; tail = next_index r.capacity r.tail })
          q
  popped-IsQueue r q x i = record {
    slots_in_place = length-set_slot r.buffer r.tail none ∙ i.slots_in_place;
    head_in_range = i.head_in_range;
    tail_in_range = ground (arith, i.tail_in_range);
    room = omega (arith, i.room);
    span = ground (arith, i.span, i.room, i.head_in_range, i.tail_in_range);
    held =
        Slots-set_slot q r.buffer r.capacity (next_index r.capacity r.tail) r.tail none
          i.slots_in_place i.tail_in_range (ground (arith, i.tail_in_range))
          (ground (arith, i.span, i.room, i.head_in_range, i.tail_in_range)) (i.held.1);
  }

  try_push-Step :
      (r : SpscRing T) (q : List T) (x : T)
      → IsQueue r q
      → Step r q (try_push r x) (queue_op (ring_capacity r) q (push x))
  unfolding try_push ring_capacity
  try_push-Step r q x i =
      let at_next = mod-next_index r.capacity r.head i.head_in_range in
      elim (Bool-cases (next_index r.capacity r.head == r.tail)) [
        | inl full ↦
            let no_room : (length q == r.capacity - 1) ≡ true =
              ground (arith, i.span, i.room, i.head_in_range, i.tail_in_range) in
            rw (at_next, full, no_room) (refl, i, refl)
        | inr free ↦
            let some_room : (length q == r.capacity - 1) ≡ false =
              ground (arith, i.span, i.room, i.head_in_range, i.tail_in_range) in
            rw (at_next, free, some_room) (refl, pushed-IsQueue r q x i free, refl)
      ]

  try_pop-Step :
      (r : SpscRing T) (q : List T)
      → IsQueue r q
      → Step r q (try_pop r) (queue_op (ring_capacity r) q pop)
  unfolding try_pop
  try_pop-Step r [] i =
      let empty : (r.tail == r.head) ≡ true =
        ground (arith, i.span, i.head_in_range, i.tail_in_range) in
      rw empty (refl, i, refl)
  try_pop-Step r (x ∷ q) i =
      let filled : (r.tail == r.head) ≡ false =
        ground (arith, i.span, i.room, i.head_in_range, i.tail_in_range) in
      rw (filled, mod-next_index r.capacity r.tail i.tail_in_range)
        (ap slot_value i.held.0, popped-IsQueue r q x i, refl)

  ring_op-Step :
      (r : SpscRing T) (q : List T) (op : RingOp T)
      → IsQueue r q
      → Step r q (ring_op r op) (queue_op (ring_capacity r) q op)
  ring_op-Step r q (push x) i = try_push-Step r q x i
  ring_op-Step r q pop i = try_pop-Step r q i

  -- The answers to a list of calls, and the state behind them.
  abbrev pub run_ring : SpscRing T → List (RingOp T) → SpscRing T × List (Option T)
  run_ring r [] = (r, [])
  run_ring r (op ∷ ops) =
      let (r', v) = ring_op r op in let (r'', vs) = run_ring r' ops in (r'', v ∷ vs)

  abbrev pub run_queue : ℕ → List T → List (RingOp T) → List T × List (Option T)
  run_queue bound q [] = (q, [])
  run_queue bound q (op ∷ ops) =
      let (q', v) = queue_op bound q op in let (q'', vs) = run_queue bound q' ops in (q'', v ∷ vs)

  run_ring-run_queue :
      (r : SpscRing T) (q : List T) (ops : List (RingOp T)) (bound : ℕ)
      → ring_capacity r ≡ bound
      → IsQueue r q
      → ((run_ring r ops).1 ≡ (run_queue bound q ops).1)
        × IsQueue (run_ring r ops).0 (run_queue bound q ops).0
  unfolding ring_capacity
  run_ring-run_queue r q [] bound b i = (refl, i)
  run_ring-run_queue r q (op ∷ ops) bound b i =
      let (same, i', c) =
        subst (λ n. Step r q (ring_op r op) (queue_op n q op)) b (ring_op-Step r q op i) in
      let (sames, i'') =
        run_ring-run_queue (ring_op r op).0 (queue_op bound q op).0 ops bound
          (ap (λ n. n - 1) c ∙ b) i' in
      (ap₂ (λ v vs. v ∷ vs) same sames, i'')

  ring_len-length : (r : SpscRing T) (q : List T) → IsQueue r q → ring_len r ≡ length q
  unfolding ring_len
  ring_len-length r q i = elim i.span [
    | inl ahead ↦
        let distance : r.head + r.capacity - r.tail ≡ length q + r.capacity =
          omega (arith, ahead, i.tail_in_range) in
        ap (λ n. n % r.capacity) distance
        ∙ add-mod_right (length q) r.capacity
        ∙ mod-eq_of_lt i.room
    | inr behind ↦
        let distance : r.head + r.capacity - r.tail ≡ length q =
          omega (arith, behind, i.tail_in_range) in
        ap (λ n. n % r.capacity) distance ∙ mod-eq_of_lt i.room
  ]

new_ring-IsQueue {ℓ} :
    (T : Type ℓ) (n : ℕ) → 0 < next_power_of_two n → IsQueue (new_ring {T = T} n) []
unfolding new_ring
new_ring-IsQueue T n h = record {
  slots_in_place = length-empty_slots T (next_power_of_two n);
  head_in_range = h;
  tail_in_range = h;
  room = h;
  span = inl (omega arith);
  held = tt;
}

-- A ring is a bounded queue: whatever calls of `try_push` and `try_pop` a new ring gets, it gives
-- the answers of an empty queue whose bound is the ring's capacity less one, and `len` is then the
-- length of that queue.
pub ring_refines_queue {ℓ} :
    {T : Type ℓ} (capacity : ℕ) (ops : List (RingOp T))
    → ((run_ring (new_ring capacity) ops).1 ≡ (run_queue (next_power_of_two capacity - 1) [] ops).1)
      × (ring_len (run_ring (new_ring capacity) ops).0
          ≡ length (run_queue (next_power_of_two capacity - 1) [] ops).0)
ring_refines_queue {T = T} capacity ops =
    let (same, i) =
      run_ring-run_queue (new_ring capacity) [] ops (next_power_of_two capacity - 1)
        (unfold ring_capacity new_ring in refl)
        (new_ring-IsQueue T capacity (next_power_of_two-positive capacity)) in
    (same, ring_len-length _ _ i)
