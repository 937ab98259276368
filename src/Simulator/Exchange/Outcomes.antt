-- ===== src/Simulator/Exchange/Outcomes.antt =====
-- What the execution engine makes of the last events of an order.
use atomic_mesh.Base.{
  ℕ, ◌+◌, ◌<◌, ◌≡◌, ◌≢◌, refl, ◌∙◌, ap, ◌⊎◌, inl, inr, Bool, true, false, ◌&&◌, String, Option,
  none, some, List, [], ◌∷◌, ◌++◌, All, All-imp, arith, ltb, if◌then◌else◌, string_eq, Bool-cases,
  ltb→lt,
}
use atomic_mesh.Base.Word.{u64}
use mathlib.Core.List.{append-nil}
use atomic_mesh.Base.HashMap.{HashMap, get}
use atomic_mesh.Base.HashMap
use atomic_mesh.Core.Types.{
  OrderType, is_limit, TimeInForce, good_til_cancel, immediate_or_cancel, fill_or_kill,
  good_til_date,
}
use atomic_mesh.Core.Node.{NodeId}
use atomic_mesh.Core.Event.{new_event, Event, OrderNewEvent}
use atomic_mesh.Execution.Order.{ack, partial_fill, filled, canceled, can_transition_to, LiveOrder}
use atomic_mesh.Execution.Engine.{
  ExecutionEngine, then_true-engine, end_order, on_cancel, process_payload, process_event,
  process_all,
}
use atomic_mesh.Simulator.Match.{SimBook}
use atomic_mesh.Simulator.Match.Volume.{total_qty, match_order_sound}
use atomic_mesh.Simulator.Exchange.{
  SimOrder, sim_order, SimulatedExchange, facing, limit_price, match_book, cancel_event,
  settle_rest,
}
use atomic_mesh.Simulator.Exchange.Resting.{number_events}
use atomic_mesh.Simulator.Exchange.Fills.{IsWorking, Holds, get-end_order}

pub process_all-append :
    (xs ys : List Event) (e : ExecutionEngine)
    → process_all e (xs ++ ys) ≡ process_all (process_all e xs) ys
unfolding process_all
process_all-append [] ys e = refl
process_all-append (x ∷ xs) ys e = process_all-append xs ys (process_event e x).0

-- The engine does not read the numbers of the events.
pub process_all-number_events :
    (xs : List Event) (seq : ℕ) (e : ExecutionEngine)
    → process_all e (number_events seq xs) ≡ process_all e xs
unfolding process_all number_events process_event
process_all-number_events [] seq e = refl
process_all-number_events (x ∷ xs) seq e =
    process_all-number_events xs (u64 (seq + 1)) (process_event e x).0

-- The exchange may keep a rest of the order: a plain limit order that is good till canceled or good
-- till a date.
abbrev pub is_kept : OrderType → TimeInForce → Bool
is_kept order_type immediate_or_cancel = false
is_kept order_type fill_or_kill = false
is_kept order_type tif = is_limit order_type

-- A resting order of the exchange that stands for the rest of an order.
pub record IsRestOf (o : OrderNewEvent) (rest : ℕ) (s : SimOrder) : Type 0 where
  pub same_id : s.order_id ≡ o.order_id
  pub same_symbol : s.symbol ≡ o.symbol
  pub same_side : s.side ≡ o.side
  pub same_price : s.price ≡ o.price
  pub rest_is : s.remaining ≡ rest

-- What the engine holds of an order that was accepted, where the match left `rest` of it, and the
-- resting orders of the exchange before and after.
pub data Outcome (o : OrderNewEvent) (rest : ℕ) (resting resting' : HashMap String SimOrder)
    (l : LiveOrder) : Type 0 where
  completed :
      rest ≡ 0
      → l.state ≡ filled
      → l.filled_qty ≡ o.qty
      → resting' ≡ resting
      → Outcome o rest resting resting' l
  expired :
      0 < rest
      → o.time_in_force ≡ immediate_or_cancel
      → l.state ≡ canceled
      → l.filled_qty + rest ≡ o.qty
      → resting' ≡ resting
      → Outcome o rest resting resting' l
  open_and_resting :
      0 < rest
      → is_kept o.order_type o.time_in_force ≡ true
      → (l.state ≡ ack) ⊎ (l.state ≡ partial_fill)
      → l.filled_qty + rest ≡ o.qty
      → (s : SimOrder) → IsRestOf o rest s
      → resting' ≡ HashMap.insert o.order_id s resting
      → Outcome o rest resting resting' l
  open_and_dropped :
      0 < rest
      → o.time_in_force ≢ immediate_or_cancel
      → is_kept o.order_type o.time_in_force ≡ false
      → (l.state ≡ ack) ⊎ (l.state ≡ partial_fill)
      → l.filled_qty + rest ≡ o.qty
      → resting' ≡ resting
      → Outcome o rest resting resting' l

-- The event for the rest of an order, if there is one.
abbrev pub rest_events : OrderNewEvent → NodeId → ℕ → TimeInForce → ℕ → List Event
rest_events o source ts immediate_or_cancel rest =
    if ltb 0 rest then cancel_event o source ts "ioc_expired" ∷ [] else []
rest_events o source ts _ rest = []

module _ (o : OrderNewEvent) (source : NodeId) (ts fill_ts : ℕ) where
  pub settle_rest-pending_events :
      (x : SimulatedExchange) (tif : TimeInForce) (rest : ℕ)
      → (if ltb 0 rest then settle_rest x o ts fill_ts source tif rest else x).pending_events
        ≡ x.pending_events ++ rest_events o source fill_ts tif rest
  unfolding settle_rest
  settle_rest-pending_events x good_til_cancel rest = ground (arith, append-nil x.pending_events)
  settle_rest-pending_events x immediate_or_cancel rest =
      ground (arith, append-nil x.pending_events)
  settle_rest-pending_events x fill_or_kill rest = ground (arith, append-nil x.pending_events)
  settle_rest-pending_events x (good_til_date d) rest = ground (arith, append-nil x.pending_events)

  -- The resting orders once the match has left `rest`.
  abbrev pub rested : TimeInForce → ℕ → HashMap String SimOrder → HashMap String SimOrder
  rested tif rest resting =
      if is_kept o.order_type tif && ltb 0 rest
      then HashMap.insert o.order_id (sim_order o rest ts source) resting
      else resting

  pub settle_rest-resting_orders :
      (x : SimulatedExchange) (tif : TimeInForce) (rest : ℕ)
      → (if ltb 0 rest then settle_rest x o ts fill_ts source tif rest else x).resting_orders
        ≡ rested tif rest x.resting_orders
  unfolding settle_rest
  settle_rest-resting_orders x good_til_cancel rest = ground arith
  settle_rest-resting_orders x immediate_or_cancel rest = ground arith
  settle_rest-resting_orders x fill_or_kill rest = ground arith
  settle_rest-resting_orders x (good_til_date d) rest = ground arith

  rested_not :
      (tif : TimeInForce) (rest : ℕ) (resting : HashMap String SimOrder)
      → (rest ≡ 0) ⊎ (is_kept o.order_type tif ≡ false)
      → rested tif rest resting ≡ resting
  rested_not tif rest resting n = ground arith

  sim_order-IsRestOf : (rest : ℕ) → IsRestOf o rest (sim_order o rest ts source)
  unfolding sim_order
  sim_order-IsRestOf rest = record {
    same_id = refl;
    same_symbol = refl;
    same_side = refl;
    same_price = refl;
    rest_is = refl;
  }

  cancel_step :
      (e : ExecutionEngine) (l : LiveOrder)
      → get o.order_id e.orders ≡ some l
      → IsWorking l
      → get o.order_id (process_event e (cancel_event o source fill_ts "ioc_expired")).0.orders
        ≡ some (record l { state = canceled; updated_at = fill_ts })
  unfolding process_event process_payload cancel_event new_event on_cancel
  cancel_step e l h w =
      let allowed : can_transition_to l.state canceled ≡ true =
        unfold can_transition_to in ground arith in
      rw then_true-engine (
        ap (λ r. get o.order_id (end_order e o.order_id fill_ts canceled r).0.orders) h
        ∙ get-end_order e o.order_id fill_ts l canceled allowed)

  module _ (resting resting' : HashMap String SimOrder) (rest : ℕ)
      (store : resting' ≡ rested o.time_in_force rest resting) where
    open-Outcome :
        {r : Option LiveOrder} (filled_qty : ℕ) (h : Holds r filled_qty o.qty)
        → (rest ≡ 0) ⊎ (o.time_in_force ≢ immediate_or_cancel)
        → filled_qty + rest ≡ o.qty
        → Outcome o rest resting resting' h.order
    open-Outcome filled_qty h n q = elim h.progress [
      | inr d ↦
          let nought : rest ≡ 0 = omega (arith, d.0, h.filled_so_far, h.original) in
          completed nought d.1 (omega (arith, d.0, h.filled_so_far, h.original))
            (store ∙ rested_not o.time_in_force rest resting (inl nought))
      | inl w ↦ elim n [
        | inl z ↦ absurd (omega (arith, w.0, h.filled_so_far, h.original))
        | inr other ↦
            let positive : 0 < rest = omega (arith, w.0, h.filled_so_far, h.original) in
            let total : h.order.filled_qty + rest ≡ o.qty = omega (arith, h.filled_so_far) in
            elim (Bool-cases (is_kept o.order_type o.time_in_force)) [
              | inl kept ↦
                  open_and_resting positive kept w.1 total (sim_order o rest ts source)
                    (sim_order-IsRestOf rest) (store ∙ ground (arith, kept, positive))
              | inr lost ↦
                  open_and_dropped positive other lost w.1 total
                    (store ∙ rested_not o.time_in_force rest resting (inr lost))
            ]
      ]
    ]

    cancel-Outcome :
        (e : ExecutionEngine) (filled_qty : ℕ)
        → Holds (get o.order_id e.orders) filled_qty o.qty
        → 0 < rest
        → o.time_in_force ≡ immediate_or_cancel
        → filled_qty + rest ≡ o.qty
        → (l : LiveOrder) × (get o.order_id
              (process_event e (cancel_event o source fill_ts "ioc_expired")).0.orders
            ≡ some l)
          × Outcome o rest resting resting' l
    cancel-Outcome e filled_qty h z t q = elim h.progress [
      | inr d ↦ absurd (omega (arith, d.0, h.filled_so_far, h.original))
      | inl w ↦ (
        record h.order { state = canceled; updated_at = fill_ts },
        cancel_step e h.order h.there w,
        expired z t refl (omega (arith, h.filled_so_far))
            (store ∙ rested_not o.time_in_force rest resting (inr (ap (is_kept o.order_type) t))),
      )
    ]

    pub rest_events-Outcome :
        (e : ExecutionEngine) (tif : TimeInForce) (filled_qty : ℕ)
        → Holds (get o.order_id e.orders) filled_qty o.qty
        → o.time_in_force ≡ tif
        → filled_qty + rest ≡ o.qty
        → (l : LiveOrder) × (get o.order_id
              (process_all e (rest_events o source fill_ts tif rest)).orders
            ≡ some l)
          × Outcome o rest resting resting' l
    unfolding process_all
    rest_events-Outcome e immediate_or_cancel filled_qty h t q = elim (Bool-cases (ltb 0 rest)) [
      | inl some_left ↦ rw some_left (cancel-Outcome e filled_qty h (ltb→lt 0 rest some_left) t q)
      | inr none_left ↦
          rw none_left (h.order, h.there, open-Outcome filled_qty h (inl (ground arith)) q)
    ]
    rest_events-Outcome e good_til_cancel filled_qty h t q =
        (h.order, h.there, open-Outcome filled_qty h (inr (λ s. cc)) q)
    rest_events-Outcome e fill_or_kill filled_qty h t q =
        (h.order, h.there, open-Outcome filled_qty h (inr (λ s. cc)) q)
    rest_events-Outcome e (good_til_date d) filled_qty h t q =
        (h.order, h.there, open-Outcome filled_qty h (inr (λ s. cc)) q)

pub match_book-total :
    (b : Option SimBook) (o : OrderNewEvent)
    → let m = match_book b o in
      (total_qty m.fills + m.remaining ≡ o.qty) × All (λ f. 0 < f.qty) m.fills
unfolding match_book
match_book-total none o = (omega arith, tt)
match_book-total (some b) o =
    let (total, ok) = match_order_sound (facing b o.side) o.side o.qty (limit_price o) in
    (total, All-imp (λ f p. p.0) _ ok)
