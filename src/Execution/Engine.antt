-- ===== src/Execution/Engine.antt =====
-- `ExecutionEngine` of crates/atomic-execution/src/state_machine.rs. A method that changes the
-- engine returns the new one with its result, and leaves the old one where it returns an error. The
-- text of an error message is the error's kind with the values that are put into it.
pub mod Invariant
pub mod Lifecycle
pub mod Cleanup
use atomic_mesh.Base.{
  ℕ, ◌+◌, ◌-◌, ◌≡◌, refl, Bool, true, false, not, ◌&&◌, Option, none, some, String, List, [], ◌∷◌,
  map, filter, length, ltb, leb, ◌==◌, string_eq, if◌then◌else◌,
}
use atomic_mesh.Base.Word.{u64}
use atomic_mesh.Base.HashMap.{HashMap, get, insert, contains_key, values, retain}
use atomic_mesh.Core.Types.{OrderId, Venue, Qty, Price, new_order_id}
use atomic_mesh.Core.Event.{
  Event, EventPayload, OrderNewEvent, order_new, order_ack, order_fill, order_partial_fill,
  order_cancel, order_reject,
}
use atomic_mesh.Execution.Order.{
  OrderState, ack, partial_fill, filled, canceled, rejected, is_terminal, can_transition_to, is_new,
  LiveOrder, new_order,
}

pub record ExecutionEngine : Type 0 where
  pub orders : HashMap String LiveOrder
  pub next_local_id : ℕ

pub data EngineError : Type 0 where
  order_exists : OrderId → EngineError
  order_not_found : EngineError
  invalid_transition : OrderState → OrderState → EngineError

pub data Result {ℓ} (A : Type ℓ) : Type ℓ where
  ok : A → Result A
  err : EngineError → Result A

unfoldable pub new_engine : ExecutionEngine
new_engine = record { orders = []; next_local_id = 1 }

unfoldable pub next_order_id : ExecutionEngine → Venue → ExecutionEngine × OrderId
next_order_id e venue =
    (record e { next_local_id = u64 (e.next_local_id + 1) }, new_order_id venue e.next_local_id)

unfoldable pub register_order : ExecutionEngine → LiveOrder → ExecutionEngine × Result (Unit {0})
register_order e order =
    if contains_key order.order_id e.orders
    then (e, err (order_exists order.order_id))
    else (record e { orders = insert order.order_id order e.orders }, ok tt)

-- The order under a key, changed through the reference of `get_mut`.
abbrev pub put : ExecutionEngine → String → LiveOrder → ExecutionEngine
put e order_id order = record e { orders = insert order_id order e.orders }

unfoldable pub ack_order :
    ExecutionEngine → String → String → ℕ → Option LiveOrder → ExecutionEngine × Result (Unit {0})
ack_order e order_id exchange_id ts none = (e, err order_not_found)
ack_order e order_id exchange_id ts (some order) =
    if not (can_transition_to order.state ack)
    then (e, err (invalid_transition order.state ack))
    else (
      put e order_id
          (record order { state = ack; exchange_order_id = some exchange_id; updated_at = ts }),
      ok tt,
    )

unfoldable pub on_ack : ExecutionEngine → String → String → ℕ → ExecutionEngine × Result (Unit {0})
unfolding ack_order
on_ack e order_id exchange_id ts = ack_order e order_id exchange_id ts (get order_id e.orders)

-- The sum of a `u64` wraps around; `saturating_sub` stops at 0, as `-` does.
unfoldable pub new_filled : LiveOrder → Qty → ℕ
new_filled order fill_qty = u64 (order.filled_qty + fill_qty)

unfoldable pub is_complete : LiveOrder → Qty → Bool
unfolding new_filled
is_complete order fill_qty = leb order.original_qty (new_filled order fill_qty)

unfoldable pub target_state : LiveOrder → Qty → OrderState
unfolding is_complete
target_state order fill_qty = if is_complete order fill_qty then filled else partial_fill

unfoldable pub with_fill : LiveOrder → Qty → ℕ → LiveOrder
unfolding target_state
with_fill order fill_qty ts = record order {
  filled_qty = new_filled order fill_qty;
  remaining_qty = order.original_qty - new_filled order fill_qty;
  state = target_state order fill_qty;
  updated_at = ts;
}

unfoldable pub fill_order :
    ExecutionEngine → String → Qty → ℕ → Option LiveOrder → ExecutionEngine × Result Bool
fill_order e order_id fill_qty ts none = (e, err order_not_found)
fill_order e order_id fill_qty ts (some order) =
    if not (can_transition_to order.state (target_state order fill_qty))
    then (e, err (invalid_transition order.state (target_state order fill_qty)))
    else (put e order_id (with_fill order fill_qty ts), ok (is_complete order fill_qty))

unfoldable pub on_fill : ExecutionEngine → String → Qty → Price → ℕ → ExecutionEngine × Result Bool
unfolding fill_order
on_fill e order_id fill_qty fill_price ts =
    fill_order e order_id fill_qty ts (get order_id e.orders)

-- `on_cancel` and `on_reject` differ in the state that they set.
unfoldable pub end_order :
    ExecutionEngine
    → String
    → ℕ
    → OrderState
    → Option LiveOrder
    → ExecutionEngine × Result (Unit {0})
end_order e order_id ts target none = (e, err order_not_found)
end_order e order_id ts target (some order) =
    if not (can_transition_to order.state target)
    then (e, err (invalid_transition order.state target))
    else (put e order_id (record order { state = target; updated_at = ts }), ok tt)

unfoldable pub on_cancel : ExecutionEngine → String → ℕ → ExecutionEngine × Result (Unit {0})
unfolding end_order
on_cancel e order_id ts = end_order e order_id ts canceled (get order_id e.orders)

unfoldable pub on_reject : ExecutionEngine → String → ℕ → ExecutionEngine × Result (Unit {0})
unfolding end_order
on_reject e order_id ts = end_order e order_id ts rejected (get order_id e.orders)

unfoldable pub get_order : ExecutionEngine → String → Option LiveOrder
get_order e order_id = get order_id e.orders

unfoldable pub open_orders : ExecutionEngine → List LiveOrder
open_orders e = filter (λ o. not (is_terminal o.state)) (values e.orders)

unfoldable pub open_order_ids : ExecutionEngine → List OrderId
open_order_ids e = map (λ o. o.order_id) (filter (λ o. not (is_terminal o.state)) (values e.orders))

unfoldable pub is_stale : ℕ → ℕ → LiveOrder → Bool
is_stale now_ns timeout_ns o =
    not (is_terminal o.state) && (not (is_new o.state) && ltb timeout_ns (now_ns - o.updated_at))

unfoldable pub stale_order_ids : ExecutionEngine → ℕ → ℕ → List OrderId
stale_order_ids e now_ns timeout_ns =
    map (λ o. o.order_id) (filter (is_stale now_ns timeout_ns) (values e.orders))

unfoldable pub gc_terminal : ExecutionEngine → ExecutionEngine × ℕ
gc_terminal e =
    let kept = retain (λ o. not (is_terminal o.state)) e.orders in
    (record e { orders = kept }, length e.orders - length kept)

-- `?` and the `Ok(true)` behind it.
abbrev pub then_true {ℓ} : {A : Type ℓ} → ExecutionEngine × Result A → ExecutionEngine × Result Bool
then_true (e, ok a) = (e, ok true)
then_true (e, err x) = (e, err x)

pub then_true-engine {ℓ} : {A : Type ℓ} (r : ExecutionEngine × Result A) → (then_true r).0 ≡ r.0
then_true-engine (e, ok a) = refl
then_true-engine (e, err x) = refl

unfoldable pub order_of : OrderNewEvent → ℕ → LiveOrder
unfolding new_order
order_of o ts =
    new_order o.order_id o.symbol o.side o.order_type o.price o.qty o.time_in_force o.venue ts

unfoldable pub process_payload : ExecutionEngine → ℕ → EventPayload → ExecutionEngine × Result Bool
process_payload e ts (order_new o) = then_true (register_order e (order_of o ts))
process_payload e ts (order_ack a) = then_true (on_ack e a.order_id a.exchange_order_id ts)
process_payload e ts (order_fill f) = then_true (on_fill e f.order_id f.qty f.price ts)
process_payload e ts (order_partial_fill f) = then_true (on_fill e f.order_id f.qty f.price ts)
process_payload e ts (order_cancel c) = then_true (on_cancel e c.order_id ts)
process_payload e ts (order_reject r) = then_true (on_reject e r.order_id ts)
process_payload e ts _ = (e, ok false)

unfoldable pub process_event : ExecutionEngine → Event → ExecutionEngine × Result Bool
unfolding process_payload
process_event e event = process_payload e event.timestamp event.payload

-- `let _ = exec.process_event(event)` for each event of a list.
unfoldable pub process_all : ExecutionEngine → List Event → ExecutionEngine
process_all e [] = e
process_all e (x ∷ xs) = process_all (process_event e x).0 xs
