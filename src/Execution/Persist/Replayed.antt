-- ===== src/Execution/Persist/Replayed.antt =====
-- Engines with the same orders stay so, whatever events they process.
use atomic_mesh.Base.{
  ℕ, ◌≡◌, sym, ◌∙◌, ap, subst, Bool, true, false, Option, none, some, String, List, [], ◌∷◌,
  Bool-cases, inl, inr, ◌==◌, string_eq, if◌then◌else◌,
}
use atomic_mesh.Base.HashMap.{get, contains_key, get-insert}
use atomic_mesh.Core.Types.{Qty}
use atomic_mesh.Core.Event.{
  Event, EventPayload, order_book_update, trade, ticker, order_new, order_ack, order_fill,
  order_partial_fill, order_cancel, order_reject, snapshot, heartbeat, node_join, node_leave,
  signal,
}
use atomic_mesh.Execution.Order.{LiveOrder, OrderState, ack, canceled, rejected, can_transition_to}
use atomic_mesh.Execution.Engine.{
  ExecutionEngine, put, register_order, ack_order, on_ack, fill_order, on_fill, end_order,
  on_cancel, on_reject, process_payload, process_event, process_all, target_state, Result,
  then_true, then_true-engine, order_of,
}
use atomic_mesh.Execution.Persist.RoundTrip.{SameOrders}

put-same :
    (d e : ExecutionEngine) (k : String) (o : LiveOrder)
    → SameOrders d e
    → SameOrders (put d k o) (put e k o)
put-same d e k o s = record {
  same_orders = λ j.
      get-insert k j o d.orders
      ∙ ap (λ r. if k == j then some o else r) (s.same_orders j)
      ∙ sym (get-insert k j o e.orders);
  same_counter = s.same_counter;
}

-- A choice between leaving both engines and changing both in the same way.
put_or_leave :
    (d e : ExecutionEngine) (k : String) (o : LiveOrder) (b : Bool)
    → SameOrders d e
    → SameOrders (if b then d else put d k o) (if b then e else put e k o)
put_or_leave d e k o true s = s
put_or_leave d e k o false s = put-same d e k o s

ack_order-same :
    (d e : ExecutionEngine) (k x : String) (ts : ℕ) (o : Option LiveOrder)
    → SameOrders d e
    → SameOrders (ack_order d k x ts o).0 (ack_order e k x ts o).0
unfolding ack_order
ack_order-same d e k x ts none s = s
ack_order-same d e k x ts (some o) s = elim (Bool-cases (can_transition_to o.state ack)) [
  | inl may ↦ rw may (put-same d e k _ s)
  | inr not_now ↦ rw not_now s
]

fill_order-same :
    (d e : ExecutionEngine) (k : String) (q : Qty) (ts : ℕ) (o : Option LiveOrder)
    → SameOrders d e
    → SameOrders (fill_order d k q ts o).0 (fill_order e k q ts o).0
unfolding fill_order
fill_order-same d e k q ts none s = s
fill_order-same d e k q ts (some o) s =
    elim (Bool-cases (can_transition_to o.state (target_state o q))) [
      | inl may ↦ rw may (put-same d e k _ s)
      | inr not_now ↦ rw not_now s
    ]

end_order-same :
    (d e : ExecutionEngine) (k : String) (ts : ℕ) (t : OrderState) (o : Option LiveOrder)
    → SameOrders d e
    → SameOrders (end_order d k ts t o).0 (end_order e k ts t o).0
unfolding end_order
end_order-same d e k ts t none s = s
end_order-same d e k ts t (some o) s = elim (Bool-cases (can_transition_to o.state t)) [
  | inl may ↦ rw may (put-same d e k _ s)
  | inr not_now ↦ rw not_now s
]

register_order-same :
    (d e : ExecutionEngine) (o : LiveOrder)
    → SameOrders d e
    → SameOrders (register_order d o).0 (register_order e o).0
unfolding register_order
register_order-same d e o s =
    let there : contains_key o.order_id d.orders ≡ contains_key o.order_id e.orders =
      ap (λ r. elim r [ none ↦ false | some _ ↦ true ]) (s.same_orders o.order_id) in
    elim (Bool-cases (contains_key o.order_id e.orders)) [
      | inl old ↦ rw (there, old) s
      | inr fresh ↦ rw (there, fresh) (put-same d e o.order_id o s)
    ]

-- Each handler looks its order up first.
looked_up :
    (d e : ExecutionEngine) (k : String) (f : ExecutionEngine → Option LiveOrder → ExecutionEngine)
    → SameOrders d e
    → ((o : Option LiveOrder) → SameOrders (f d o) (f e o))
    → SameOrders (f d (get k d.orders)) (f e (get k e.orders))
looked_up d e k f s same =
    subst (λ o. SameOrders (f d (get k d.orders)) (f e o)) (s.same_orders k) (same (get k d.orders))

through {ℓ} :
    {A : Type ℓ} (q r : ExecutionEngine × Result A)
    → SameOrders q.0 r.0
    → SameOrders (then_true q).0 (then_true r).0
through q r s =
    subst (λ x. SameOrders x (then_true r).0) (sym (then_true-engine q))
      (subst (SameOrders q.0) (sym (then_true-engine r)) s)

process_payload-same :
    (d e : ExecutionEngine) (ts : ℕ) (p : EventPayload)
    → SameOrders d e
    → SameOrders (process_payload d ts p).0 (process_payload e ts p).0
unfolding process_payload on_ack on_fill on_cancel on_reject
process_payload-same d e ts (order_new o) s =
    through _ _ (register_order-same d e (order_of o ts) s)
process_payload-same d e ts (order_ack a) s = through _ _ (
    looked_up d e a.order_id (λ x o. (ack_order x a.order_id a.exchange_order_id ts o).0) s
      (λ o. ack_order-same d e a.order_id a.exchange_order_id ts o s))
process_payload-same d e ts (order_fill f) s = through _ _ (
    looked_up d e f.order_id (λ x o. (fill_order x f.order_id f.qty ts o).0) s
      (λ o. fill_order-same d e f.order_id f.qty ts o s))
process_payload-same d e ts (order_partial_fill f) s = through _ _ (
    looked_up d e f.order_id (λ x o. (fill_order x f.order_id f.qty ts o).0) s
      (λ o. fill_order-same d e f.order_id f.qty ts o s))
process_payload-same d e ts (order_cancel c) s = through _ _ (
    looked_up d e c.order_id (λ x o. (end_order x c.order_id ts canceled o).0) s
      (λ o. end_order-same d e c.order_id ts canceled o s))
process_payload-same d e ts (order_reject r) s = through _ _ (
    looked_up d e r.order_id (λ x o. (end_order x r.order_id ts rejected o).0) s
      (λ o. end_order-same d e r.order_id ts rejected o s))
process_payload-same d e ts (order_book_update _) s = s
process_payload-same d e ts (trade _) s = s
process_payload-same d e ts (ticker _) s = s
process_payload-same d e ts (snapshot _) s = s
process_payload-same d e ts (heartbeat _) s = s
process_payload-same d e ts (node_join _) s = s
process_payload-same d e ts (node_leave _) s = s
process_payload-same d e ts (signal _) s = s

-- Two engines with the same orders and the same counter have the same orders and the same counter
-- after the same events.
pub process_all-same :
    (xs : List Event) (d e : ExecutionEngine)
    → SameOrders d e
    → SameOrders (process_all d xs) (process_all e xs)
unfolding process_all process_event
process_all-same [] d e s = s
process_all-same (x ∷ xs) d e s =
    process_all-same xs (process_event d x).0 (process_event e x).0
      (process_payload-same d e x.timestamp x.payload s)
