-- ===== src/Execution/Persist/Unique.antt =====
-- No id stands twice in the map of an engine, whatever events it processes.
use atomic_mesh.Base.{
  ℕ, sym, subst, Option, none, some, String, List, [], ◌∷◌, All-imp, Bool-cases, inl, inr,
  string_eq,
}
use atomic_mesh.Base.HashMap.{get, contains_key, IsUnique, insert-IsUnique}
use atomic_mesh.Core.Types.{Qty}
use atomic_mesh.Core.Event.{
  Event, EventPayload, order_book_update, trade, ticker, order_new, order_ack, order_fill,
  order_partial_fill, order_cancel, order_reject, snapshot, heartbeat, node_join, node_leave,
  signal,
}
use atomic_mesh.Execution.Order.{LiveOrder, OrderState, ack, can_transition_to}
use atomic_mesh.Execution.Engine.{
  ExecutionEngine, Result, new_engine, put, register_order, ack_order, on_ack, fill_order, on_fill,
  end_order, on_cancel, on_reject, process_payload, process_event, process_all, target_state,
  then_true, then_true-engine, order_of,
}
use atomic_mesh.Execution.Engine.Invariant.{process_all-consistent}
use atomic_mesh.Execution.Persist.RoundTrip.{IsIndexed}

abbrev Unique : ExecutionEngine → Type 0
Unique e = IsUnique e.orders

put-IsUnique : (e : ExecutionEngine) (k : String) (o : LiveOrder) → Unique e → Unique (put e k o)
put-IsUnique e k o u = insert-IsUnique k o e.orders u

ack_order-IsUnique :
    (e : ExecutionEngine) (k x : String) (ts : ℕ) (o : Option LiveOrder)
    → Unique e
    → Unique (ack_order e k x ts o).0
unfolding ack_order
ack_order-IsUnique e k x ts none u = u
ack_order-IsUnique e k x ts (some o) u = elim (Bool-cases (can_transition_to o.state ack)) [
  | inl may ↦ rw may (put-IsUnique e k _ u)
  | inr not_now ↦ rw not_now u
]

fill_order-IsUnique :
    (e : ExecutionEngine) (k : String) (q : Qty) (ts : ℕ) (o : Option LiveOrder)
    → Unique e
    → Unique (fill_order e k q ts o).0
unfolding fill_order
fill_order-IsUnique e k q ts none u = u
fill_order-IsUnique e k q ts (some o) u =
    elim (Bool-cases (can_transition_to o.state (target_state o q))) [
      | inl may ↦ rw may (put-IsUnique e k _ u)
      | inr not_now ↦ rw not_now u
    ]

end_order-IsUnique :
    (e : ExecutionEngine) (k : String) (ts : ℕ) (t : OrderState) (o : Option LiveOrder)
    → Unique e
    → Unique (end_order e k ts t o).0
unfolding end_order
end_order-IsUnique e k ts t none u = u
end_order-IsUnique e k ts t (some o) u = elim (Bool-cases (can_transition_to o.state t)) [
  | inl may ↦ rw may (put-IsUnique e k _ u)
  | inr not_now ↦ rw not_now u
]

register_order-IsUnique :
    (e : ExecutionEngine) (o : LiveOrder) → Unique e → Unique (register_order e o).0
unfolding register_order
register_order-IsUnique e o u = elim (Bool-cases (contains_key o.order_id e.orders)) [
  | inl old ↦ rw old u
  | inr fresh ↦ rw fresh (put-IsUnique e o.order_id o u)
]

through {ℓ} : {A : Type ℓ} (r : ExecutionEngine × Result A) → Unique r.0 → Unique (then_true r).0
through r u = subst Unique (sym (then_true-engine r)) u

process_payload-IsUnique :
    (e : ExecutionEngine) (ts : ℕ) (p : EventPayload) → Unique e → Unique (process_payload e ts p).0
unfolding process_payload on_ack on_fill on_cancel on_reject
process_payload-IsUnique e ts (order_new o) u =
    through (register_order e (order_of o ts)) (register_order-IsUnique e (order_of o ts) u)
process_payload-IsUnique e ts (order_ack a) u =
    through _ (ack_order-IsUnique e a.order_id a.exchange_order_id ts (get a.order_id e.orders) u)
process_payload-IsUnique e ts (order_fill f) u =
    through _ (fill_order-IsUnique e f.order_id f.qty ts (get f.order_id e.orders) u)
process_payload-IsUnique e ts (order_partial_fill f) u =
    through _ (fill_order-IsUnique e f.order_id f.qty ts (get f.order_id e.orders) u)
process_payload-IsUnique e ts (order_cancel c) u =
    through _ (end_order-IsUnique e c.order_id ts _ (get c.order_id e.orders) u)
process_payload-IsUnique e ts (order_reject r) u =
    through _ (end_order-IsUnique e r.order_id ts _ (get r.order_id e.orders) u)
process_payload-IsUnique e ts (order_book_update _) u = u
process_payload-IsUnique e ts (trade _) u = u
process_payload-IsUnique e ts (ticker _) u = u
process_payload-IsUnique e ts (snapshot _) u = u
process_payload-IsUnique e ts (heartbeat _) u = u
process_payload-IsUnique e ts (node_join _) u = u
process_payload-IsUnique e ts (node_leave _) u = u
process_payload-IsUnique e ts (signal _) u = u

process_all-IsUnique :
    (xs : List Event) (e : ExecutionEngine) → Unique e → Unique (process_all e xs)
unfolding process_all process_event
process_all-IsUnique [] e u = u
process_all-IsUnique (x ∷ xs) e u =
    process_all-IsUnique xs (process_event e x).0
      (process_payload-IsUnique e x.timestamp x.payload u)

pub process_all-IsIndexed : (xs : List Event) → IsIndexed (process_all new_engine xs)
process_all-IsIndexed xs = record {
  keyed = All-imp (λ e k. k.keyed) _ (process_all-consistent xs).0;
  unique = process_all-IsUnique xs new_engine (unfold new_engine in tt);
}
