-- ===== src/Execution/Engine/Invariant.antt =====
-- The invariant of the orders that the engine keeps.
use atomic_mesh.Base.{
  ℕ, ◌-◌, ◌≤◌, ◌<◌, ◌≡◌, refl, ◌⊎◌, inl, inr, true, Option, none, some, List, [], ◌∷◌, String, All,
  arith, string_eq, Bool-cases,
}
use atomic_mesh.Base.HashMap.{get, All-insert, All-get, All-retain, contains_key}
use atomic_mesh.Core.Types.{Qty}
use atomic_mesh.Core.Event.{
  Event, EventPayload, OrderNewEvent, order_new, order_ack, order_fill, order_partial_fill,
  order_cancel, order_reject,
}
use atomic_mesh.Execution.Order.{
  OrderState, new, ack, partial_fill, filled, canceled, rejected, can_transition_to, LiveOrder,
}
use atomic_mesh.Execution.Engine.{
  ExecutionEngine, new_engine, register_order, ack_order, on_ack, fill_order, on_fill, end_order,
  order_of, target_state, with_fill, then_true-engine, on_cancel, on_reject, gc_terminal,
  process_payload, process_event, process_all,
}

-- The quantities of an order fit together and fit its state.
pub record IsConsistent (o : LiveOrder) : Type 0 where
  pub remaining : o.remaining_qty ≡ o.original_qty - o.filled_qty
  pub unfilled : (o.state ≡ new) ⊎ ((o.state ≡ ack) ⊎ (o.state ≡ rejected)) → o.filled_qty ≡ 0
  pub partly : o.state ≡ partial_fill → o.filled_qty < o.original_qty
  pub complete : o.state ≡ filled → o.original_qty ≤ o.filled_qty

-- Each order is consistent and stands under its own id.
pub record IsKept (e : String × LiveOrder) : Type 0 where
  pub keyed : e.1.order_id ≡ e.0
  pub consistent : IsConsistent e.1

abbrev pub Inv : ExecutionEngine → Type 0
Inv e = All IsKept e.orders

ack-IsConsistent :
    (o : LiveOrder) (id : Option String) (ts : ℕ)
    → can_transition_to o.state ack ≡ true
    → IsConsistent o
    → IsConsistent (record o { state = ack; exchange_order_id = id; updated_at = ts })
unfolding can_transition_to
ack-IsConsistent o id ts t c = ground arith

end-IsConsistent :
    (o : LiveOrder) (target : OrderState) (ts : ℕ)
    → (target ≡ canceled) ⊎ (target ≡ rejected)
    → can_transition_to o.state target ≡ true
    → IsConsistent o
    → IsConsistent (record o { state = target; updated_at = ts })
unfolding can_transition_to
end-IsConsistent o target ts which t c = ground arith

with_fill-IsConsistent :
    (o : LiveOrder) (fill_qty : Qty) (ts : ℕ) → IsConsistent (with_fill o fill_qty ts)
unfolding with_fill
with_fill-IsConsistent o fill_qty ts = ground arith

module _ (e : ExecutionEngine) (id : String) (v : Inv e) where
  kept : {o : LiveOrder} → get id e.orders ≡ some o → IsKept (id, o)
  kept {o} h = All-get IsKept id e.orders o v h

  ack_order-Inv :
      (exchange_id : String) (ts : ℕ) (r : Option LiveOrder)
      → get id e.orders ≡ r
      → Inv (ack_order e id exchange_id ts r).0
  unfolding ack_order
  ack_order-Inv exchange_id ts none h = v
  ack_order-Inv exchange_id ts (some o) h = elim (Bool-cases (can_transition_to o.state ack)) [
    | inl t ↦ rw t (
        All-insert IsKept id _ e.orders
          (record {
            keyed = (kept h).keyed;
            consistent = ack-IsConsistent o (some exchange_id) ts t (kept h).consistent;
          })
          v)
    | inr f ↦ rw f v
  ]

  fill_order-Inv :
      (fill_qty : Qty) (ts : ℕ) (r : Option LiveOrder)
      → get id e.orders ≡ r
      → Inv (fill_order e id fill_qty ts r).0
  unfolding fill_order
  fill_order-Inv fill_qty ts none h = v
  fill_order-Inv fill_qty ts (some o) h =
      elim (Bool-cases (can_transition_to o.state (target_state o fill_qty))) [
        | inl t ↦ rw t (
            All-insert IsKept id _ e.orders
              (record {
                keyed = unfold with_fill in (kept h).keyed;
                consistent = with_fill-IsConsistent o fill_qty ts;
              })
              v)
        | inr f ↦ rw f v
      ]

  end_order-Inv :
      (ts : ℕ) (target : OrderState) (r : Option LiveOrder)
      → (target ≡ canceled) ⊎ (target ≡ rejected)
      → get id e.orders ≡ r
      → Inv (end_order e id ts target r).0
  unfolding end_order
  end_order-Inv ts target none which h = v
  end_order-Inv ts target (some o) which h = elim (Bool-cases (can_transition_to o.state target)) [
    | inl t ↦ rw t (
        All-insert IsKept id _ e.orders
          (record {
            keyed = (kept h).keyed;
            consistent = end-IsConsistent o target ts which t (kept h).consistent;
          })
          v)
    | inr f ↦ rw f v
  ]

register_order-Inv :
    (e : ExecutionEngine) (o : LiveOrder) → Inv e → IsConsistent o → Inv (register_order e o).0
unfolding register_order
register_order-Inv e o v c = elim (Bool-cases (contains_key o.order_id e.orders)) [
  | inl t ↦ rw t v
  | inr f ↦
      rw f (All-insert IsKept o.order_id o e.orders (record { keyed = refl; consistent = c }) v)
]

new_order-IsConsistent : (n : OrderNewEvent) (ts : ℕ) → IsConsistent (order_of n ts)
unfolding order_of
new_order-IsConsistent n ts = ground arith

process_payload-Inv :
    (e : ExecutionEngine) (ts : ℕ) (p : EventPayload) → Inv e → Inv (process_payload e ts p).0
unfolding process_payload on_ack on_fill on_cancel on_reject
process_payload-Inv e ts (order_new n) v =
    rw then_true-engine (register_order-Inv e _ v (new_order-IsConsistent n ts))
process_payload-Inv e ts (order_ack a) v =
    rw then_true-engine (ack_order-Inv e a.order_id v a.exchange_order_id ts _ refl)
process_payload-Inv e ts (order_fill f) v =
    rw then_true-engine (fill_order-Inv e f.order_id v f.qty ts _ refl)
process_payload-Inv e ts (order_partial_fill f) v =
    rw then_true-engine (fill_order-Inv e f.order_id v f.qty ts _ refl)
process_payload-Inv e ts (order_cancel c) v =
    rw then_true-engine (end_order-Inv e c.order_id v ts canceled _ (inl refl) refl)
process_payload-Inv e ts (order_reject r) v =
    rw then_true-engine (end_order-Inv e r.order_id v ts rejected _ (inr refl) refl)
process_payload-Inv e ts _ v = v

pub process_all-Inv : (e : ExecutionEngine) (xs : List Event) → Inv e → Inv (process_all e xs)
unfolding process_all process_event
process_all-Inv e [] v = v
process_all-Inv e (x ∷ xs) v =
    process_all-Inv (process_event e x).0 xs (process_payload-Inv e x.timestamp x.payload v)

-- Whatever events an engine is given from the start on, each order that it keeps stands under its
-- own id, its remaining quantity is the original one less the filled one (0 where more was filled),
-- nothing is filled of a new, acknowledged or rejected order, less than all of a partly filled one,
-- and all of a filled one. The same holds after a cleanup of the terminal orders.
pub process_all-consistent :
    (xs : List Event)
    → Inv (process_all new_engine xs) × Inv (gc_terminal (process_all new_engine xs)).0
unfolding new_engine gc_terminal
process_all-consistent xs =
    let v = process_all-Inv new_engine xs tt in
    (v, All-retain IsKept _ (process_all new_engine xs).orders v)
