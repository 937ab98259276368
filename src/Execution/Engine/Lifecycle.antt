-- ===== src/Execution/Engine/Lifecycle.antt =====
-- How events move the orders of the engine along the state machine.
use atomic_mesh.Base.{
  ℕ, ◌≡◌, refl, sym, ◌∙◌, ap, inl, inr, true, false, Option, none, some, List, [], ◌∷◌, String,
  arith, ◌==◌, string_eq, Bool-cases,
}
use atomic_mesh.Base.HashMap.{get, get-insert, contains_key, get_of_contains_key}
use atomic_mesh.Core.Types.{Qty}
use atomic_mesh.Core.Event.{
  Event, EventPayload, order_new, order_ack, order_fill, order_partial_fill, order_cancel,
  order_reject,
}
use atomic_mesh.Execution.Order.{
  OrderState, new, ack, canceled, rejected, is_terminal, can_transition_to, LiveOrder,
}
use atomic_mesh.Execution.Engine.{
  ExecutionEngine, EngineError, Result, ok, err, register_order, ack_order, on_ack, fill_order,
  on_fill, with_fill, target_state, end_order, on_cancel, on_reject, order_of, process_payload,
  process_event, process_all, then_true, then_true-engine, put,
}

-- What may become of the order under one key.
pub data Change (before after : Option LiveOrder) : Type 0 where
  stays : after ≡ before → Change before after
  registered :
      (o : LiveOrder)
      → before ≡ none
      → after ≡ some o
      → o.state ≡ new
      → o.filled_qty ≡ 0
      → Change before after
  moved :
      (o o' : LiveOrder)
      → before ≡ some o
      → after ≡ some o'
      → can_transition_to o.state o'.state ≡ true
      → o'.order_id ≡ o.order_id
      → o'.original_qty ≡ o.original_qty
      → Change before after

module _ (e : ExecutionEngine) (id k : String) where
  put-Change :
      (o o' : LiveOrder)
      → get id e.orders ≡ some o
      → can_transition_to o.state o'.state ≡ true
      → o'.order_id ≡ o.order_id
      → o'.original_qty ≡ o.original_qty
      → Change (get k e.orders) (get k (put e id o').orders)
  put-Change o o' h t i q = elim (Bool-cases (id == k)) [
    | inl same ↦
        moved o o' (ap (λ j. get j e.orders) (sym ((string_eq.beq_decides id k).0 same)) ∙ h)
          (rw (get-insert id k o' e.orders, same)) t i q
    | inr other ↦ stays (rw (get-insert id k o' e.orders, other))
  ]

  ack_order-Change :
      (exchange_id : String) (ts : ℕ) (r : Option LiveOrder)
      → get id e.orders ≡ r
      → Change (get k e.orders) (get k (ack_order e id exchange_id ts r).0.orders)
  unfolding ack_order
  ack_order-Change exchange_id ts none h = stays refl
  ack_order-Change exchange_id ts (some o) h = elim (Bool-cases (can_transition_to o.state ack)) [
    | inl t ↦ rw t (put-Change o _ h t refl refl)
    | inr f ↦ rw f (stays refl)
  ]

  fill_order-Change :
      (fill_qty : Qty) (ts : ℕ) (r : Option LiveOrder)
      → get id e.orders ≡ r
      → Change (get k e.orders) (get k (fill_order e id fill_qty ts r).0.orders)
  unfolding fill_order
  fill_order-Change fill_qty ts none h = stays refl
  fill_order-Change fill_qty ts (some o) h =
      elim (Bool-cases (can_transition_to o.state (target_state o fill_qty))) [
        | inl t ↦ rw t (
            put-Change o (with_fill o fill_qty ts) h (unfold with_fill in t)
              (unfold with_fill in refl) (unfold with_fill in refl))
        | inr f ↦ rw f (stays refl)
      ]

  end_order-Change :
      (ts : ℕ) (target : OrderState) (r : Option LiveOrder)
      → get id e.orders ≡ r
      → Change (get k e.orders) (get k (end_order e id ts target r).0.orders)
  unfolding end_order
  end_order-Change ts target none h = stays refl
  end_order-Change ts target (some o) h = elim (Bool-cases (can_transition_to o.state target)) [
    | inl t ↦ rw t (put-Change o _ h t refl refl)
    | inr f ↦ rw f (stays refl)
  ]

register_order-Change :
    (e : ExecutionEngine) (o : LiveOrder) (k : String)
    → o.state ≡ new
    → o.filled_qty ≡ 0
    → Change (get k e.orders) (get k (register_order e o).0.orders)
unfolding register_order
register_order-Change e o k s f = elim (Bool-cases (contains_key o.order_id e.orders)) [
  | inl there ↦ rw there (stays refl)
  | inr free ↦ rw free (elim (Bool-cases (o.order_id == k)) [
    | inl same ↦
        registered o
          (ap (λ j. get j e.orders) (sym ((string_eq.beq_decides o.order_id k).0 same))
            ∙ get_of_contains_key o.order_id e.orders free)
          (rw (get-insert o.order_id k o e.orders, same)) s f
    | inr other ↦ stays (rw (get-insert o.order_id k o e.orders, other))
  ])
]

process_payload-Change :
    (e : ExecutionEngine) (ts : ℕ) (p : EventPayload) (k : String)
    → Change (get k e.orders) (get k (process_payload e ts p).0.orders)
unfolding process_payload on_ack on_fill on_cancel on_reject
process_payload-Change e ts (order_new n) k =
    rw then_true-engine (
      register_order-Change e (order_of n ts) k (unfold order_of in refl) (unfold order_of in refl))
process_payload-Change e ts (order_ack a) k =
    rw then_true-engine (ack_order-Change e a.order_id k a.exchange_order_id ts _ refl)
process_payload-Change e ts (order_fill f) k =
    rw then_true-engine (fill_order-Change e f.order_id k f.qty ts _ refl)
process_payload-Change e ts (order_partial_fill f) k =
    rw then_true-engine (fill_order-Change e f.order_id k f.qty ts _ refl)
process_payload-Change e ts (order_cancel c) k =
    rw then_true-engine (end_order-Change e c.order_id k ts canceled _ refl)
process_payload-Change e ts (order_reject r) k =
    rw then_true-engine (end_order-Change e r.order_id k ts rejected _ refl)
process_payload-Change e ts _ k = stays refl

-- An event leaves the order under a key as it is, or registers a new one, of which nothing is
-- filled, where there was none, or moves it along a transition that the state machine allows, with
-- its id and original quantity kept.
pub process_event-Change :
    (e : ExecutionEngine) (x : Event) (k : String)
    → Change (get k e.orders) (get k (process_event e x).0.orders)
unfolding process_event
process_event-Change e x k = process_payload-Change e x.timestamp x.payload k

terminal-stuck : (s t : OrderState) → is_terminal s ≡ true → can_transition_to s t ≡ false
unfolding is_terminal can_transition_to
terminal-stuck s t h = ground arith

Change-terminal :
    {before after : Option LiveOrder} (o : LiveOrder)
    → Change before after
    → before ≡ some o
    → is_terminal o.state ≡ true
    → after ≡ some o
Change-terminal o (stays e) b h = e ∙ b
Change-terminal o (registered o' n a s f) b h = cc
Change-terminal o (moved p q b' a t i r) b h = ground (arith, terminal-stuck p.state q.state)

-- An order that is filled, canceled or rejected never changes again, whatever events follow.
pub terminal_absorbs :
    (e : ExecutionEngine) (xs : List Event) (k : String) (o : LiveOrder)
    → get k e.orders ≡ some o
    → is_terminal o.state ≡ true
    → get k (process_all e xs).orders ≡ some o
unfolding process_all
terminal_absorbs e [] k o g h = g
terminal_absorbs e (x ∷ xs) k o g h =
    terminal_absorbs (process_event e x).0 xs k o
      (Change-terminal o (process_event-Change e x k) g h) h

-- A step that fails leaves the engine as it was.
abbrev Atomic {ℓ} : {A : Type ℓ} → ExecutionEngine → ExecutionEngine × Result A → Type ℓ
Atomic e r = (y : EngineError) → r.1 ≡ err y → r.0 ≡ e

then_true-Atomic {ℓ} :
    {A : Type ℓ} (e : ExecutionEngine) (r : ExecutionEngine × Result A)
    → Atomic e r
    → Atomic e (then_true r)
then_true-Atomic e (e', ok a) t y h = cc
then_true-Atomic e (e', err x) t y h = t x refl

module _ (e : ExecutionEngine) where
  register_order-Atomic : (o : LiveOrder) → Atomic e (register_order e o)
  unfolding register_order
  register_order-Atomic o y h = ground arith

  ack_order-Atomic :
      (id ex : String) (ts : ℕ) (r : Option LiveOrder) → Atomic e (ack_order e id ex ts r)
  unfolding ack_order
  ack_order-Atomic id ex ts none y h = refl
  ack_order-Atomic id ex ts (some o) y h = ground arith

  fill_order-Atomic :
      (id : String) (q : Qty) (ts : ℕ) (r : Option LiveOrder) → Atomic e (fill_order e id q ts r)
  unfolding fill_order
  fill_order-Atomic id q ts none y h = refl
  fill_order-Atomic id q ts (some o) y h = ground arith

  end_order-Atomic :
      (id : String) (ts : ℕ) (target : OrderState) (r : Option LiveOrder)
      → Atomic e (end_order e id ts target r)
  unfolding end_order
  end_order-Atomic id ts target none y h = refl
  end_order-Atomic id ts target (some o) y h = ground arith

process_payload-Atomic :
    (e : ExecutionEngine) (ts : ℕ) (p : EventPayload) → Atomic e (process_payload e ts p)
unfolding process_payload on_ack on_fill on_cancel on_reject
process_payload-Atomic e ts (order_new n) =
    then_true-Atomic e (register_order e (order_of n ts)) (register_order-Atomic e (order_of n ts))
process_payload-Atomic e ts (order_ack a) =
    then_true-Atomic e (ack_order e a.order_id a.exchange_order_id ts (get a.order_id e.orders))
      (ack_order-Atomic e a.order_id a.exchange_order_id ts _)
process_payload-Atomic e ts (order_fill f) =
    then_true-Atomic e (fill_order e f.order_id f.qty ts (get f.order_id e.orders))
      (fill_order-Atomic e f.order_id f.qty ts _)
process_payload-Atomic e ts (order_partial_fill f) =
    then_true-Atomic e (fill_order e f.order_id f.qty ts (get f.order_id e.orders))
      (fill_order-Atomic e f.order_id f.qty ts _)
process_payload-Atomic e ts (order_cancel c) =
    then_true-Atomic e (end_order e c.order_id ts canceled (get c.order_id e.orders))
      (end_order-Atomic e c.order_id ts canceled _)
process_payload-Atomic e ts (order_reject r) =
    then_true-Atomic e (end_order e r.order_id ts rejected (get r.order_id e.orders))
      (end_order-Atomic e r.order_id ts rejected _)
process_payload-Atomic e ts _ = λ y h. refl

-- An event that the engine refuses with an error leaves it exactly as it was.
pub process_event-atomic :
    (e : ExecutionEngine) (x : Event) (y : EngineError)
    → (process_event e x).1 ≡ err y
    → (process_event e x).0 ≡ e
unfolding process_event
process_event-atomic e x = process_payload-Atomic e x.timestamp x.payload
