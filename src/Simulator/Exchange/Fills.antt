-- ===== src/Simulator/Exchange/Fills.antt =====
-- What the events of the simulated exchange do to an order of the execution engine.
use atomic_mesh.Base.{
  ℕ, ◌+◌, ◌-◌, ◌^◌, ◌≤◌, ◌<◌, ◌≡◌, refl, ◌∙◌, ap, ◌⊎◌, inl, inr, true, Option, some, String, List,
  [], ◌∷◌, All, arith, string_eq, beq_refl, ℤ,
}
use atomic_mesh.Base.HashMap.{get, get-insert}
use atomic_mesh.Core.Types.{Qty}
use atomic_mesh.Core.Node.{NodeId}
use atomic_mesh.Core.Event.{new_event, OrderNewEvent}
use atomic_mesh.Execution.Order.{
  OrderState, new, ack, partial_fill, filled, can_transition_to, LiveOrder,
}
use atomic_mesh.Execution.Engine.{
  ExecutionEngine, then_true-engine, ack_order, fill_order, on_fill, end_order, with_fill,
  target_state, put, process_payload, process_event, process_all,
}
use atomic_mesh.Simulator.Match.{MatchFill}
use atomic_mesh.Simulator.Match.Volume.{total_qty}
use atomic_mesh.Simulator.Exchange.{fill_event, fill_events}

-- An order at work, with something left, or one that is done.
abbrev pub IsWorking : LiveOrder → Type 0
IsWorking o = (o.filled_qty < o.original_qty) × ((o.state ≡ ack) ⊎ (o.state ≡ partial_fill))

abbrev pub Progress : LiveOrder → Type 0
Progress o = IsWorking o ⊎ ((o.filled_qty ≡ o.original_qty) × (o.state ≡ filled))

-- What stands under a key is an order with the quantities given.
pub record Holds (r : Option LiveOrder) (filled_qty original_qty : ℕ) : Type 0 where
  pub order : LiveOrder
  pub there : r ≡ some order
  pub filled_so_far : order.filled_qty ≡ filled_qty
  pub original : order.original_qty ≡ original_qty
  pub progress : Progress order

get-put : (e : ExecutionEngine) (id : String) (o : LiveOrder) → get id (put e id o).orders ≡ some o
get-put e id o = rw (get-insert id id o e.orders, beq_refl id) refl

target_state-allowed :
    (o : LiveOrder) (q : Qty) → IsWorking o → can_transition_to o.state (target_state o q) ≡ true
unfolding target_state can_transition_to
target_state-allowed o q w = ground arith

with_fill-Progress :
    (o : LiveOrder) (q : Qty) (ts : ℕ)
    → o.filled_qty + q ≤ o.original_qty
    → o.original_qty < 2 ^ 64
    → (with_fill o q ts).filled_qty ≡ o.filled_qty + q
      × (with_fill o q ts).original_qty ≡ o.original_qty
      × Progress (with_fill o q ts)
unfolding with_fill
with_fill-Progress o q ts h b = ground arith

module _ (e : ExecutionEngine) (id : String) (ts : ℕ) (o : LiveOrder) where
  get-fill_order :
      (q : Qty)
      → IsWorking o
      → get id (fill_order e id q ts (some o)).0.orders ≡ some (with_fill o q ts)
  unfolding fill_order
  get-fill_order q w = rw (target_state-allowed o q w) (get-put e id (with_fill o q ts))

  pub get-ack_order :
      (exchange_id : String)
      → o.state ≡ new
      → get id (ack_order e id exchange_id ts (some o)).0.orders
        ≡ some (record o { state = ack; exchange_order_id = some exchange_id; updated_at = ts })
  unfolding ack_order
  get-ack_order exchange_id n =
      let allowed : can_transition_to o.state ack ≡ true =
        unfold can_transition_to in ap (λ s. can_transition_to s ack) n in
      rw allowed (
        get-put e id
          (record o { state = ack; exchange_order_id = some exchange_id; updated_at = ts }))

  pub get-end_order :
      (target : OrderState)
      → can_transition_to o.state target ≡ true
      → get id (end_order e id ts target (some o)).0.orders
        ≡ some (record o { state = target; updated_at = ts })
  unfolding end_order
  get-end_order target t = rw t (get-put e id (record o { state = target; updated_at = ts }))

-- One fill event.
fill_step :
    (e : ExecutionEngine) (o : OrderNewEvent) (source : NodeId) (ts : ℕ) (bps : ℤ) (f : MatchFill)
    (rest : ℕ) (l : LiveOrder)
    → get o.order_id e.orders ≡ some l
    → IsWorking l
    → get o.order_id (process_event e (fill_event o source ts bps f rest)).0.orders
      ≡ some (with_fill l f.qty ts)
unfolding process_event process_payload fill_event new_event on_fill
fill_step e o source ts bps f rest l h w = rw then_true-engine (
    ap (λ r. get o.order_id (fill_order e o.order_id f.qty ts r).0.orders) h
    ∙ get-fill_order e o.order_id ts l f.qty w)

-- The events of a list of fills, none of them empty, that do not exceed what is left.
pub fill_events-Holds :
    (fs : List MatchFill) (e : ExecutionEngine) (o : OrderNewEvent) (source : NodeId) (ts : ℕ)
    (bps : ℤ) (rest : ℕ) (l : LiveOrder)
    → get o.order_id e.orders ≡ some l
    → Progress l
    → All (λ f. 0 < f.qty) fs
    → l.filled_qty + total_qty fs ≤ l.original_qty
    → l.original_qty < 2 ^ 64
    → Holds
        (get o.order_id (process_all e (fill_events o source ts bps rest fs)).orders)
        (l.filled_qty + total_qty fs)
        l.original_qty
unfolding process_all fill_events
fill_events-Holds [] e o source ts bps rest l h p a b c = record {
  order = l;
  there = h;
  filled_so_far = omega arith;
  original = refl;
  progress = p;
}
fill_events-Holds (f ∷ fs) e o source ts bps rest l h (inr d) a b c = ground arith
fill_events-Holds (f ∷ fs) e o source ts bps rest l h (inl w) a b c =
    let (filled_now, same, p) = with_fill-Progress l f.qty ts (omega arith) c in
    let later =
      fill_events-Holds fs (process_event e (fill_event o source ts bps f (rest - f.qty))).0 o
        source ts bps (rest - f.qty) (with_fill l f.qty ts)
        (fill_step e o source ts bps f (rest - f.qty) l h w) p a.1 (omega arith) (omega arith) in
    record {
      order = later.order;
      there = later.there;
      filled_so_far = omega arith;
      original = later.original ∙ same;
      progress = later.progress;
    }
