-- ===== src/Execution/Order.antt =====
-- `OrderState` and `LiveOrder` of crates/atomic-execution/src/state_machine.rs.
use atomic_mesh.Base.{ℕ, Bool, true, false, Option, none, String}
use atomic_mesh.Core.Types.{OrderId, Symbol, Side, OrderType, Price, Qty, TimeInForce, Venue}

pub data OrderState : Type 0 where
  new ack partial_fill filled canceled rejected : OrderState

unfoldable pub is_terminal : OrderState → Bool
is_terminal filled = true
is_terminal canceled = true
is_terminal rejected = true
is_terminal _ = false

unfoldable pub can_transition_to : OrderState → OrderState → Bool
can_transition_to new ack = true
can_transition_to new rejected = true
can_transition_to ack partial_fill = true
can_transition_to ack filled = true
can_transition_to ack canceled = true
can_transition_to partial_fill partial_fill = true
can_transition_to partial_fill filled = true
can_transition_to partial_fill canceled = true
can_transition_to _ _ = false

-- `state != OrderState::New`.
abbrev pub is_new : OrderState → Bool
is_new new = true
is_new _ = false

pub record LiveOrder : Type 0 where
  pub order_id : OrderId
  pub exchange_order_id : Option String
  pub symbol : Symbol
  pub side : Side
  pub order_type : OrderType
  pub price : Price
  pub original_qty : Qty
  pub filled_qty : Qty
  pub remaining_qty : Qty
  pub time_in_force : TimeInForce
  pub venue : Venue
  pub state : OrderState
  pub created_at : ℕ
  pub updated_at : ℕ

unfoldable pub new_order :
    OrderId → Symbol → Side → OrderType → Price → Qty → TimeInForce → Venue → ℕ → LiveOrder
new_order order_id symbol side order_type price qty time_in_force venue timestamp = record {
  order_id = order_id;
  exchange_order_id = none;
  symbol = symbol;
  side = side;
  order_type = order_type;
  price = price;
  original_qty = qty;
  filled_qty = 0;
  remaining_qty = qty;
  time_in_force = time_in_force;
  venue = venue;
  state = new;
  created_at = timestamp;
  updated_at = timestamp;
}
