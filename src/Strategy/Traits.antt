-- ===== src/Strategy/Traits.antt =====
-- crates/atomic-strategy/src/traits.rs. A strategy is its state with the methods of the trait; a
-- method that changes the state returns the new one.
use atomic_mesh.Base.{ℕ, String, Option, List}
use atomic_mesh.Base.HashMap.{HashMap}
use atomic_mesh.Core.Types.{
  OrderId, OrderType, Position, Price, Qty, Side, Symbol, TimeInForce, Venue,
}
use atomic_mesh.Core.Event.{Event}
use atomic_mesh.Core.Snapshot.{Bytes}
use atomic_mesh.OrderBook.{OrderBook}

pub record Placement : Type 0 where
  pub symbol : Symbol
  pub side : Side
  pub order_type : OrderType
  pub price : Price
  pub qty : Qty
  pub time_in_force : TimeInForce
  pub venue : Venue

pub data StrategyCommand : Type 0 where
  place_order : Placement → StrategyCommand
  cancel_order : OrderId → StrategyCommand
  cancel_all : Option Symbol → StrategyCommand

pub record StrategyContext : Type 0 where
  pub books : HashMap String OrderBook
  pub positions : HashMap String Position
  pub seq : ℕ
  pub timestamp : ℕ

pub record Strategy : Type 1 where
  pub State : Type 0
  pub state : State
  pub id : State → String
  pub on_event : State → Event → StrategyContext → State × List StrategyCommand
  pub on_start : State → State
  pub on_stop : State → State
  pub snapshot : State → Bytes
  pub restore : State → Bytes → State
