-- ===== src/Core/Event.antt =====
-- crates/atomic-core/src/event.rs. A `[u8; N]` is the list of its bytes; the strength of a signal,
-- an `f64`, is the number of its bit pattern.
use atomic_mesh.Base.{ℕ, Bool, String, List, ℤ}
use atomic_mesh.Core.Types.{Venue, Side, OrderType, TimeInForce, Price, Qty, Symbol, OrderId, Level}
use atomic_mesh.Core.Node.{NodeRole, NodeId}

abbrev pub SeqNum : Type 0
SeqNum = ℕ

abbrev pub Timestamp : Type 0
Timestamp = ℕ

pub record OrderBookUpdateEvent : Type 0 where
  pub symbol : Symbol
  pub bids : List Level
  pub asks : List Level
  pub is_snapshot : Bool
  pub exchange_ts : ℕ

pub record TradeEvent : Type 0 where
  pub symbol : Symbol
  pub price : Price
  pub qty : Qty
  pub side : Side
  pub exchange_ts : ℕ

pub record TickerEvent : Type 0 where
  pub symbol : Symbol
  pub bid : Price
  pub ask : Price
  pub last : Price
  pub volume_24h : Qty
  pub exchange_ts : ℕ

pub record OrderNewEvent : Type 0 where
  pub order_id : OrderId
  pub symbol : Symbol
  pub side : Side
  pub order_type : OrderType
  pub price : Price
  pub qty : Qty
  pub time_in_force : TimeInForce
  pub venue : Venue

pub record OrderAckEvent : Type 0 where
  pub order_id : OrderId
  pub exchange_order_id : String
  pub venue : Venue

pub record OrderFillEvent : Type 0 where
  pub order_id : OrderId
  pub symbol : Symbol
  pub side : Side
  pub price : Price
  pub qty : Qty
  pub remaining : Qty
  pub fee : ℤ
  pub is_maker : Bool
  pub venue : Venue

pub record OrderCancelEvent : Type 0 where
  pub order_id : OrderId
  pub reason : String
  pub venue : Venue

pub record OrderRejectEvent : Type 0 where
  pub order_id : OrderId
  pub reason : String
  pub venue : Venue

pub record SnapshotEvent : Type 0 where
  pub state_hash : List ℕ
  pub event_count : ℕ

pub record HeartbeatEvent : Type 0 where
  pub node_id : NodeId
  pub uptime_secs : ℕ

pub record NodeJoinEvent : Type 0 where
  pub node_id : NodeId
  pub role : NodeRole
  pub addr : String

pub record NodeLeaveEvent : Type 0 where
  pub node_id : NodeId
  pub reason : String

pub record SignalEvent : Type 0 where
  pub strategy_id : String
  pub symbol : Symbol
  pub side : Side
  pub strength : ℕ
  pub metadata : String

pub data EventPayload : Type 0 where
  order_book_update : OrderBookUpdateEvent → EventPayload
  trade : TradeEvent → EventPayload
  ticker : TickerEvent → EventPayload
  order_new : OrderNewEvent → EventPayload
  order_ack : OrderAckEvent → EventPayload
  order_fill : OrderFillEvent → EventPayload
  order_partial_fill : OrderFillEvent → EventPayload
  order_cancel : OrderCancelEvent → EventPayload
  order_reject : OrderRejectEvent → EventPayload
  snapshot : SnapshotEvent → EventPayload
  heartbeat : HeartbeatEvent → EventPayload
  node_join : NodeJoinEvent → EventPayload
  node_leave : NodeLeaveEvent → EventPayload
  signal : SignalEvent → EventPayload

pub record Event : Type 0 where
  pub seq : SeqNum
  pub timestamp : Timestamp
  pub source : NodeId
  pub payload : EventPayload

unfoldable pub new_event : SeqNum → Timestamp → NodeId → EventPayload → Event
new_event seq timestamp source payload = record {
  seq = seq;
  timestamp = timestamp;
  source = source;
  payload = payload;
}
