-- ===== src/Strategy/MarketMaker.antt =====
-- `MarketMaker` of crates/atomic-strategy/src/market_maker.rs. The encoding of the state for a
-- snapshot, of the crate bincode, is an argument.
pub mod Quotes
pub mod Spot
use atomic_mesh.Base.{
  ℕ, ◌+◌, ◌-◌, Bool, true, false, not, ◌&&◌, ◌||◌, Option, none, some, String, string_eq, List, [],
  ◌∷◌, ◌++◌, ltb, leb, ◌==◌, nat_eq, if◌then◌else◌, ℤ, pos, leb_ℤ, int_eq,
}
use atomic_mesh.Base.Word.{u64, sub_u64, add_i64, sub_i64, mul_i64, div_i64, min_i64, abs_i64}
use atomic_mesh.Core.Types.{
  Symbol, symbol_eq, Venue, Side, buy, sell, limit, good_til_cancel, Level,
}
use atomic_mesh.Core.Event.{
  Event, EventPayload, OrderBookUpdateEvent, TradeEvent, OrderFillEvent, order_book_update, trade,
  order_fill, order_partial_fill,
}
use atomic_mesh.Core.Snapshot.{Bytes}
use atomic_mesh.Strategy.Traits.{
  StrategyCommand, StrategyContext, Placement, place_order, cancel_all,
}
use atomic_mesh.Strategy.Inventory.{
  InventoryManager, new_inventory, inventory_on_fill, compute_skew, can_sell, sellable_qty, at_max,
  set_position,
}
use atomic_mesh.Strategy.Toxicity.{
  ToxicityTracker, new_tracker, on_trade, is_toxic, spread_multiplier,
}
use atomic_mesh.Strategy.Microprice.{weighted}

pub record MarketMaker : Type 0 where
  pub id : String
  pub symbol : Symbol
  pub venue : Venue
  pub inventory : InventoryManager
  pub toxicity : ToxicityTracker
  pub half_spread_pipettes : ℤ
  pub requote_threshold : ℤ
  pub order_qty : ℕ
  pub microprice_depth : ℕ
  pub last_fair_value : ℤ
  pub last_bid_price : ℤ
  pub last_ask_price : ℤ
  pub has_active_quotes : Bool
  pub tick_count : ℕ
  pub last_quote_tick : ℕ
  pub min_quote_interval : ℕ
  pub book_updates_seen : ℕ
  pub warmup_ticks : ℕ

unfoldable pub new_maker : String → Symbol → Venue → ℕ → ℤ → ℤ → ℤ → MarketMaker
new_maker id symbol venue order_qty max_inventory half_spread_pipettes gamma = record {
  id = id;
  symbol = symbol;
  venue = venue;
  inventory = new_inventory max_inventory gamma;
  toxicity = new_tracker 200 (pos 500) (pos 6000);
  half_spread_pipettes = half_spread_pipettes;
  requote_threshold = pos 10;
  order_qty = order_qty;
  microprice_depth = 5;
  last_fair_value = pos 0;
  last_bid_price = pos 0;
  last_ask_price = pos 0;
  has_active_quotes = false;
  tick_count = 0;
  last_quote_tick = 0;
  min_quote_interval = 5;
  book_updates_seen = 0;
  warmup_ticks = 3;
}

-- `half_spread_pipettes.max(1)`, widened.
unfoldable pub half_spread : MarketMaker → ℤ
half_spread m =
    let base_hs = if leb_ℤ m.half_spread_pipettes (pos 1) then pos 1 else m.half_spread_pipettes in
    div_i64 (mul_i64 base_hs (spread_multiplier m.toxicity)) (pos 10_000)

unfoldable pub bid_price : MarketMaker → ℤ → ℤ
bid_price m fair_value =
    sub_i64 (sub_i64 fair_value (half_spread m)) (compute_skew m.inventory (half_spread m))

unfoldable pub ask_price : MarketMaker → ℤ → ℤ
ask_price m fair_value =
    sub_i64 (add_i64 fair_value (half_spread m)) (compute_skew m.inventory (half_spread m))

abbrev placement : MarketMaker → Side → ℤ → ℕ → StrategyCommand
placement m side price qty = place_order (record {
  symbol = m.symbol;
  side = side;
  order_type = limit;
  price = price;
  qty = qty;
  time_in_force = good_til_cancel;
  venue = m.venue;
})

unfoldable pub cancels : MarketMaker → List StrategyCommand
cancels m = if m.has_active_quotes then cancel_all (some m.symbol) ∷ [] else []

unfoldable pub bids : MarketMaker → ℤ → List StrategyCommand
unfolding bid_price
bids m fair_value =
    if not (at_max m.inventory)
    then placement m buy (bid_price m fair_value) m.order_qty ∷ []
    else []

unfoldable pub asks : MarketMaker → ℤ → List StrategyCommand
unfolding ask_price
asks m fair_value =
    let sell_qty = sellable_qty m.inventory m.order_qty in
    if can_sell m.inventory && ltb 0 sell_qty
    then placement m sell (ask_price m fair_value) sell_qty ∷ []
    else []

unfoldable pub generate_quotes : MarketMaker → ℤ → MarketMaker × List StrategyCommand
unfolding cancels bids asks
generate_quotes m fair_value = (
  record m {
    last_fair_value = fair_value;
    last_bid_price = bid_price m fair_value;
    last_ask_price = ask_price m fair_value;
    has_active_quotes = true;
    last_quote_tick = m.tick_count;
  },
  cancels m ++ (bids m fair_value ++ asks m fair_value),
)

unfoldable pub should_requote : MarketMaker → ℤ → Bool
should_requote m fv =
    if m.last_fair_value == pos 0
    then true
    else if ltb (sub_u64 m.tick_count m.last_quote_tick) m.min_quote_interval
    then false
    else leb_ℤ m.requote_threshold (abs_i64 (sub_i64 fv m.last_fair_value))

abbrev is_none {ℓ} : {A : Type ℓ} → List A → Bool
is_none [] = true
is_none (x ∷ xs) = false

-- The branch of a book update, from the count of the update on.
unfoldable pub on_book : MarketMaker → OrderBookUpdateEvent → MarketMaker × List StrategyCommand
unfolding should_requote generate_quotes
on_book m book =
    let m' = record m {
      book_updates_seen = u64 (m.book_updates_seen + 1);
      tick_count = u64 (m.tick_count + 1);
    } in
    let fv = weighted book.bids book.asks m.microprice_depth in
    if ltb m'.book_updates_seen m.warmup_ticks
    then (m', [])
    else if is_none book.bids || is_none book.asks
    then (m', [])
    else if leb_ℤ fv (pos 0)
    then (m', [])
    else if should_requote m' fv
    then generate_quotes m' fv
    else (m', [])

unfoldable pub on_market_trade : MarketMaker → TradeEvent → MarketMaker × List StrategyCommand
on_market_trade m t =
    let m' = record m { toxicity = on_trade m.toxicity t.side t.qty t.price } in
    if is_toxic m'.toxicity && m.has_active_quotes
    then (record m' { has_active_quotes = false }, cancel_all (some m.symbol) ∷ [])
    else (m', [])

unfoldable pub on_own_fill : MarketMaker → OrderFillEvent → MarketMaker × List StrategyCommand
unfolding inventory_on_fill
on_own_fill m f = (
  record m {
    inventory = inventory_on_fill m.inventory f.side f.qty;
    last_quote_tick = m.tick_count - m.min_quote_interval;
  },
  [],
)

unfoldable pub on_payload : MarketMaker → EventPayload → MarketMaker × List StrategyCommand
unfolding on_book on_market_trade on_own_fill
on_payload m (order_book_update book) =
    if not (book.symbol == m.symbol) then (m, []) else on_book m book
on_payload m (trade t) = if not (t.symbol == m.symbol) then (m, []) else on_market_trade m t
on_payload m (order_fill f) = if not (f.symbol == m.symbol) then (m, []) else on_own_fill m f
on_payload m (order_partial_fill f) =
    if not (f.symbol == m.symbol) then (m, []) else on_own_fill m f
on_payload m _ = (m, [])

unfoldable pub on_event : MarketMaker → Event → StrategyContext → MarketMaker × List StrategyCommand
unfolding on_payload
on_event m event ctx = on_payload m event.payload

-- What a snapshot holds.
pub record MakerState : Type 0 where
  pub position : ℤ
  pub last_fair_value : ℤ
  pub tick_count : ℕ
  pub book_updates_seen : ℕ

abbrev state_bytes : Option Bytes → Bytes
state_bytes none = []
state_bytes (some b) = b

unfoldable pub maker_state : MarketMaker → MakerState
maker_state m = record {
  position = m.inventory.position_qty;
  last_fair_value = m.last_fair_value;
  tick_count = m.tick_count;
  book_updates_seen = m.book_updates_seen;
}

module _ (serialize : MakerState → Option Bytes) (deserialize : Bytes → Option MakerState) where
  unfoldable pub maker_snapshot : MarketMaker → Bytes
  unfolding maker_state
  maker_snapshot m = state_bytes (serialize (maker_state m))

  unfoldable pub with_state : MarketMaker → Option MakerState → MarketMaker
  with_state m none = m
  with_state m (some s) = record m {
    inventory = set_position m.inventory s.position;
    last_fair_value = s.last_fair_value;
    tick_count = s.tick_count;
    book_updates_seen = s.book_updates_seen;
  }

  unfoldable pub maker_restore : MarketMaker → Bytes → MarketMaker
  unfolding with_state
  maker_restore m b = with_state m (deserialize b)
