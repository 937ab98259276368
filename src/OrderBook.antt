-- ===== src/OrderBook.antt =====
-- crates/atomic-orderbook/src/book.rs: the L2 order book. Each side is a map from prices to
-- quantities; a method that changes the book returns the new one.
pub mod WellFormed
pub mod Best
pub mod Update
pub mod Fill
pub mod FillPrice
mod Tests
use atomic_mesh.Base.{
  ℕ, zero, ◌+◌, Bool, true, false, Option, none, some, List, [], ◌∷◌, map, filter, reverse, take,
  length, ltb, ◌==◌, nat_eq, if◌then◌else◌, ℤ, pos, leb_ℤ,
}
use atomic_mesh.Base.Word.{
  u64, u64_as_i64, i64_as_u64, add_i64, sub_i64, mul_i64, div_i64, min_i64, sum_u64,
}
use atomic_mesh.Base.BTreeMap.{BTreeMap, first, last, insert, remove}
use atomic_mesh.Core.Types.{Level, Qty, Price, Symbol, Side, buy, sell, midpoint, mid_of, spread_of}

pub record OrderBook : Type 0 where
  pub symbol : Symbol
  pub bids : BTreeMap Qty
  pub asks : BTreeMap Qty
  pub last_update_seq : ℕ
  pub last_update_ts : ℕ

unfoldable pub new : Symbol → OrderBook
new symbol = record {
  symbol = symbol;
  bids = [];
  asks = [];
  last_update_seq = 0;
  last_update_ts = 0;
}

-- The loops of `apply_snapshot` and of `apply_delta` over one side.
unfoldable pub insert_levels : List Level → BTreeMap Qty → BTreeMap Qty
insert_levels [] side = side
insert_levels (l ∷ ls) side =
    insert_levels ls (if ltb 0 l.qty then insert l.price l.qty side else side)

unfoldable pub update_levels : List Level → BTreeMap Qty → BTreeMap Qty
update_levels [] side = side
update_levels (l ∷ ls) side =
    update_levels ls (if l.qty == 0 then remove l.price side else insert l.price l.qty side)

unfoldable pub apply_snapshot : OrderBook → List Level → List Level → ℕ → ℕ → OrderBook
apply_snapshot b bids asks seq ts = record b {
  bids = insert_levels bids [];
  asks = insert_levels asks [];
  last_update_seq = seq;
  last_update_ts = ts;
}

unfoldable pub apply_delta : OrderBook → List Level → List Level → ℕ → ℕ → OrderBook
apply_delta b bids asks seq ts = record b {
  bids = update_levels bids b.bids;
  asks = update_levels asks b.asks;
  last_update_seq = seq;
  last_update_ts = ts;
}

abbrev pub to_level : ℤ × Qty → Level
to_level e = record { price = e.0; qty = e.1 }

abbrev level_of : Option (ℤ × Qty) → Option Level
level_of none = none
level_of (some e) = some (to_level e)

unfoldable pub best_bid : OrderBook → Option Level
best_bid b = level_of (last b.bids)

unfoldable pub best_ask : OrderBook → Option Level
best_ask b = level_of (first b.asks)

unfoldable pub mid_price : OrderBook → Option Price
unfolding best_bid best_ask mid_of
mid_price b = mid_of (best_bid b) (best_ask b)

unfoldable pub spread : OrderBook → Option ℤ
unfolding best_bid best_ask spread_of
spread b = spread_of (best_bid b) (best_ask b)

unfoldable pub top_bids : OrderBook → ℕ → List Level
top_bids b n = map to_level (take n (reverse b.bids))

unfoldable pub top_asks : OrderBook → ℕ → List Level
top_asks b n = map to_level (take n b.asks)

unfoldable pub bid_depth : OrderBook → ℕ
bid_depth b = sum_u64 (map (λ e. e.1) b.bids)

unfoldable pub ask_depth : OrderBook → ℕ
ask_depth b = sum_u64 (map (λ e. e.1) b.asks)

-- `range(price..)` and `range(..=price)`.
unfoldable pub bid_depth_to_price : OrderBook → Price → ℕ
bid_depth_to_price b price = sum_u64 (map (λ e. e.1) (filter (λ e. leb_ℤ price e.0) b.bids))

unfoldable pub ask_depth_to_price : OrderBook → Price → ℕ
ask_depth_to_price b price = sum_u64 (map (λ e. e.1) (filter (λ e. leb_ℤ e.0 price) b.asks))

unfoldable pub bid_count : OrderBook → ℕ
bid_count b = length b.bids

unfoldable pub ask_count : OrderBook → ℕ
ask_count b = length b.asks

-- The levels that an order of a side meets, the best first.
unfoldable pub facing_levels : OrderBook → Side → List Level
unfolding top_bids top_asks
facing_levels b buy = top_asks b (length b.asks)
facing_levels b sell = top_bids b (length b.bids)

-- The loop of `simulate_fill`: the total cost and the total filled.
unfoldable pub walk : List Level → ℤ → ℤ → ℕ → ℤ × ℕ
walk [] remaining total_cost total_filled = (total_cost, total_filled)
walk (l ∷ ls) remaining total_cost total_filled =
    let fill_qty = min_i64 remaining (u64_as_i64 l.qty) in
    let rest =
      walk ls (sub_i64 remaining fill_qty) (add_i64 total_cost (mul_i64 fill_qty l.price))
        (u64 (total_filled + i64_as_u64 fill_qty)) in
    if leb_ℤ remaining (pos 0) then (total_cost, total_filled) else rest

unfoldable pub average : ℤ × ℕ → Option (Price × Qty)
average (total_cost, total_filled) =
    if total_filled == 0
    then none
    else some (div_i64 total_cost (u64_as_i64 total_filled), total_filled)

unfoldable pub simulate_fill : OrderBook → Side → Qty → Option (Price × Qty)
unfolding facing_levels walk average
simulate_fill b side qty = average (walk (facing_levels b side) (u64_as_i64 qty) (pos 0) 0)
