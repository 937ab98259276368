-- ===== src/Strategy/Tests.antt =====
-- Runs of the strategies, and the theorems about them at a concrete state.
use atomic_mesh.Base.{ℕ, ◌≤◌, true, ◌≡◌, List, [], ◌∷◌, All, arith, pos}
use atomic_mesh.Core.Types.{Level, Side, Symbol, binance, buy, sell}
use atomic_mesh.Core.Event.{Event, OrderBookUpdateEvent, order_book_update}
use atomic_mesh.OrderBook.FillPrice.{Between}
use atomic_mesh.Strategy.Traits.{StrategyContext}
use atomic_mesh.Strategy.Inventory.Skew.{UpTo}
use atomic_mesh.Strategy.Toxicity.{new_tracker, vpin, spread_multiplier}
use atomic_mesh.Strategy.Toxicity.Window.{IsCounted}
use atomic_mesh.Strategy.Toxicity.Bounds.{Tick, ticks_of, ticks_of-bounds}
use atomic_mesh.Strategy.Microprice.{weighted}
use atomic_mesh.Strategy.Microprice.Bounds.{weighted-Between}
use atomic_mesh.Strategy.MarketMaker.{MarketMaker, new_maker, on_event}
use atomic_mesh.Strategy.MarketMaker.Spot.{Allowed, on_event-Allowed}

abbrev btc : Symbol
btc = record { base = "BTC"; quote = "USDT"; venue = binance }

abbrev tick : Side → ℕ → ℕ → Tick
tick side qty price = record { side = side; qty = qty; price = price }

abbrev three_ticks : List Tick
three_ticks = tick buy 10 100 ∷ tick sell 4 101 ∷ tick buy 7 99 ∷ []

ticks_of-bounds_example :
    let t = ticks_of (new_tracker 2 (pos 500) (pos 6000)) three_ticks in
    IsCounted t
    × UpTo 10_000 (vpin t)
    × ((k : ℕ) × (spread_multiplier t ≡ pos k) × (10_000 ≤ k) × (k ≤ 30_000))
ticks_of-bounds_example =
    ticks_of-bounds 2 500 (pos 6000) three_ticks (omega arith)
      (omega arith, (omega arith, (omega arith, tt))) (omega arith)

abbrev level : ℕ → ℕ → Level
level p q = record { price = pos p; qty = q }

weighted-Between_example :
    Between 98 102 (weighted (level 99 10 ∷ level 98 5 ∷ []) (level 101 4 ∷ level 102 6 ∷ []) 5)
weighted-Between_example =
    weighted-Between 98 102 5 (level 99 10) (level 101 4) (level 98 5 ∷ []) (level 102 6 ∷ [])
      ((omega arith, omega arith), ((omega arith, omega arith), tt))
      ((omega arith, omega arith), ((omega arith, omega arith), tt)) (omega arith) (omega arith)
      (omega arith)

abbrev update : OrderBookUpdateEvent
update = record {
  symbol = btc;
  bids = level 990 10 ∷ [];
  asks = level 1010 10 ∷ [];
  is_snapshot = true;
  exchange_ts = 0;
}

abbrev ready : MarketMaker
ready = record (new_maker "mm" btc binance 5 (pos 100) (pos 10) (pos 5000)) {
  inventory = record { position_qty = pos 20; max_inventory = pos 100; gamma = pos 5000 };
  book_updates_seen = 3;
}

abbrev event : Event
event = record { seq = 1; timestamp = 0; source = []; payload = order_book_update update }

abbrev context : StrategyContext
context = record { books = []; positions = []; seq = 1; timestamp = 0 }

on_event-Allowed_example : All (Allowed ready) (on_event ready event context).1
on_event-Allowed_example = on_event-Allowed ready event context
