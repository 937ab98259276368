-- ===== src/OrderBook/Tests.antt =====
-- Runs of the order book, and the theorems about it at a concrete book.
use atomic_mesh.Base.{
  ℕ, Bool, true, false, ◌≡◌, refl, ◌⊎◌, inl, none, some, List, [], ◌∷◌, All, arith, ◌==◌, nat_eq,
  if◌then◌else◌, pos, ◌≤ℤ◌, quot_ℤ, ◌+ℤ◌, ◌-ℤ◌, ◌*ℤ◌,
}
use mathlib.Core.Option
use atomic_mesh.Base.Word.{i64, i64_as_u64, sum_u64}
use atomic_mesh.Base.BTreeMap.{get, insert}
use atomic_mesh.Core.Types.{Level, Symbol, binance, buy}
use atomic_mesh.Core.Event.{OrderBookUpdateEvent}
use atomic_mesh.OrderBook.{
  OrderBook, new, ask_depth, insert_levels, apply_snapshot, apply_delta, best_bid, best_ask,
  simulate_fill, facing_levels, walk, average,
}
use atomic_mesh.OrderBook.WellFormed.{
  IsWellFormed, apply_snapshot-IsWellFormed, updates, updates-IsWellFormed,
}
use atomic_mesh.OrderBook.Best.{best_prices}
use atomic_mesh.OrderBook.Update.{quoted, get-apply_delta}
use atomic_mesh.OrderBook.Fill.{facing_depth, simulate_fill-enough}
use atomic_mesh.OrderBook.FillPrice.{Between, simulate_fill-Between}

abbrev btc : Symbol
btc = record { base = "BTC"; quote = "USDT"; venue = binance }

abbrev level : ℕ → ℕ → Level
level p q = record { price = pos p; qty = q }

abbrev three_asks : List Level
three_asks = level 100 50 ∷ level 101 50 ∷ level 102 50 ∷ []

abbrev two_bids : List Level
two_bids = level 99 40 ∷ level 98 10 ∷ []

-- The book of the test `simulate_buy_fill` of the source, with two bids.
abbrev book : OrderBook
book = apply_snapshot (new btc) two_bids three_asks 1 1000

simulate_buy_fill : simulate_fill book buy 80 ≡ some (pos 100, 80)
unfolding simulate_fill facing_levels walk average apply_snapshot new insert_levels insert i64
    i64_as_u64 quot_ℤ ◌+ℤ◌ ◌-ℤ◌ ◌*ℤ◌
simulate_buy_fill = refl

abbrev no_bid : List Level
no_bid = level 99 0 ∷ []

get-apply_delta_example :
    (get (pos 99) (apply_delta book no_bid [] 2 2000).bids
      ≡ quoted no_bid (pos 99) (get (pos 99) book.bids))
    × (get (pos 99) (apply_delta book no_bid [] 2 2000).asks
        ≡ quoted [] (pos 99) (get (pos 99) book.asks))
get-apply_delta_example =
    get-apply_delta book no_bid [] 2 2000 (pos 99)
      (apply_snapshot-IsWellFormed (new btc) two_bids three_asks 1 1000)

abbrev asked : ℕ
asked = 80

simulate_fill-enough_example :
    Option.map (λ p. p.1) (simulate_fill book buy asked)
    ≡ (if asked == 0 then none else if facing_depth book buy == 0 then none else some asked)
unfolding apply_snapshot new insert_levels insert ask_depth sum_u64
simulate_fill-enough_example =
    simulate_fill-enough book buy asked (omega arith) (omega arith) (inl (omega arith))

simulate_fill-Between_example : Between 100 102 (pos 100)
unfolding apply_snapshot new insert_levels insert facing_levels
simulate_fill-Between_example =
    simulate_fill-Between book buy 80 100 102 (omega arith) (omega arith) (omega arith)
      (omega arith) simulate_buy_fill

abbrev update : Bool → List Level → List Level → OrderBookUpdateEvent
update whole bids asks = record {
  symbol = btc;
  bids = bids;
  asks = asks;
  is_snapshot = whole;
  exchange_ts = 1000;
}

updates-IsWellFormed_example : IsWellFormed (
    updates
      (new btc)
      ((1, update true two_bids three_asks) ∷ (2, update false no_bid three_asks) ∷ []))
updates-IsWellFormed_example =
    updates-IsWellFormed btc
      ((1, update true two_bids three_asks) ∷ (2, update false no_bid three_asks) ∷ [])

best_prices_example :
    (((book.bids ≡ []) × (best_bid book ≡ none))
      ⊎ ((l : Level) × (best_bid book ≡ some l)
          × (get l.price book.bids ≡ some l.qty)
          × All (λ e. e.0 ≤ℤ l.price) book.bids))
    × (((book.asks ≡ []) × (best_ask book ≡ none))
        ⊎ ((l : Level) × (best_ask book ≡ some l)
            × (get l.price book.asks ≡ some l.qty)
            × All (λ e. l.price ≤ℤ e.0) book.asks))
best_prices_example =
    best_prices book (apply_snapshot-IsWellFormed (new btc) two_bids three_asks 1 1000)
