-- ===== src/Router/Tests.antt =====
-- Runs of the router, and the theorems about it at two books.
use atomic_mesh.Base.{
  ℕ, ◌≡◌, refl, ◌⊎◌, none, some, List, [], ◌∷◌, min, arith, pos, ◌%◌, ◌+◌, ◌<◌, ◌≤◌, ◌/◌, All,
  length,
}
use atomic_mesh.Base.HashMap
use atomic_mesh.Base.BTreeMap
use atomic_mesh.Core.Types.{Level, Symbol, Venue, binance, bybit, buy, sell, pair}
use atomic_mesh.OrderBook.{OrderBook, new, apply_snapshot, insert_levels, best_ask, top_asks}
use atomic_mesh.Router.{
  SmartOrderRouter, OrderSlice, slice, new_router, update_book, route_best_venue, route_twap,
  route_sweep, best_price, all_levels,
}
use atomic_mesh.Router.BestVenue.{Outcome, route_best_venue_lem}
use atomic_mesh.Router.Twap.{slices_total, route_twap-total}
use atomic_mesh.Router.Sweep.{offers_total, IsBestFirst, route_sweep-total}

abbrev btc : Venue → Symbol
btc venue = record { base = "BTC"; quote = "USDT"; venue = venue }

abbrev level : ℕ → ℕ → Level
level p q = record { price = pos p; qty = q }

abbrev book : Venue → List Level → OrderBook
book venue asks = apply_snapshot (new (btc venue)) (level 99 10 ∷ []) asks 1 0

abbrev router : SmartOrderRouter
router =
    update_book
      (update_book new_router (pair (btc binance)) binance
        (book binance (level 101 20 ∷ level 103 30 ∷ [])))
      (pair (btc bybit)) bybit (book bybit (level 100 20 ∷ []))

-- The test `best_venue_picks_lowest_ask_for_buy` of the source.
lowest_ask :
    route_best_venue router (btc binance) buy 5 ≡ slice (btc binance) buy bybit (pos 100) 5 ∷ []
unfolding route_best_venue best_price best_ask apply_snapshot new insert_levels BTreeMap.insert
    HashMap.insert new_router update_book pair slice
lowest_ask = refl

route_best_venue_lem_example :
    Outcome (btc binance) sell 5 router.books (route_best_venue router (btc binance) sell 5)
route_best_venue_lem_example = route_best_venue_lem router (btc binance) sell 5

route_twap-total_example :
    (route_twap router (btc binance) buy 103 0 ≡ none)
    × ((xs : List OrderSlice) × (route_twap router (btc binance) buy 103 4 ≡ some xs)
        × (((route_best_venue router (btc binance) buy 103 ≡ []) × (xs ≡ []))
            ⊎ ((103 < 4) × (xs ≡ []))
            ⊎ ((4 ≤ 103)
                × (length xs ≡ 4)
                × All (λ s. s.qty ≡ 103 / 4) xs
                × (slices_total xs + 103 % 4 ≡ 103))))
route_twap-total_example = route_twap-total router (btc binance) buy 103 3

route_sweep-total_example :
    (slices_total (route_sweep router (btc binance) buy 45)
      ≡ min 45 (offers_total (all_levels (pair (btc binance)) buy router.books)))
    × IsBestFirst buy (route_sweep router (btc binance) buy 45)
route_sweep-total_example = route_sweep-total router (btc binance) buy 45 (omega arith) (
    unfold all_levels top_asks apply_snapshot new insert_levels BTreeMap.insert HashMap.insert
      new_router update_book pair in
    (omega arith, (omega arith, (omega arith, tt))))
