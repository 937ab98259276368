-- ===== src/Simulator/Tests.antt =====
-- Runs of the simulated exchange, and the theorems about it at a concrete book.
use atomic_mesh.Base.{
  ℕ, ◌+◌, ◌-◌, ◌≡◌, true, false, some, [], ◌∷◌, All, arith, pos, ◌⊎◌, string_eq, refl,
}
use atomic_mesh.Base.Word.{sum}
use atomic_mesh.Base.BTreeMap.{BTreeMap, IsSorted}
use atomic_mesh.Core.Types.{buy}
use atomic_mesh.Base.HashMap.{get}
use atomic_mesh.Core.Types.{TimeInForce, good_til_cancel, fill_or_kill, limit, simulated, pair}
use atomic_mesh.Core.Event.{OrderNewEvent}
use atomic_mesh.Execution.Order.{LiveOrder, rejected, filled}
use atomic_mesh.Execution.Engine.{ExecutionEngine, order_of, process_all}
use atomic_mesh.Simulator.Exchange.{
  SimulatedExchange, new_exchange, default_config, submit_order, match_book, facing, limit_price,
  limit_of,
}
use atomic_mesh.Simulator.Exchange.Resting.{drain_events}
use atomic_mesh.Simulator.Exchange.Outcomes.{Outcome}
use atomic_mesh.Simulator.Exchange.Pipeline.{
  refuses, submit_order-Outcome, submit_order-all_or_nothing,
}
use atomic_mesh.Simulator.Match.{match_order, is_beyond}
use atomic_mesh.Simulator.Match.Volume.{match_order_sound, total_qty, FillOk}
use atomic_mesh.Simulator.Match.Complete.{remaining-match_order, within}

abbrev asks : BTreeMap ℕ
asks = (pos 100, 50) ∷ (pos 101, 50) ∷ (pos 103, 50) ∷ []

match_order_sound_example :
    (total_qty (match_order asks buy 120 (some (pos 101))).fills
        + (match_order asks buy 120 (some (pos 101))).remaining
      ≡ 120)
    × All (FillOk buy (some (pos 101))) (match_order asks buy 120 (some (pos 101))).fills
match_order_sound_example = match_order_sound asks buy 120 (some (pos 101))

asks-IsSorted : IsSorted asks
asks-IsSorted = ground arith

remaining-match_order_example :
    (match_order asks buy 120 (some (pos 101))).remaining
    ≡ 120 - sum (within buy (some (pos 101)) asks)
remaining-match_order_example = remaining-match_order asks buy 120 (some (pos 101)) asks-IsSorted

abbrev exchange : SimulatedExchange
exchange = record (new_exchange default_config) {
  books = ("BTC/USDT", record { bids = []; asks = asks }) ∷ [];
}

abbrev order : TimeInForce → ℕ → OrderNewEvent
order tif qty = record {
  order_id = "A";
  symbol = record { base = "BTC"; quote = "USDT"; venue = simulated };
  side = buy;
  order_type = limit;
  price = pos 101;
  qty = qty;
  time_in_force = tif;
  venue = simulated;
}

abbrev registered : TimeInForce → ℕ → ExecutionEngine
registered tif qty = record { orders = ("A", order_of (order tif qty) 5) ∷ []; next_local_id = 2 }

submit_order-Outcome_example :
    (l : LiveOrder) × (get "A"
        (process_all
          (registered good_til_cancel 180)
          (drain_events (submit_order exchange (order good_til_cancel 180) 7 []) 1).1).orders
      ≡ some l)
    × (((refuses
              (get (pair (order good_til_cancel 180).symbol) exchange.books)
              (order good_til_cancel 180)
            ≡ true)
          × (l.state ≡ rejected)
          × (l.filled_qty ≡ 0)
          × ((drain_events
                (submit_order exchange (order good_til_cancel 180) 7 [])
                1).0.resting_orders
              ≡ []))
        ⊎ ((refuses
                (get (pair (order good_til_cancel 180).symbol) exchange.books)
                (order good_til_cancel 180)
              ≡ false)
            × Outcome
                (order good_til_cancel 180)
                (match_book
                  (get (pair (order good_til_cancel 180).symbol) exchange.books)
                  (order good_til_cancel 180)).remaining
                []
                (drain_events
                  (submit_order exchange (order good_til_cancel 180) 7 [])
                  1).0.resting_orders
                l))
unfolding new_exchange
submit_order-Outcome_example =
    submit_order-Outcome exchange (order good_til_cancel 180) 7 [] 1
      (registered good_til_cancel 180) (order_of (order good_til_cancel 180) 5) (unfold get in refl)
      (unfold order_of in refl) (unfold order_of in refl) (unfold order_of in refl) (omega arith)
      (omega arith) refl

submit_order-all_or_nothing_example :
    (l : LiveOrder) × (get "A"
        (process_all
          (registered fill_or_kill 80)
          (drain_events (submit_order exchange (order fill_or_kill 80) 7 []) 1).1).orders
      ≡ some l)
    × (((l.state ≡ rejected) × (l.filled_qty ≡ 0)) ⊎ ((l.state ≡ filled) × (l.filled_qty ≡ 80)))
submit_order-all_or_nothing_example =
    submit_order-all_or_nothing exchange (order fill_or_kill 80) 7 [] 1 (registered fill_or_kill 80)
      (order_of (order fill_or_kill 80) 5) (record { bids = []; asks = asks }) refl
      (unfold get pair in refl) (unfold facing in asks-IsSorted)
      (unfold facing limit_price limit_of is_beyond in omega arith) (unfold get in refl)
      (unfold order_of in refl) (unfold order_of in refl) (unfold order_of in refl) (omega arith)
      (omega arith) (unfold new_exchange in refl)
