-- ===== src/Simulator/Exchange/Resting.antt =====
-- The resting orders of `SimulatedExchange`, and the delivery of its events.
use atomic_mesh.Base.{
  ℕ, ◌+◌, Bool, true, false, Option, none, some, String, List, [], ◌∷◌, ◌++◌, length, ◌==◌,
  string_eq, if◌then◌else◌, ℤ, leb_ℤ,
}
use atomic_mesh.Base.Word.{u64}
use atomic_mesh.Base.HashMap
use atomic_mesh.Base.HashMap.{HashMap}
use atomic_mesh.Base.BTreeMap.{first, last}
use atomic_mesh.Core.Types.{Level, Symbol, pair, OrderId, Side, buy, sell, simulated}
use atomic_mesh.Core.Node.{NodeId}
use atomic_mesh.Core.Event.{Event, new_event, order_fill, order_cancel}
use atomic_mesh.Simulator.Match.{SimBook, new_book, apply_levels}
use atomic_mesh.Simulator.Exchange.{SimOrder, SimulatedExchange, push, fee}

abbrev key_leb : Option (ℤ × ℕ) → ℤ → Bool
key_leb none limit = false
key_leb (some e) limit = leb_ℤ e.0 limit

abbrev key_geb : Option (ℤ × ℕ) → ℤ → Bool
key_geb none limit = false
key_geb (some e) limit = leb_ℤ limit e.0

-- The market crosses the level of a resting order.
unfoldable pub can_cross : Option SimBook → Side → ℤ → Bool
can_cross none side limit = false
can_cross (some b) buy limit = key_leb (first b.asks) limit
can_cross (some b) sell limit = key_geb (last b.bids) limit

unfoldable pub maker_fill : SimulatedExchange → SimOrder → Event
unfolding new_event
maker_fill x o = new_event 0 (u64 (o.submitted_at + x.config.fill_latency_ns)) o.source (
    order_fill (record {
      order_id = o.order_id;
      symbol = o.symbol;
      side = o.side;
      price = o.price;
      qty = o.remaining;
      remaining = 0;
      fee = fee o.price o.remaining x.config.maker_fee_bps;
      is_maker = true;
      venue = simulated;
    }))

-- The body of the loop of `check_resting_orders`, on what `resting_orders.get(&oid)` returns.
unfoldable pub check_resting : SimulatedExchange → String → Option SimOrder → SimulatedExchange
check_resting x oid none = x
check_resting x oid (some o) =
    if can_cross (HashMap.get (pair o.symbol) x.books) o.side o.price
    then record x {
      pending_events = x.pending_events ++ maker_fill x o ∷ [];
      resting_orders = HashMap.remove oid x.resting_orders;
    }
    else x

unfoldable pub check_ids : SimulatedExchange → List String → SimulatedExchange
unfolding check_resting can_cross
check_ids x [] = x
check_ids x (oid ∷ oids) = check_ids (check_resting x oid (HashMap.get oid x.resting_orders)) oids

-- The ids of the orders on a pair, in the order of the map.
unfoldable pub resting_ids : String → HashMap String SimOrder → List String
resting_ids pair_key [] = []
resting_ids pair_key ((id, o) ∷ m) =
    if pair o.symbol == pair_key then id ∷ resting_ids pair_key m else resting_ids pair_key m

unfoldable pub check_resting_orders : SimulatedExchange → String → SimulatedExchange
unfolding check_ids resting_ids
check_resting_orders x pair_key = check_ids x (resting_ids pair_key x.resting_orders)

abbrev book_or_new : Option SimBook → SimBook
book_or_new none = new_book
book_or_new (some b) = b

unfoldable pub on_book_update :
    SimulatedExchange → Symbol → List Level → List Level → Bool → SimulatedExchange
unfolding check_resting_orders
on_book_update x symbol bids asks is_snapshot =
    let key = pair symbol in
    let book = apply_levels (book_or_new (HashMap.get key x.books)) bids asks is_snapshot in
    check_resting_orders (record x { books = HashMap.insert key book x.books }) key

unfoldable pub cancel_resting :
    SimulatedExchange → OrderId → ℕ → NodeId → Option SimOrder → SimulatedExchange
unfolding new_event
cancel_resting x order_id timestamp source none = x
cancel_resting x order_id timestamp source (some o) =
    push (record x { resting_orders = HashMap.remove order_id x.resting_orders })
      (new_event 0 (u64 (timestamp + x.config.ack_latency_ns)) source
          (order_cancel (record { order_id = order_id; reason = "user_cancel"; venue = simulated }))
        ∷ [])

unfoldable pub cancel_order : SimulatedExchange → OrderId → ℕ → NodeId → SimulatedExchange
unfolding cancel_resting
cancel_order x order_id timestamp source =
    cancel_resting x order_id timestamp source (HashMap.get order_id x.resting_orders)

unfoldable pub number_events : ℕ → List Event → List Event
number_events seq [] = []
number_events seq (e ∷ es) = record e { seq = seq } ∷ number_events (u64 (seq + 1)) es

unfoldable pub drain_events : SimulatedExchange → ℕ → SimulatedExchange × List Event
unfolding number_events
drain_events x start_seq =
    (record x { pending_events = [] }, number_events start_seq x.pending_events)

unfoldable pub pending_count : SimulatedExchange → ℕ
pending_count x = length x.pending_events

unfoldable pub resting_order_count : SimulatedExchange → ℕ
resting_order_count x = length x.resting_orders
