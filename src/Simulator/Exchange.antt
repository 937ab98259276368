-- ===== src/Simulator/Exchange.antt =====
-- `SimulatedExchange`: orders in, events out.
pub mod Resting
pub mod Fills
pub mod Outcomes
pub mod Pipeline
use atomic_mesh.Base.{
  ℕ, ◌+◌, ◌-◌, ◌≡◌, refl, Bool, true, false, not, ◌&&◌, Option, none, some, String, List, [], ◌∷◌,
  ◌++◌, map, filter, length, ltb, leb, ◌==◌, nat_eq, string_eq, if◌then◌else◌, ℤ, pos, ltb_ℤ, leb_ℤ,
  str_append,
}
use atomic_mesh.Base.Word.{u64, u64_as_i64, mul_i64, div_i64, sum_u64}
use atomic_mesh.Base.Decimal.{show_u64}
use atomic_mesh.Base.HashMap
use atomic_mesh.Base.HashMap.{HashMap}
use atomic_mesh.Base.BTreeMap.{BTreeMap, first, last}
use atomic_mesh.Core.Types.{
  Level, Symbol, pair, OrderId, OrderType, market, limit, stop_market, stop_limit, is_market,
  is_limit, TimeInForce, good_til_cancel, immediate_or_cancel, fill_or_kill, good_til_date,
  is_fill_or_kill, Side, buy, sell, Price, Qty, simulated,
}
use atomic_mesh.Core.Node.{NodeId}
use atomic_mesh.Core.Event.{
  Event, new_event, EventPayload, order_ack, order_fill, order_cancel, order_reject, OrderNewEvent,
}
use atomic_mesh.Simulator.Match.{
  SimBook, new_book, apply_levels, MatchFill, Matching, match_order, is_beyond,
}

pub record SimulatorConfig : Type 0 where
  pub ack_latency_ns : ℕ
  pub fill_latency_ns : ℕ
  pub maker_fee_bps : ℤ
  pub taker_fee_bps : ℤ

unfoldable pub default_config : SimulatorConfig
default_config = record {
  ack_latency_ns = 1_000_000;
  fill_latency_ns = 5_000_000;
  maker_fee_bps = pos 2;
  taker_fee_bps = pos 5;
}

pub record SimOrder : Type 0 where
  pub order_id : OrderId
  pub symbol : Symbol
  pub side : Side
  pub order_type : OrderType
  pub price : Price
  pub qty : Qty
  pub remaining : ℕ
  pub time_in_force : TimeInForce
  pub submitted_at : ℕ
  pub source : NodeId

pub record SimulatedExchange : Type 0 where
  pub config : SimulatorConfig
  pub books : HashMap String SimBook
  pub resting_orders : HashMap String SimOrder
  pub pending_events : List Event
  pub next_exchange_id : ℕ

unfoldable pub new_exchange : SimulatorConfig → SimulatedExchange
new_exchange config = record {
  config = config;
  books = [];
  resting_orders = [];
  pending_events = [];
  next_exchange_id = 1;
}

-- `pending_events.push_back`.
abbrev pub push : SimulatedExchange → List Event → SimulatedExchange
push x events = record x { pending_events = x.pending_events ++ events }

-- The side of a book that an order of a side meets.
unfoldable pub facing : SimBook → Side → BTreeMap ℕ
facing b buy = b.asks
facing b sell = b.bids

abbrev pub with_facing : SimBook → Side → BTreeMap ℕ → SimBook
with_facing b buy side = record b { asks = side }
with_facing b sell side = record b { bids = side }

unfoldable pub limit_of : OrderType → ℤ → Option ℤ
limit_of market price = none
limit_of limit price = some price
limit_of stop_limit price = some price
limit_of stop_market price = none

unfoldable pub limit_price : OrderNewEvent → Option ℤ
unfolding limit_of
limit_price o = limit_of o.order_type o.price

-- The sum that the check of a fill-or-kill order compares, in `u64`.
unfoldable pub available : Option SimBook → Side → Option ℤ → ℕ
available none side limit_price = 0
available (some b) side limit_price =
    sum_u64 (map (λ e. e.1) (filter (λ e. not (is_beyond side limit_price e.0)) (facing b side)))

abbrev pub is_empty {ℓ} : {A : Type ℓ} → List A → Bool
is_empty [] = true
is_empty (x ∷ xs) = false

unfoldable pub has_liquidity : Option SimBook → Side → Bool
has_liquidity none side = false
has_liquidity (some b) side = not (is_empty (facing b side))

unfoldable pub fee : ℤ → ℕ → ℤ → ℤ
fee price qty bps = div_i64 (mul_i64 (mul_i64 price (u64_as_i64 qty)) bps) (pos 10_000)

module _ (o : OrderNewEvent) (source : NodeId) where
  unfoldable pub reject_event : ℕ → String → Event
  unfolding new_event
  reject_event ts reason =
      new_event 0 ts source
        (order_reject (record { order_id = o.order_id; reason = reason; venue = simulated }))

  unfoldable pub ack_event : ℕ → ℕ → Event
  unfolding new_event
  ack_event ts exchange_id = new_event 0 ts source (
      order_ack (record {
        order_id = o.order_id;
        exchange_order_id = str_append "SIM-" (show_u64 exchange_id);
        venue = simulated;
      }))

  unfoldable pub cancel_event : ℕ → String → Event
  unfolding new_event
  cancel_event ts reason =
      new_event 0 ts source
        (order_cancel (record { order_id = o.order_id; reason = reason; venue = simulated }))

  unfoldable pub fill_event : ℕ → ℤ → MatchFill → ℕ → Event
  unfolding new_event
  fill_event ts bps f remaining = new_event 0 ts source (
      order_fill (record {
        order_id = o.order_id;
        symbol = o.symbol;
        side = o.side;
        price = f.price;
        qty = f.qty;
        remaining = remaining;
        fee = fee f.price f.qty bps;
        is_maker = false;
        venue = simulated;
      }))

  -- The loop over the fills, with the quantity that is left before it.
  unfoldable pub fill_events : ℕ → ℤ → ℕ → List MatchFill → List Event
  unfolding fill_event
  fill_events ts bps remaining [] = []
  fill_events ts bps remaining (f ∷ fs) =
      fill_event ts bps f (remaining - f.qty) ∷ fill_events ts bps (remaining - f.qty) fs

-- Matching against the book of the order's pair, if there is one.
unfoldable pub match_book : Option SimBook → OrderNewEvent → Matching
match_book none o = record { book_side = []; remaining = o.qty; fills = [] }
match_book (some b) o = match_order (facing b o.side) o.side o.qty (limit_price o)

unfoldable pub put_book :
    String → Option SimBook → Side → BTreeMap ℕ → HashMap String SimBook → HashMap String SimBook
put_book key none side book_side books = books
put_book key (some b) side book_side books = HashMap.insert key (with_facing b side book_side) books

unfoldable pub sim_order : OrderNewEvent → ℕ → ℕ → NodeId → SimOrder
sim_order o remaining timestamp source = record {
  order_id = o.order_id;
  symbol = o.symbol;
  side = o.side;
  order_type = o.order_type;
  price = o.price;
  qty = o.qty;
  remaining = remaining;
  time_in_force = o.time_in_force;
  submitted_at = timestamp;
  source = source;
}

-- The `match` on the unfilled rest.
unfoldable pub settle_rest :
    SimulatedExchange → OrderNewEvent → ℕ → ℕ → NodeId → TimeInForce → ℕ → SimulatedExchange
settle_rest x o timestamp fill_ts source immediate_or_cancel rest =
    push x (cancel_event o source fill_ts "ioc_expired" ∷ [])
settle_rest x o timestamp fill_ts source fill_or_kill rest = x
settle_rest x o timestamp fill_ts source tif rest =
    if is_limit o.order_type
    then record x {
      resting_orders =
          HashMap.insert o.order_id (sim_order o rest timestamp source) x.resting_orders;
    }
    else x

-- `submit_order` from the ack on.
unfoldable pub accept_order : SimulatedExchange → OrderNewEvent → ℕ → NodeId → SimulatedExchange
unfolding match_book put_book settle_rest
accept_order x o timestamp source =
    let ack_ts = u64 (timestamp + x.config.ack_latency_ns) in
    let fill_ts = u64 (timestamp + x.config.fill_latency_ns) in
    let key = pair o.symbol in
    let book = HashMap.get key x.books in
    let m = match_book book o in
    let x' = record x {
      next_exchange_id = u64 (x.next_exchange_id + 1);
      books = put_book key book o.side m.book_side x.books;
      pending_events =
          x.pending_events
          ++ ack_event o source ack_ts x.next_exchange_id
            ∷ fill_events o source fill_ts x.config.taker_fee_bps o.qty m.fills;
    } in
    if ltb 0 m.remaining
    then settle_rest x' o timestamp fill_ts source o.time_in_force m.remaining
    else x'

unfoldable pub submit_order : SimulatedExchange → OrderNewEvent → ℕ → NodeId → SimulatedExchange
unfolding accept_order available has_liquidity
submit_order x o timestamp source =
    let ack_ts = u64 (timestamp + x.config.ack_latency_ns) in
    let book = HashMap.get (pair o.symbol) x.books in
    if is_fill_or_kill o.time_in_force && ltb (available book o.side (limit_price o)) o.qty
    then push x (reject_event o source ack_ts "fok_unfillable" ∷ [])
    else if is_market o.order_type && not (has_liquidity book o.side)
    then push x (reject_event o source ack_ts "no_liquidity" ∷ [])
    else accept_order x o timestamp source
