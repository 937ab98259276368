-- ===== src/Core/Types.antt =====
-- crates/atomic-core/src/types.rs. A `Price` is an `i64` of pipettes and a `Qty` a `u64` of base
-- units; the newtypes are their numbers. The conversions from and to `f64` are left out.
pub mod Ids
use atomic_mesh.Base.{
  ◌&&◌, string_eq, ℕ, ◌≡◌, ◌↔◌, Bool, true, false, String, List, Option, none, some, arith, Eq,
  ◌==◌, nat_eq, ℤ, pos, get_elem?, str_append,
}
use atomic_mesh.Base.Word.{add_i64, sub_i64, mul_i64, div_i64, u64_as_i64}
use atomic_mesh.Base.Decimal.{show_u64}

pub data Venue : Type 0 where
  binance bybit okx deribit coinbase kraken dydx hyperliquid simulated : Venue

unfoldable pub display_venue : Venue → String
display_venue binance = "binance"
display_venue bybit = "bybit"
display_venue okx = "okx"
display_venue deribit = "deribit"
display_venue coinbase = "coinbase"
display_venue kraken = "kraken"
display_venue dydx = "dydx"
display_venue hyperliquid = "hyperliquid"
display_venue simulated = "simulated"

pub data Side : Type 0 where
  buy sell : Side

unfoldable pub opposite : Side → Side
opposite buy = sell
opposite sell = buy

abbrev pub side_beq : Side → Side → Bool
side_beq buy buy = true
side_beq sell sell = true
side_beq _ _ = false

pub side_beq_decides : (a b : Side) → (side_beq a b ≡ true) ↔ (a ≡ b)
side_beq_decides a b = ground arith

instance abbrev pub side_eq : Eq Side
side_eq = record { beq = side_beq; beq_decides = side_beq_decides }

pub data OrderType : Type 0 where
  market limit stop_market stop_limit : OrderType

-- `order_type == OrderType::Market` and `== OrderType::Limit`.
abbrev pub is_market : OrderType → Bool
is_market market = true
is_market _ = false

abbrev pub is_limit : OrderType → Bool
is_limit limit = true
is_limit _ = false

pub data TimeInForce : Type 0 where
  good_til_cancel immediate_or_cancel fill_or_kill : TimeInForce
  good_til_date : ℕ → TimeInForce

-- `time_in_force == TimeInForce::FillOrKill`.
abbrev pub is_fill_or_kill : TimeInForce → Bool
is_fill_or_kill fill_or_kill = true
is_fill_or_kill _ = false

abbrev pub Price : Type 0
Price = ℤ

-- The sum wraps around; the quotient rounds towards zero.
unfoldable pub midpoint : Price → Price → Price
midpoint a b = div_i64 (add_i64 a b) (pos 2)

abbrev pub Qty : Type 0
Qty = ℕ

pub record Symbol : Type 0 where
  pub base : String
  pub quote : String
  pub venue : Venue

-- The number of a venue, to compare two.
abbrev pub venue_index : Venue → ℕ
venue_index binance = 0
venue_index bybit = 1
venue_index okx = 2
venue_index deribit = 3
venue_index coinbase = 4
venue_index kraken = 5
venue_index dydx = 6
venue_index hyperliquid = 7
venue_index simulated = 8

abbrev pub venue_beq : Venue → Venue → Bool
venue_beq a b = venue_index a == venue_index b

pub venue_beq_decides : (a b : Venue) → (venue_beq a b ≡ true) ↔ (a ≡ b)
venue_beq_decides a b = ground arith

instance abbrev pub venue_eq : Eq Venue
venue_eq = record { beq = venue_beq; beq_decides = venue_beq_decides }

abbrev pub symbol_beq : Symbol → Symbol → Bool
symbol_beq a b = (a.base == b.base) && ((a.quote == b.quote) && (a.venue == b.venue))

pub symbol_beq_decides : (a b : Symbol) → (symbol_beq a b ≡ true) ↔ (a ≡ b)
symbol_beq_decides a b = ground (
  arith,
  string_eq.beq_decides a.base b.base,
  string_eq.beq_decides a.quote b.quote,
  venue_beq_decides a.venue b.venue,
)

instance abbrev pub symbol_eq : Eq Symbol
symbol_eq = record { beq = symbol_beq; beq_decides = symbol_beq_decides }

unfoldable pub pair : Symbol → String
pair s = str_append s.base (str_append "/" s.quote)

abbrev pub OrderId : Type 0
OrderId = String

unfoldable pub new_order_id : Venue → ℕ → OrderId
new_order_id venue local_id = str_append (display_venue venue) (str_append "-" (show_u64 local_id))

pub record Fill : Type 0 where
  pub order_id : OrderId
  pub symbol : Symbol
  pub side : Side
  pub price : Price
  pub qty : Qty
  pub fee : ℤ
  pub timestamp : ℕ
  pub venue : Venue
  pub is_maker : Bool

pub record Position : Type 0 where
  pub symbol : Symbol
  pub side : Side
  pub qty : Qty
  pub avg_entry : Price
  pub unrealized_pnl : ℤ
  pub realized_pnl : ℤ

unfoldable pub flat : Symbol → Position
flat symbol = record {
  symbol = symbol;
  side = buy;
  qty = 0;
  avg_entry = pos 0;
  unrealized_pnl = pos 0;
  realized_pnl = pos 0;
}

unfoldable pub is_flat : Position → Bool
is_flat p = p.qty == 0

unfoldable pub notional : Position → ℤ
notional p = mul_i64 (u64_as_i64 p.qty) p.avg_entry

pub record Level : Type 0 where
  pub price : Price
  pub qty : Qty

pub record BookSnapshot : Type 0 where
  pub symbol : Symbol
  pub bids : List Level
  pub asks : List Level
  pub timestamp : ℕ
  pub seq : ℕ

unfoldable pub snapshot_best_bid : BookSnapshot → Option Level
snapshot_best_bid b = get_elem? b.bids 0

unfoldable pub snapshot_best_ask : BookSnapshot → Option Level
snapshot_best_ask b = get_elem? b.asks 0

-- The `match` of `mid_price` and that of `spread`, which the order book has too.
unfoldable pub mid_of : Option Level → Option Level → Option Price
mid_of (some bid) (some ask) = some (midpoint bid.price ask.price)
mid_of _ _ = none

unfoldable pub spread_of : Option Level → Option Level → Option ℤ
spread_of (some bid) (some ask) = some (sub_i64 ask.price bid.price)
spread_of _ _ = none

unfoldable pub snapshot_mid_price : BookSnapshot → Option Price
unfolding snapshot_best_bid snapshot_best_ask mid_of
snapshot_mid_price b = mid_of (snapshot_best_bid b) (snapshot_best_ask b)

unfoldable pub snapshot_spread : BookSnapshot → Option ℤ
unfolding snapshot_best_bid snapshot_best_ask spread_of
snapshot_spread b = spread_of (snapshot_best_bid b) (snapshot_best_ask b)
