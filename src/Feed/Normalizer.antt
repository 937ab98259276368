-- ===== src/Feed/Normalizer.antt =====
-- `FeedNormalizer` of crates/atomic-feed/src/normalizer.rs and `RawFeedMessage` of
-- crates/atomic-feed/src/connector.rs. The type `f64` is an argument, and so are `Price::from_f64` and
-- `Qty::from_f64`, which compute in it.
pub mod RoundTrip
use Prim.Native.Char.{Char, code}
use atomic_mesh.Base.{
  ℕ, Bool, true, false, Option, none, some, String, string_eq, List, map, ◌==◌, nat_eq,
  if◌then◌else◌,
}
use atomic_mesh.Core.Types.{Level, Price, Qty, Symbol, Venue, buy, sell}
use atomic_mesh.Core.Event.{EventPayload, order_book_update, trade}

-- `replace(c, "")` for the character of a code.
unfoldable pub without : ℕ → String → String
without n String.[] = String.[]
without n (String.◌∷◌ c s) =
    let rest = without n s in if code c == n then rest else String.◌∷◌ c rest

abbrev pub behind : Char → Option String → Option String
behind c none = none
behind c (some s) = some (String.◌∷◌ c s)

-- What stands before an ending, where a text has it: `ends_with` and the slice.
unfoldable pub strip_suffix : String → String → Option String
strip_suffix String.[] t = if String.[] == t then some String.[] else none
strip_suffix (String.◌∷◌ c s) t =
    let rest = strip_suffix s t in if String.◌∷◌ c s == t then some String.[] else behind c rest

pub record FeedNormalizer : Type 0 where
  pub venue : Venue
  pub price_decimals : ℕ
  pub qty_decimals : ℕ

pub data RawFeedMessage (F : Type 0) : Type 0 where
  order_book_snapshot : String → List (F × F) → List (F × F) → ℕ → RawFeedMessage F
  order_book_delta : String → List (F × F) → List (F × F) → ℕ → RawFeedMessage F
  raw_trade : String → F → F → Bool → ℕ → RawFeedMessage F

abbrev symbol_of : Venue → String → String → Symbol
symbol_of venue base quote = record { base = base; quote = quote; venue = venue }

-- The branches of `parse_symbol`, on what stands before each of the three endings.
unfoldable pub symbol_by_suffix :
    Venue → String → Option String → Option String → Option String → Symbol
symbol_by_suffix venue clean (some base) usd btc = symbol_of venue base "USDT"
symbol_by_suffix venue clean none (some base) btc = symbol_of venue base "USD"
symbol_by_suffix venue clean none none (some base) = symbol_of venue base "BTC"
symbol_by_suffix venue clean none none none = symbol_of venue clean "UNKNOWN"

unfoldable pub parse_symbol : FeedNormalizer → String → Symbol
unfolding without strip_suffix symbol_by_suffix
parse_symbol n raw =
    let clean = without 47 (without 45 raw) in
    symbol_by_suffix n.venue clean (strip_suffix clean "USDT") (strip_suffix clean "USD")
      (strip_suffix clean "BTC")

module _ {F : Type 0} (price_from_f64 : F → ℕ → Price) (qty_from_f64 : F → ℕ → Qty) where
  unfoldable pub convert_levels : FeedNormalizer → List (F × F) → List Level
  convert_levels n raw =
      map
        (λ l. record {
          price = price_from_f64 l.0 n.price_decimals;
          qty = qty_from_f64 l.1 n.qty_decimals;
        })
        raw

  unfoldable pub normalize : FeedNormalizer → RawFeedMessage F → Option EventPayload
  unfolding parse_symbol convert_levels
  normalize n (order_book_snapshot symbol bids asks timestamp) = some (
      order_book_update (record {
        symbol = parse_symbol n symbol;
        bids = convert_levels n bids;
        asks = convert_levels n asks;
        is_snapshot = true;
        exchange_ts = timestamp;
      }))
  normalize n (order_book_delta symbol bids asks timestamp) = some (
      order_book_update (record {
        symbol = parse_symbol n symbol;
        bids = convert_levels n bids;
        asks = convert_levels n asks;
        is_snapshot = false;
        exchange_ts = timestamp;
      }))
  normalize n (raw_trade symbol price qty is_buy timestamp) = some (
      trade (record {
        symbol = parse_symbol n symbol;
        price = price_from_f64 price n.price_decimals;
        qty = qty_from_f64 qty n.qty_decimals;
        side = if is_buy then buy else sell;
        exchange_ts = timestamp;
      }))
