-- ===== src/Simulator/Match.antt =====
-- The books of the simulated exchange, and `match_order`.
pub mod Volume
pub mod Complete
use atomic_mesh.Base.{
  ℕ, ◌-◌, min, Bool, true, false, Option, none, some, List, [], ◌∷◌, ◌++◌, map, reverse, ltb, ◌==◌,
  nat_eq, if◌then◌else◌, ℤ, ltb_ℤ,
}
use atomic_mesh.Base.BTreeMap.{BTreeMap, get, insert, remove}
use atomic_mesh.Core.Types.{Level, Side, buy, sell}

pub record SimBook : Type 0 where
  pub bids : BTreeMap ℕ
  pub asks : BTreeMap ℕ

unfoldable pub new_book : SimBook
new_book = record { bids = []; asks = [] }

-- A loop of `apply_levels` over one side.
unfoldable pub set_levels : List Level → BTreeMap ℕ → BTreeMap ℕ
set_levels [] side = side
set_levels (l ∷ ls) side =
    set_levels ls (if l.qty == 0 then remove l.price side else insert l.price l.qty side)

unfoldable pub apply_levels : SimBook → List Level → List Level → Bool → SimBook
unfolding set_levels
apply_levels b bids asks is_snapshot = record {
  bids = set_levels bids (if is_snapshot then [] else b.bids);
  asks = set_levels asks (if is_snapshot then [] else b.asks);
}

pub record MatchFill : Type 0 where
  pub price : ℤ
  pub qty : ℕ

-- The variables of the loop of `match_order`; the last two are its result.
pub record Matching : Type 0 where
  pub book_side : BTreeMap ℕ
  pub remaining : ℕ
  pub fills : List MatchFill

-- The price is beyond the limit.
unfoldable pub is_beyond : Side → Option ℤ → ℤ → Bool
is_beyond side none price = false
is_beyond buy (some limit) price = ltb_ℤ limit price
is_beyond sell (some limit) price = ltb_ℤ price limit

-- The body of the loop behind its `break`s, on what `book_side.get(&price)` returns.
unfoldable pub consume_at : ℤ → Option ℕ → Matching → Matching
consume_at price none m = m
consume_at price (some avail) m =
    let fill_qty = min m.remaining avail in
    if ltb 0 fill_qty
    then record m {
      remaining = m.remaining - fill_qty;
      book_side =
          if avail - fill_qty == 0
          then remove price m.book_side
          else insert price (avail - fill_qty) m.book_side;
      fills = m.fills ++ record { price = price; qty = fill_qty } ∷ [];
    }
    else m

unfoldable pub match_prices : Side → Option ℤ → List ℤ → Matching → Matching
match_prices side limit [] m = m
match_prices side limit (price ∷ prices) m =
    let rest = match_prices side limit prices (consume_at price (get price m.book_side) m) in
    if m.remaining == 0 then m else if is_beyond side limit price then m else rest

-- Buys meet the asks in rising order, sells the bids in falling order.
unfoldable pub prices_for : Side → BTreeMap ℕ → List ℤ
prices_for buy book_side = map (λ e. e.0) book_side
prices_for sell book_side = map (λ e. e.0) (reverse book_side)

unfoldable pub match_order : BTreeMap ℕ → Side → ℕ → Option ℤ → Matching
unfolding prices_for match_prices
match_order book_side side qty limit_price =
    match_prices side limit_price (prices_for side book_side)
      (record { book_side = book_side; remaining = qty; fills = [] })
