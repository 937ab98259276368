-- ===== src/Router.antt =====
-- crates/atomic-router/src/router.rs. The share of a venue in `route_vwap`, computed in `f64`, is an
-- argument: `share qty depth total` stands for `(qty as f64 * (depth as f64 / total as f64)).round()`
-- cast to `u64`. A panic is `none`.
pub mod BestVenue
pub mod Sweep
pub mod Twap
mod Tests
use atomic_mesh.Base.{
  ℕ, zero, suc, ◌/◌, Bool, true, false, Option, none, some, String, string_eq, List, [], ◌∷◌, ◌++◌,
  map, ◌==◌, nat_eq, Eq, ◌&&◌, ◌≡◌, ◌↔◌, arith, if◌then◌else◌, ℤ, pos, ltb_ℤ, leb_ℤ,
}
use atomic_mesh.Base.Word.{u64_as_i64, i64_as_u64, sub_i64, min_i64, sum_u64}
use atomic_mesh.Base.HashMap.{HashMap, insert}
use atomic_mesh.Core.Types.{
  OrderType, Price, Qty, Side, Symbol, TimeInForce, Venue, Level, buy, sell, limit,
  immediate_or_cancel, pair, venue_eq,
}
use atomic_mesh.OrderBook.{OrderBook, best_bid, best_ask, top_bids, top_asks, bid_depth, ask_depth}

pub data RoutingAlgo : Type 0 where
  best_venue : RoutingAlgo
  vwap : RoutingAlgo
  twap : ℕ → ℕ → RoutingAlgo
  liquidity_sweep : RoutingAlgo

pub record OrderSlice : Type 0 where
  pub venue : Venue
  pub symbol : Symbol
  pub side : Side
  pub order_type : OrderType
  pub price : Price
  pub qty : Qty
  pub time_in_force : TimeInForce

abbrev pub key_beq : String × Venue → String × Venue → Bool
key_beq a b = (a.0 == b.0) && (a.1 == b.1)

pub key_beq_decides : (a b : String × Venue) → (key_beq a b ≡ true) ↔ (a ≡ b)
key_beq_decides a b = ground (arith, string_eq.beq_decides a.0 b.0, venue_eq.beq_decides a.1 b.1)

instance abbrev pub key_eq : Eq (String × Venue)
key_eq = record { beq = key_beq; beq_decides = key_beq_decides }

abbrev pub Books : Type 0
Books = HashMap (String × Venue) OrderBook

pub record SmartOrderRouter : Type 0 where
  pub books : Books

unfoldable pub new_router : SmartOrderRouter
new_router = record { books = [] }

unfoldable pub update_book : SmartOrderRouter → String → Venue → OrderBook → SmartOrderRouter
update_book r symbol venue book = record r { books = insert (symbol, venue) book r.books }

unfoldable pub slice : Symbol → Side → Venue → Price → Qty → OrderSlice
slice symbol side venue price qty = record {
  venue = venue;
  symbol = symbol;
  side = side;
  order_type = limit;
  price = price;
  qty = qty;
  time_in_force = immediate_or_cancel;
}

-- The level that an order of a side meets first, and what that order prefers.
abbrev pub facing_level : OrderBook → Side → Option Level
facing_level book buy = best_ask book
facing_level book sell = best_bid book

abbrev pub is_better : Side → Price → Price → Bool
is_better buy p bp = ltb_ℤ p bp
is_better sell p bp = ltb_ℤ bp p

abbrev pub better_of : Side → Venue → Option Level → Option (Venue × Price) → Option (Venue × Price)
better_of side venue none best = best
better_of side venue (some l) none = some (venue, l.price)
better_of side venue (some l) (some b) =
    if is_better side l.price b.1 then some (venue, l.price) else some b

-- The loop of `route_best_venue`.
unfoldable pub best_price : String → Side → Books → Option (Venue × Price) → Option (Venue × Price)
best_price p side [] best = best
best_price p side (((sym, venue), book) ∷ books) best =
    best_price p side books
      (if sym == p then better_of side venue (facing_level book side) best else best)

abbrev one_slice : Symbol → Side → Qty → Option (Venue × Price) → List OrderSlice
one_slice symbol side qty none = []
one_slice symbol side qty (some (venue, price)) = slice symbol side venue price qty ∷ []

unfoldable pub route_best_venue : SmartOrderRouter → Symbol → Side → Qty → List OrderSlice
unfolding best_price slice
route_best_venue r symbol side qty =
    one_slice symbol side qty (best_price (pair symbol) side r.books none)

-- What a venue offers to an order of a side.
abbrev depth_of : OrderBook → Side → ℕ
depth_of book buy = ask_depth book
depth_of book sell = bid_depth book

abbrev priced : Venue → ℕ → Option Level → List (Venue × ℕ × Price)
priced venue depth none = []
priced venue depth (some l) = (venue, depth, l.price) ∷ []

unfoldable pub venue_depths : String → Side → Books → List (Venue × ℕ × Price)
venue_depths p side [] = []
venue_depths p side (((sym, venue), book) ∷ books) =
    let rest = venue_depths p side books in
    if sym == p then priced venue (depth_of book side) (facing_level book side) ++ rest else rest

module _ (share : ℕ → ℕ → ℕ → ℕ) where
  unfoldable pub shares : Symbol → Side → Qty → ℕ → List (Venue × ℕ × Price) → List OrderSlice
  unfolding slice
  shares symbol side qty total [] = []
  shares symbol side qty total ((venue, depth, price) ∷ ds) =
      let slice_qty = share qty depth total in
      let rest = shares symbol side qty total ds in
      if slice_qty == 0 then rest else slice symbol side venue price slice_qty ∷ rest

  unfoldable pub route_vwap : SmartOrderRouter → Symbol → Side → Qty → List OrderSlice
  unfolding venue_depths shares
  route_vwap r symbol side qty =
      let ds = venue_depths (pair symbol) side r.books in
      let total_depth = sum_u64 (map (λ d. d.1) ds) in
      if total_depth == 0 then [] else shares symbol side qty total_depth ds

-- The loop of `route_twap`.
unfoldable pub repeated : ℕ → List OrderSlice → List OrderSlice
repeated zero xs = []
repeated (suc n) xs = xs ++ repeated n xs

unfoldable pub route_twap : SmartOrderRouter → Symbol → Side → Qty → ℕ → Option (List OrderSlice)
unfolding route_best_venue repeated
route_twap r symbol side qty slices =
    let slice_qty = qty / slices in
    if slices == 0
    then none
    else if slice_qty == 0
    then some []
    else some (repeated slices (route_best_venue r symbol side slice_qty))

abbrev pub Offer : Type 0
Offer = Venue × Level

abbrev pub levels_of : OrderBook → Side → List Level
levels_of book buy = top_asks book 20
levels_of book sell = top_bids book 20

abbrev pub offered : Venue → List Level → List Offer
offered venue = map (λ l. (venue, l))

unfoldable pub all_levels : String → Side → Books → List Offer
all_levels p side [] = []
all_levels p side (((sym, venue), book) ∷ books) =
    let rest = all_levels p side books in
    if sym == p then offered venue (levels_of book side) ++ rest else rest

-- `sort_by_key`, which keeps the order of equal prices.
abbrev pub insert_offer : Side → Offer → List Offer → List Offer
insert_offer side x [] = x ∷ []
insert_offer side x (y ∷ ys) =
    let rest = insert_offer side x ys in
    if is_better side y.1.price x.1.price then y ∷ rest else x ∷ y ∷ ys

unfoldable pub sort_offers : Side → List Offer → List Offer
sort_offers side [] = []
sort_offers side (x ∷ xs) = insert_offer side x (sort_offers side xs)

-- The last loop of `route_sweep`.
unfoldable pub sweep : Symbol → Side → List Offer → ℤ → List OrderSlice
unfolding slice
sweep symbol side [] remaining = []
sweep symbol side ((venue, l) ∷ offers) remaining =
    let fill = i64_as_u64 (min_i64 remaining (u64_as_i64 l.qty)) in
    let rest = sweep symbol side offers (sub_i64 remaining (u64_as_i64 fill)) in
    if leb_ℤ remaining (pos 0) then [] else slice symbol side venue l.price fill ∷ rest

unfoldable pub route_sweep : SmartOrderRouter → Symbol → Side → Qty → List OrderSlice
unfolding all_levels sort_offers sweep
route_sweep r symbol side qty =
    sweep symbol side (sort_offers side (all_levels (pair symbol) side r.books)) (u64_as_i64 qty)

module _ (share : ℕ → ℕ → ℕ → ℕ) where
  unfoldable pub route :
      SmartOrderRouter → Symbol → Side → Qty → RoutingAlgo → Option (List OrderSlice)
  unfolding route_best_venue route_vwap route_twap route_sweep
  route r symbol side qty best_venue = some (route_best_venue r symbol side qty)
  route r symbol side qty vwap = some (route_vwap share r symbol side qty)
  route r symbol side qty (twap slices interval_ms) = route_twap r symbol side qty slices
  route r symbol side qty liquidity_sweep = some (route_sweep r symbol side qty)
