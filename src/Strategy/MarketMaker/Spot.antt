-- ===== src/Strategy/MarketMaker/Spot.antt =====
-- What the market maker may ask for.
use atomic_mesh.Base.{
  ℕ, ◌+◌, ◌<◌, ◌≡◌, refl, Bool, true, false, not, ◌&&◌, ◌||◌, some, List, [], All, All-append,
  arith, ltb, if◌then◌else◌, Bool-cases, inl, inr, ℤ, pos, ◌≤ℤ◌, leb_ℤ, ◌==◌,
}
use atomic_mesh.Base.Word.{i64_as_u64, u64}
use atomic_mesh.Strategy.Microprice.{weighted}
use atomic_mesh.Strategy.Toxicity.{is_toxic, on_trade}
use atomic_mesh.Core.Types.{Side, buy, sell, symbol_eq}
use atomic_mesh.Core.Event.{
  Event, EventPayload, OrderBookUpdateEvent, TradeEvent, order_book_update, trade, order_fill,
  order_partial_fill, ticker, order_new, order_ack, order_cancel, order_reject, snapshot, heartbeat,
  node_join, node_leave, signal,
}
use atomic_mesh.Strategy.Traits.{
  StrategyCommand, StrategyContext, place_order, cancel_order, cancel_all,
}
use atomic_mesh.Strategy.Inventory.{InventoryManager, at_max, can_sell, sellable_qty}
use atomic_mesh.Strategy.MarketMaker.{
  MarketMaker, cancels, bids, asks, generate_quotes, should_requote, is_none, on_book,
  on_market_trade, on_own_fill, on_payload, on_event,
}

-- What an order may take, with the inventory that there is.
abbrev pub Affordable : InventoryManager → Side → ℕ → Type 0
Affordable m buy qty = at_max m ≡ false
Affordable m sell qty = (0 < qty) × (pos qty ≤ℤ m.position_qty)

abbrev pub Allowed : MarketMaker → StrategyCommand → Type 0
Allowed m (place_order p) = (p.symbol ≡ m.symbol) × Affordable m.inventory p.side p.qty
Allowed m (cancel_order id) = true ≡ false
Allowed m (cancel_all symbol) = symbol ≡ some m.symbol

sellable_qty-le :
    (m : InventoryManager) (desired : ℕ)
    → 0 < sellable_qty m desired
    → pos (sellable_qty m desired) ≤ℤ m.position_qty
unfolding sellable_qty i64_as_u64
sellable_qty-le m desired h = ground arith

cancels-Allowed : (m : MarketMaker) → All (Allowed m) (cancels m)
unfolding cancels
cancels-Allowed m = elim (Bool-cases m.has_active_quotes) [
  | inl active ↦ rw active (refl, tt)
  | inr idle ↦ rw idle tt
]

bids-Allowed : (m : MarketMaker) (fair_value : ℤ) → All (Allowed m) (bids m fair_value)
unfolding bids
bids-Allowed m fair_value = elim (Bool-cases (at_max m.inventory)) [
  | inl full ↦ rw full tt
  | inr room ↦ rw room ((refl, room), tt)
]

asks-Allowed : (m : MarketMaker) (fair_value : ℤ) → All (Allowed m) (asks m fair_value)
unfolding asks
asks-Allowed m fair_value =
    elim (Bool-cases (can_sell m.inventory && ltb 0 (sellable_qty m.inventory m.order_qty))) [
      | inl held ↦
          let some_held : 0 < sellable_qty m.inventory m.order_qty = ground (arith, held) in
          rw held ((refl, (some_held, sellable_qty-le m.inventory m.order_qty some_held)), tt)
      | inr none ↦ rw none tt
    ]

generate_quotes-Allowed :
    (m : MarketMaker) (fair_value : ℤ) → All (Allowed m) (generate_quotes m fair_value).1
unfolding generate_quotes
generate_quotes-Allowed m fair_value = All-append (Allowed m) (cancels m) _ (cancels-Allowed m) (
    All-append (Allowed m) (bids m fair_value) _ (bids-Allowed m fair_value)
      (asks-Allowed m fair_value))

either-Allowed :
    (m : MarketMaker) (b : Bool) (x y : MarketMaker × List StrategyCommand)
    → All (Allowed m) x.1
    → All (Allowed m) y.1
    → All (Allowed m) (if b then x else y).1
either-Allowed m true x y p q = p
either-Allowed m false x y p q = q

requote-Allowed :
    (m : MarketMaker) (fv : ℤ)
    → All (Allowed m) (if should_requote m fv then generate_quotes m fv else (m, [])).1
requote-Allowed m fv =
    either-Allowed m (should_requote m fv) (generate_quotes m fv) (m, [])
      (generate_quotes-Allowed m fv) tt

on_book-Allowed :
    (m : MarketMaker) (book : OrderBookUpdateEvent) → All (Allowed m) (on_book m book).1
unfolding on_book
on_book-Allowed m book =
    let m' = record m {
      book_updates_seen = u64 (m.book_updates_seen + 1);
      tick_count = u64 (m.tick_count + 1);
    } in
    let fv = weighted book.bids book.asks m.microprice_depth in
    elim (Bool-cases (ltb m'.book_updates_seen m.warmup_ticks)) [
      | inl cold ↦ rw cold tt
      | inr warm ↦ rw warm (elim (Bool-cases (is_none book.bids || is_none book.asks)) [
        | inl empty ↦ rw empty tt
        | inr full ↦ rw full (elim (Bool-cases (leb_ℤ fv (pos 0))) [
          | inl worthless ↦ rw worthless tt
          | inr priced ↦ rw priced (requote-Allowed m' fv)
        ])
      ])
    ]

on_market_trade-Allowed :
    (m : MarketMaker) (t : TradeEvent) → All (Allowed m) (on_market_trade m t).1
unfolding on_market_trade
on_market_trade-Allowed m t =
    let m' : MarketMaker = record m { toxicity = on_trade m.toxicity t.side t.qty t.price } in
    elim (Bool-cases (is_toxic m'.toxicity && m.has_active_quotes)) [
      | inl toxic ↦ rw toxic (refl, tt)
      | inr calm ↦ rw calm tt
    ]

on_payload-Allowed :
    (m : MarketMaker) (payload : EventPayload) → All (Allowed m) (on_payload m payload).1
unfolding on_payload on_own_fill
on_payload-Allowed m (order_book_update book) =
    either-Allowed m (not (book.symbol == m.symbol)) (m, []) (on_book m book) tt
      (on_book-Allowed m book)
on_payload-Allowed m (trade t) =
    either-Allowed m (not (t.symbol == m.symbol)) (m, []) (on_market_trade m t) tt
      (on_market_trade-Allowed m t)
on_payload-Allowed m (order_fill f) =
    either-Allowed m (not (f.symbol == m.symbol)) (m, []) (on_own_fill m f) tt tt
on_payload-Allowed m (order_partial_fill f) =
    either-Allowed m (not (f.symbol == m.symbol)) (m, []) (on_own_fill m f) tt tt
on_payload-Allowed m (ticker _) = tt
on_payload-Allowed m (order_new _) = tt
on_payload-Allowed m (order_ack _) = tt
on_payload-Allowed m (order_cancel _) = tt
on_payload-Allowed m (order_reject _) = tt
on_payload-Allowed m (snapshot _) = tt
on_payload-Allowed m (heartbeat _) = tt
on_payload-Allowed m (node_join _) = tt
on_payload-Allowed m (node_leave _) = tt
on_payload-Allowed m (signal _) = tt

-- Whatever happens, the market maker acts on its own symbol only: it cancels all orders of that
-- symbol, buys while it holds less than its greatest inventory, and sells a quantity above 0 that it
-- holds. It never asks for a short position.
pub on_event-Allowed :
    (m : MarketMaker) (event : Event) (ctx : StrategyContext)
    → All (Allowed m) (on_event m event ctx).1
unfolding on_event
on_event-Allowed m event ctx = on_payload-Allowed m event.payload
