-- ===== src/OrderBook/Best.antt =====
-- The best prices of the book.
use atomic_mesh.Base.{
  ℕ, ◌≡◌, refl, ap, ◌⊎◌, inl, inr, none, some, [], ◌∷◌, All, All-imp, arith, ℤ, ◌≤ℤ◌, eq_of_parts,
}
use atomic_mesh.Base.BTreeMap.{BTreeMap, first, last, get, IsSorted}
use atomic_mesh.Core.Types.{Level, Qty}
use atomic_mesh.OrderBook.{OrderBook, best_bid, best_ask, to_level, level_of}
use atomic_mesh.OrderBook.WellFormed.{IsWellFormed}

-- The last entry of a sorted map has its greatest key, and is found under it.
last-greatest :
    (k : ℤ) (v : ℕ) (m : BTreeMap ℕ)
    → IsSorted ((k, v) ∷ m)
    → (e : ℤ × ℕ) × (last ((k, v) ∷ m) ≡ some e)
      × All (λ d. d.0 ≤ℤ e.0) ((k, v) ∷ m)
      × (get e.0 ((k, v) ∷ m) ≡ some e.1)
unfolding last get
last-greatest k v [] s = ((k, v), refl, (omega arith, tt), ground arith)
last-greatest k v ((j, w) ∷ m) s =
    let (e, found, greatest, there) = last-greatest j w m s.1 in
    (e, found, (omega arith, greatest), ground (arith, eq_of_parts k e.0))

least-first :
    (k : ℤ) (v : ℕ) (m : BTreeMap ℕ) → IsSorted ((k, v) ∷ m) → All (λ d. k ≤ℤ d.0) ((k, v) ∷ m)
least-first k v m s = (omega arith, All-imp (λ d a. omega arith) m s.0)

bid_side :
    (m : BTreeMap Qty)
    → IsSorted m
    → ((m ≡ []) × (level_of (last m) ≡ none))
      ⊎ ((l : Level) × (level_of (last m) ≡ some l)
          × (get l.price m ≡ some l.qty)
          × All (λ e. e.0 ≤ℤ l.price) m)
unfolding last
bid_side [] s = inl (refl, refl)
bid_side ((k, v) ∷ m) s =
    let (e, found, greatest, there) = last-greatest k v m s in
    inr (to_level e, ap level_of found, there, greatest)

ask_side :
    (m : BTreeMap Qty)
    → IsSorted m
    → ((m ≡ []) × (level_of (first m) ≡ none))
      ⊎ ((l : Level) × (level_of (first m) ≡ some l)
          × (get l.price m ≡ some l.qty)
          × All (λ e. l.price ≤ℤ e.0) m)
unfolding get
ask_side [] s = inl (refl, refl)
ask_side ((k, v) ∷ m) s = inr (to_level (k, v), refl, ground arith, least-first k v m s)

-- In a well-formed book `best_bid` returns nothing for an empty side, and otherwise a level that
-- the book holds, such that no bid has a higher price.
pub best_bid_greatest :
    (b : OrderBook)
    → IsWellFormed b
    → ((b.bids ≡ []) × (best_bid b ≡ none))
      ⊎ ((l : Level) × (best_bid b ≡ some l)
          × (get l.price b.bids ≡ some l.qty)
          × All (λ e. e.0 ≤ℤ l.price) b.bids)
unfolding best_bid
best_bid_greatest b w = bid_side b.bids w.bids_ok.sorted

-- In a well-formed book `best_ask` returns nothing for an empty side, and otherwise a level that
-- the book holds, such that no ask has a lower price.
pub best_ask_least :
    (b : OrderBook)
    → IsWellFormed b
    → ((b.asks ≡ []) × (best_ask b ≡ none))
      ⊎ ((l : Level) × (best_ask b ≡ some l)
          × (get l.price b.asks ≡ some l.qty)
          × All (λ e. l.price ≤ℤ e.0) b.asks)
unfolding best_ask
best_ask_least b w = ask_side b.asks w.asks_ok.sorted

-- In a well-formed book `best_bid` and `best_ask` return nothing for an empty side, and otherwise a
-- level that the book holds, such that no bid has a higher price and no ask a lower one.
pub best_prices :
    (b : OrderBook)
    → IsWellFormed b
    → (((b.bids ≡ []) × (best_bid b ≡ none))
        ⊎ ((l : Level) × (best_bid b ≡ some l)
            × (get l.price b.bids ≡ some l.qty)
            × All (λ e. e.0 ≤ℤ l.price) b.bids))
      × (((b.asks ≡ []) × (best_ask b ≡ none))
          ⊎ ((l : Level) × (best_ask b ≡ some l)
              × (get l.price b.asks ≡ some l.qty)
              × All (λ e. l.price ≤ℤ e.0) b.asks))
best_prices b w = (best_bid_greatest b w, best_ask_least b w)
