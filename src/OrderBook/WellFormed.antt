-- ===== src/OrderBook/WellFormed.antt =====
-- The invariant of the order book.
use atomic_mesh.Base.{
  ℕ, ◌<◌, List, [], ◌∷◌, All, arith, Bool-cases, inl, inr, ◌==◌, nat_eq, ltb, ltb→lt, ℤ,
  if◌then◌else◌,
}
use atomic_mesh.Base.BTreeMap.{
  BTreeMap, insert, remove, IsSorted, insert-IsSorted, remove-IsSorted, All-insert, All-remove,
}
use atomic_mesh.Core.Types.{Level, Qty, Symbol}
use atomic_mesh.Core.Event.{OrderBookUpdateEvent}
use atomic_mesh.OrderBook.{
  OrderBook, new, insert_levels, update_levels, apply_snapshot, apply_delta,
}

-- The prices of a side rise strictly, and no level of it is empty.
pub record IsSide (side : BTreeMap Qty) : Type 0 where
  pub sorted : IsSorted side
  pub positive : All (λ e. 0 < e.1) side

pub record IsWellFormed (b : OrderBook) : Type 0 where
  pub bids_ok : IsSide b.bids
  pub asks_ok : IsSide b.asks

pub empty-IsSide : IsSide []
empty-IsSide = record { sorted = tt; positive = tt }

pub insert-IsSide :
    (p : ℤ) (q : Qty) (side : BTreeMap Qty) → 0 < q → IsSide side → IsSide (insert p q side)
insert-IsSide p q side h s = record {
  sorted = insert-IsSorted p q side s.sorted;
  positive = All-insert (λ e. 0 < e.1) p q side h s.positive;
}

pub remove-IsSide : (p : ℤ) (side : BTreeMap Qty) → IsSide side → IsSide (remove p side)
remove-IsSide p side s = record {
  sorted = remove-IsSorted p side s.sorted;
  positive = All-remove (λ e. 0 < e.1) p side s.positive;
}

pub insert_levels-IsSide :
    (ls : List Level) (side : BTreeMap Qty) → IsSide side → IsSide (insert_levels ls side)
unfolding insert_levels
insert_levels-IsSide [] side s = s
insert_levels-IsSide (l ∷ ls) side s = elim (Bool-cases (ltb 0 l.qty)) [
  | inl t ↦ rw t (insert_levels-IsSide ls _ (insert-IsSide l.price l.qty side (ltb→lt 0 l.qty t) s))
  | inr f ↦ rw f (insert_levels-IsSide ls side s)
]

pub update_levels-IsSide :
    (ls : List Level) (side : BTreeMap Qty) → IsSide side → IsSide (update_levels ls side)
unfolding update_levels
update_levels-IsSide [] side s = s
update_levels-IsSide (l ∷ ls) side s = elim (Bool-cases (l.qty == 0)) [
  | inl t ↦ rw t (update_levels-IsSide ls _ (remove-IsSide l.price side s))
  | inr f ↦ rw f (update_levels-IsSide ls _ (insert-IsSide l.price l.qty side (ground arith) s))
]

pub new-IsWellFormed : (symbol : Symbol) → IsWellFormed (new symbol)
unfolding new
new-IsWellFormed symbol = record { bids_ok = empty-IsSide; asks_ok = empty-IsSide }

-- A snapshot makes any book well formed, whatever levels it brings.
pub apply_snapshot-IsWellFormed :
    (b : OrderBook) (bids asks : List Level) (seq ts : ℕ)
    → IsWellFormed (apply_snapshot b bids asks seq ts)
unfolding apply_snapshot
apply_snapshot-IsWellFormed b bids asks seq ts = record {
  bids_ok = insert_levels-IsSide bids [] empty-IsSide;
  asks_ok = insert_levels-IsSide asks [] empty-IsSide;
}

-- A delta keeps a book well formed, whatever levels it brings.
pub apply_delta-IsWellFormed :
    (b : OrderBook) (bids asks : List Level) (seq ts : ℕ)
    → IsWellFormed b
    → IsWellFormed (apply_delta b bids asks seq ts)
unfolding apply_delta
apply_delta-IsWellFormed b bids asks seq ts w = record {
  bids_ok = update_levels-IsSide bids b.bids w.bids_ok;
  asks_ok = update_levels-IsSide asks b.asks w.asks_ok;
}

-- The updates of a feed with their sequence numbers, the older first.
abbrev pub updates : OrderBook → List (ℕ × OrderBookUpdateEvent) → OrderBook
updates b [] = b
updates b ((seq, u) ∷ us) =
    updates
      (if u.is_snapshot
        then apply_snapshot b u.bids u.asks seq u.exchange_ts
        else apply_delta b u.bids u.asks seq u.exchange_ts)
      us

updates-keeps :
    (us : List (ℕ × OrderBookUpdateEvent)) (b : OrderBook)
    → IsWellFormed b
    → IsWellFormed (updates b us)
updates-keeps [] b w = w
updates-keeps ((seq, u) ∷ us) b w = elim (Bool-cases u.is_snapshot) [
  | inl whole ↦ rw whole (
      updates-keeps us (apply_snapshot b u.bids u.asks seq u.exchange_ts)
        (apply_snapshot-IsWellFormed b u.bids u.asks seq u.exchange_ts))
  | inr part ↦ rw part (
      updates-keeps us (apply_delta b u.bids u.asks seq u.exchange_ts)
        (apply_delta-IsWellFormed b u.bids u.asks seq u.exchange_ts w))
]

-- Whatever snapshots and deltas a new book gets, it stays well formed: each side has its prices in
-- strictly rising order and no level without a quantity.
pub updates-IsWellFormed :
    (symbol : Symbol) (us : List (ℕ × OrderBookUpdateEvent))
    → IsWellFormed (updates (new symbol) us)
updates-IsWellFormed symbol us = updates-keeps us (new symbol) (new-IsWellFormed symbol)
