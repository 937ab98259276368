-- ===== src/Simulator/Match/Volume.antt =====
-- How much `match_order` takes from a book.
use atomic_mesh.Base.{
  ℕ, ◌+◌, ◌<◌, min, ◌≡◌, refl, ◌∙◌, false, Option, none, some, List, [], ◌∷◌, ◌++◌, All, All-append,
  arith, nat_eq, ℤ, int_eq,
}
use atomic_mesh.Base.BTreeMap.{BTreeMap, get}
use atomic_mesh.Core.Types.{Side}
use atomic_mesh.Simulator.Match.{
  MatchFill, Matching, is_beyond, consume_at, match_prices, prices_for, match_order,
}

abbrev pub total_qty : List MatchFill → ℕ
total_qty [] = 0
total_qty (f ∷ fs) = f.qty + total_qty fs

total_qty-append : (fs gs : List MatchFill) → total_qty (fs ++ gs) ≡ total_qty fs + total_qty gs
total_qty-append [] gs = omega arith
total_qty-append (f ∷ fs) gs = omega (arith, total_qty-append fs gs)

-- A fill takes something, at a price within the limit.
abbrev pub FillOk : Side → Option ℤ → MatchFill → Type 0
FillOk side limit f = (0 < f.qty) × (is_beyond side limit f.price ≡ false)

consume_at-total :
    (p : ℤ) (r : Option ℕ) (m : Matching)
    → total_qty (consume_at p r m).fills + (consume_at p r m).remaining
      ≡ total_qty m.fills + m.remaining
unfolding consume_at
consume_at-total p none m = refl
consume_at-total p (some avail) m =
    ground
      (arith, total_qty-append m.fills (record { price = p; qty = min m.remaining avail } ∷ []))

match_prices-total :
    (side : Side) (limit : Option ℤ) (ps : List ℤ) (m : Matching)
    → total_qty (match_prices side limit ps m).fills + (match_prices side limit ps m).remaining
      ≡ total_qty m.fills + m.remaining
unfolding match_prices
match_prices-total side limit [] m = refl
match_prices-total side limit (p ∷ ps) m = ground (
  arith,
  match_prices-total side limit ps (consume_at p (get p m.book_side) m),
  consume_at-total p (get p m.book_side) m,
)

consume_at-FillOk :
    (side : Side) (limit : Option ℤ) (p : ℤ) (r : Option ℕ) (m : Matching)
    → is_beyond side limit p ≡ false
    → All (FillOk side limit) m.fills
    → All (FillOk side limit) (consume_at p r m).fills
unfolding consume_at
consume_at-FillOk side limit p none m b a = a
consume_at-FillOk side limit p (some avail) m b a = ground (
  arith,
  All-append (FillOk side limit) m.fills (record { price = p; qty = min m.remaining avail } ∷ []) a,
)

match_prices-FillOk :
    (side : Side) (limit : Option ℤ) (ps : List ℤ) (m : Matching)
    → All (FillOk side limit) m.fills
    → All (FillOk side limit) (match_prices side limit ps m).fills
unfolding match_prices
match_prices-FillOk side limit [] m a = a
match_prices-FillOk side limit (p ∷ ps) m a = ground (
  arith,
  match_prices-FillOk side limit ps (consume_at p (get p m.book_side) m),
  consume_at-FillOk side limit p (get p m.book_side) m,
)

-- What the fills of a match take and what remains is the order's quantity, and each fill takes
-- something at a price that is not beyond the limit.
pub match_order_sound :
    (book : BTreeMap ℕ) (side : Side) (qty : ℕ) (limit : Option ℤ)
    → let m = match_order book side qty limit in
      (total_qty m.fills + m.remaining ≡ qty) × All (FillOk side limit) m.fills
unfolding match_order
match_order_sound book side qty limit =
    let start : Matching = record { book_side = book; remaining = qty; fills = [] } in
    (
      match_prices-total side limit (prices_for side book) start ∙ omega arith,
      match_prices-FillOk side limit (prices_for side book) start tt,
    )
