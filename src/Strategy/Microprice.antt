-- ===== src/Strategy/Microprice.antt =====
-- crates/atomic-strategy/src/microprice.rs. Sums and products are `i128`s.
pub mod Bounds
use atomic_mesh.Base.{
  ℕ, suc, ◌-◌, min, List, [], ◌∷◌, length, ◌==◌, nat_eq, int_eq, if◌then◌else◌, ℤ, pos, ◌+ℤ◌, ◌-ℤ◌,
  ◌*ℤ◌, quot_ℤ, Bool, true, false, ◌||◌,
}
use atomic_mesh.Base.Word.{i64, i128, add_i128, mul_i128, add_i64, div_i64}
use atomic_mesh.Core.Types.{Level, Price}

-- The prices of two levels, each times the quantity of the other.
unfoldable pub crossed : Level → Level → ℤ
crossed bid ask = add_i128 (mul_i128 ask.price (pos bid.qty)) (mul_i128 bid.price (pos ask.qty))

-- `compute`.
unfoldable pub microprice : Level → Level → Price
unfolding crossed
microprice bid ask =
    let total = add_i128 (pos bid.qty) (pos ask.qty) in
    if total == pos 0
    then div_i64 (add_i64 bid.price ask.price) (pos 2)
    else i64 (i128 (quot_ℤ (crossed bid ask) total))

-- The loop of `compute_weighted`, with the weight of the next level: the numerator and the
-- denominator.
unfoldable pub weigh : ℤ → ℤ → ℕ → List Level → List Level → ℤ × ℤ
unfolding crossed
weigh numerator denominator (suc w) (bid ∷ bids) (ask ∷ asks) =
    weigh (add_i128 numerator (mul_i128 (crossed bid ask) (pos (suc w))))
      (add_i128 denominator (mul_i128 (add_i128 (pos bid.qty) (pos ask.qty)) (pos (suc w)))) w bids
      asks
weigh numerator denominator _ _ _ = (numerator, denominator)

abbrev pub levels_used : List Level → List Level → ℕ → ℕ
levels_used bids asks depth = min (min depth (length bids)) (length asks)

-- `compute_weighted`.
unfoldable pub weighted : List Level → List Level → ℕ → Price
unfolding microprice weigh
weighted [] asks depth = pos 0
weighted (bid ∷ bids) [] depth = pos 0
weighted (bid ∷ bids) (ask ∷ asks) depth =
    let d = levels_used (bid ∷ bids) (ask ∷ asks) depth in
    let (numerator, denominator) = weigh (pos 0) (pos 0) d (bid ∷ bids) (ask ∷ asks) in
    if d == 0
    then microprice bid ask
    else if denominator == pos 0
    then div_i64 (add_i64 bid.price ask.price) (pos 2)
    else i64 (i128 (quot_ℤ numerator denominator))

-- The loop of `imbalance` over a side.
unfoldable pub volume : ℤ → ℕ → List Level → ℤ
volume v (suc n) (l ∷ ls) = volume (add_i128 v (pos l.qty)) n ls
volume v _ _ = v

unfoldable pub imbalance : List Level → List Level → ℕ → ℤ
unfolding volume
imbalance bids asks depth =
    let d = levels_used bids asks depth in
    let bv = volume (pos 0) d bids in
    let av = volume (pos 0) d asks in
    let total = add_i128 bv av in
    if d == 0 || total == pos 0
    then pos 0
    else i64 (i128 (quot_ℤ (mul_i128 (i128 (bv -ℤ av)) (pos 10_000)) total))
