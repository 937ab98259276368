-- ===== src/Risk/Passed.antt =====
-- What holds of an order that the risk engine has let pass.
use atomic_mesh.Base.{
  ℕ, ◌+◌, ◌-◌, ◌*◌, ◌^◌, ◌≤◌, ◌<◌, ◌≡◌, refl, sym, ◌⊎◌, false, none, some, [], ◌∷◌, ◌++◌, filter,
  length, arith, ap, ◌∙◌, subst, ◌==◌, if◌then◌else◌, pos, ◌≤ℤ◌, Bool-cases, inl, inr,
}
use atomic_mesh.Base.Word.{mul_i64, mul_i64_pos, u64_as_i64, u64_as_i64_small}
use atomic_mesh.Core.Types.{Side, side_eq, Qty, Position}
use atomic_mesh.Risk.{RiskEngine, new_qty, is_recent, check_rate, check_order}
use atomic_mesh.Risk.Check.{check_order-passes, check_order-none}

-- The size of a position after an order, without wrap-around: the sum of both quantities on the same
-- side, their distance on opposite sides.
abbrev pub size_after : Position → Side → Qty → ℕ
size_after p side qty = if p.side == side then p.qty + qty else (p.qty - qty) + (qty - p.qty)

-- All that holds of an order for a position that has passed.
pub record Guarded (r : RiskEngine) (side : Side) (qty price : ℕ) (p : Position) (ts : ℕ)
    : Type 0 where
  pub alive : r.kill_switch ≡ false
  pub unbroken : r.circuit_breaker ≡ false
  pub narrow : (r.limits.max_spread ≤ℤ pos 0) ⊎ (r.current_spread ≤ℤ r.limits.max_spread)
  pub small : qty ≤ r.limits.max_order_qty
  pub position_fits : size_after p side qty ≤ r.limits.max_position_qty
  pub notional_fits : pos (size_after p side qty * price) ≤ℤ r.limits.max_notional
  pub open_fits : r.open_order_count < r.limits.max_open_orders
  pub rate_fits : length (filter (is_recent ts) r.order_timestamps) < r.limits.max_orders_per_second
  pub loss_fits : r.limits.max_loss ≤ℤ r.total_pnl

new_qty-size_after :
    (p : Position) (side : Side) (qty : Qty)
    → p.qty + qty < 2 ^ 63
    → (new_qty p side qty ≡ size_after p side qty) × (size_after p side qty < 2 ^ 63)
unfolding new_qty
new_qty-size_after p side qty h = elim (Bool-cases (p.side == side)) [
  | inl same ↦ rw same (omega arith, omega arith)
  | inr opposite ↦ rw opposite (ground arith, omega arith)
]

check_rate-passed :
    (r : RiskEngine) (ts : ℕ)
    → (check_rate r ts).1 ≡ none
    → (check_rate r ts).0
      ≡ record r { order_timestamps = filter (is_recent ts) r.order_timestamps ++ ts ∷ [] }
unfolding check_rate
check_rate-passed r ts h = ground arith

check_order-rate :
    (r : RiskEngine) (side : Side) (qty : Qty) (price : ℕ) (p : Position) (ts : ℕ)
    → (check_order r side qty (pos price) (some p) ts).1 ≡ none
    → (check_order r side qty (pos price) (some p) ts ≡ check_rate r ts)
unfolding check_order
check_order-rate r side qty price p ts h =
    rw (((check_order-none r side qty (pos price) (some p) ts).0 h).0, check_order) refl

-- An order for a symbol with a position passes only if the kill switch and the circuit breaker are
-- off, and the spread (where it is limited), the order's quantity, the size of the position after
-- the order and its notional, the number of open orders, the number of orders of the last second and
-- the total PnL are within the limits. The engine then is as before, but for the times it remembers:
-- those of the last second and the order's own. The quantities of the position and of the order sum
-- up to less than 2 ^ 63, the price is not negative, and the notional is below 2 ^ 63.
pub check_order-passed :
    (r : RiskEngine) (side : Side) (qty : Qty) (price : ℕ) (p : Position) (ts : ℕ)
    → p.qty + qty < 2 ^ 63
    → size_after p side qty * price < 2 ^ 63
    → (check_order r side qty (pos price) (some p) ts).1 ≡ none
    → Guarded r side qty price p ts
      × ((check_order r side qty (pos price) (some p) ts).0
          ≡ record r { order_timestamps = filter (is_recent ts) r.order_timestamps ++ ts ∷ [] })
check_order-passed r side qty price p ts total product passed =
    let a = (check_order-passes r side qty (pos price) (some p) ts).0 passed in
    let (size, below) = new_qty-size_after p side qty total in
    let n : ℕ = size_after p side qty in
    let notional : mul_i64 (u64_as_i64 (new_qty p side qty)) (pos price) ≡ pos (n * price) =
      ap (λ k. mul_i64 (u64_as_i64 k) (pos price)) size
      ∙ ap (λ k. mul_i64 k (pos price)) (u64_as_i64_small n below)
      ∙ mul_i64_pos n price product in
    let rated = check_order-rate r side qty price p ts passed in
    (
      record {
        alive = a.alive;
        unbroken = a.unbroken;
        narrow = a.narrow;
        small = a.small;
        position_fits = subst (λ k. k ≤ r.limits.max_position_qty) size a.position_fits.0;
        notional_fits = subst (λ k. k ≤ℤ r.limits.max_notional) notional a.position_fits.1;
        open_fits = a.open_fits;
        rate_fits = a.rate_fits;
        loss_fits = a.loss_fits;
      },
      ap (λ q. q.0) rated ∙ check_rate-passed r ts (ap (λ q. q.1) (sym rated) ∙ passed),
    )
