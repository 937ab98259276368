-- ===== src/Risk/Check.antt =====
-- When the risk engine lets an order pass, and what its switches keep out.
use atomic_mesh.Base.{
  ℕ, ◌≤◌, ◌<◌, ◌≡◌, refl, ap, ◌∙◌, ◌↔◌, ◌⊎◌, true, false, Option, none, some, List, [], ◌∷◌, filter,
  length, arith, ℤ, pos, ◌≤ℤ◌, ◌<ℤ◌,
}
use atomic_mesh.Base.Word.{mul_i64, u64_as_i64}
use atomic_mesh.Core.Types.{Side, Qty, Price, Position}
use atomic_mesh.Risk.{
  RiskLimits, RiskEngine, kill_switch_active, max_loss_exceeded, is_killed, new_qty, check_position,
  is_recent, check_rate, check_limits, check_order, activate_kill_switch, on_order_opened,
  on_order_closed, update_pnl, record_win, record_loss, update_spread, daily_reset,
  reset_kill_switch,
}

-- The position that the order leaves, and its notional, are within the limits.
abbrev pub PositionFits : RiskLimits → Side → Qty → Price → Option Position → Type 0
PositionFits limits side qty price none = Unit
PositionFits limits side qty price (some p) =
    (new_qty p side qty ≤ limits.max_position_qty)
    × (mul_i64 (u64_as_i64 (new_qty p side qty)) price ≤ℤ limits.max_notional)
    × (mul_i64 (u64_as_i64 (new_qty p side qty)) price ≤ℤ limits.max_total_notional)

-- All that an order has to meet.
pub record Admissible (r : RiskEngine) (side : Side) (qty : Qty) (price : Price)
    (position : Option Position) (ts : ℕ) : Type 0 where
  pub alive : r.kill_switch ≡ false
  pub unbroken : r.circuit_breaker ≡ false
  pub narrow : (r.limits.max_spread ≤ℤ pos 0) ⊎ (r.current_spread ≤ℤ r.limits.max_spread)
  pub small : qty ≤ r.limits.max_order_qty
  pub position_fits : PositionFits r.limits side qty price position
  pub open_fits : r.open_order_count < r.limits.max_open_orders
  pub rate_fits : length (filter (is_recent ts) r.order_timestamps) < r.limits.max_orders_per_second
  pub loss_fits : r.limits.max_loss ≤ℤ r.total_pnl

check_position-none :
    (limits : RiskLimits) (side : Side) (qty : Qty) (price : Price) (position : Option Position)
    → (check_position limits side qty price position ≡ none)
      ↔ PositionFits limits side qty price position
unfolding check_position
check_position-none limits side qty price none = ground arith
check_position-none limits side qty price (some p) = ground arith

-- What the checks before the rate limit ask for.
abbrev Early : RiskEngine → Side → Qty → Price → Option Position → Type 0
Early r side qty price position =
    (r.kill_switch ≡ false)
    × (r.circuit_breaker ≡ false)
    × ((r.limits.max_spread ≤ℤ pos 0) ⊎ (r.current_spread ≤ℤ r.limits.max_spread))
    × (qty ≤ r.limits.max_order_qty)
    × (check_position r.limits side qty price position ≡ none)
    × (r.open_order_count < r.limits.max_open_orders)

check_limits_pass :
    (r : RiskEngine) (side : Side) (qty : Qty) (price : Price) (position : Option Position)
    → check_limits r side qty price position ≡ none
    → Early r side qty price position
unfolding check_limits is_killed
check_limits_pass r side qty price position h = ground arith

check_limits_ok :
    (r : RiskEngine) (side : Side) (qty : Qty) (price : Price) (position : Option Position)
    → Early r side qty price position
    → check_limits r side qty price position ≡ none
unfolding check_limits is_killed
check_limits_ok r side qty price position h = ground arith

abbrev Late : RiskEngine → ℕ → Type 0
Late r ts =
    (length (filter (is_recent ts) r.order_timestamps) < r.limits.max_orders_per_second)
    × (r.limits.max_loss ≤ℤ r.total_pnl)

check_rate-none : (r : RiskEngine) (ts : ℕ) → ((check_rate r ts).1 ≡ none) ↔ Late r ts
unfolding check_rate
check_rate-none r ts = ground arith

pub check_order-none :
    (r : RiskEngine) (side : Side) (qty : Qty) (price : Price) (position : Option Position) (ts : ℕ)
    → ((check_order r side qty price position ts).1 ≡ none)
      ↔ ((check_limits r side qty price position ≡ none) × ((check_rate r ts).1 ≡ none))
unfolding check_order
check_order-none r side qty price position ts = ground arith

-- An order passes just if it is admissible: no switch has fired, and the spread, the size, the
-- position with its notional (where there is one), the number of open orders, the number of orders
-- of the last second and the total PnL are all within the limits.
pub check_order-passes :
    (r : RiskEngine) (side : Side) (qty : Qty) (price : Price) (position : Option Position) (ts : ℕ)
    → ((check_order r side qty price position ts).1 ≡ none)
      ↔ Admissible r side qty price position ts
check_order-passes r side qty price position ts = (
  λ h.
      let (early, late) = (check_order-none r side qty price position ts).0 h in
      let (alive, unbroken, narrow, small, fits, open_fits) =
        check_limits_pass r side qty price position early in
      let (rate, loss) = (check_rate-none r ts).0 late in
      record {
        alive = alive;
        unbroken = unbroken;
        narrow = narrow;
        small = small;
        position_fits = (check_position-none r.limits side qty price position).0 fits;
        open_fits = open_fits;
        rate_fits = rate;
        loss_fits = loss;
      },
  λ a. (check_order-none r side qty price position ts).1 (
    check_limits_ok r side qty price position (
      a.alive,
      a.unbroken,
      a.narrow,
      a.small,
      (check_position-none r.limits side qty price position).1 a.position_fits,
      a.open_fits,
    ),
    (check_rate-none r ts).1 (a.rate_fits, a.loss_fits),
  ),
)

-- Without a position neither the price of an order nor the limits of the position and of the
-- notional have a say: the outcome is the same at every price and for all such limits.
pub check_order-no_position :
    (r : RiskEngine) (side : Side) (qty : Qty) (price other : Price) (ts : ℕ) (max_qty : ℕ)
    (max_notional max_total : ℤ)
    → let r' = record r {
      limits = record r.limits {
        max_position_qty = max_qty;
        max_notional = max_notional;
        max_total_notional = max_total;
      };
    } in
      (check_order r side qty price none ts).1 ≡ (check_order r' side qty other none ts).1
unfolding check_order check_limits check_position check_rate is_killed
check_order-no_position r side qty price other ts max_qty max_notional max_total = ground arith

-- The operations of the engine that change its state.
pub data RiskOp : Type 0 where
  checks : Side → Qty → Price → Option Position → ℕ → RiskOp
  opened closed wins loses resets_day kills revives : RiskOp
  pnl spreads : ℤ → RiskOp

unfoldable pub apply_op : RiskEngine → RiskOp → RiskEngine
apply_op r (checks side qty price position ts) = (check_order r side qty price position ts).0
apply_op r opened = on_order_opened r
apply_op r closed = on_order_closed r
apply_op r wins = record_win r
apply_op r loses = record_loss r
apply_op r resets_day = daily_reset r
apply_op r kills = activate_kill_switch r
apply_op r revives = reset_kill_switch r
apply_op r (pnl d) = update_pnl r d
apply_op r (spreads s) = update_spread r s

unfoldable pub apply_ops : RiskEngine → List RiskOp → RiskEngine
unfolding apply_op
apply_ops r [] = r
apply_ops r (o ∷ os) = apply_ops (apply_op r o) os

-- The operations but the manual reset of the kill switch.
abbrev pub KeepsKilled : RiskOp → Type 0
KeepsKilled revives = ⊥
KeepsKilled _ = Unit

abbrev pub AllKeepKilled : List RiskOp → Type 0
AllKeepKilled [] = Unit
AllKeepKilled (o ∷ os) = KeepsKilled o × AllKeepKilled os

check_order-killed :
    (r : RiskEngine) (side : Side) (qty : Qty) (price : Price) (position : Option Position) (ts : ℕ)
    → r.kill_switch ≡ true
    → check_order r side qty price position ts ≡ (r, some kill_switch_active)
unfolding check_order check_limits is_killed
check_order-killed r side qty price position ts k = rw k

apply_op-killed :
    (r : RiskEngine) (o : RiskOp)
    → KeepsKilled o
    → r.kill_switch ≡ true
    → (apply_op r o).kill_switch ≡ true
unfolding apply_op on_order_opened on_order_closed record_win record_loss daily_reset
    activate_kill_switch update_pnl update_spread
apply_op-killed r (checks side qty price position ts) n k =
    ap (λ p. p.0.kill_switch) (check_order-killed r side qty price position ts k) ∙ k
apply_op-killed r opened n k = k
apply_op-killed r closed n k = k
apply_op-killed r wins n k = k
apply_op-killed r loses n k = k
apply_op-killed r resets_day n k = k
apply_op-killed r kills n k = refl
apply_op-killed r revives n k = elim n [ ]
apply_op-killed r (pnl d) n k = k
apply_op-killed r (spreads s) n k = k

-- Once the kill switch is on, no run of the engine's operations other than `reset_kill_switch` turns
-- it off, the daily reset included, and every order checked after the run is refused and changes
-- nothing.
pub kill_switch_latches :
    (r : RiskEngine) (os : List RiskOp)
    → r.kill_switch ≡ true
    → AllKeepKilled os
    → (is_killed (apply_ops r os) ≡ true)
      × ((side : Side) (qty : Qty) (price : Price) (position : Option Position) (ts : ℕ)
          → check_order (apply_ops r os) side qty price position ts
            ≡ (apply_ops r os, some kill_switch_active))
unfolding apply_ops is_killed
kill_switch_latches r [] k n =
    (k, λ side qty price position ts. check_order-killed r side qty price position ts k)
kill_switch_latches r (o ∷ os) k n =
    kill_switch_latches (apply_op r o) os (apply_op-killed r o n.0 k) n.1

-- An order that is within the limits but for the total PnL, which has fallen below the loss limit,
-- is refused and turns the kill switch on.
pub check_order-max_loss :
    (r : RiskEngine) (side : Side) (qty : Qty) (price : Price) (position : Option Position) (ts : ℕ)
    → check_limits r side qty price position ≡ none
    → length (filter (is_recent ts) r.order_timestamps) < r.limits.max_orders_per_second
    → r.total_pnl <ℤ r.limits.max_loss
    → let (r', result) = check_order r side qty price position ts in
      (result ≡ some max_loss_exceeded) × (is_killed r' ≡ true)
unfolding check_order check_rate activate_kill_switch is_killed
check_order-max_loss r side qty price position ts h rate loss = ground arith
