-- ===== src/Risk.antt =====
-- crates/atomic-risk/src/limits.rs: the checks of an order against the limits, and the state that
-- they go by. The text of an error is its kind with the values that are put into it; log lines are
-- left out, and the switch, an atomic flag, is a field.
pub mod Check
pub mod Passed
pub mod Rate
pub mod Breaker
mod Tests
use atomic_mesh.Base.{
  ℕ, ◌+◌, ◌-◌, ◌%◌, ◌^◌, Bool, true, false, ◌&&◌, Option, none, some, List, [], ◌∷◌, ◌++◌, filter,
  length, ltb, leb, if◌then◌else◌, ◌==◌, ℤ, pos, negsuc, ltb_ℤ,
}
use atomic_mesh.Base.Word.{u64, sub_u64, u64_as_i64, add_i64, sub_i64, mul_i64}
use atomic_mesh.Core.Types.{Side, side_eq, Qty, Price, Position}

pub record RiskLimits : Type 0 where
  pub max_position_qty : ℕ
  pub max_notional : ℤ
  pub max_total_notional : ℤ
  pub max_order_qty : ℕ
  pub max_open_orders : ℕ
  pub max_loss : ℤ
  pub max_orders_per_second : ℕ
  pub max_spread : ℤ
  pub max_consecutive_losses : ℕ
  pub max_drawdown_bps : ℕ

unfoldable pub default_limits : RiskLimits
default_limits = record {
  max_position_qty = 1_000_000_000;
  max_notional = pos 500_000_000_000;
  max_total_notional = pos 1_000_000_000_000;
  max_order_qty = 100_000_000;
  max_open_orders = 100;
  max_loss = negsuc 9_999_999_999;
  max_orders_per_second = 50;
  max_spread = pos 5000;
  max_consecutive_losses = 5;
  max_drawdown_bps = 200;
}

pub record RiskEngine : Type 0 where
  pub limits : RiskLimits
  pub kill_switch : Bool
  pub open_order_count : ℕ
  pub total_pnl : ℤ
  pub order_timestamps : List ℕ
  pub current_spread : ℤ
  pub consecutive_losses : ℕ
  pub circuit_breaker : Bool
  pub peak_pnl : ℤ

unfoldable pub new_risk : RiskLimits → RiskEngine
new_risk limits = record {
  limits = limits;
  kill_switch = false;
  open_order_count = 0;
  total_pnl = pos 0;
  order_timestamps = [];
  current_spread = pos 0;
  consecutive_losses = 0;
  circuit_breaker = false;
  peak_pnl = pos 0;
}

-- The errors of `check_order`: two are `KillSwitch`, the others `RiskLimitExceeded`.
pub data RiskError : Type 0 where
  kill_switch_active max_loss_exceeded circuit_breaker_active rate_limit : RiskError
  wide_spread : ℤ → RiskError
  order_too_large : ℕ → RiskError
  position_too_large : ℕ → RiskError
  notional_too_large total_notional_too_large : ℤ → RiskError
  too_many_open : ℕ → RiskError

unfoldable pub is_killed : RiskEngine → Bool
is_killed r = r.kill_switch

unfoldable pub activate_kill_switch : RiskEngine → RiskEngine
activate_kill_switch r = record r { kill_switch = true }

unfoldable pub reset_kill_switch : RiskEngine → RiskEngine
reset_kill_switch r = record r { kill_switch = false }

-- The position that an order would leave.
unfoldable pub new_qty : Position → Side → Qty → ℕ
new_qty p side qty =
    if p.side == side then u64 (p.qty + qty) else if ltb p.qty qty then qty - p.qty else p.qty - qty

-- The checks of the position: `none` if they pass.
unfoldable pub check_position : RiskLimits → Side → Qty → Price → Option Position → Option RiskError
check_position limits side qty price none = none
check_position limits side qty price (some p) =
    let n = new_qty p side qty in
    let notional = mul_i64 (u64_as_i64 n) price in
    if ltb limits.max_position_qty n
    then some (position_too_large n)
    else if ltb_ℤ limits.max_notional notional
    then some (notional_too_large notional)
    else if ltb_ℤ limits.max_total_notional notional
    then some (total_notional_too_large notional)
    else none

-- `current_ts - ts < 1_000_000_000`, in `u64`.
unfoldable pub is_recent : ℕ → ℕ → Bool
is_recent current_ts ts = ltb (sub_u64 current_ts ts) 1_000_000_000

-- The checks from the rate limit on, which change the engine.
unfoldable pub check_rate : RiskEngine → ℕ → RiskEngine × Option RiskError
check_rate r current_ts =
    let recent = filter (is_recent current_ts) r.order_timestamps in
    let kept = record r { order_timestamps = recent } in
    if leb r.limits.max_orders_per_second (length recent)
    then (kept, some rate_limit)
    else if ltb_ℤ r.total_pnl r.limits.max_loss
    then (activate_kill_switch kept, some max_loss_exceeded)
    else (record r { order_timestamps = recent ++ current_ts ∷ [] }, none)

-- The checks before the rate limit, which change nothing.
unfoldable pub check_limits : RiskEngine → Side → Qty → Price → Option Position → Option RiskError
check_limits r side qty price position =
    if is_killed r
    then some kill_switch_active
    else if r.circuit_breaker
    then some circuit_breaker_active
    else if ltb_ℤ (pos 0) r.limits.max_spread && ltb_ℤ r.limits.max_spread r.current_spread
    then some (wide_spread r.current_spread)
    else if ltb r.limits.max_order_qty qty
    then some (order_too_large qty)
    else elim (check_position r.limits side qty price position) [
      | some e ↦ some e
      | none ↦
          if leb r.limits.max_open_orders r.open_order_count
          then some (too_many_open r.open_order_count)
          else none
    ]

-- `none` is `Ok(())`.
unfoldable pub check_order :
    RiskEngine → Side → Qty → Price → Option Position → ℕ → RiskEngine × Option RiskError
check_order r side qty price position current_ts = elim (check_limits r side qty price position) [
  | some e ↦ (r, some e)
  | none ↦ check_rate r current_ts
]

unfoldable pub on_order_opened : RiskEngine → RiskEngine
on_order_opened r = record r { open_order_count = u64 (r.open_order_count + 1) }

unfoldable pub on_order_closed : RiskEngine → RiskEngine
on_order_closed r = record r { open_order_count = r.open_order_count - 1 }

-- The drawdown check at the end of `update_pnl`, on the new total and peak.
unfoldable pub breached : RiskLimits → ℤ → ℤ → Bool
breached limits total peak =
    ltb 0 limits.max_drawdown_bps
    && (ltb_ℤ (pos 0) peak
        && ltb_ℤ (mul_i64 peak (pos limits.max_drawdown_bps))
            (mul_i64 (sub_i64 peak total) (pos 10_000)))

unfoldable pub update_pnl : RiskEngine → ℤ → RiskEngine
update_pnl r pnl_delta =
    let total = add_i64 r.total_pnl pnl_delta in
    let peak = if ltb_ℤ r.peak_pnl total then total else r.peak_pnl in
    record r {
      total_pnl = total;
      peak_pnl = peak;
      circuit_breaker = if breached r.limits total peak then true else r.circuit_breaker;
    }

unfoldable pub record_win : RiskEngine → RiskEngine
record_win r = record r { consecutive_losses = 0 }

-- The counter of losses is a `u32`.
unfoldable pub record_loss : RiskEngine → RiskEngine
record_loss r =
    let losses = (r.consecutive_losses + 1) % 2 ^ 32 in
    record r {
      consecutive_losses = losses;
      circuit_breaker =
          if ltb 0 r.limits.max_consecutive_losses && leb r.limits.max_consecutive_losses losses
          then true
          else r.circuit_breaker;
    }

unfoldable pub update_spread : RiskEngine → ℤ → RiskEngine
update_spread r spread = record r { current_spread = spread }

unfoldable pub daily_reset : RiskEngine → RiskEngine
daily_reset r = record r {
  circuit_breaker = false;
  consecutive_losses = 0;
  peak_pnl = pos 0;
  total_pnl = pos 0;
}
