-- ===== src/Risk/Breaker.antt =====
-- The circuit breaker, and the peak of the PnL that it goes by.
use atomic_mesh.Base.{
  ℕ, zero, suc, ◌+◌, ◌^◌, ◌<◌, ◌≡◌, ◌⊎◌, true, false, List, [], ◌∷◌, arith, ℤ, pos, ◌≤ℤ◌, leb, ltb,
  ◌&&◌, some, Option, ◌∙◌,
}
use atomic_mesh.Core.Types.{Side, Qty, Price, Position}
use atomic_mesh.Risk.{
  RiskLimits, RiskEngine, circuit_breaker_active, kill_switch_active, new_risk, check_rate,
  check_limits, check_order, is_killed, activate_kill_switch, on_order_opened, on_order_closed,
  update_pnl, record_win, record_loss, update_spread, daily_reset, reset_kill_switch,
}
use atomic_mesh.Risk.Check.{
  RiskOp, checks, opened, closed, wins, loses, resets_day, kills, revives, pnl, spreads, apply_op,
  apply_ops,
}

-- The peak is the greatest PnL so far.
pub record IsTracked (r : RiskEngine) : Type 0 where
  pub below_peak : r.total_pnl ≤ℤ r.peak_pnl
  pub peak_nonneg : pos 0 ≤ℤ r.peak_pnl

check_order-pnl :
    (r : RiskEngine) (side : Side) (qty : Qty) (price : Price) (position : Option Position) (ts : ℕ)
    → let r' = (check_order r side qty price position ts).0 in
      (r'.total_pnl ≡ r.total_pnl)
      × (r'.peak_pnl ≡ r.peak_pnl)
      × (r'.circuit_breaker ≡ r.circuit_breaker)
      × (r'.limits ≡ r.limits)
unfolding check_order check_rate activate_kill_switch
check_order-pnl r side qty price position ts = ground arith

update_pnl-IsTracked : (r : RiskEngine) (d : ℤ) → IsTracked r → IsTracked (update_pnl r d)
unfolding update_pnl
update_pnl-IsTracked r d t = ground arith

apply_op-IsTracked : (r : RiskEngine) (o : RiskOp) → IsTracked r → IsTracked (apply_op r o)
unfolding apply_op on_order_opened on_order_closed record_win record_loss daily_reset
    activate_kill_switch reset_kill_switch update_spread
apply_op-IsTracked r (checks side qty price position ts) t =
    ground (arith, check_order-pnl r side qty price position ts)
apply_op-IsTracked r opened t = ground arith
apply_op-IsTracked r closed t = ground arith
apply_op-IsTracked r wins t = ground arith
apply_op-IsTracked r loses t = ground arith
apply_op-IsTracked r resets_day t = ground arith
apply_op-IsTracked r kills t = ground arith
apply_op-IsTracked r revives t = ground arith
apply_op-IsTracked r (pnl d) t = update_pnl-IsTracked r d t
apply_op-IsTracked r (spreads s) t = ground arith

apply_ops-IsTracked : (r : RiskEngine) (os : List RiskOp) → IsTracked r → IsTracked (apply_ops r os)
unfolding apply_ops
apply_ops-IsTracked r [] t = t
apply_ops-IsTracked r (o ∷ os) t = apply_ops-IsTracked (apply_op r o) os (apply_op-IsTracked r o t)

-- After any run of operations on a new engine the total PnL is at most the peak, and the peak is
-- not negative.
pub peak_tracks :
    (limits : RiskLimits) (os : List RiskOp) → IsTracked (apply_ops (new_risk limits) os)
unfolding new_risk
peak_tracks limits os = apply_ops-IsTracked (new_risk limits) os (unfold new_risk in ground arith)

-- The operations but the daily reset.
abbrev pub KeepsDay : RiskOp → Type 0
KeepsDay resets_day = ⊥
KeepsDay _ = Unit

abbrev pub AllKeepDay : List RiskOp → Type 0
AllKeepDay [] = Unit
AllKeepDay (o ∷ os) = KeepsDay o × AllKeepDay os

apply_op-broken :
    (r : RiskEngine) (o : RiskOp)
    → KeepsDay o
    → r.circuit_breaker ≡ true
    → (apply_op r o).circuit_breaker ≡ true
unfolding apply_op on_order_opened on_order_closed record_win record_loss activate_kill_switch
    reset_kill_switch update_pnl update_spread
apply_op-broken r (checks side qty price position ts) n k =
    (check_order-pnl r side qty price position ts).2 ∙ k
apply_op-broken r opened n k = k
apply_op-broken r closed n k = k
apply_op-broken r wins n k = k
apply_op-broken r loses n k = ground arith
apply_op-broken r resets_day n k = elim n [ ]
apply_op-broken r kills n k = k
apply_op-broken r revives n k = k
apply_op-broken r (pnl d) n k = ground arith
apply_op-broken r (spreads s) n k = k

broken_refuses :
    (r : RiskEngine) (side : Side) (qty : Qty) (price : Price) (position : Option Position) (ts : ℕ)
    → r.circuit_breaker ≡ true
    → ((check_order r side qty price position ts).1 ≡ some circuit_breaker_active)
      ⊎ ((check_order r side qty price position ts).1 ≡ some kill_switch_active)
unfolding check_order check_limits is_killed
broken_refuses r side qty price position ts k = ground arith

-- Once the circuit breaker has fired, it stays so through any run of the engine's operations without
-- a daily reset, manual resets of the kill switch included, and every order checked after the run is
-- refused for it or for the kill switch.
pub circuit_breaker_latches :
    (r : RiskEngine) (os : List RiskOp)
    → r.circuit_breaker ≡ true
    → AllKeepDay os
    → ((apply_ops r os).circuit_breaker ≡ true)
      × ((side : Side) (qty : Qty) (price : Price) (position : Option Position) (ts : ℕ)
          → ((check_order (apply_ops r os) side qty price position ts).1
              ≡ some circuit_breaker_active)
            ⊎ ((check_order (apply_ops r os) side qty price position ts).1
                ≡ some kill_switch_active))
unfolding apply_ops
circuit_breaker_latches r [] k n =
    (k, λ side qty price position ts. broken_refuses r side qty price position ts k)
circuit_breaker_latches r (o ∷ os) k n =
    circuit_breaker_latches (apply_op r o) os (apply_op-broken r o n.0 k) n.1

-- A number of losses, one behind the other.
abbrev pub losses : ℕ → RiskEngine → RiskEngine
losses zero r = r
losses (suc n) r = record_loss (losses n r)

losses-count :
    (r : RiskEngine) (n : ℕ)
    → r.consecutive_losses + n < 2 ^ 32
    → ((losses n r).consecutive_losses ≡ r.consecutive_losses + n)
      × ((losses n r).limits ≡ r.limits)
unfolding record_loss
losses-count r zero h = ground arith
losses-count r (suc n) h = ground (arith, losses-count r n)

-- After a win and then n + 1 losses in a row, with an intact breaker before, the breaker has fired
-- just if the limit is in use and at most n + 1.
pub losses_break :
    (r : RiskEngine) (n : ℕ)
    → r.circuit_breaker ≡ false
    → n + 1 < 2 ^ 32
    → (losses (suc n) (record_win r)).circuit_breaker
      ≡ (ltb 0 r.limits.max_consecutive_losses && leb r.limits.max_consecutive_losses (n + 1))
unfolding record_loss record_win
losses_break r zero b h = ground arith
losses_break r (suc n) b h = ground (arith, losses_break r n b, losses-count (record_win r) (suc n))
