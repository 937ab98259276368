-- ===== src/Risk/Tests.antt =====
-- Runs of the risk engine, and the theorems about it at concrete states.
use atomic_mesh.Base.{
  ℕ, ◌≤◌, ◌≡◌, refl, ◌⊎◌, true, Option, none, some, List, [], ◌∷◌, filter, length, arith, pos, ◌*ℤ◌,
  ◌++◌, negsuc,
}
use atomic_mesh.Core.Types.{Side, buy, sell, binance, flat, Qty, Price, Position}
use atomic_mesh.Base.Word.{i64}
use atomic_mesh.Risk.Passed.{Guarded, check_order-passed}
use atomic_mesh.Risk.{
  RiskEngine, default_limits, new_risk, kill_switch_active, circuit_breaker_active, is_killed,
  activate_kill_switch, check_order, check_limits, check_position, check_rate, is_recent, new_qty,
}
use atomic_mesh.Risk.Check.{resets_day, kills, revives, apply_ops, kill_switch_latches}
use atomic_mesh.Risk.Breaker.{circuit_breaker_latches}
use atomic_mesh.Risk.Rate.{Request, accepted, accepted_few, in_last_second}

abbrev fresh : RiskEngine
fresh = new_risk default_limits

abbrev held : Position
held = record (flat (record { base = "BTC"; quote = "USDT"; venue = binance })) {
  side = buy;
  qty = 30;
}

abbrev busy : RiskEngine
busy = record fresh { order_timestamps = 5 ∷ 2_000_000_000 ∷ [] }

passed : (check_order busy sell 50 (pos 100) (some held) 2_000_000_500).1 ≡ none
unfolding check_order check_limits check_position check_rate is_killed is_recent new_qty new_risk
    default_limits flat i64 ◌*ℤ◌
passed = refl

check_order-passed_example :
    Guarded busy sell 50 100 held 2_000_000_500
    × ((check_order busy sell 50 (pos 100) (some held) 2_000_000_500).0 ≡ record busy {
      order_timestamps =
          filter (is_recent 2_000_000_500) busy.order_timestamps ++ 2_000_000_500 ∷ [];
    })
check_order-passed_example =
    check_order-passed busy sell 50 100 held 2_000_000_500 (omega arith) (omega arith) passed

abbrev killed : RiskEngine
killed = activate_kill_switch fresh

kill_switch_latches_example :
    (is_killed (apply_ops killed (resets_day ∷ [])) ≡ true)
    × ((side : Side) (qty : Qty) (price : Price) (position : Option Position) (ts : ℕ)
        → check_order (apply_ops killed (resets_day ∷ [])) side qty price position ts
          ≡ (apply_ops killed (resets_day ∷ []), some kill_switch_active))
unfolding activate_kill_switch
kill_switch_latches_example = kill_switch_latches killed (resets_day ∷ []) refl (tt, tt)

abbrev losing : RiskEngine
losing = record fresh { total_pnl = negsuc 20_000_000_000 }

abbrev broken : RiskEngine
broken = record fresh { circuit_breaker = true }

circuit_breaker_latches_example :
    ((apply_ops broken (kills ∷ revives ∷ [])).circuit_breaker ≡ true)
    × ((side : Side) (qty : Qty) (price : Price) (position : Option Position) (ts : ℕ)
        → ((check_order (apply_ops broken (kills ∷ revives ∷ [])) side qty price position ts).1
            ≡ some circuit_breaker_active)
          ⊎ ((check_order (apply_ops broken (kills ∷ revives ∷ [])) side qty price position ts).1
              ≡ some kill_switch_active))
circuit_breaker_latches_example =
    circuit_breaker_latches broken (kills ∷ revives ∷ []) refl (tt, (tt, tt))

abbrev request : ℕ → Request
request t = record { side = buy; qty = 1; price = pos 1; position = none; ts = t }

abbrev burst : List Request
burst = request 1000 ∷ request 1100 ∷ request 1200 ∷ []

accepted_few_example :
    length (
      filter
        (in_last_second 1300)
        (accepted (record default_limits { max_orders_per_second = 2 }) burst))
    ≤ 2
accepted_few_example =
    accepted_few (record default_limits { max_orders_per_second = 2 }) burst 1300 (omega arith)
      (omega arith) (omega arith)
