-- ===== src/Strategy/MarketMaker/Quotes.antt =====
-- Where the quotes of the market maker stand.
use atomic_mesh.Base.{ℕ, ◌+◌, ◌*◌, ◌^◌, ◌≤◌, ◌<◌, ◌≡◌, pos, sub_ℕ, ◌≤ℤ◌, ◌<ℤ◌, ◌+ℤ◌, ℤ}
use atomic_mesh.Strategy.Inventory.Skew.{UpTo}
use atomic_mesh.Strategy.MarketMaker.{MarketMaker}

-- The settings and the state that the quotes depend on, within reason: an inventory up to the
-- greatest one, a risk aversion up to 1, a base spread up to 2 ^ 20 pipettes, and a tracker as a
-- run of trades leaves it.
pub record IsSettled (m : MarketMaker) : Type 0 where
  pub held : ℕ
  pub held_is : m.inventory.position_qty ≡ pos held
  pub most : ℕ
  pub most_is : m.inventory.max_inventory ≡ pos most
  pub aversion : ℕ
  pub aversion_is : m.inventory.gamma ≡ pos aversion
  pub base : UpTo (2 ^ 20) m.half_spread_pipettes
  pub held_within : held ≤ most
  pub most_within : most < 2 ^ 48
  pub aversion_within : aversion ≤ 10_000
  pub volumes : m.toxicity.buy_volume + m.toxicity.sell_volume < 2 ^ 50
  pub volatility : UpTo (2 ^ 40) m.toxicity.volatility_ema

-- A bid and an ask around a fair value, with a half-spread and a skew.
abbrev pub Around : ℕ → ℕ → ℕ → ℤ → ℤ → Type 0
Around fair h skew bid ask =
    (bid ≡ sub_ℕ fair (h + skew))
    × (ask ≡ bid +ℤ pos (2 * h))
    × (bid <ℤ pos fair)
    × (pos fair ≤ℤ ask)
    × (bid <ℤ ask)
