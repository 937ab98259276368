-- ===== src/Strategy/Toxicity.antt =====
-- `ToxicityTracker` of crates/atomic-strategy/src/toxicity.rs.
pub mod Window
pub mod Bounds
use atomic_mesh.Base.{
  ℕ, ◌-◌, ◌+◌, ◌*◌, ◌/◌, Bool, List, [], ◌∷◌, ◌++◌, length, ltb, ◌==◌, nat_eq, if◌then◌else◌, ℤ,
  pos, ltb_ℤ,
}
use atomic_mesh.Base.Word.{
  u64, u64_as_i64, unsigned_abs, add_i64, sub_i64, mul_i64, div_i64, min_i64,
}
use atomic_mesh.Core.Types.{Side, buy, sell}

pub record ToxicityTracker : Type 0 where
  pub window : List (Side × ℕ)
  pub max_window : ℕ
  pub buy_volume : ℕ
  pub sell_volume : ℕ
  pub volatility_ema : ℤ
  pub last_price : ℤ
  pub vol_alpha : ℤ
  pub threshold : ℤ

unfoldable pub new_tracker : ℕ → ℤ → ℤ → ToxicityTracker
new_tracker max_window vol_alpha threshold = record {
  window = [];
  max_window = max_window;
  buy_volume = 0;
  sell_volume = 0;
  volatility_ema = pos 0;
  last_price = pos 0;
  vol_alpha = vol_alpha;
  threshold = threshold;
}

unfoldable pub updated_volatility : ToxicityTracker → ℤ → ℤ
updated_volatility t price =
    let delta = u64_as_i64 (unsigned_abs (sub_i64 price t.last_price)) in
    if ltb_ℤ (pos 0) t.last_price
    then div_i64
        (add_i64 (mul_i64 delta t.vol_alpha)
          (mul_i64 t.volatility_ema (sub_i64 (pos 10_000) t.vol_alpha)))
        (pos 10_000)
    else t.volatility_ema

abbrev pub add_volume : Side → ℕ → ToxicityTracker → ToxicityTracker
add_volume buy qty t = record t { buy_volume = u64 (t.buy_volume + qty) }
add_volume sell qty t = record t { sell_volume = u64 (t.sell_volume + qty) }

-- `saturating_sub`.
abbrev pub take_volume : Side → ℕ → ToxicityTracker → ToxicityTracker
take_volume buy qty t = record t { buy_volume = t.buy_volume - qty }
take_volume sell qty t = record t { sell_volume = t.sell_volume - qty }

-- The loop that evicts the oldest trades of a window.
unfoldable pub evict : ToxicityTracker → List (Side × ℕ) → ToxicityTracker
evict t [] = record t { window = [] }
evict t ((side, qty) ∷ rest) =
    let evicted = evict (take_volume side qty t) rest in
    if ltb t.max_window (length ((side, qty) ∷ rest))
    then evicted
    else record t { window = (side, qty) ∷ rest }

unfoldable pub on_trade : ToxicityTracker → Side → ℕ → ℤ → ToxicityTracker
unfolding updated_volatility evict
on_trade t side qty price =
    evict
      (add_volume side qty
        (record t { volatility_ema = updated_volatility t price; last_price = price }))
      (t.window ++ (side, qty) ∷ [])

unfoldable pub vpin : ToxicityTracker → ℤ
vpin t =
    let total = u64 (t.buy_volume + t.sell_volume) in
    let diff = unsigned_abs (sub_i64 (u64_as_i64 t.buy_volume) (u64_as_i64 t.sell_volume)) in
    if total == 0 then pos 0 else u64_as_i64 (u64 (diff * 10_000) / total)

unfoldable pub is_toxic : ToxicityTracker → Bool
is_toxic t = ltb_ℤ t.threshold (vpin t)

unfoldable pub spread_multiplier : ToxicityTracker → ℤ
spread_multiplier t =
    let tox = vpin t in
    let vol = min_i64 (mul_i64 t.volatility_ema (pos 50)) (pos 10_000) in
    min_i64 (add_i64 (add_i64 (pos 10_000) tox) vol) (pos 30_000)
