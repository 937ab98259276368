-- ===== src/Strategy/Toxicity/Bounds.antt =====
-- The bounds of the tracker's outputs.
use native.Mathlib.Nat.{mul-le-mul, div-le_of_le-mul}
use atomic_mesh.Base.{
  ℕ, ◌+◌, ◌-◌, ◌*◌, ◌/◌, ◌^◌, ◌≤◌, ◌<◌, ◌≡◌, refl, sym, ◌∙◌, ap₂, All, subst, List, [], ◌∷◌, arith,
  min, ◌==◌, nat_eq, Bool-cases, inl, inr, ℤ, pos, ltb_ℤ, sub_ℕ,
}
use atomic_mesh.Base.Word.{
  u64, u64_as_i64_small, add_i64_pos, mul_i64_pos, div_i64_pos, sub_i64_pos, sub_i64_small, min_i64,
  min_i64_pos, unsigned_abs, sub_i64, mul_i64, add_i64, div_i64,
}
use atomic_mesh.Core.Types.{Side}
use atomic_mesh.Strategy.Inventory.Skew.{UpTo}
use atomic_mesh.Strategy.Toxicity.{
  ToxicityTracker, new_tracker, updated_volatility, on_trade, vpin, spread_multiplier,
}
use atomic_mesh.Strategy.Toxicity.Window.{
  IsCounted, all_volume, volumes_sum, on_trade-IsCounted, on_trade-same,
}

abs_sub : (a b : ℕ) → unsigned_abs (sub_ℕ a b) ≤ a + b
abs_sub a b = ground arith

pub vpin-UpTo : (t : ToxicityTracker) → t.buy_volume + t.sell_volume < 2 ^ 50 → UpTo 10_000 (vpin t)
unfolding vpin
vpin-UpTo t b =
    let total : ℕ = t.buy_volume + t.sell_volume in
    let d : ℕ = unsigned_abs (sub_ℕ t.buy_volume t.sell_volume) in
    let d_up : d ≤ total = abs_sub t.buy_volume t.sell_volume in
    let in_range : u64 total ≡ total = omega arith in
    rw
      (
        in_range,
        u64_as_i64_small t.buy_volume (omega arith),
        u64_as_i64_small t.sell_volume (omega arith),
        sub_i64_small t.buy_volume t.sell_volume (omega arith) (omega arith),
      )
      (elim (Bool-cases (total == 0)) [
        | inl none ↦ rw none (record { value = 0; is_value = refl; within = omega arith })
        | inr some_volume ↦
            let ratio_up : u64 (d * 10_000) / total ≤ 10_000 =
              div-le_of_le-mul total (omega arith) in
            rw some_volume (record {
              value = u64 (d * 10_000) / total;
              is_value = u64_as_i64_small (u64 (d * 10_000) / total) (omega arith);
              within = ratio_up;
            })
      ])

multiplier_value :
    (v e : ℕ)
    → v ≤ 10_000
    → e ≤ 2 ^ 40
    → min_i64
        (add_i64 (add_i64 (pos 10_000) (pos v)) (min_i64 (mul_i64 (pos e) (pos 50)) (pos 10_000)))
        (pos 30_000)
      ≡ pos (min (10_000 + v + min (e * 50) 10_000) 30_000)
multiplier_value v e a b =
    rw
      (
        mul_i64_pos e 50 (omega arith),
        min_i64_pos (e * 50) 10_000,
        add_i64_pos 10_000 v (omega arith),
        add_i64_pos (10_000 + v) (min (e * 50) 10_000) (omega arith),
      )
      (min_i64_pos (10_000 + v + min (e * 50) 10_000) 30_000)

pub spread_multiplier-bounds :
    (t : ToxicityTracker)
    → t.buy_volume + t.sell_volume < 2 ^ 50
    → UpTo (2 ^ 40) t.volatility_ema
    → (k : ℕ) × (spread_multiplier t ≡ pos k) × (10_000 ≤ k) × (k ≤ 30_000)
unfolding spread_multiplier
spread_multiplier-bounds t b e =
    let v = vpin-UpTo t b in
    (
      min (10_000 + v.value + min (e.value * 50) 10_000) 30_000,
      ap₂
            (λ tox ema.
              min_i64
                (add_i64 (add_i64 (pos 10_000) tox) (min_i64 (mul_i64 ema (pos 50)) (pos 10_000)))
                (pos 30_000))
            v.is_value e.is_value
          ∙ multiplier_value v.value e.value v.within e.within,
      omega (arith, v.within),
      omega arith,
    )

ema_value :
    (d e alpha : ℕ)
    → d ≤ 2 ^ 40
    → e ≤ 2 ^ 40
    → alpha ≤ 10_000
    → UpTo (2 ^ 40) (
        div_i64
          (add_i64
            (mul_i64 (pos d) (pos alpha))
            (mul_i64 (pos e) (sub_i64 (pos 10_000) (pos alpha))))
          (pos 10_000))
ema_value d e alpha a b c =
    let new_part : d * alpha ≤ 2 ^ 40 * alpha = mul-le-mul a (omega arith) in
    let old_part : e * (10_000 - alpha) ≤ 2 ^ 40 * (10_000 - alpha) = mul-le-mul b (omega arith) in
    record {
      value = (d * alpha + e * (10_000 - alpha)) / 10_000;
      is_value =
          rw
            (
              mul_i64_pos d alpha (omega arith),
              sub_i64_pos 10_000 alpha c (omega arith),
              mul_i64_pos e (10_000 - alpha) (omega arith),
              add_i64_pos (d * alpha) (e * (10_000 - alpha)) (omega arith),
            )
            (div_i64_pos (d * alpha + e * (10_000 - alpha)) 10_000 (omega arith) (omega arith));
      within = omega arith;
    }

pub updated_volatility-UpTo :
    (t : ToxicityTracker) (last price alpha : ℕ)
    → t.last_price ≡ pos last
    → last ≤ 2 ^ 40
    → price ≤ 2 ^ 40
    → t.vol_alpha ≡ pos alpha
    → alpha ≤ 10_000
    → UpTo (2 ^ 40) t.volatility_ema
    → UpTo (2 ^ 40) (updated_volatility t (pos price))
unfolding updated_volatility
updated_volatility-UpTo t last price alpha l a b k c e =
    let d : ℕ = unsigned_abs (sub_ℕ price last) in
    let d_up : d ≤ 2 ^ 40 = ground arith in
    elim (Bool-cases (ltb_ℤ (pos 0) (pos last))) [
      | inl moved ↦
          rw
            (
              l,
              moved,
              k,
              e.is_value,
              sub_i64_small price last (omega arith) (omega arith),
              u64_as_i64_small d (omega arith),
            )
            (ema_value d e.value alpha d_up e.within c)
      | inr first ↦ rw (l, first) e
    ]

-- What may come in: trades at prices up to 2 ^ 40.
pub record Tick : Type 0 where
  pub side : Side
  pub qty : ℕ
  pub price : ℕ

abbrev pub ticks_of : ToxicityTracker → List Tick → ToxicityTracker
ticks_of t [] = t
ticks_of t (x ∷ xs) = ticks_of (on_trade t x.side x.qty (pos x.price)) xs

abbrev pub tick_volume : List Tick → ℕ
tick_volume [] = 0
tick_volume (x ∷ xs) = x.qty + tick_volume xs

record Steady (alpha : ℕ) (t : ToxicityTracker) : Type 0 where
  counted : IsCounted t
  ema : UpTo (2 ^ 40) t.volatility_ema
  last : UpTo (2 ^ 40) t.last_price
  alpha_is : t.vol_alpha ≡ pos alpha

ticks_of-Steady :
    (xs : List Tick) (t : ToxicityTracker) (alpha : ℕ)
    → alpha ≤ 10_000
    → All (λ x. x.price ≤ 2 ^ 40) xs
    → all_volume t.window + tick_volume xs < 2 ^ 50
    → Steady alpha t
    → Steady alpha (ticks_of t xs) × (all_volume (ticks_of t xs).window < 2 ^ 50)
ticks_of-Steady [] t alpha a p b k = (k, omega arith)
ticks_of-Steady (x ∷ xs) t alpha a p b k =
    let (size, ema, last, same, less) = on_trade-same t x.side x.qty (pos x.price) in
    ticks_of-Steady xs (on_trade t x.side x.qty (pos x.price)) alpha a p.1 (omega arith) (record {
      counted = on_trade-IsCounted t x.side x.qty (pos x.price) k.counted (omega arith);
      ema = subst (UpTo (2 ^ 40)) (sym ema) (
          updated_volatility-UpTo t k.last.value x.price alpha k.last.is_value k.last.within p.0
            k.alpha_is a k.ema);
      last = record { value = x.price; is_value = last; within = p.0 };
      alpha_is = same ∙ k.alpha_is;
    })

-- After any run of trades on a new tracker, at prices from 0 to 2 ^ 40 and with less than 2 ^ 50
-- traded in all, the two volumes are those of the trades in the window, which holds `max_window` at
-- most; `vpin` is between 0 and 10,000 and the multiplier of the spread between 10,000 and 30,000.
-- The weight of the average is between 0 and 10,000.
pub ticks_of-bounds :
    (max_window alpha : ℕ) (threshold : ℤ) (xs : List Tick)
    → alpha ≤ 10_000
    → All (λ x. x.price ≤ 2 ^ 40) xs
    → tick_volume xs < 2 ^ 50
    → let t = ticks_of (new_tracker max_window (pos alpha) threshold) xs in
      IsCounted t
      × UpTo 10_000 (vpin t)
      × ((k : ℕ) × (spread_multiplier t ≡ pos k) × (10_000 ≤ k) × (k ≤ 30_000))
ticks_of-bounds max_window alpha threshold xs a p b =
    let t : ToxicityTracker = ticks_of (new_tracker max_window (pos alpha) threshold) xs in
    let start : Steady alpha (new_tracker max_window (pos alpha) threshold) =
      unfold new_tracker in
      record {
        counted = record { buys = refl; sells = refl; size = omega arith };
        ema = record { value = 0; is_value = refl; within = omega arith };
        last = record { value = 0; is_value = refl; within = omega arith };
        alpha_is = refl;
      } in
    let (k, small) =
      ticks_of-Steady xs (new_tracker max_window (pos alpha) threshold) alpha a p
        (unfold new_tracker in omega arith) start in
    let total : t.buy_volume + t.sell_volume < 2 ^ 50 =
      omega (arith, k.counted.buys, k.counted.sells, volumes_sum t.window) in
    (k.counted, vpin-UpTo t total, spread_multiplier-bounds t total k.ema)
