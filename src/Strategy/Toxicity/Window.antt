-- ===== src/Strategy/Toxicity/Window.antt =====
-- The volumes of the tracker are those of its window.
use atomic_mesh.Base.{ℕ, ◌+◌, ◌^◌, ◌≤◌, ◌<◌, ◌≡◌, refl, List, [], ◌∷◌, ◌++◌, length, arith, ℤ}
use atomic_mesh.Core.Types.{Side, buy, sell}
use atomic_mesh.Strategy.Toxicity.{
  ToxicityTracker, add_volume, take_volume, updated_volatility, evict, on_trade,
}

-- The quantity on one side of a list of trades.
abbrev pub qty_for : Side → Side → ℕ → ℕ
qty_for buy buy qty = qty
qty_for sell sell qty = qty
qty_for _ _ qty = 0

abbrev pub side_volume : Side → List (Side × ℕ) → ℕ
side_volume side [] = 0
side_volume side ((s, qty) ∷ ts) = qty_for side s qty + side_volume side ts

abbrev pub all_volume : List (Side × ℕ) → ℕ
all_volume [] = 0
all_volume ((s, qty) ∷ ts) = qty + all_volume ts

pub record IsCounted (t : ToxicityTracker) : Type 0 where
  pub buys : t.buy_volume ≡ side_volume buy t.window
  pub sells : t.sell_volume ≡ side_volume sell t.window
  pub size : length t.window ≤ t.max_window

side_volume-append :
    (side : Side) (xs ys : List (Side × ℕ))
    → side_volume side (xs ++ ys) ≡ side_volume side xs + side_volume side ys
side_volume-append side [] ys = omega arith
side_volume-append side (x ∷ xs) ys = omega (arith, side_volume-append side xs ys)

pub volumes_sum : (xs : List (Side × ℕ)) → side_volume buy xs + side_volume sell xs ≡ all_volume xs
volumes_sum [] = refl
volumes_sum ((buy, n) ∷ xs) = omega (arith, volumes_sum xs)
volumes_sum ((sell, n) ∷ xs) = omega (arith, volumes_sum xs)

evict-IsCounted :
    (w : List (Side × ℕ)) (t : ToxicityTracker)
    → t.buy_volume ≡ side_volume buy w
    → t.sell_volume ≡ side_volume sell w
    → IsCounted (evict t w)
unfolding evict
evict-IsCounted [] t b s = record { buys = b; sells = s; size = omega arith }
evict-IsCounted ((buy, n) ∷ w) t b s =
    ground (arith, evict-IsCounted w (take_volume buy n t) (omega arith) (omega arith))
evict-IsCounted ((sell, n) ∷ w) t b s =
    ground (arith, evict-IsCounted w (take_volume sell n t) (omega arith) (omega arith))

-- What an eviction leaves alone, and what it can only take away from.
pub evict-same :
    (w : List (Side × ℕ)) (t : ToxicityTracker)
    → ((evict t w).max_window ≡ t.max_window)
      × ((evict t w).volatility_ema ≡ t.volatility_ema)
      × ((evict t w).last_price ≡ t.last_price)
      × ((evict t w).vol_alpha ≡ t.vol_alpha)
      × (all_volume (evict t w).window ≤ all_volume w)
unfolding evict
evict-same [] t = (refl, refl, refl, refl, omega arith)
evict-same ((buy, n) ∷ w) t = ground (arith, evict-same w (take_volume buy n t))
evict-same ((sell, n) ∷ w) t = ground (arith, evict-same w (take_volume sell n t))

all_volume-append :
    (xs ys : List (Side × ℕ)) → all_volume (xs ++ ys) ≡ all_volume xs + all_volume ys
all_volume-append [] ys = omega arith
all_volume-append (x ∷ xs) ys = omega (arith, all_volume-append xs ys)

pub on_trade-IsCounted :
    (t : ToxicityTracker) (side : Side) (n : ℕ) (price : ℤ)
    → IsCounted t
    → all_volume t.window + n < 2 ^ 64
    → IsCounted (on_trade t side n price)
unfolding on_trade
on_trade-IsCounted t buy n price c b =
    evict-IsCounted (t.window ++ (buy, n) ∷ []) _
      (omega (arith, c.buys, volumes_sum t.window, side_volume-append buy t.window ((buy, n) ∷ [])))
      (omega (arith, c.sells, side_volume-append sell t.window ((buy, n) ∷ [])))
on_trade-IsCounted t sell n price c b =
    evict-IsCounted (t.window ++ (sell, n) ∷ []) _
      (omega (arith, c.buys, side_volume-append buy t.window ((sell, n) ∷ [])))
      (omega
        (arith, c.sells, volumes_sum t.window, side_volume-append sell t.window ((sell, n) ∷ [])))

-- What a trade makes of the rest of the tracker.
pub on_trade-same :
    (t : ToxicityTracker) (side : Side) (n : ℕ) (price : ℤ)
    → ((on_trade t side n price).max_window ≡ t.max_window)
      × ((on_trade t side n price).volatility_ema ≡ updated_volatility t price)
      × ((on_trade t side n price).last_price ≡ price)
      × ((on_trade t side n price).vol_alpha ≡ t.vol_alpha)
      × (all_volume (on_trade t side n price).window ≤ all_volume t.window + n)
unfolding on_trade
on_trade-same t buy n price =
    let (size, ema, last, alpha, less) = evict-same (t.window ++ (buy, n) ∷ []) (
      add_volume buy n
        (record t { volatility_ema = updated_volatility t price; last_price = price })) in
    (size, ema, last, alpha, omega (arith, less, all_volume-append t.window ((buy, n) ∷ [])))
on_trade-same t sell n price =
    let (size, ema, last, alpha, less) = evict-same (t.window ++ (sell, n) ∷ []) (
      add_volume sell n
        (record t { volatility_ema = updated_volatility t price; last_price = price })) in
    (size, ema, last, alpha, omega (arith, less, all_volume-append t.window ((sell, n) ∷ [])))
