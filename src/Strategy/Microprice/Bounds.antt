-- ===== src/Strategy/Microprice/Bounds.antt =====
-- The microprice lies among the prices that it is made of.
use native.Mathlib.Nat.{mul-le-mul, mul_assoc, le-div_iff_mul-le, div-le_of_le-mul}
use atomic_mesh.Base.{
  ℕ, zero, suc, ◌+◌, ◌*◌, ◌/◌, ◌^◌, ◌≤◌, ◌<◌, ◌≡◌, refl, sym, ◌∙◌, ap, ap₂, subst, List, [], ◌∷◌,
  All, arith, ◌==◌, nat_eq, int_eq, Bool-cases, inl, inr, ℤ, pos, quot_ℤ,
}
use atomic_mesh.Base.Word.{
  add_i128, mul_i128, add_i128_pos, mul_i128_pos, quot_i128_pos, i64, i128, add_i64_pos,
  div_i64_pos, add_i64, div_i64,
}
use atomic_mesh.Core.Types.{Level}
use atomic_mesh.OrderBook.FillPrice.{Between, price_value}
use atomic_mesh.Strategy.Microprice.{crossed, microprice, weigh, levels_used, weighted}

-- The weight of the levels used, without bound.
abbrev pub weight : ℕ → List Level → List Level → ℕ
weight (suc w) (bid ∷ bids) (ask ∷ asks) = (bid.qty + ask.qty) * suc w + weight w bids asks
weight _ _ _ = 0

-- A whole sum of prices with a weight.
record Sum (lo hi weight : ℕ) (z : ℤ) : Type 0 where
  value : ℕ
  is_value : z ≡ pos value
  low : lo * weight ≤ value
  high : value ≤ hi * weight

cross_bounds :
    (lo hi p q a b : ℕ)
    → lo ≤ p
    → p ≤ hi
    → lo ≤ q
    → q ≤ hi
    → (lo * (a + b) ≤ q * a + p * b) × (q * a + p * b ≤ hi * (a + b))
cross_bounds lo hi p q a b lp ph lq qh =
    let first_low : lo * a ≤ q * a = mul-le-mul lq (omega arith) in
    let second_low : lo * b ≤ p * b = mul-le-mul lp (omega arith) in
    let first_high : q * a ≤ hi * a = mul-le-mul qh (omega arith) in
    let second_high : p * b ≤ hi * b = mul-le-mul ph (omega arith) in (omega arith, omega arith)

crossed-Sum :
    (lo hi : ℕ) (bid ask : Level)
    → Between lo hi bid.price
    → Between lo hi ask.price
    → hi * (bid.qty + ask.qty) < 2 ^ 127
    → Sum lo hi (bid.qty + ask.qty) (crossed bid ask)
unfolding crossed
crossed-Sum lo hi bid ask x y b =
    let (p, e, lp, ph) = price_value lo hi bid.price x in
    let (q, f, lq, qh) = price_value lo hi ask.price y in
    let (low, high) = cross_bounds lo hi p q bid.qty ask.qty lp ph lq qh in
    record {
      value = q * bid.qty + p * ask.qty;
      is_value =
          rw (e, f, mul_i128_pos q bid.qty (omega arith), mul_i128_pos p ask.qty (omega arith))
            (add_i128_pos (q * bid.qty) (p * ask.qty) (omega arith));
      low = low;
      high = high;
    }

-- One round of the loop, where nothing wraps.
weigh_step :
    (lo hi num den c s w rest : ℕ)
    → lo * den ≤ num
    → num ≤ hi * den
    → lo * s ≤ c
    → c ≤ hi * s
    → hi * (den + (s * suc w + rest)) < 2 ^ 127
    → (lo * (den + s * suc w) ≤ num + c * suc w)
      × (num + c * suc w ≤ hi * (den + s * suc w))
      × (num + c * suc w < 2 ^ 127)
      × (hi * s < 2 ^ 127)
weigh_step lo hi num den c s w rest l h lc hc b =
    let low : lo * s * suc w ≤ c * suc w = mul-le-mul lc (omega arith) in
    let high : c * suc w ≤ hi * s * suc w = mul-le-mul hc (omega arith) in
    let room : hi * (den + s * suc w) ≤ hi * (den + (s * suc w + rest)) =
      mul-le-mul {n₁ = hi} (omega arith) (omega arith) in
    let part : hi * s ≤ hi * (den + s * suc w) = mul-le-mul {n₁ = hi} (omega arith) (omega arith) in
    let assoc : lo * s * suc w ≡ lo * (s * suc w) = mul_assoc lo s (suc w) in
    let assoc' : hi * s * suc w ≡ hi * (s * suc w) = mul_assoc hi s (suc w) in
    (omega arith, omega arith, omega arith, omega arith)

-- What the loop returns: the weight, and a sum with that weight.
abbrev Weighed : ℕ → ℕ → ℕ → ℤ × ℤ → Type 0
Weighed lo hi total (n, d) = (d ≡ pos total) × Sum lo hi total n

no_weight :
    (lo hi num den : ℕ)
    → lo * den ≤ num
    → num ≤ hi * den
    → Weighed lo hi (den + 0) (pos num, pos den)
no_weight lo hi num den l h =
    subst (λ n. Weighed lo hi n (pos num, pos den)) (omega arith)
      (refl, record { value = num; is_value = refl; low = l; high = h })

hi_room : (hi den s w rest : ℕ) → hi * (den + (s * suc w + rest)) < 2 ^ 127 → hi * s < 2 ^ 127
hi_room hi den s w rest b =
    let part : hi * s ≤ hi * (den + (s * suc w + rest)) =
      mul-le-mul {n₁ = hi} (omega arith) (omega arith) in
    omega arith

weigh-Sum :
    (w : ℕ) (bids asks : List Level) (lo hi num den : ℕ)
    → All (λ l. Between lo hi l.price) bids
    → All (λ l. Between lo hi l.price) asks
    → den + weight w bids asks < 2 ^ 127
    → hi * (den + weight w bids asks) < 2 ^ 127
    → lo * den ≤ num
    → num ≤ hi * den
    → Weighed lo hi (den + weight w bids asks) (weigh (pos num) (pos den) w bids asks)
unfolding weigh
weigh-Sum zero bids asks lo hi num den x y b c l h = no_weight lo hi num den l h
weigh-Sum (suc w) [] asks lo hi num den x y b c l h = no_weight lo hi num den l h
weigh-Sum (suc w) (bid ∷ bids) [] lo hi num den x y b c l h = no_weight lo hi num den l h
weigh-Sum (suc w) (bid ∷ bids) (ask ∷ asks) lo hi num den x y b c l h =
    let s : ℕ = bid.qty + ask.qty in
    let rest : ℕ = weight w bids asks in
    let mixed = crossed-Sum lo hi bid ask x.0 y.0 (hi_room hi den s w rest c) in
    let (low, high, room, _) =
      weigh_step lo hi num den mixed.value s w rest l h mixed.low mixed.high c in
    let numerator : add_i128 (pos num) (mul_i128 (crossed bid ask) (pos (suc w)))
        ≡ pos (num + mixed.value * suc w) =
      ap (λ z. add_i128 (pos num) (mul_i128 z (pos (suc w)))) mixed.is_value
      ∙ ap (add_i128 (pos num)) (mul_i128_pos mixed.value (suc w) (omega arith))
      ∙ add_i128_pos num (mixed.value * suc w) (omega arith) in
    let denominator : add_i128 (pos den)
          (mul_i128 (add_i128 (pos bid.qty) (pos ask.qty)) (pos (suc w)))
        ≡ pos (den + s * suc w) =
      ap (λ z. add_i128 (pos den) (mul_i128 z (pos (suc w))))
        (add_i128_pos bid.qty ask.qty (omega arith))
      ∙ ap (add_i128 (pos den)) (mul_i128_pos s (suc w) (omega arith))
      ∙ add_i128_pos den (s * suc w) (omega arith) in
    let total : den + s * suc w + rest ≡ den + (s * suc w + rest) = omega arith in
    subst (Weighed lo hi (den + (s * suc w + rest)))
      (sym (ap₂ (λ n d. weigh n d w bids asks) numerator denominator))
      (subst
        (λ n.
          Weighed lo hi n
            (weigh (pos (num + mixed.value * suc w)) (pos (den + s * suc w)) w bids asks))
        total
        (weigh-Sum w bids asks lo hi (num + mixed.value * suc w) (den + s * suc w) x.1 y.1
          (omega arith) (subst (λ n. hi * n < 2 ^ 127) (sym total) c) low high))

midpoint-Between :
    (lo hi : ℕ) (bid ask : Level)
    → Between lo hi bid.price
    → Between lo hi ask.price
    → hi < 2 ^ 62
    → Between lo hi (div_i64 (add_i64 bid.price ask.price) (pos 2))
midpoint-Between lo hi bid ask x y b =
    let (p, e, lp, ph) = price_value lo hi bid.price x in
    let (q, f, lq, qh) = price_value lo hi ask.price y in
    rw (e, f, add_i64_pos p q (omega arith), div_i64_pos (p + q) 2 (omega arith) (omega arith))
      (omega arith, omega arith)

quotient-Between :
    (lo hi total : ℕ) (r : ℤ × ℤ)
    → 0 < total
    → hi < 2 ^ 62
    → hi * total < 2 ^ 127
    → Weighed lo hi total r
    → Between lo hi (i64 (i128 (quot_ℤ r.0 r.1)))
quotient-Between lo hi total (n, d) z b c (e, v) =
    let low : lo ≤ v.value / total = (le-div_iff_mul-le z).1 v.low in
    let high : v.value / total ≤ hi = div-le_of_le-mul total (omega (arith, v.high)) in
    rw (e, v.is_value, quot_i128_pos v.value total (omega (arith, v.high)) (omega arith))
      (omega arith, omega arith)

microprice-Between :
    (lo hi : ℕ) (bid ask : Level)
    → Between lo hi bid.price
    → Between lo hi ask.price
    → hi < 2 ^ 62
    → bid.qty + ask.qty < 2 ^ 127
    → hi * (bid.qty + ask.qty) < 2 ^ 127
    → Between lo hi (microprice bid ask)
unfolding microprice
microprice-Between lo hi bid ask x y b c d =
    let s : ℕ = bid.qty + ask.qty in
    let total : add_i128 (pos bid.qty) (pos ask.qty) ≡ pos s = add_i128_pos bid.qty ask.qty c in
    rw total (elim (Bool-cases (pos s == pos 0)) [
      | inl none ↦ rw none (midpoint-Between lo hi bid ask x y b)
      | inr some ↦ rw some (
          quotient-Between lo hi s (crossed bid ask, pos s) (ground arith) b d
            (refl, crossed-Sum lo hi bid ask x y d))
    ])

-- The weighted microprice of a book whose sides are not empty lies between the least and the
-- greatest price of its levels: for prices from `lo` to `hi` below 2 ^ 62, where the weight of the
-- levels used, and `hi` times that weight, are below 2 ^ 127.
pub weighted-Between :
    (lo hi depth : ℕ) (bid ask : Level) (bids asks : List Level)
    → let d = levels_used (bid ∷ bids) (ask ∷ asks) depth in
      All (λ l. Between lo hi l.price) (bid ∷ bids)
      → All (λ l. Between lo hi l.price) (ask ∷ asks)
      → hi < 2 ^ 62
      → bid.qty + ask.qty + weight d (bid ∷ bids) (ask ∷ asks) < 2 ^ 127
      → hi * (bid.qty + ask.qty + weight d (bid ∷ bids) (ask ∷ asks)) < 2 ^ 127
      → Between lo hi (weighted (bid ∷ bids) (ask ∷ asks) depth)
unfolding weighted
weighted-Between lo hi depth bid ask bids asks x y b c k =
    let d : ℕ = levels_used (bid ∷ bids) (ask ∷ asks) depth in
    let heavy : ℕ = weight d (bid ∷ bids) (ask ∷ asks) in
    let top : hi * (bid.qty + ask.qty) ≤ hi * (bid.qty + ask.qty + heavy) =
      mul-le-mul {n₁ = hi} (omega arith) (omega arith) in
    let rest : hi * heavy ≤ hi * (bid.qty + ask.qty + heavy) =
      mul-le-mul {n₁ = hi} (omega arith) (omega arith) in
    let r : ℤ × ℤ = weigh (pos 0) (pos 0) d (bid ∷ bids) (ask ∷ asks) in
    let loop : Weighed lo hi heavy r =
      subst (λ n. Weighed lo hi n r) (omega arith)
        (weigh-Sum d (bid ∷ bids) (ask ∷ asks) lo hi 0 0 x y (omega arith) (omega arith)
          (omega arith) (omega arith)) in
    elim (Bool-cases (d == 0)) [
      | inl none ↦ rw none (microprice-Between lo hi bid ask x.0 y.0 b (omega arith) (omega arith))
      | inr some ↦ elim (Bool-cases (r.1 == pos 0)) [
        | inl flat ↦ rw (some, flat) (midpoint-Between lo hi bid ask x.0 y.0 b)
        | inr heavy_enough ↦
            rw (some, heavy_enough)
              (quotient-Between lo hi heavy r (ground (arith, loop.0)) b (omega arith) loop)
      ]
    ]
