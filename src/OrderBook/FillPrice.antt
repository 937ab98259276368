-- ===== src/OrderBook/FillPrice.antt =====
-- The average price of a simulated market order.
use native.Mathlib.Nat.{le-div_iff_mul-le, div-le_of_le-mul, mul-le-mul_left}
use atomic_mesh.Base.{
  ℕ, zero, suc, ◌+◌, ◌-◌, ◌*◌, ◌/◌, ◌^◌, ◌≤◌, ◌<◌, min, ◌≡◌, refl, sym, ◌∙◌, ap, subst, Option,
  none, some, List, [], ◌∷◌, map, All, arith, ◌==◌, nat_eq, ℤ, pos, negsuc, ◌≤ℤ◌, Bool-cases, inl,
  inr,
}
use atomic_mesh.Base.Word.{
  u64_as_i64_small, add_i64, mul_i64, sum, add_i64_pos, mul_i64_pos, div_i64_pos,
}
use atomic_mesh.Core.Types.{Level, Qty, Price, Side}
use atomic_mesh.OrderBook.{OrderBook, facing_levels, walk, average, simulate_fill}
use atomic_mesh.OrderBook.Fill.{total, walk_step, walk_filled, facing_side, total-facing_levels}

abbrev pub Between : ℕ → ℕ → ℤ → Type 0
Between lo hi p = (pos lo ≤ℤ p) × (p ≤ℤ pos hi)

pub price_value :
    (lo hi : ℕ) (p : ℤ) → Between lo hi p → (n : ℕ) × (p ≡ pos n) × (lo ≤ n) × (n ≤ hi)
price_value lo hi (pos n) h = (n, refl, omega arith, omega arith)
price_value lo hi (negsuc n) h = absurd (omega arith)

-- A cost between those at the two prices.
abbrev CostOf : ℕ → ℕ → ℤ × ℕ → Type 0
CostOf lo hi r = (c : ℕ) × (r.0 ≡ pos c) × (lo * r.1 ≤ c) × (c ≤ hi * r.1)

cost_step :
    (lo hi c f r k p : ℕ)
    → lo ≤ p
    → p ≤ hi
    → k ≤ r
    → hi * (f + r) < 2 ^ 63
    → lo * f ≤ c
    → c ≤ hi * f
    → (k * p < 2 ^ 63)
      × (c + k * p < 2 ^ 63)
      × (lo * (f + k) ≤ c + k * p)
      × (c + k * p ≤ hi * (f + k))
cost_step lo hi c f r k p hl hh hk b l h =
    let low : lo * k ≤ k * p = grind arith in
    let high : k * p ≤ hi * k = grind arith in
    let room : hi * k ≤ hi * r = grind arith in omega arith

walk_cost :
    (ls : List Level) (lo hi r c f : ℕ)
    → f + r < 2 ^ 63
    → total ls < 2 ^ 63
    → hi * (f + r) < 2 ^ 63
    → All (λ l. Between lo hi l.price) ls
    → lo * f ≤ c
    → c ≤ hi * f
    → CostOf lo hi (walk ls (pos r) (pos c) f)
unfolding walk
walk_cost [] lo hi r c f hf ht hb a l h = (c, refl, l, h)
walk_cost (x ∷ ls) lo hi zero c f hf ht hb a l h = (c, refl, l, h)
walk_cost (x ∷ ls) lo hi (suc r) c f hf ht hb a l h =
    let k : ℕ = min (suc r) x.qty in
    let (p, e, above, below) = price_value lo hi x.price a.0 in
    let (small, room, low, high) =
      cost_step lo hi c f (suc r) k p above below (omega arith) hb l h in
    let cost : add_i64 (pos c) (mul_i64 (pos k) x.price) ≡ pos (c + k * p) =
      rw (e, mul_i64_pos k p small) (add_i64_pos c (k * p) room) in
    rw (walk_step x ls (suc r) f (pos c) (omega arith) (omega arith) hf, cost)
      (walk_cost ls lo hi (suc r - k) (c + k * p) (f + k) (omega arith) (omega arith)
        (subst (λ n. hi * n < 2 ^ 63) (omega arith) hb) a.1 low high)

average-Between :
    (lo hi : ℕ) (r : ℤ × ℕ) (p : Price) (n : Qty)
    → r.1 < 2 ^ 63
    → hi * r.1 < 2 ^ 63
    → CostOf lo hi r
    → average r ≡ some (p, n)
    → Between lo hi p
unfolding average
average-Between lo hi (cost, f) p n hf hb (c, e, l, h) s = elim (Bool-cases (f == 0)) [
  | inl z ↦ ground arith
  | inr nz ↦
      let q : ◌≡◌ {A = Option (ℤ × ℕ)} (some (pos (c / f), f)) (some (p, n)) =
        sym (rw (nz, e, u64_as_i64_small f hf, div_i64_pos c f (omega arith) (ground arith)) refl)
        ∙ s in
      let inside : (lo ≤ c / f) × (c / f ≤ hi) =
        ((le-div_iff_mul-le (ground arith)).1 l, div-le_of_le-mul f (omega arith)) in
      let price : pos (c / f) ≡ p =
        ap {A = Option (ℤ × ℕ)} (λ o. elim o [ none ↦ p | some r ↦ r.0 ]) q in
      subst (Between lo hi) price (omega arith)
]

-- The average price of a result of `simulate_fill` lies between the least and the greatest price of
-- the levels that the order meets: for non-negative prices such that the order's quantity at the
-- greatest price is below 2 ^ 63, as are the quantity itself and the side's total.
pub simulate_fill-Between :
    (b : OrderBook) (side : Side) (qty lo hi : ℕ) {p : Price} {n : Qty}
    → qty < 2 ^ 63
    → hi * qty < 2 ^ 63
    → sum (map (λ e. e.1) (facing_side b side)) < 2 ^ 63
    → All (λ l. Between lo hi l.price) (facing_levels b side)
    → simulate_fill b side qty ≡ some (p, n)
    → Between lo hi p
unfolding simulate_fill
simulate_fill-Between b side qty lo hi {p} {n} hq hb hs a e =
    let w : (walk (facing_levels b side) (pos qty) (pos 0) 0).1
        ≡ min qty (total (facing_levels b side)) =
      walk_filled (facing_levels b side) qty 0 (pos 0) (omega arith)
        (omega (arith, total-facing_levels b side))
      ∙ omega arith in
    let small : hi * min qty (total (facing_levels b side)) ≤ hi * qty =
      mul-le-mul_left hi (omega arith) in
    average-Between lo hi (walk (facing_levels b side) (pos qty) (pos 0) 0) p n (omega arith)
      (rw w (omega arith))
      (walk_cost (facing_levels b side) lo hi qty 0 0 (omega arith)
        (omega (arith, total-facing_levels b side)) (subst (λ n. hi * n < 2 ^ 63) (omega arith) hb)
        a (omega arith) (omega arith))
      (ap (λ r. average (walk (facing_levels b side) r (pos 0) 0)) (sym (u64_as_i64_small qty hq))
        ∙ e)
