-- ===== src/OrderBook/Fill.antt =====
-- What a simulated market order takes from the book.
use mathlib.Core.List.{reverse-cons, map-append}
use mathlib.Core.Option
use atomic_mesh.Base.{
  ℕ, zero, suc, ◌+◌, ◌-◌, ◌^◌, ◌≤◌, ◌<◌, min, ◌≡◌, refl, ◌∙◌, ap, none, some, List, [], ◌∷◌, ◌++◌,
  map, reverse, take, length, length-append, arith, ◌==◌, nat_eq, if◌then◌else◌, ◌⊎◌, ℤ, pos,
}
use atomic_mesh.Base.Word.{
  u64_as_i64_small, add_i64, mul_i64, sum, sum_u64-sum, min_i64_pos, sub_i64_pos, u64-i64_as_u64,
}
use atomic_mesh.Base.BTreeMap.{BTreeMap}
use atomic_mesh.Core.Types.{Level, Qty, Side, buy, sell}
use atomic_mesh.OrderBook.{
  OrderBook, to_level, facing_levels, walk, average, simulate_fill, ask_depth, bid_depth,
}

abbrev pub total : List Level → ℕ
total [] = 0
total (l ∷ ls) = l.qty + total ls

-- One round, where nothing wraps.
pub walk_step :
    (l : Level) (ls : List Level) (r f : ℕ) (cost : ℤ)
    → 0 < r
    → l.qty < 2 ^ 63
    → f + r < 2 ^ 63
    → walk (l ∷ ls) (pos r) cost f
      ≡ walk ls
          (pos (r - min r l.qty))
          (add_i64 cost (mul_i64 (pos (min r l.qty)) l.price))
          (f + min r l.qty)
unfolding walk
walk_step l ls r f cost hr hq hf =
    rw
      (
        u64_as_i64_small l.qty hq,
        min_i64_pos r l.qty,
        sub_i64_pos r (min r l.qty) (omega arith) (omega arith),
        u64-i64_as_u64 f (min r l.qty) (omega arith),
      )
      (ground arith)

pub walk_done : (ls : List Level) (cost : ℤ) (f : ℕ) → walk ls (pos 0) cost f ≡ (cost, f)
unfolding walk
walk_done [] cost f = refl
walk_done (l ∷ ls) cost f = refl

pub walk_filled :
    (ls : List Level) (r f : ℕ) (cost : ℤ)
    → f + r < 2 ^ 63
    → total ls < 2 ^ 63
    → (walk ls (pos r) cost f).1 ≡ f + min r (total ls)
unfolding walk
walk_filled [] r f cost h t = omega arith
walk_filled (l ∷ ls) zero f cost h t = omega arith
walk_filled (l ∷ ls) (suc r) f cost h t =
    ap (λ p. p.1) (walk_step l ls (suc r) f cost (omega arith) (omega arith) h)
    ∙ walk_filled ls _ _ _ (omega arith) (omega arith)
    ∙ omega arith

-- The levels that an order meets hold what its side of the book holds.
total-levels : (side : BTreeMap Qty) → total (map to_level side) ≡ sum (map (λ e. e.1) side)
total-levels [] = refl
total-levels (e ∷ side) = ap (λ t. e.1 + t) (total-levels side)

total-append : (ls ms : List Level) → total (ls ++ ms) ≡ total ls + total ms
total-append [] ms = omega arith
total-append (l ∷ ls) ms = omega (arith, total-append ls ms)

total-reverse :
    (side : BTreeMap Qty) → total (map to_level (reverse side)) ≡ total (map to_level side)
total-reverse [] = refl
total-reverse (e ∷ side) =
    ap (λ s. total (map to_level s)) (reverse-cons e side)
    ∙ ap total (map-append to_level (reverse side) (e ∷ []))
    ∙ omega
        (arith, total-append (map to_level (reverse side)) (to_level e ∷ []), total-reverse side)

take_all {ℓ} : {A : Type ℓ} (xs : List A) (n : ℕ) → length xs ≤ n → take n xs ≡ xs
take_all [] zero h = refl
take_all [] (suc n) h = refl
take_all (x ∷ xs) zero h = absurd (omega arith)
take_all (x ∷ xs) (suc n) h = ap (◌∷◌ x) (take_all xs n (omega arith))

length-reverse {ℓ} : {A : Type ℓ} (xs : List A) → length (reverse xs) ≡ length xs
length-reverse [] = refl
length-reverse (x ∷ xs) =
    ap length (reverse-cons x xs)
    ∙ omega (arith, length-append (reverse xs) (x ∷ []), length-reverse xs)

abbrev pub facing_side : OrderBook → Side → BTreeMap Qty
facing_side b buy = b.asks
facing_side b sell = b.bids

pub total-facing_levels :
    (b : OrderBook) (side : Side)
    → total (facing_levels b side) ≡ sum (map (λ e. e.1) (facing_side b side))
unfolding facing_levels
total-facing_levels b buy =
    ap (λ s. total (map to_level s)) (take_all b.asks _ (omega arith)) ∙ total-levels b.asks
total-facing_levels b sell =
    ap (λ s. total (map to_level s))
      (take_all (reverse b.bids) _ (omega (arith, length-reverse b.bids)))
    ∙ total-reverse b.bids
    ∙ total-levels b.bids

-- The depth that the book reports for the side that an order meets.
abbrev pub facing_depth : OrderBook → Side → ℕ
facing_depth b buy = ask_depth b
facing_depth b sell = bid_depth b

facing_depth-sum :
    (b : OrderBook) (side : Side)
    → sum (map (λ e. e.1) (facing_side b side)) < 2 ^ 63
    → facing_depth b side ≡ sum (map (λ e. e.1) (facing_side b side))
unfolding ask_depth bid_depth
facing_depth-sum b buy h = sum_u64-sum _ (omega arith)
facing_depth-sum b sell h = sum_u64-sum _ (omega arith)

average-filled :
    (r : ℤ × ℕ) (n : ℕ)
    → r.1 ≡ n
    → Option.map (λ p. p.1) (average r) ≡ (if n == 0 then none else some n)
unfolding average
average-filled (cost, f) n e = ground arith

-- The quantity that `simulate_fill` reports is the smaller one of the order's quantity and of the
-- depth of the side that it meets, and there is no result just where that is 0; the order's quantity
-- and the side's total are below 2 ^ 63.
simulate_fill-filled :
    (b : OrderBook) (side : Side) (qty : Qty)
    → qty < 2 ^ 63
    → sum (map (λ e. e.1) (facing_side b side)) < 2 ^ 63
    → Option.map (λ p. p.1) (simulate_fill b side qty)
      ≡ (if min qty (facing_depth b side) == 0 then none else some (min qty (facing_depth b side)))
unfolding simulate_fill
simulate_fill-filled b side qty hq hs = average-filled _ _ (
    ap (λ r. (walk (facing_levels b side) r (pos 0) 0).1) (u64_as_i64_small qty hq)
    ∙ walk_filled (facing_levels b side) qty 0 (pos 0) (omega arith)
        (omega (arith, total-facing_levels b side))
    ∙ omega (arith, total-facing_levels b side, facing_depth-sum b side hs))

-- Where the side that an order meets holds at least the order's quantity, `simulate_fill` fills all of
-- it, at some price, and only an order for 0 has no result. Where the side holds nothing, no order
-- has a result. The order's quantity and the side's total are below 2 ^ 63.
pub simulate_fill-enough :
    (b : OrderBook) (side : Side) (qty : Qty)
    → qty < 2 ^ 63
    → sum (map (λ e. e.1) (facing_side b side)) < 2 ^ 63
    → (qty ≤ facing_depth b side) ⊎ (facing_depth b side ≡ 0)
    → Option.map (λ p. p.1) (simulate_fill b side qty)
      ≡ (if qty == 0 then none else if facing_depth b side == 0 then none else some qty)
simulate_fill-enough b side qty hq hs h = simulate_fill-filled b side qty hq hs ∙ ground (arith, h)
