-- ===== src/Strategy/Inventory/Skew.antt =====
-- The position stays within its bounds, and so does the skew of the quotes.
use native.Mathlib.Nat.{div-le_of_le-mul, mul-le-mul}
use atomic_mesh.Base.{
  ℕ, ◌+◌, ◌-◌, ◌*◌, ◌/◌, ◌^◌, ◌≤◌, ◌<◌, ◌≡◌, refl, List, [], ◌∷◌, arith, Bool-cases, inl, inr,
  nat_eq, ◌==◌, int_eq, ℤ, pos,
}
use atomic_mesh.Base.Word.{
  mul_i64, div_i64, mul_i64_pos, div_i64_pos, add_i64_pos, sub_i64_small, u64_as_i64_small,
}
use atomic_mesh.Core.Types.{Side, buy, sell}
use atomic_mesh.Strategy.Inventory.{
  InventoryManager, new_inventory, inventory_on_fill, moved_position, compute_skew,
}

-- A whole number of at most `bound`.
pub record UpTo (bound : ℕ) (z : ℤ) : Type 0 where
  pub value : ℕ
  pub is_value : z ≡ pos value
  pub within : value ≤ bound

skew_value :
    (q most g h : ℕ)
    → q ≤ most
    → 0 < most
    → most < 2 ^ 48
    → g ≤ 10_000
    → h < 2 ^ 48
    → UpTo h (
        div_i64
          (mul_i64
            (div_i64
              (mul_i64 (div_i64 (mul_i64 (pos q) (pos 10_000)) (pos most)) (pos g))
              (pos 10_000))
            (pos h))
          (pos 10_000))
skew_value q most g h a z b c d =
    let inv : ℕ = q * 10_000 / most in
    let inv_up : inv ≤ 10_000 = div-le_of_le-mul most (omega arith) in
    let weighed : inv * g ≤ 10_000 * 10_000 = mul-le-mul inv_up c in
    let part : ℕ = inv * g / 10_000 in
    let part_up : part ≤ 10_000 = omega arith in
    let product : part * h ≤ 10_000 * h = mul-le-mul part_up (omega arith) in
    record {
      value = part * h / 10_000;
      is_value =
          rw
            (
              mul_i64_pos q 10_000 (omega arith),
              div_i64_pos (q * 10_000) most (omega arith) z,
              mul_i64_pos inv g (omega arith),
              div_i64_pos (inv * g) 10_000 (omega arith) (omega arith),
              mul_i64_pos part h (omega arith),
            )
            (div_i64_pos (part * h) 10_000 (omega arith) (omega arith));
      within = omega arith;
    }

-- For a position up to the greatest inventory and a risk aversion up to 1 the skew is between 0 and
-- the half-spread.
pub compute_skew-UpTo :
    (m : InventoryManager) (q most g h : ℕ)
    → m.position_qty ≡ pos q
    → m.max_inventory ≡ pos most
    → m.gamma ≡ pos g
    → q ≤ most
    → most < 2 ^ 48
    → g ≤ 10_000
    → h < 2 ^ 48
    → UpTo h (compute_skew m (pos h))
unfolding compute_skew
compute_skew-UpTo m q most g h p l k a b c d =
    rw (p, l, k)
      (elim (Bool-cases (pos most == pos 0)) [
        | inl empty ↦ rw empty (record { value = 0; is_value = refl; within = omega arith })
        | inr some_room ↦ rw some_room (skew_value q most g h a (ground arith) b c d)
      ])

-- What a fill makes of a holding: a sale of more than is held leaves nothing.
abbrev pub hold : Side → ℕ → ℕ → ℕ
hold buy n q = q + n
hold sell n q = q - n

pub inventory_on_fill-hold :
    (m : InventoryManager) (side : Side) (n q : ℕ)
    → m.position_qty ≡ pos q
    → q + n < 2 ^ 63
    → (inventory_on_fill m side n).position_qty ≡ pos (hold side n q)
unfolding inventory_on_fill moved_position
inventory_on_fill-hold m buy n q p b =
    rw (p, u64_as_i64_small n (omega arith), add_i64_pos q n b) (ground arith)
inventory_on_fill-hold m sell n q p b =
    rw (p, u64_as_i64_small n (omega arith), sub_i64_small q n (omega arith) (omega arith))
      (ground arith)

abbrev pub fills : InventoryManager → List (Side × ℕ) → InventoryManager
fills m [] = m
fills m ((side, n) ∷ fs) = fills (inventory_on_fill m side n) fs

abbrev pub holding : ℕ → List (Side × ℕ) → ℕ
holding q [] = q
holding q ((side, n) ∷ fs) = holding (hold side n q) fs

abbrev pub traded : List (Side × ℕ) → ℕ
traded [] = 0
traded ((side, n) ∷ fs) = n + traded fs

fills-holding :
    (fs : List (Side × ℕ)) (m : InventoryManager) (q : ℕ)
    → m.position_qty ≡ pos q
    → q + traded fs < 2 ^ 63
    → (fills m fs).position_qty ≡ pos (holding q fs)
fills-holding [] m q p b = p
fills-holding ((buy, n) ∷ fs) m q p b =
    fills-holding fs (inventory_on_fill m buy n) (q + n)
      (inventory_on_fill-hold m buy n q p (omega arith)) (omega arith)
fills-holding ((sell, n) ∷ fs) m q p b =
    fills-holding fs (inventory_on_fill m sell n) (q - n)
      (inventory_on_fill-hold m sell n q p (omega arith)) (omega arith)

-- Whatever fills a new inventory gets, its position is what is held when each buy adds its quantity
-- and each sale takes its own away, down to 0 and never below: a spot account is never short. All
-- that is traded sums up to less than 2 ^ 63.
pub fills_lem :
    (max_inventory gamma : ℤ) (fs : List (Side × ℕ))
    → traded fs < 2 ^ 63
    → (fills (new_inventory max_inventory gamma) fs).position_qty ≡ pos (holding 0 fs)
unfolding new_inventory
fills_lem max_inventory gamma fs b =
    fills-holding fs (new_inventory max_inventory gamma) 0 refl (omega arith)
