-- ===== src/Strategy/Inventory.antt =====
-- `InventoryManager` of crates/atomic-strategy/src/inventory.rs.
pub mod Skew
use atomic_mesh.Base.{ℕ, Bool, min, if◌then◌else◌, ℤ, pos, ltb_ℤ, leb_ℤ, ◌==◌, int_eq}
use atomic_mesh.Base.Word.{u64_as_i64, i64_as_u64, add_i64, sub_i64, mul_i64, div_i64, max_zero}
use atomic_mesh.Core.Types.{Side, buy, sell}

pub record InventoryManager : Type 0 where
  pub position_qty : ℤ
  pub max_inventory : ℤ
  pub gamma : ℤ

unfoldable pub new_inventory : ℤ → ℤ → InventoryManager
new_inventory max_inventory gamma = record {
  position_qty = pos 0;
  max_inventory = max_inventory;
  gamma = gamma;
}

-- The position before it is kept from being negative.
unfoldable pub moved_position : ℤ → Side → ℕ → ℤ
moved_position q buy qty = add_i64 q (u64_as_i64 qty)
moved_position q sell qty = sub_i64 q (u64_as_i64 qty)

unfoldable pub inventory_on_fill : InventoryManager → Side → ℕ → InventoryManager
unfolding moved_position
inventory_on_fill m side qty =
    let q = moved_position m.position_qty side qty in
    record m { position_qty = if ltb_ℤ q (pos 0) then pos 0 else q }

unfoldable pub compute_skew : InventoryManager → ℤ → ℤ
compute_skew m half_spread =
    let inv_ratio = div_i64 (mul_i64 m.position_qty (pos 10_000)) m.max_inventory in
    if m.max_inventory == pos 0
    then pos 0
    else div_i64 (mul_i64 (div_i64 (mul_i64 inv_ratio m.gamma) (pos 10_000)) half_spread)
        (pos 10_000)

unfoldable pub can_sell : InventoryManager → Bool
can_sell m = ltb_ℤ (pos 0) m.position_qty

unfoldable pub sellable_qty : InventoryManager → ℕ → ℕ
sellable_qty m desired =
    if leb_ℤ m.position_qty (pos 0) then 0 else min desired (i64_as_u64 m.position_qty)

unfoldable pub at_max : InventoryManager → Bool
at_max m = leb_ℤ m.max_inventory m.position_qty

unfoldable pub set_position : InventoryManager → ℤ → InventoryManager
set_position m qty = record m { position_qty = max_zero qty }
