-- ===== src/Inventory/Valuation/Correct.antt =====
-- What the moving-average valuation writes.
use uinventario_api.Base.{◌+◌, ◌*◌, ◌≤◌, ◌<◌, ◌≡◌, true, false}
use uinventario_api.Base.Int.{pos, ◌+ℤ◌}
use uinventario_api.Inventory.Rounding.{quantity_scale}
use uinventario_api.Inventory.Fifo.{Movement}
use uinventario_api.Inventory.Valuation.{Valuation, Valued, is_valued_entry}

-- The numbers of a movement fit those of the valuation.
pub record IsValued (movement : Movement) (before : Valuation) (v : Valued) : Type 0 where
  pub quantity : pos v.valuation.quantity ≡ pos before.quantity +ℤ movement.quantity_change
  pub value : pos v.valuation.inventory_value ≡ pos before.inventory_value +ℤ v.value_change
  pub empty : v.valuation.quantity ≡ 0 → v.valuation.inventory_value ≡ 0
  pub average_kept :
      is_valued_entry movement ≡ false → v.valuation.average_unit_cost ≡ before.average_unit_cost
  -- The average is the exact one, rounded to the nearest.
  pub average_nearest :
      is_valued_entry movement ≡ true
      → let q = v.valuation.quantity in
        let exact = v.valuation.inventory_value * quantity_scale in
        let average = v.valuation.average_unit_cost in
        (2 * q * average ≤ 2 * exact + q) × (2 * exact < 2 * q * average + q)
