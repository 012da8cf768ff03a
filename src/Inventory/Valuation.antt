-- ===== src/Inventory/Valuation.antt =====
-- The moving-average valuation of one product: src/inventory/inventory-valuation.ts. The columns of a
-- valuation are never negative, since the guards let nothing else be written.
pub mod Correct
use uinventario_api.Base.{
  ℕ, ◌+◌, ◌-◌, ◌*◌, ◌≤◌, ◌<◌, ◌≡◌, ◌≢◌, refl, Bool, true, false, not, ◌&&◌, ◌||◌, Option, none,
  some, List, [], ◌∷◌, ltb, leb, ◌==◌, if◌then◌else◌, arith, Result, ok, err, ◌>>=◌, ◌>>◌, throw_if,
  Result-cases, Bool-cases, ◌⊎◌, inl, inr,
}
use uinventario_api.Base.Int.{
  ℤ, pos, negsuc, pos_part, neg_part, ◌+ℤ◌, ◌-ℤ◌, ltb_ℤ, is_neg, int_laws,
}
use uinventario_api.Inventory.Rounding.{
  quantity_scale, rounded_quotient, quantity_value, rounded_quotient_nearest,
}
use uinventario_api.Inventory.Fifo.{MovementType, sale_void, sale_return, Movement, same}
use uinventario_api.Inventory.Fifo.Operations.{is_purchase_receipt, is_sale}

pub data ValuationError : Type 0 where
  purchase_receipt_cost_not_found sale_movement_cost_not_found : ValuationError
  negative_quantity negative_value : ValuationError
  reconciliation_blocked : ℕ → ValuationError

-- A row of `inventory_reconciliation_guards`.
pub record ReconciliationGuard : Type 0 where
  pub latest_run : ℕ
  pub operations_blocked : Bool

-- `assertInventoryReconciliationOperational` of src/inventory/inventory-reconciliation-guard.ts: a tenant
-- without a row is not blocked.
unfoldable pub assert_operational : Option ReconciliationGuard → Result ValuationError (Unit {0})
assert_operational none = ok tt
assert_operational (some guard) =
    if guard.operations_blocked then err (reconciliation_blocked guard.latest_run) else ok tt

-- `InventoryValuationRow`, with its version.
pub record Valuation : Type 0 where
  pub quantity : ℕ
  pub inventory_value : ℕ
  pub average_unit_cost : ℕ
  pub version : ℕ

-- The tenant's reconciliation guard, the cost of a purchase receipt line, and the movements in the order of
-- `created_at, id`.
pub record CostSources : Type 0 where
  pub guard : Option ReconciliationGuard
  pub receipt_cost : ℕ → Option ℕ
  pub movements : List Movement

abbrev pub is_sale_reversal : MovementType → Bool
is_sale_reversal sale_void = true
is_sale_reversal sale_return = true
is_sale_reversal _ = false

-- The query for the cost of the sale that is reversed: the first movement of the sale line with a cost.
unfoldable pub sale_cost : Movement → List Movement → Option ℕ
sale_cost movement [] = none
sale_cost movement (m ∷ ms) =
    let later = sale_cost movement ms in
    if same m.sale movement.sale
      && same m.sale_line movement.sale_line
      && m.location == movement.location
      && is_sale m.kind
    then (elim m.unit_cost [ none ↦ later | some cost ↦ some cost ])
    else later

unfoldable pub found : Option ℕ → ValuationError → Result ValuationError ℕ
found none e = err e
found (some cost) e = ok cost

unfoldable pub receipt_cost_of : CostSources → Movement → Option ℕ
receipt_cost_of sources movement = elim movement.receipt_line [
  | none ↦ none
  | some line ↦ sources.receipt_cost line
]

unfoldable pub resolve_source_cost : CostSources → Movement → ℕ → Result ValuationError ℕ
resolve_source_cost sources movement current_average =
    if is_purchase_receipt movement.kind
    then found (receipt_cost_of sources movement) purchase_receipt_cost_not_found
    else if is_sale_reversal movement.kind
    then found (sale_cost movement sources.movements) sale_movement_cost_not_found
    else ok current_average

abbrev pub is_valued_entry : Movement → Bool
is_valued_entry movement =
    ltb_ℤ (pos 0) movement.quantity_change
    && (is_purchase_receipt movement.kind || is_sale_reversal movement.kind)

-- `divideRounded(newAverage, 100n) * 100n`: the cost of the catalog has two decimals.
unfoldable pub catalog_cost : ℕ → ℕ
catalog_cost average = rounded_quotient average 100 * 100

-- What is written: the valuation, the costs of the movement and the product's cost, where it is.
pub record Valued : Type 0 where
  pub valuation : Valuation
  pub unit_cost : ℕ
  pub value_change : ℤ
  pub cost : Option ℕ

unfoldable pub new_average : Bool → ℕ → ℕ → ℕ → ℕ
new_average valued quantity value current =
    if valued && ltb 0 quantity then rounded_quotient (value * quantity_scale) quantity else current

unfoldable pub new_value : ℕ → Valuation → ℤ → ℕ → ℤ
new_value quantity current change unit_cost =
    if quantity == 0 then pos 0 else pos current.inventory_value +ℤ quantity_value change unit_cost

unfoldable pub apply_valuation : CostSources → Movement → Valuation → Result ValuationError Valued
apply_valuation sources movement current = do
  assert_operational sources.guard
  let quantity = pos current.quantity +ℤ movement.quantity_change
  throw_if (is_neg quantity) negative_quantity
  unit_cost ←
      if is_valued_entry movement
      then resolve_source_cost sources movement current.average_unit_cost
      else ok current.average_unit_cost
  let value = new_value (pos_part quantity) current movement.quantity_change unit_cost
  throw_if (is_neg value) negative_value
  let average =
      new_average (is_valued_entry movement) (pos_part quantity) (pos_part value)
        current.average_unit_cost
  ok (record {
    valuation = record {
      quantity = pos_part quantity;
      inventory_value = pos_part value;
      average_unit_cost = average;
      version =
          current.version
          + (if pos_part movement.quantity_change == neg_part movement.quantity_change
              then 0
              else 1);
    };
    unit_cost = unit_cost;
    value_change = value -ℤ pos current.inventory_value;
    cost = if is_valued_entry movement then some (catalog_cost average) else none;
  })
