-- ===== src/Inventory/Policy.antt =====
-- The valuation that a movement is sealed with: src/inventory/inventory-valuation-policy.ts.
use uinventario_api.Base.{
  ℕ, ◌+◌, ◌*◌, ◌≡◌, Bool, not, ◌&&◌, Option, none, some, List, [], ◌∷◌, if◌then◌else◌, Result, ok,
  err, ◌≤◌, ◌<◌,
}
use uinventario_api.Base.Int.{ℤ, pos, ◌+ℤ◌, eqb_ℤ, abs}
use uinventario_api.Inventory.Fifo.Apply.{weighted_unit_cost}
use uinventario_api.Inventory.Rounding.{quantity_scale}

pub data Method : Type 0 where
  moving_average fifo specific_lot : Method

pub data PolicyError : Type 0 where
  fifo_layer_shortage lot_required specific_lot_reconciliation_failed : PolicyError

pub record Policy : Type 0 where
  pub method : Method
  pub version : ℕ
  pub effective_at : ℕ

-- The valuation columns of a movement; the FIFO columns are given together.
pub record Costs : Type 0 where
  pub unit_cost : ℕ
  pub value_change : ℤ
  pub inventory_value : ℕ

pub record SealedMovement : Type 0 where
  pub quantity_change : ℤ
  pub costs : Costs
  pub fifo_costs : Option Costs
  pub sealed_by : Option Policy

-- `loadInventoryValuationPolicy`: a tenant without a policy gets the moving average.
unfoldable pub load_policy : ℕ → Option Policy → Policy
load_policy now none = record { method = moving_average; version = 1; effective_at = now }
load_policy now (some policy) = policy

-- `sealInventoryMovementValuation`
unfoldable pub seal_movement : Policy → SealedMovement → Result PolicyError SealedMovement
seal_movement policy movement = elim policy.method [
  | fifo ↦ elim movement.fifo_costs [
    | none ↦ err fifo_layer_shortage
    | some costs ↦ ok (record movement { costs = costs; sealed_by = some policy })
  ]
  | _ ↦ ok (record movement { sealed_by = some policy })
]

-- The rows of `inventory_movement_lots` of a movement, and those of the balances of the product's lots.
pub record LotAllocation : Type 0 where
  pub quantity_change : ℤ
  pub value_change : ℤ

pub record LotBalance : Type 0 where
  pub quantity : ℕ
  pub unit_cost : ℕ

unfoldable pub allocated_quantity : List LotAllocation → ℤ
allocated_quantity [] = pos 0
allocated_quantity (a ∷ rest) = a.quantity_change +ℤ allocated_quantity rest

unfoldable pub allocated_value : List LotAllocation → ℤ
allocated_value [] = pos 0
allocated_value (a ∷ rest) = a.value_change +ℤ allocated_value rest

unfoldable pub balance_quantity : List LotBalance → ℕ
balance_quantity [] = 0
balance_quantity (b ∷ rest) = b.quantity + balance_quantity rest

unfoldable pub balance_value : List LotBalance → ℕ
balance_value [] = 0
balance_value (b ∷ rest) = b.quantity * b.unit_cost + balance_value rest

pub record Lots : Type 0 where
  pub tracked : Bool
  pub allocations : List LotAllocation
  pub balances : List LotBalance
  pub valuation : Option ℤ

-- The condition under which the lots account for the movement and for the product's stock.
abbrev pub reconciles : Lots → SealedMovement → ℤ → Bool
reconciles lots movement valuation =
    eqb_ℤ (allocated_quantity lots.allocations) movement.quantity_change
    && eqb_ℤ (pos (balance_quantity lots.balances)) valuation

unfoldable pub lot_costs : Lots → SealedMovement → Costs
lot_costs lots movement = record {
  unit_cost = weighted_unit_cost movement.quantity_change (allocated_value lots.allocations);
  value_change = allocated_value lots.allocations;
  inventory_value = balance_value lots.balances;
}

unfoldable pub finalize_lots : Lots → SealedMovement → Result PolicyError SealedMovement
finalize_lots lots movement = if not lots.tracked then err lot_required else (elim lots.valuation [
  | none ↦ err specific_lot_reconciliation_failed
  | some valuation ↦
      if not (reconciles lots movement valuation)
      then err specific_lot_reconciliation_failed
      else ok (record movement { costs = lot_costs lots movement })
])

-- `finalizeSpecificLotMovementValuation`: a movement that another method sealed is left as it is.
unfoldable pub finalize_specific_lot : Lots → SealedMovement → Result PolicyError SealedMovement
finalize_specific_lot lots movement = elim movement.sealed_by [
  | none ↦ ok movement
  | some policy ↦ elim policy.method [
    | specific_lot ↦ finalize_lots lots movement
    | _ ↦ ok movement
  ]
]

-- What the columns of a movement say after its method: the moving average's are those that were there, the
-- FIFO's those of the layers, and those of specific lots the sums over the lots that were moved, with the
-- cost of a unit nearest to their average.
abbrev pub IsCosted : Method → Lots → SealedMovement → SealedMovement → Type 0
IsCosted moving_average lots before after = after.costs ≡ before.costs
IsCosted fifo lots before after = before.fifo_costs ≡ some after.costs
IsCosted specific_lot lots before after =
    let quantity = allocated_quantity lots.allocations in
    let value = allocated_value lots.allocations in
    (before.quantity_change ≡ quantity)
    × (lots.valuation ≡ some (pos (balance_quantity lots.balances)))
    × (after.costs.value_change ≡ value)
    × (0 < abs quantity
        → (2 * abs quantity * after.costs.unit_cost
            ≤ 2 * (abs value * quantity_scale) + abs quantity)
          × (2 * (abs value * quantity_scale)
              < 2 * abs quantity * after.costs.unit_cost + abs quantity))
