-- ===== src/Inventory/Fifo/Apply.antt =====
-- `transferLayers`, `updateMovementSummary` and `applyInventoryFifoValuation` of
-- src/inventory/inventory-fifo-valuation.ts.
use uinventario_api.Base.{
  ℕ, ◌+◌, ◌*◌, Bool, true, false, not, ◌&&◌, ◌||◌, none, some, List, [], ◌∷◌, ltb, ◌==◌,
  if◌then◌else◌, Result, ok, err, ◌>>=◌, ◌>>◌, throw_if,
}
use uinventario_api.Base.Int.{ℤ, pos, negsuc, neg_part, abs, eqb_ℤ, ◌+ℤ◌}
use uinventario_api.Inventory.Rounding.{rounded_quotient, quantity_scale}
use uinventario_api.Inventory.Fifo.{
  FifoError, layer_shortage, return_source_not_found, entry, transfer, LayerOrigin, from_entry,
  from_receipt, from_return, from_transfer, MovementType, purchase_receipt, sale_void, sale_return,
  customer_return, transfer_in, transfer_discrepancy, supplier_return, Movement, Layer, Allocation,
  Store, Sources, same, create_layer, NewLayer,
}
use uinventario_api.Inventory.Fifo.Operations.{
  Source, any_layer, of_receipt_line, of_transfer_line, source_cost, consume_layers, restore_sale,
  joins, select, is_transfer_out,
}

-- The acquisition date of a layer of the join.
unfoldable pub acquired_at_of : ℕ → List Layer → ℕ
acquired_at_of id [] = 0
acquired_at_of id (layer ∷ layers) =
    let rest = acquired_at_of id layers in if layer.id == id then layer.acquired_at else rest

-- The argument of `createLayer` for an allocation of the outgoing transfer.
abbrev pub transferred_layer : Allocation → List Layer → NewLayer
transferred_layer allocation layers = record {
  quantity = neg_part allocation.quantity_change;
  unit_cost = allocation.unit_cost;
  currency = allocation.currency;
  origin = from_transfer;
  acquired_at = acquired_at_of allocation.layer layers;
  mode = transfer;
  source_layer = some allocation.layer;
  receipt_line = none;
  source_allocation = some allocation.id;
}

unfoldable pub transfer_from : Movement → List Allocation → Store → Result FifoError (Store × ℤ × ℕ)
transfer_from movement [] store = ok (store, pos 0, 0)
transfer_from movement (allocation ∷ rest) store =
    let quantity = neg_part allocation.quantity_change in
    elim (quantity == 0) [
      | true ↦ transfer_from movement rest store
      | false ↦ (do
        (created, value) ← create_layer movement (transferred_layer allocation store.layers) store
        (moved, total, transferred) ← transfer_from movement rest created
        ok (moved, value +ℤ total, quantity + transferred))
    ]

-- The join of `transferLayers`.
abbrev pub is_transferred_by : Movement → Movement → Bool
is_transferred_by movement m = same m.transfer_line movement.transfer_line && is_transfer_out m.kind

unfoldable pub transfer_layers : Movement → ℕ → Store → Result FifoError (Store × ℤ)
transfer_layers movement expected store = do
  let allocations = select (joins (is_transferred_by movement) store.movements) store.allocations
  (moved, value, transferred) ← transfer_from movement allocations store
  throw_if (not (transferred == expected)) layer_shortage
  ok (moved, value)

unfoldable pub receipt_line_for_return : Sources → Movement → Result FifoError ℕ
receipt_line_for_return sources movement = elim movement.return_line [
  | none ↦ err return_source_not_found
  | some line ↦ elim (sources.return_receipt line) [
    | none ↦ err return_source_not_found
    | some receipt ↦ ok receipt
  ]
]

-- `SUM(remaining_quantity)`
unfoldable pub total_quantity : List Layer → ℕ
total_quantity [] = 0
total_quantity (layer ∷ layers) = layer.remaining + total_quantity layers

-- `SUM(remaining_quantity * unit_cost)`
unfoldable pub total_value : List Layer → ℕ
total_value [] = 0
total_value (layer ∷ layers) = layer.remaining * layer.unit_cost + total_value layers

abbrev pub weighted_unit_cost : ℤ → ℤ → ℕ
weighted_unit_cost quantity value =
    if eqb_ℤ quantity (pos 0)
    then 0
    else rounded_quotient (abs value * quantity_scale) (abs quantity)

-- The FIFO columns of the movement's row are a row of their own here.
unfoldable pub update_movement_summary : Sources → Movement → ℤ → ℤ → Store → Result FifoError Store
update_movement_summary sources movement quantity value store = elim sources.valuation [
  | none ↦ err layer_shortage
  | some valuation ↦
      if not (eqb_ℤ (pos (total_quantity store.layers)) valuation)
      then err layer_shortage
      else ok (record store {
        summaries =
            record {
              movement = movement.id;
              unit_cost = weighted_unit_cost quantity value;
              value_change = value;
              inventory_value = total_value store.layers;
            }
            ∷ store.summaries;
      })
]

-- `ensureCutover`: the first movement sets it.
abbrev pub ensure_cutover : Movement → Store → Store
ensure_cutover movement store = elim store.cutover [
  | none ↦ record store { cutover = some movement.created_at }
  | some _ ↦ store
]

-- `Number(existing.total) > 0`
unfoldable pub is_projected : ℕ → List Allocation → Bool
is_projected id [] = false
is_projected id (a ∷ rest) = a.movement == id || is_projected id rest

abbrev pub origin_of : MovementType → LayerOrigin
origin_of purchase_receipt = from_receipt
origin_of customer_return = from_return
origin_of _ = from_entry

abbrev pub entered_layer : Movement → ℕ → ℕ → ℕ → NewLayer
entered_layer movement quantity unit_cost currency = record {
  quantity = quantity;
  unit_cost = unit_cost;
  currency = currency;
  origin = origin_of movement.kind;
  acquired_at = movement.created_at;
  mode = entry;
  source_layer = none;
  receipt_line = movement.receipt_line;
  source_allocation = none;
}

unfoldable pub enter_stock : Sources → Movement → ℕ → Store → Result FifoError (Store × ℤ)
enter_stock sources movement quantity store = do
  (unit_cost, currency) ← source_cost sources movement
  create_layer movement (entered_layer movement quantity unit_cost currency) store

-- The branch for `quantityChange > 0n`.
unfoldable pub apply_increase : Sources → Movement → ℕ → Store → Result FifoError (Store × ℤ)
apply_increase sources movement quantity store = elim movement.kind [
  | sale_void ↦ restore_sale movement quantity store
  | sale_return ↦ restore_sale movement quantity store
  | transfer_in ↦ transfer_layers movement quantity store
  | _ ↦ enter_stock sources movement quantity store
]

abbrev pub discrepancy_source : Movement → Source
discrepancy_source movement = elim movement.transfer_line [
  | none ↦ any_layer
  | some line ↦ of_transfer_line line
]

-- The branch for `quantityChange < 0n`.
unfoldable pub apply_decrease : Sources → Movement → ℕ → Store → Result FifoError (Store × ℤ)
apply_decrease sources movement quantity store = elim movement.kind [
  | supplier_return ↦ (do
    line ← receipt_line_for_return sources movement
    consume_layers movement quantity (of_receipt_line line) store)
  | transfer_discrepancy ↦ consume_layers movement quantity (discrepancy_source movement) store
  | _ ↦ consume_layers movement quantity any_layer store
]

unfoldable pub apply_change : Sources → Movement → ℤ → Store → Result FifoError (Store × ℤ)
apply_change sources movement (pos n) store =
    if ltb 0 n then apply_increase sources movement n store else ok (store, pos 0)
apply_change sources movement (negsuc n) store = apply_decrease sources movement (n + 1) store

-- `applyInventoryFifoValuation`, of a movement that is in the table.
unfoldable pub apply_fifo_valuation : Sources → Movement → Store → Result FifoError Store
apply_fifo_valuation sources movement store =
    if is_projected movement.id store.allocations then ok store else (do
      (changed, value) ←
          apply_change sources movement movement.quantity_change (ensure_cutover movement store)
      update_movement_summary sources movement movement.quantity_change value changed)
