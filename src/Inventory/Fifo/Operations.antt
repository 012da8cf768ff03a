-- ===== src/Inventory/Fifo/Operations.antt =====
-- The consumption, restoration and transfer of layers of src/inventory/inventory-fifo-valuation.ts.
-- A query that reads rows and then updates each is one pass over the table.
use uinventario_api.Base.{
  ℕ, ◌+◌, ◌-◌, Bool, true, false, not, ◌&&◌, ◌||◌, none, some, List, [], ◌∷◌, ltb, ◌==◌,
  if◌then◌else◌, Result, ok, err, ◌>>=◌, ◌>>◌, throw_if,
}
use uinventario_api.Base.Int.{ℤ, pos, pos_part, neg_ℕ, ◌+ℤ◌, ◌-ℤ◌}
use uinventario_api.Inventory.Fifo.{
  FifoError, layer_shortage, movement_cost_not_found, receipt_cost_not_found, AllocationMode, fifo,
  restore, origin_return, MovementType, purchase_receipt, sale, transfer_in, transfer_out, Movement,
  Layer, Allocation, Store, Sources, has, same, insert_allocation,
}

abbrev pub is_purchase_receipt : MovementType → Bool
is_purchase_receipt purchase_receipt = true
is_purchase_receipt _ = false

abbrev pub is_sale : MovementType → Bool
is_sale sale = true
is_sale _ = false

abbrev pub is_transfer_in : MovementType → Bool
is_transfer_in transfer_in = true
is_transfer_in _ = false

abbrev pub is_transfer_out : MovementType → Bool
is_transfer_out transfer_out = true
is_transfer_out _ = false

-- `sourceCost`, with the currency that `tenantCurrency` gives as the movement's.
unfoldable pub source_cost : Sources → Movement → Result FifoError (ℕ × ℕ)
source_cost sources movement =
    if is_purchase_receipt movement.kind
    then (elim movement.receipt_line [
      | none ↦ err receipt_cost_not_found
      | some line ↦ elim (sources.receipt_cost line) [
        | none ↦ err receipt_cost_not_found
        | some cost ↦ ok cost
      ]
    ])
    else (elim movement.unit_cost [
      | none ↦ err movement_cost_not_found
      | some cost ↦ ok (cost, movement.currency)
    ])

-- The argument `source` of `consumeLayers`.
pub data Source : Type 0 where
  any_layer : Source
  of_receipt_line : ℕ → Source
  of_transfer_line : ℕ → Source

abbrev pub mode_of : Source → AllocationMode
mode_of (of_receipt_line _) = origin_return
mode_of _ = fifo

-- `source_movement_id IN (SELECT id ... WHERE transfer_line_id = ? AND type = 'TRANSFER_IN')`
unfoldable pub came_by : ℕ → ℕ → List Movement → Bool
came_by line id [] = false
came_by line id (m ∷ ms) =
    (m.id == id && has m.transfer_line line && is_transfer_in m.kind) || came_by line id ms

abbrev pub comes_from : Source → List Movement → Layer → Bool
comes_from any_layer movements layer = true
comes_from (of_receipt_line line) movements layer = has layer.receipt_line line
comes_from (of_transfer_line line) movements layer = came_by line layer.source_movement movements

-- The condition of the query for the layers to consume.
unfoldable pub is_eligible : Movement → Source → List Movement → Layer → Bool
is_eligible movement source movements layer =
    layer.location == movement.location
    && ltb 0 layer.remaining
    && comes_from source movements layer

-- The state of the loop of `consumeLayers`: the layers as they are updated, the store, the value and
-- the quantity that remains to be consumed.
pub record Consumption : Type 0 where
  pub layers : List Layer
  pub store : Store
  pub value : ℤ
  pub left : ℕ

-- One layer is written and the rest has been.
unfoldable pub push_layer : Layer → ℤ → Consumption → Consumption
push_layer layer value c = record c { layers = layer ∷ c.layers; value = value +ℤ c.value }

abbrev pub consumed_of : Layer → ℕ → ℕ
consumed_of layer left = if ltb layer.remaining left then layer.remaining else left

unfoldable pub consume_from :
    Movement → (Layer → Bool) → AllocationMode → List Layer → ℕ → Store → Consumption
consume_from movement eligible mode [] left store = record {
  layers = [];
  store = store;
  value = pos 0;
  left = left;
}
consume_from movement eligible mode (layer ∷ layers) left store = elim (left == 0) [
  | true ↦ record { layers = layer ∷ layers; store = store; value = pos 0; left = left }
  | false ↦ elim (eligible layer) [
    | false ↦ push_layer layer (pos 0) (consume_from movement eligible mode layers left store)
    | true ↦
        let consumed = consumed_of layer left in
        let (allocated, value) =
          insert_allocation movement layer.id (neg_ℕ consumed) layer.unit_cost layer.currency mode
            none store in
        push_layer (record layer { remaining = layer.remaining - consumed }) value
          (consume_from movement eligible mode layers (left - consumed) allocated)
  ]
]

unfoldable pub consume_layers : Movement → ℕ → Source → Store → Result FifoError (Store × ℤ)
consume_layers movement requested source store =
    let c : Consumption =
      consume_from movement (is_eligible movement source store.movements) (mode_of source)
        store.layers requested store in
    if not (c.left == 0)
    then err layer_shortage
    else ok (record c.store { layers = c.layers }, c.value)

-- The conditions of the query of `restoreSale` on the movement of an allocation.
abbrev pub is_restored_by : Movement → Movement → Bool
is_restored_by movement m =
    same m.sale movement.sale
    && same m.sale_line movement.sale_line
    && m.location == movement.location
    && is_sale m.kind
    && (elim movement.source_sale_movement [ none ↦ true | some id ↦ m.id == id ])

-- The join of an allocation with its movement.
unfoldable pub joins : (Movement → Bool) → List Movement → Allocation → Bool
joins holds [] a = false
joins holds (m ∷ ms) a = (m.id == a.movement && holds m) || joins holds ms a

-- The quantity that was restored before from the allocation `id`.
unfoldable pub restored_before : ℕ → List Allocation → ℤ
restored_before id [] = pos 0
restored_before id (a ∷ rest) =
    let sum = restored_before id rest in if has a.source id then a.quantity_change +ℤ sum else sum

-- The update of the layer `id`, which must exist and may not hold more than its original quantity.
unfoldable pub give_back : ℕ → ℕ → List Layer → Result FifoError (List Layer)
give_back id quantity [] = err layer_shortage
give_back id quantity (layer ∷ layers) = elim (layer.id == id) [
  | true ↦
      if ltb layer.original (layer.remaining + quantity)
      then err layer_shortage
      else ok (record layer { remaining = layer.remaining + quantity } ∷ layers)
  | false ↦ (do rest ← give_back id quantity layers; ok (layer ∷ rest))
]

-- What one allocation still gives: at most what is left of it and at most what is needed, which is 0
-- where the code skips the allocation.
abbrev pub to_restore : Allocation → List Allocation → ℕ → ℕ
to_restore allocation allocations needed =
    let available =
      pos_part
        (neg_ℕ 0 -ℤ allocation.quantity_change -ℤ restored_before allocation.id allocations) in
    if ltb available needed then available else needed

-- The loop of `restoreSale` over the allocations of the sale; `needed` is `expectedQuantity - restored`.
unfoldable pub restore_from :
    Movement → List Allocation → ℕ → Store → Result FifoError (Store × ℤ × ℕ)
restore_from movement [] needed store = ok (store, pos 0, needed)
restore_from movement (allocation ∷ rest) needed store =
    let quantity = to_restore allocation store.allocations needed in
    elim (quantity == 0) [
      | true ↦ restore_from movement rest needed store
      | false ↦ (do
        layers ← give_back allocation.layer quantity store.layers
        let (inserted, value) =
            insert_allocation movement allocation.layer (pos quantity) allocation.unit_cost
              allocation.currency restore (some allocation.id) (record store { layers = layers })
        (restored, total, left) ← restore_from movement rest (needed - quantity) inserted
        ok (restored, value +ℤ total, left))
    ]

unfoldable pub select : (Allocation → Bool) → List Allocation → List Allocation
select holds [] = []
select holds (a ∷ rest) = let chosen = select holds rest in if holds a then a ∷ chosen else chosen

unfoldable pub restore_sale : Movement → ℕ → Store → Result FifoError (Store × ℤ)
restore_sale movement expected store = do
  let allocations = select (joins (is_restored_by movement) store.movements) store.allocations
  (restored, value, left) ← restore_from movement allocations expected store
  throw_if (not (left == 0)) layer_shortage
  ok (restored, value)
