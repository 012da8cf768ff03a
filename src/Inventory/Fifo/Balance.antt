-- ===== src/Inventory/Fifo/Balance.antt =====
-- Every movement changes the total quantity by its own quantity.
use uinventario_api.Base.{
  ℕ, ◌+◌, ◌≡◌, refl, ap, ◌∙◌, false, some, List, ltb, arith, ok, ◌>>=◌, Result-cases, Option-cases,
  Bool-cases, inl, inr, All,
}
use uinventario_api.Base.Int.{ℤ, pos, negsuc, pos_part, neg_part, ◌+ℤ◌, eqb_ℤ, int_laws}
use uinventario_api.Inventory.Fifo.{
  Movement, Layer, Store, Sources, supplier_return, transfer_discrepancy,
}
use uinventario_api.Inventory.Fifo.Operations.{Source, consume_layers, any_layer, of_receipt_line}
use uinventario_api.Inventory.Fifo.Apply.{
  total_quantity, apply_decrease, apply_change, apply_fifo_valuation, update_movement_summary,
  is_projected, receipt_line_for_return, ensure_cutover, discrepancy_source,
}
use uinventario_api.Inventory.Fifo.Conservation.{IsStored, consume_layers-effect}
use uinventario_api.Inventory.Fifo.Growth.{apply_increase-Grows}

-- `after` has `n` units less than `before`, and its layers are still well formed.
record Shrinks (before : List Layer) (n : ℕ) (after : List Layer) : Type 0 where
  pub total : total_quantity after + n ≡ total_quantity before
  pub stored : All IsStored before → All IsStored after

consume_layers-Shrinks :
    (movement : Movement) (n : ℕ) (source : Source) (store after : Store) (value : ℤ)
    → consume_layers movement n source store ≡ ok (after, value)
    → Shrinks store.layers n after.layers
consume_layers-Shrinks movement n source store after value h =
    let (total, _, stored) = consume_layers-effect movement n source store after value h in
    record { total = total; stored = stored }

return_stock-Shrinks :
    (sources : Sources) (movement : Movement) (n : ℕ) (store after : Store) (value : ℤ)
    → (receipt_line_for_return sources movement >>= λ line.
        consume_layers movement n (of_receipt_line line) store)
      ≡ ok (after, value)
    → Shrinks store.layers n after.layers
return_stock-Shrinks sources movement n store after value h =
    elim (Result-cases (receipt_line_for_return sources movement)) [
      | inr (_, f) ↦ absurd (ground arith)
      | inl (line, f) ↦
          consume_layers-Shrinks movement n (of_receipt_line line) store after value (ground arith)
    ]

apply_decrease-Shrinks :
    (sources : Sources) (movement : Movement) (n : ℕ) (store after : Store) (value : ℤ)
    → apply_decrease sources movement n store ≡ ok (after, value)
    → Shrinks store.layers n after.layers
unfolding apply_decrease
apply_decrease-Shrinks sources movement n store after value h =
    elim movement.kind
        as (λ k.
          (elim k [
            | supplier_return ↦ receipt_line_for_return sources movement >>= λ line.
                consume_layers movement n (of_receipt_line line) store
            | transfer_discrepancy ↦ consume_layers movement n (discrepancy_source movement) store
            | _ ↦ consume_layers movement n any_layer store
          ])
            ≡ ok (after, value)
          → Shrinks store.layers n after.layers) [
            | supplier_return ↦ return_stock-Shrinks sources movement n store after value
            | transfer_discrepancy ↦
                consume_layers-Shrinks movement n (discrepancy_source movement) store after value
            | _ ↦ consume_layers-Shrinks movement n any_layer store after value
          ]
      h

-- The layers have changed by the quantity.
record IsChanged (before : List Layer) (quantity : ℤ) (after : List Layer) : Type 0 where
  pub total : total_quantity after + neg_part quantity ≡ total_quantity before + pos_part quantity
  pub stored : All IsStored before → All IsStored after

apply_change-IsChanged :
    (sources : Sources) (movement : Movement) (quantity : ℤ) (store after : Store) (value : ℤ)
    → apply_change sources movement quantity store ≡ ok (after, value)
    → IsChanged store.layers quantity after.layers
unfolding apply_change
apply_change-IsChanged sources movement (pos n) store after value h = elim (Bool-cases (ltb 0 n)) [
  | inl e ↦
      let g = apply_increase-Grows sources movement n store after value (ground arith) in
      record { total = omega (arith, g.total); stored = g.stored }
  | inr e ↦
      let z : n ≡ 0 = ground arith in
      let same : store ≡ after = ground arith in
      rw (z, ← same) (record { total = omega arith; stored = λ s. s })
]
apply_change-IsChanged sources movement (negsuc n) store after value h =
    let g = apply_decrease-Shrinks sources movement (n + 1) store after value h in
    record { total = omega (arith, g.total); stored = g.stored }

update_movement_summary-valuation :
    (sources : Sources) (movement : Movement) (quantity value : ℤ) (store after : Store)
    → update_movement_summary sources movement quantity value store ≡ ok after
    → (after.layers ≡ store.layers) × (sources.valuation ≡ some (pos (total_quantity store.layers)))
unfolding update_movement_summary
update_movement_summary-valuation sources movement quantity value store after h =
    elim (Option-cases sources.valuation) [
      | inl e ↦ absurd (ground arith)
      | inr (v, e) ↦ elim (Bool-cases (eqb_ℤ (pos (total_quantity store.layers)) v)) [
        | inr f ↦ absurd (ground arith)
        | inl f ↦
            let same : v ≡ pos (total_quantity store.layers) = ground arith in
            (ground arith, e ∙ ap some same)
      ]
    ]

ensure_cutover-layers :
    (movement : Movement) (store : Store) → (ensure_cutover movement store).layers ≡ store.layers
ensure_cutover-layers movement store = elim (Option-cases store.cutover) [
  | inl e ↦ rw e refl
  | inr (_, e) ↦ rw e refl
]

-- A movement that is projected for the first time changes the total quantity of the layers by its own
-- quantity, the total is then that of the product's valuation, and no layer holds more than it had at
-- first, if none did before.
pub apply_fifo_valuation-balance :
    (sources : Sources) (movement : Movement) (store after : Store)
    → All IsStored store.layers
    → is_projected movement.id store.allocations ≡ false
    → apply_fifo_valuation sources movement store ≡ ok after
    → (pos (total_quantity after.layers)
        ≡ pos (total_quantity store.layers) +ℤ movement.quantity_change)
      × (sources.valuation ≡ some (pos (total_quantity after.layers)))
      × All IsStored after.layers
unfolding apply_fifo_valuation
apply_fifo_valuation-balance sources movement store after s fresh h =
    let cut = ensure_cutover movement store in
    let uncut : cut.layers ≡ store.layers = ensure_cutover-layers movement store in
    elim (Result-cases (apply_change sources movement movement.quantity_change cut)) [
      | inr (_, f) ↦ absurd (ground arith)
      | inl ((changed, value), f) ↦
          let step =
            apply_change-IsChanged sources movement movement.quantity_change cut changed value f in
          let (same, valued) =
            update_movement_summary-valuation sources movement movement.quantity_change value
              changed after (ground arith) in
          let change = rw uncut at step in
          rw same (omega (int_laws, change.total), valued, change.stored s)
    ]
