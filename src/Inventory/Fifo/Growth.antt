-- ===== src/Inventory/Fifo/Growth.antt =====
-- What enters the layers: new, restored and transferred quantities.
use uinventario_api.Base.{
  ℕ, ◌+◌, ◌-◌, ◌≤◌, ◌≡◌, some, List, [], ◌∷◌, ltb, leb, ◌==◌, if◌then◌else◌, arith, ok,
  Result-cases, Bool-cases, inl, inr, All,
}
use uinventario_api.Base.Int.{ℤ, pos, neg_ℕ, pos_part, ◌-ℤ◌}
use uinventario_api.Inventory.Fifo.{
  restore, Movement, Layer, Allocation, Store, Sources, NewLayer, sale_void, sale_return,
  transfer_in, insert_allocation, insert_layer, create_layer, currency_fits,
}
use uinventario_api.Inventory.Fifo.Operations.{
  give_back, restore_from, restore_sale, to_restore, restored_before, select, joins, is_restored_by,
  source_cost,
}
use uinventario_api.Inventory.Fifo.Apply.{
  total_quantity, transfer_from, transferred_layer, enter_stock, entered_layer, transfer_layers,
  is_transferred_by, apply_increase,
}
use uinventario_api.Inventory.Fifo.Conservation.{IsStored}

-- `after` has `n` units more than `before`, and its layers are still well formed.
pub record Grows (before : List Layer) (n : ℕ) (after : List Layer) : Type 0 where
  pub total : total_quantity after ≡ total_quantity before + n
  pub stored : All IsStored before → All IsStored after

pub Grows-trans : (a b c : List Layer) (m n : ℕ) → Grows a m b → Grows b n c → Grows a (m + n) c
Grows-trans a b c m n g h = record {
  total = omega (arith, g.total, h.total);
  stored = λ s. h.stored (g.stored s);
}

pub insert_layer-Grows :
    (layer : Layer) (layers : List Layer)
    → IsStored layer
    → Grows layers layer.remaining (insert_layer layer layers)
unfolding insert_layer total_quantity
insert_layer-Grows layer [] h = record { total = omega arith; stored = λ s. (h, s) }
insert_layer-Grows layer (l ∷ ls) h =
    let rest = insert_layer-Grows layer ls h in
    elim (Bool-cases (leb l.acquired_at layer.acquired_at)) [
      | inl e ↦
          rw (insert_layer, e)
            (record { total = omega (arith, rest.total); stored = λ (s, ss). (s, rest.stored ss) })
      | inr e ↦ rw (insert_layer, e) (record { total = omega arith; stored = λ s. (h, s) })
    ]

pub create_layer-Grows :
    (movement : Movement) (input : NewLayer) (store after : Store) (value : ℤ)
    → create_layer movement input store ≡ ok (after, value)
    → Grows store.layers input.quantity after.layers
unfolding create_layer insert_allocation
create_layer-Grows movement input store after value h =
    elim (Bool-cases (currency_fits input.currency store.layers)) [
      | inr e ↦ absurd (ground arith)
      | inl e ↦
          let layer : Layer = record {
            id = store.next_id;
            location = movement.location;
            source_movement = movement.id;
            source_layer = input.source_layer;
            receipt_line = input.receipt_line;
            origin = input.origin;
            original = input.quantity;
            remaining = input.quantity;
            unit_cost = input.unit_cost;
            currency = input.currency;
            acquired_at = input.acquired_at;
          } in
          let same : after.layers ≡ insert_layer layer store.layers = ground arith in
          rw same (insert_layer-Grows layer store.layers (omega arith))
    ]

pub give_back-Grows :
    (id quantity : ℕ) (layers after : List Layer)
    → give_back id quantity layers ≡ ok after
    → Grows layers quantity after
unfolding give_back total_quantity
give_back-Grows id quantity [] after h = absurd (ground arith)
give_back-Grows id quantity (l ∷ ls) after h = elim (Bool-cases (l.id == id)) [
  | inl e ↦
      let fits : l.remaining + quantity ≤ l.original = ground arith in
      let same : after ≡ record l { remaining = l.remaining + quantity } ∷ ls = ground arith in
      rw same (record { total = omega arith; stored = λ (_, ss). (fits, ss) })
  | inr e ↦ elim (Result-cases (give_back id quantity ls)) [
    | inr (_, f) ↦ absurd (ground arith)
    | inl (rest, f) ↦
        let grown = give_back-Grows id quantity ls rest f in
        let same : after ≡ l ∷ rest = ground arith in
        rw same
          (record { total = omega (arith, grown.total); stored = λ (s, ss). (s, grown.stored ss) })
  ]
]

pub lesser-le : (a b : ℕ) → (if ltb a b then a else b) ≤ b
lesser-le a b = ground arith

pub restore_from-Grows :
    (movement : Movement) (allocations : List Allocation) (needed : ℕ) (store after : Store)
    (value : ℤ) (left : ℕ)
    → restore_from movement allocations needed store ≡ ok (after, value, left)
    → (n : ℕ) × (n + left ≡ needed) × Grows store.layers n after.layers
unfolding restore_from insert_allocation
restore_from-Grows movement [] needed store after value left h =
    let e : after ≡ store = ground arith in
    (0, ground arith, rw e (record { total = omega arith; stored = λ s. s }))
restore_from-Grows movement (a ∷ rest) needed store after value left h =
    let available =
      pos_part (neg_ℕ 0 -ℤ a.quantity_change -ℤ restored_before a.id store.allocations) in
    let quantity = to_restore a store.allocations needed in
    elim (Bool-cases (quantity == 0)) [
      | inl z ↦ restore_from-Grows movement rest needed store after value left (ground arith)
      | inr z ↦ elim (Result-cases (give_back a.layer quantity store.layers)) [
        | inr (_, f) ↦ absurd (ground arith)
        | inl (layers, f) ↦
            let inserted =
              (insert_allocation movement a.layer (pos quantity) a.unit_cost a.currency restore
                (some a.id) (record store { layers = layers })).0 in
            elim (Result-cases (restore_from movement rest (needed - quantity) inserted)) [
              | inr (_, g) ↦ absurd (ground arith)
              | inl ((after', value', left'), g) ↦
                  let (n, exact, grown) =
                    restore_from-Grows movement rest (needed - quantity) inserted after' value'
                      left' g in
                  let same : after' ≡ after = ground arith in
                  let small : quantity ≤ needed = lesser-le available needed in
                  let same_left : left' ≡ left = ground arith in
                  (
                    quantity + n,
                    omega (arith, exact, same_left, small),
                    rw same at (
                        Grows-trans store.layers layers after'.layers quantity n
                          (give_back-Grows a.layer quantity store.layers layers f) grown),
                  )
            ]
      ]
    ]

pub transfer_from-Grows :
    (movement : Movement) (allocations : List Allocation) (store after : Store) (value : ℤ)
    (transferred : ℕ)
    → transfer_from movement allocations store ≡ ok (after, value, transferred)
    → Grows store.layers transferred after.layers
unfolding transfer_from
transfer_from-Grows movement [] store after value transferred h =
    let e : after ≡ store = ground arith in
    let z : transferred ≡ 0 = ground arith in
    rw (e, z) (record { total = omega arith; stored = λ s. s })
transfer_from-Grows movement (a ∷ rest) store after value transferred h =
    let input = transferred_layer a store.layers in
    elim (Bool-cases (input.quantity == 0)) [
      | inl z ↦ transfer_from-Grows movement rest store after value transferred (ground arith)
      | inr z ↦ elim (Result-cases (create_layer movement input store)) [
        | inr (_, f) ↦ absurd (ground arith)
        | inl ((created, v), f) ↦ elim (Result-cases (transfer_from movement rest created)) [
          | inr (_, g) ↦ absurd (ground arith)
          | inl ((moved, total, t), g) ↦
              let same : moved ≡ after = ground arith in
              let exact : input.quantity + t ≡ transferred = ground arith in
              let grown =
                Grows-trans store.layers created.layers moved.layers input.quantity t
                  (create_layer-Grows movement input store created v f)
                  (transfer_from-Grows movement rest created moved total t g) in
              rw (← exact, ← same) grown
        ]
      ]
    ]

pub restore_sale-Grows :
    (movement : Movement) (n : ℕ) (store after : Store) (value : ℤ)
    → restore_sale movement n store ≡ ok (after, value)
    → Grows store.layers n after.layers
unfolding restore_sale
restore_sale-Grows movement n store after value h =
    let chosen = select (joins (is_restored_by movement) store.movements) store.allocations in
    elim (Result-cases (restore_from movement chosen n store)) [
      | inr (_, f) ↦ absurd (ground arith)
      | inl ((restored, v, left), f) ↦
          let (m, exact, grown) = restore_from-Grows movement chosen n store restored v left f in
          let z : left ≡ 0 = ground arith in
          let whole : m ≡ n = omega (arith, exact, z) in
          let same : restored ≡ after = ground arith in rw (← whole, ← same) grown
    ]

pub transfer_layers-Grows :
    (movement : Movement) (n : ℕ) (store after : Store) (value : ℤ)
    → transfer_layers movement n store ≡ ok (after, value)
    → Grows store.layers n after.layers
unfolding transfer_layers
transfer_layers-Grows movement n store after value h =
    let chosen = select (joins (is_transferred_by movement) store.movements) store.allocations in
    elim (Result-cases (transfer_from movement chosen store)) [
      | inr (_, f) ↦ absurd (ground arith)
      | inl ((moved, v, t), f) ↦
          let grown = transfer_from-Grows movement chosen store moved v t f in
          let whole : t ≡ n = ground arith in
          let same : moved ≡ after = ground arith in rw (← whole, ← same) grown
    ]

pub enter_stock-Grows :
    (sources : Sources) (movement : Movement) (n : ℕ) (store after : Store) (value : ℤ)
    → enter_stock sources movement n store ≡ ok (after, value)
    → Grows store.layers n after.layers
unfolding enter_stock
enter_stock-Grows sources movement n store after value h =
    elim (Result-cases (source_cost sources movement)) [
      | inr (_, f) ↦ absurd (ground arith)
      | inl ((cost, currency), f) ↦
          create_layer-Grows movement (entered_layer movement n cost currency) store after value
            (ground arith)
    ]

pub apply_increase-Grows :
    (sources : Sources) (movement : Movement) (n : ℕ) (store after : Store) (value : ℤ)
    → apply_increase sources movement n store ≡ ok (after, value)
    → Grows store.layers n after.layers
unfolding apply_increase
apply_increase-Grows sources movement n store after value h =
    elim movement.kind
        as (λ k.
          (elim k [
            | sale_void ↦ restore_sale movement n store
            | sale_return ↦ restore_sale movement n store
            | transfer_in ↦ transfer_layers movement n store
            | _ ↦ enter_stock sources movement n store
          ])
            ≡ ok (after, value)
          → Grows store.layers n after.layers) [
            | sale_void ↦ restore_sale-Grows movement n store after value
            | sale_return ↦ restore_sale-Grows movement n store after value
            | transfer_in ↦ transfer_layers-Grows movement n store after value
            | _ ↦ enter_stock-Grows sources movement n store after value
          ]
      h
