-- ===== src/Inventory/Fifo/Conservation.antt =====
-- What the operations on the layers do to the total quantity.
use uinventario_api.Base.{
  ℕ, ◌+◌, ◌-◌, ◌≤◌, ◌<◌, ◌≡◌, ◌↔◌, refl, Bool, true, none, List, [], ◌∷◌, ◌==◌, if◌then◌else◌,
  arith, ok, Bool-cases, inl, inr, All,
}
use uinventario_api.Base.Int.{ℤ, neg_ℕ}
use uinventario_api.Inventory.Fifo.{AllocationMode, Movement, Layer, Store, insert_allocation}
use uinventario_api.Inventory.Fifo.Operations.{
  Source, consume_from, consume_layers, consumed_of, push_layer, is_eligible, mode_of,
}
use uinventario_api.Inventory.Fifo.Apply.{total_quantity}

-- A layer never holds more than it had at first.
abbrev pub IsStored : Layer → Type 0
IsStored layer = layer.remaining ≤ layer.original

module _ (eligible : Layer → Bool) where
  -- The quantity in the layers that may be consumed.
  unfoldable pub eligible_total : List Layer → ℕ
  eligible_total [] = 0
  eligible_total (layer ∷ layers) =
      let rest = eligible_total layers in if eligible layer then layer.remaining + rest else rest

  -- A layer that may be consumed and still holds something stops the loop.
  unfoldable pub IsInOrder : List Layer → List Layer → Type 0
  IsInOrder (b ∷ before) (a ∷ after) =
      (eligible b ≡ true → 0 < a.remaining → after ≡ before) × IsInOrder before after
  IsInOrder [] [] = Unit
  IsInOrder _ _ = ⊥

  IsInOrder-refl : (layers : List Layer) → IsInOrder layers layers
  unfolding IsInOrder
  IsInOrder-refl [] = tt
  IsInOrder-refl (x ∷ xs) = ((λ _ _. refl), IsInOrder-refl xs)

module _ (movement : Movement) (eligible : Layer → Bool) (mode : AllocationMode) where
  consume_from-zero :
      (layers : List Layer) (store : Store)
      → (consume_from movement eligible mode layers 0 store).layers ≡ layers
  unfolding consume_from
  consume_from-zero [] store = refl
  consume_from-zero (l ∷ ls) store = refl

  pub consume_from-total :
      (layers : List Layer) (left : ℕ) (store : Store)
      → let c = consume_from movement eligible mode layers left store in
        (c.left ≡ left - eligible_total eligible layers)
        × (total_quantity c.layers + left ≡ total_quantity layers + c.left)
  unfolding consume_from push_layer total_quantity eligible_total
  consume_from-total [] left store = (omega arith, omega arith)
  consume_from-total (l ∷ ls) left store = elim (Bool-cases (left == 0)) [
    | inl z ↦ rw (consume_from, z) (ground arith, ground arith)
    | inr z ↦ elim (Bool-cases (eligible l)) [
      | inr e ↦
          let (i, j) = consume_from-total ls left store in
          rw (consume_from, z, e) (omega (arith, i), omega (arith, i, j))
      | inl e ↦
          let s =
            (insert_allocation movement l.id (neg_ℕ (consumed_of l left)) l.unit_cost l.currency
              mode none store).0 in
          let (i, j) = consume_from-total ls (left - consumed_of l left) s in
          rw (consume_from, z, e) (ground (arith, i), ground (arith, j))
    ]
  ]

  -- The first layers are taken first.
  pub consume_from-IsInOrder :
      (layers : List Layer) (left : ℕ) (store : Store)
      → IsInOrder eligible layers (consume_from movement eligible mode layers left store).layers
  unfolding consume_from push_layer IsInOrder
  consume_from-IsInOrder [] left store = tt
  consume_from-IsInOrder (l ∷ ls) left store = elim (Bool-cases (left == 0)) [
    | inl z ↦ rw (consume_from, z) ((λ _ _. refl), IsInOrder-refl eligible ls)
    | inr z ↦ elim (Bool-cases (eligible l)) [
      | inr e ↦
          rw (consume_from, z, e)
            ((λ yes. absurd (ground arith)), consume_from-IsInOrder ls left store)
      | inl e ↦
          let consumed = consumed_of l left in
          let s =
            (insert_allocation movement l.id (neg_ℕ consumed) l.unit_cost l.currency mode none
              store).0 in
          rw (consume_from, z, e)
            (
              (λ yes more.
                  let enough : left - consumed ≡ 0 = ground arith in
                  rw enough (consume_from-zero ls s)),
              consume_from-IsInOrder ls (left - consumed) s,
            )
    ]
  ]

  pub consume_from-IsStored :
      (layers : List Layer) (left : ℕ) (store : Store)
      → All IsStored layers
      → All IsStored (consume_from movement eligible mode layers left store).layers
  unfolding consume_from push_layer
  consume_from-IsStored [] left store h = tt
  consume_from-IsStored (l ∷ ls) left store (h, hs) = elim (Bool-cases (left == 0)) [
    | inl z ↦ rw (consume_from, z) (h, hs)
    | inr z ↦ elim (Bool-cases (eligible l)) [
      | inr e ↦ rw (consume_from, z, e) (h, consume_from-IsStored ls left store hs)
      | inl e ↦
          let consumed = consumed_of l left in
          let s =
            (insert_allocation movement l.id (neg_ℕ consumed) l.unit_cost l.currency mode none
              store).0 in
          rw (consume_from, z, e)
            (omega (arith, h), consume_from-IsStored ls (left - consumed) s hs)
    ]
  ]

-- `consumeLayers` succeeds exactly if the layers that it may consume hold the requested quantity.
pub consume_layers_iff :
    (movement : Movement) (requested : ℕ) (source : Source) (store : Store)
    → let eligible = is_eligible movement source store.movements in
      (((out : Store × ℤ) × (consume_layers movement requested source store ≡ ok out))
        ↔ (requested ≤ eligible_total eligible store.layers))
unfolding consume_layers
consume_layers_iff movement requested source store =
    let eligible = is_eligible movement source store.movements in
    let (left, _) =
      consume_from-total movement eligible (mode_of source) store.layers requested store in
    (
      (λ (out, e). ground (arith, left)),
      (λ enough.
          let z : ((consume_from movement eligible (mode_of source) store.layers requested
                  store).left
                == 0)
              ≡ true =
            ground arith in
          rw z (_, refl)),
    )

pub consume_layers-effect :
    (movement : Movement) (requested : ℕ) (source : Source) (store after : Store) (value : ℤ)
    → consume_layers movement requested source store ≡ ok (after, value)
    → (total_quantity after.layers + requested ≡ total_quantity store.layers)
      × IsInOrder (is_eligible movement source store.movements) store.layers after.layers
      × (All IsStored store.layers → All IsStored after.layers)
unfolding consume_layers
consume_layers-effect movement requested source store after value h =
    let eligible = is_eligible movement source store.movements in
    let mode = mode_of source in
    let (_, kept) = consume_from-total movement eligible mode store.layers requested store in
    let c = consume_from movement eligible mode store.layers requested store in
    let none_left : c.left ≡ 0 = ground arith in
    let same_layers : after.layers ≡ c.layers = ground arith in
    rw same_layers (
      omega (arith, kept, none_left),
      consume_from-IsInOrder movement eligible mode store.layers requested store,
      consume_from-IsStored movement eligible mode store.layers requested store,
    )

-- Consumption takes exactly the requested quantity, from the oldest layers first, and if no layer held
-- more than it had at first, none does afterwards.
pub consume_layers-total :
    (movement : Movement) (requested : ℕ) (source : Source) (store after : Store) (value : ℤ)
    → All IsStored store.layers
    → consume_layers movement requested source store ≡ ok (after, value)
    → (total_quantity after.layers + requested ≡ total_quantity store.layers)
      × IsInOrder (is_eligible movement source store.movements) store.layers after.layers
      × All IsStored after.layers
consume_layers-total movement requested source store after value s h =
    let (total, order, stored) =
      consume_layers-effect movement requested source store after value h in
    (total, order, stored s)
