-- ===== src/Inventory/Fifo.antt =====
-- The FIFO projection: src/inventory/inventory-fifo-valuation.ts, for one product of one tenant. Rows are
-- records, queries are filters, and an error leaves no state, since its transaction is rolled back.
pub mod Operations
pub mod Apply
pub mod Conservation
pub mod Growth
pub mod Balance
use uinventario_api.Base.{
  ℕ, suc, ◌+◌, ◌-◌, ◌*◌, ◌/◌, Bool, true, false, not, ◌&&◌, ◌||◌, Option, none, some, List, [], ◌∷◌,
  ◌++◌, ltb, leb, ◌==◌, if◌then◌else◌, Result, ok, err, ◌>>=◌, ◌>>◌, throw_if,
}
use uinventario_api.Base.Int.{
  ℤ, pos, negsuc, pos_part, neg_part, abs, with_sign, is_neg, neg_ℕ, ◌+ℤ◌, ◌-ℤ◌, leb_ℤ, ltb_ℤ,
  eqb_ℤ,
}
use uinventario_api.Inventory.Rounding.{quantity_value, rounded_quotient, quantity_scale}

pub data FifoError : Type 0 where
  layer_shortage currency_mismatch : FifoError
  movement_cost_not_found receipt_cost_not_found return_source_not_found : FifoError

pub data AllocationMode : Type 0 where
  entry fifo restore transfer origin_return : AllocationMode

pub data LayerOrigin : Type 0 where
  from_entry from_receipt from_return from_transfer : LayerOrigin

-- The movement types that the code distinguishes; `other` is any other.
pub data MovementType : Type 0 where
  purchase_receipt sale sale_void sale_return customer_return : MovementType
  transfer_in transfer_out transfer_discrepancy supplier_return other : MovementType

pub record Movement : Type 0 where
  pub id : ℕ
  pub location : ℕ
  pub kind : MovementType
  pub quantity_change : ℤ
  pub receipt_line : Option ℕ
  pub return_line : Option ℕ
  pub sale : Option ℕ
  pub sale_line : Option ℕ
  pub source_sale_movement : Option ℕ
  pub transfer_line : Option ℕ
  pub unit_cost : Option ℕ
  pub currency : ℕ
  pub created_at : ℕ

pub record Layer : Type 0 where
  pub id : ℕ
  pub location : ℕ
  pub source_movement : ℕ
  pub source_layer : Option ℕ
  pub receipt_line : Option ℕ
  pub origin : LayerOrigin
  pub original : ℕ
  pub remaining : ℕ
  pub unit_cost : ℕ
  pub currency : ℕ
  pub acquired_at : ℕ

pub record Allocation : Type 0 where
  pub id : ℕ
  pub movement : ℕ
  pub layer : ℕ
  pub source : Option ℕ
  pub quantity_change : ℤ
  pub unit_cost : ℕ
  pub currency : ℕ
  pub value_change : ℤ
  pub mode : AllocationMode

-- `fifo_unit_cost`, `fifo_value_change` and `fifo_resulting_inventory_value` of a movement; the last is
-- the exact sum of quantity times cost, in units of 10⁻⁷.
pub record Summary : Type 0 where
  pub movement : ℕ
  pub unit_cost : ℕ
  pub value_change : ℤ
  pub inventory_value : ℕ

-- The tables. Layers stand in the order of `acquired_at, created_at, id`, and allocations in the order
-- of insertion, which is that of their queries. `next_id` stands for `randomUUID`.
pub record Store : Type 0 where
  pub layers : List Layer
  pub allocations : List Allocation
  pub movements : List Movement
  pub summaries : List Summary
  pub cutover : Option ℕ
  pub next_id : ℕ

-- What other tables say: the cost and the currency of a purchase receipt line, the receipt line of a
-- purchase return line, and the product's quantity in `inventory_valuations`.
pub record Sources : Type 0 where
  pub receipt_cost : ℕ → Option (ℕ × ℕ)
  pub return_receipt : ℕ → Option ℕ
  pub valuation : Option ℤ

abbrev pub has : Option ℕ → ℕ → Bool
has none n = false
has (some m) n = m == n

abbrev pub same : Option ℕ → Option ℕ → Bool
same (some m) (some n) = m == n
same _ _ = false

-- `insertAllocation`, which returns the value of the allocation.
unfoldable pub insert_allocation :
    Movement → ℕ → ℤ → ℕ → ℕ → AllocationMode → Option ℕ → Store → Store × ℤ
insert_allocation movement layer quantity unit_cost currency mode source store =
    let value = quantity_value quantity unit_cost in
    (
      record store {
        allocations =
            store.allocations
            ++ (record {
              id = store.next_id;
              movement = movement.id;
              layer = layer;
              source = source;
              quantity_change = quantity;
              unit_cost = unit_cost;
              currency = currency;
              value_change = value;
              mode = mode;
            }
                ∷ []);
        next_id = store.next_id + 1;
      },
      value,
    )

-- A new layer goes behind all layers that were not acquired later.
unfoldable pub insert_layer : Layer → List Layer → List Layer
insert_layer layer [] = layer ∷ []
insert_layer layer (l ∷ ls) =
    if leb l.acquired_at layer.acquired_at then l ∷ insert_layer layer ls else layer ∷ l ∷ ls

-- `assertCurrency`: the layers of a product that stand all have one currency, so the first one decides.
unfoldable pub currency_fits : ℕ → List Layer → Bool
currency_fits currency [] = true
currency_fits currency (l ∷ _) = l.currency == currency

-- The argument of `createLayer`.
pub record NewLayer : Type 0 where
  pub quantity : ℕ
  pub unit_cost : ℕ
  pub currency : ℕ
  pub origin : LayerOrigin
  pub acquired_at : ℕ
  pub mode : AllocationMode
  pub source_layer : Option ℕ
  pub receipt_line : Option ℕ
  pub source_allocation : Option ℕ

unfoldable pub create_layer : Movement → NewLayer → Store → Result FifoError (Store × ℤ)
create_layer movement input store = do
  throw_if (not (currency_fits input.currency store.layers)) currency_mismatch
  let layer : Layer = record {
    id = store.next_id;
    location = movement.location;
    source_movement = movement.id;
    source_layer = input.source_layer;
    receipt_line = input.receipt_line;
    origin = input.origin;
    original = input.quantity;
    remaining = input.quantity;
    unit_cost = input.unit_cost;
    currency = input.currency;
    acquired_at = input.acquired_at;
  }
  ok (
      insert_allocation movement store.next_id (pos input.quantity) input.unit_cost input.currency
        input.mode input.source_allocation
        (record store { layers = insert_layer layer store.layers; next_id = store.next_id + 1 }))
