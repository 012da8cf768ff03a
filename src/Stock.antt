-- ===== src/Stock.antt =====
-- The table `inventory_balances` and the movements that are written with it: src/inventory,
-- src/reservations. Quantities are in thousandths.
pub mod Rows
pub mod Movements
pub mod Ledger
pub mod Writes
pub mod Requests
pub mod Held
pub mod Counts
pub mod Runs
mod Examples
use uinventario_api.Base.{
  ℕ, ◌+◌, Bool, true, false, ◌&&◌, ◌||◌, Option, none, some, List, [], ◌∷◌, ◌==◌, if◌then◌else◌,
}
use uinventario_api.Base.Int.{ℤ}

-- A row of `inventory_balances`.
pub record Balance : Type 0 where
  pub quantity : ℕ
  pub available : ℕ
  pub reserved : ℕ
  pub damaged : ℕ
  pub in_transit : ℕ

-- The rows by product and location.
abbrev pub Stock : Type 0
Stock = ℕ → ℕ → Option Balance

-- `INSERT ... VALUES (?, ?, ?, 0) ON DUPLICATE KEY UPDATE quantity = quantity`, and the row that is there.
abbrev pub empty_row : Balance
empty_row = record { quantity = 0; available = 0; reserved = 0; damaged = 0; in_transit = 0 }

abbrev pub row_or_empty : Option Balance → Balance
row_or_empty none = empty_row
row_or_empty (some b) = b

unfoldable pub balance_at : Stock → ℕ → ℕ → Balance
balance_at stock product location = row_or_empty (stock product location)

abbrev pub is_key : ℕ → ℕ → ℕ → ℕ → Bool
is_key product location p l = product == p && location == l

-- `UPDATE inventory_balances SET ... WHERE product_id = ? AND location_id = ?`
unfoldable pub put_balance : Stock → ℕ → ℕ → Balance → Stock
put_balance stock product location balance p l =
    if is_key product location p l then some balance else stock p l

pub data StockState : Type 0 where
  available_state reserved_state damaged_state in_transit_state : StockState

pub data MovementKind : Type 0 where
  initial entry exit_ return_ loss damage adjustment imported state_transition : MovementKind
  transfer_out transfer_in transfer_receipt transfer_discrepancy : MovementKind
  sale sale_void sale_return purchase_receipt supplier_return : MovementKind

-- A row of `inventory_movements`; `fingerprint` is `request_fingerprint`, and `changed_state` has
-- `from_state`, `to_state` and `state_quantity`.
pub record StockMovement : Type 0 where
  pub key : ℕ
  pub fingerprint : ℕ
  pub product : ℕ
  pub location : ℕ
  pub kind : MovementKind
  pub change : ℤ
  pub resulting : ℕ
  pub changed_state : Option (StockState × StockState × ℕ)

-- The balances, and the movements, the last one first.
pub record Books : Type 0 where
  pub stock : Stock
  pub movements : List StockMovement

-- `findMovement`
unfoldable pub find_movement : ℕ → List StockMovement → Option StockMovement
find_movement key [] = none
find_movement key (m ∷ rest) =
    let later = find_movement key rest in if m.key == key then some m else later

-- The key of a movement is unique.
unfoldable pub has_key : ℕ → List StockMovement → Bool
has_key key [] = false
has_key key (m ∷ rest) = m.key == key || has_key key rest

-- `SELECT COUNT(*) ... WHERE product_id = ? AND location_id = ?` is positive.
unfoldable pub has_movement : ℕ → ℕ → List StockMovement → Bool
has_movement product location [] = false
has_movement product location (m ∷ rest) =
    is_key m.product m.location product location || has_movement product location rest

abbrev pub post : Books → ℕ → ℕ → Balance → StockMovement → Books
post books product location balance movement = record {
  stock = put_balance books.stock product location balance;
  movements = movement ∷ books.movements;
}

-- `is_target` stands for the lookup of `assertTarget`, and `is_tracked` for whether the valuation, the lots and the
-- serials, which have tables of their own, accept a movement.
pub record StockGuards : Type 0 where
  pub is_target : ℕ → ℕ → Bool
  pub is_tracked : Books → StockMovement → Bool
