-- ===== src/Loyalty/Reversals.antt =====
-- When a sale's points are given back: the guards of `voidSale` of src/pos/sales.repository.ts and of `create`
-- of src/pos/sale-return.repository.ts around `compensateSale`.
pub mod Kept
pub mod Totals
use uinventario_api.Base.{
  ℕ, ◌+◌, Bool, true, false, ◌&&◌, Option, none, some, List, [], ◌∷◌, ◌==◌, if◌then◌else◌, Result,
  ok, err, ◌>>=◌, ◌>>◌, throw_if,
}
use uinventario_api.Loyalty.{LoyaltyError}
use uinventario_api.Loyalty.Ledger.{Ledger}
use uinventario_api.Loyalty.Sales.{void, return, SaleRow, compensate_sale}

-- A sale with what reverses it: the key and the fingerprint of its void and of its returns.
pub record ReversedSale : Type 0 where
  pub row : SaleRow
  pub voided_by : Option (ℕ × ℕ)
  pub returns : List (ℕ × ℕ)
  pub ledger : Ledger

pub data ReversalError : Type 0 where
  idempotency_conflict already_voided void_not_allowed return_not_allowed : ReversalError
  points_refused : LoyaltyError → ReversalError

abbrev pub points_of : Result LoyaltyError Ledger → Result ReversalError Ledger
points_of (ok ledger) = ok ledger
points_of (err e) = err (points_refused e)

abbrev pub is_voided : Option (ℕ × ℕ) → Bool
is_voided none = false
is_voided (some _) = true

abbrev pub has_return : List (ℕ × ℕ) → Bool
has_return [] = false
has_return (_ ∷ _) = true

-- The fingerprint of the return with the key.
unfoldable pub find_return : ℕ → List (ℕ × ℕ) → Option ℕ
find_return key [] = none
find_return key ((k, fingerprint) ∷ rest) =
    let later = find_return key rest in if k == key then some fingerprint else later

-- A void of a sale that is voided.
unfoldable pub replay_void :
    (key fingerprint : ℕ) → ℕ × ℕ → ReversedSale → Result ReversalError (ReversedSale × Bool)
replay_void key fingerprint (k, f) sale =
    if k == key
    then (if f == fingerprint then ok (sale, true) else err idempotency_conflict)
    else err already_voided

-- `customer` stands for whether the sale's customer is there and active.
unfoldable pub first_void :
    Bool → (now key fingerprint : ℕ) → ReversedSale → Result ReversalError (ReversedSale × Bool)
first_void customer now key fingerprint sale = do
  throw_if (has_return sale.returns) void_not_allowed
  ledger ← points_of (compensate_sale customer now void sale.row sale.ledger)
  ok (record sale { voided_by = some (key, fingerprint); ledger = ledger }, false)

unfoldable pub void_sale :
    Bool → (now key fingerprint : ℕ) → ReversedSale → Result ReversalError (ReversedSale × Bool)
void_sale customer now key fingerprint sale = elim sale.voided_by [
  | some voided ↦ replay_void key fingerprint voided sale
  | none ↦ first_void customer now key fingerprint sale
]

-- A return of goods for `total`.
unfoldable pub first_return :
    Bool
    → (now key fingerprint total : ℕ) → ReversedSale
    → Result ReversalError (ReversedSale × Bool)
first_return customer now key fingerprint total sale = do
  throw_if (is_voided sale.voided_by) return_not_allowed
  let row = record sale.row { returned = sale.row.returned + total }
  ledger ← points_of (compensate_sale customer now return row sale.ledger)
  ok (
    record sale { row = row; returns = (key, fingerprint) ∷ sale.returns; ledger = ledger },
    false,
  )

unfoldable pub return_sale :
    Bool
    → (now key fingerprint total : ℕ) → ReversedSale
    → Result ReversalError (ReversedSale × Bool)
return_sale customer now key fingerprint total sale = elim (find_return key sale.returns) [
  | some f ↦ (if f == fingerprint then ok (sale, true) else err idempotency_conflict)
  | none ↦ first_return customer now key fingerprint total sale
]
