-- ===== src/Stock/Counts.antt =====
-- `createCount` of src/inventory/inventory.repository.ts: the row takes the counted quantity, if nobody has
-- moved it since the snapshot.
use uinventario_api.Base.{
  ℕ, Bool, true, false, not, ◌&&◌, Option, none, some, List, [], ◌∷◌, ◌==◌, if◌then◌else◌, Result,
  ok, err, ◌>>=◌, ◌>>◌, throw_if,
}
use uinventario_api.Base.Int.{ℤ, pos, pos_part, ◌+ℤ◌, ◌-ℤ◌, is_neg, eqb_ℤ}
use uinventario_api.Text.{Text}
use uinventario_api.QuantityPolicy.{ProductQuantityPolicy}
use uinventario_api.Stock.{StockGuards, Books, StockMovement, adjustment, balance_at, has_key, post}
use uinventario_api.Stock.Movements.{
  StockError, normalized_units, idempotency_conflict, target_not_found, count_conflict,
  insufficient_stock, tracking_refused,
}

pub record CountRequest : Type 0 where
  pub key : ℕ
  pub product : ℕ
  pub location : ℕ
  pub snapshot : Text
  pub counted : Text

-- A row of `inventory_counts`.
pub record InventoryCount : Type 0 where
  pub key : ℕ
  pub fingerprint : ℕ
  pub product : ℕ
  pub location : ℕ
  pub snapshot : ℤ
  pub counted : ℤ
  pub variance : ℤ
  pub is_moved : Bool

pub record CountBooks : Type 0 where
  pub books : Books
  pub counts : List InventoryCount

-- `findCount`
unfoldable pub find_count : ℕ → List InventoryCount → Option InventoryCount
find_count key [] = none
find_count key (c ∷ rest) =
    let later = find_count key rest in if c.key == key then some c else later

-- The answer to a repeated count.
unfoldable pub replay_count :
    ℕ → InventoryCount → CountBooks → Result StockError (CountBooks × InventoryCount × Bool)
replay_count fingerprint found books =
    if found.fingerprint == fingerprint then ok (books, found, true) else err idempotency_conflict

-- The adjustment of a count whose variance is not zero; the key is unique among the movements.
unfoldable pub adjust_balance : StockGuards → ℕ → CountRequest → ℤ → Books → Result StockError Books
adjust_balance guards fingerprint request counted books = do
  let balance = balance_at books.stock request.product request.location
  let variance = counted -ℤ pos balance.available
  let total = pos balance.quantity +ℤ variance
  throw_if (is_neg total) insufficient_stock
  let movement : StockMovement = record {
    key = request.key;
    fingerprint = fingerprint;
    product = request.product;
    location = request.location;
    kind = adjustment;
    change = variance;
    resulting = pos_part total;
    changed_state = none;
  }
  throw_if (not (eqb_ℤ variance (pos 0)) && has_key request.key books.movements)
      idempotency_conflict
  let adjusted =
      post books request.product request.location
        (record balance { quantity = pos_part total; available = pos_part counted }) movement
  throw_if (not (eqb_ℤ variance (pos 0)) && not (guards.is_tracked adjusted movement))
      tracking_refused
  ok (if eqb_ℤ variance (pos 0) then books else adjusted)

module _ (guards : StockGuards) (policy : ProductQuantityPolicy) where
  -- The transaction of `createCount` for a new key.
  unfoldable pub write_count :
      ℕ → CountRequest → ℤ → ℤ → CountBooks → Result StockError (CountBooks × InventoryCount × Bool)
  write_count fingerprint request snapshot counted books = do
    throw_if (not (guards.is_target request.product request.location)) target_not_found
    let available = (balance_at books.books.stock request.product request.location).available
    throw_if (not (eqb_ℤ (pos available) snapshot)) (count_conflict available)
    after ← adjust_balance guards fingerprint request counted books.books
    let count : InventoryCount = record {
      key = request.key;
      fingerprint = fingerprint;
      product = request.product;
      location = request.location;
      snapshot = snapshot;
      counted = counted;
      variance = counted -ℤ pos available;
      is_moved = not (eqb_ℤ (counted -ℤ pos available) (pos 0));
    }
    ok (record { books = after; counts = count ∷ books.counts }, count, false)

  unfoldable pub create_count :
      (CountRequest → ℤ → ℤ → ℕ)
      → CountRequest
      → CountBooks
      → Result StockError (CountBooks × InventoryCount × Bool)
  create_count digest request books = do
    snapshot ←
        normalized_units request.snapshot policy
          (record { allow_negative = false; enforce_minimum = false })
    counted ←
        normalized_units request.counted policy
          (record { allow_negative = false; enforce_minimum = false })
    let fingerprint = digest request snapshot counted
    let written = write_count fingerprint request snapshot counted books
    elim (find_count request.key books.counts) [
      | some found ↦ replay_count fingerprint found books
      | none ↦ written
    ]
