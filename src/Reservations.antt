-- ===== src/Reservations.antt =====
-- Reservations of products for a customer: src/reservations/product-reservation.repository.ts, with the
-- balances of Stock. Quantities are in thousandths and times are numbers.
pub mod Closing
pub mod Held
pub mod Lines
pub mod Backing
pub mod Stocking
pub mod Runs
pub mod Due
pub mod Expiry
mod Examples
use uinventario_api.Base.{
  ℕ, suc, ◌+◌, ◌-◌, ◌*◌, Bool, true, false, not, ◌&&◌, ◌||◌, Option, none, some, List, [], ◌∷◌,
  ◌==◌, ltb, leb, if◌then◌else◌, Result, ok, err, ◌>>=◌, ◌>>◌, throw_if,
}
use uinventario_api.Base.Int.{ℤ, pos}
use uinventario_api.Stock.{
  Balance, Stock, StockState, available_state, reserved_state, state_transition, StockMovement,
  Books, balance_at, post,
}

pub record ReservationLine : Type 0 where
  pub product : ℕ
  pub quantity : ℕ

pub data ReservationStatus : Type 0 where
  active released expired consumed : ReservationStatus

abbrev pub is_active : ReservationStatus → Bool
is_active active = true
is_active _ = false

-- A row of `product_reservations` with its lines; `closure` is the key and the fingerprint of the request
-- that closed it.
pub record Reservation : Type 0 where
  pub id : ℕ
  pub key : ℕ
  pub fingerprint : ℕ
  pub branch : ℕ
  pub location : ℕ
  pub customer : ℕ
  pub status : ReservationStatus
  pub expires_at : ℕ
  pub closure : Option (ℕ × ℕ)
  pub lines : List ReservationLine

pub record Shelves : Type 0 where
  pub books : Books
  pub reservations : List Reservation

pub data ReservationError : Type 0 where
  idempotency_conflict target_not_found duplicate_row tracking_refused : ReservationError
  insufficient_stock : ℕ → ReservationError
  not_active : ReservationStatus → ReservationError

pub record ReservationRequest : Type 0 where
  pub key : ℕ
  pub branch : ℕ
  pub warehouse : ℕ
  pub location : ℕ
  pub customer : ℕ
  pub expires_in_hours : ℕ
  pub lines : List ReservationLine

-- `.sort((left, right) => left.productId.localeCompare(right.productId))`
unfoldable pub insert_line : ReservationLine → List ReservationLine → List ReservationLine
insert_line line [] = line ∷ []
insert_line line (next ∷ rest) =
    let later = insert_line line rest in
    if leb line.product next.product then line ∷ next ∷ rest else next ∷ later

unfoldable pub sort_lines : List ReservationLine → List ReservationLine
sort_lines [] = []
sort_lines (line ∷ rest) = insert_line line (sort_lines rest)

-- `findByKey`
unfoldable pub find_by_key : ℕ → List Reservation → Option Reservation
find_by_key key [] = none
find_by_key key (r ∷ rest) =
    let later = find_by_key key rest in if r.key == key then some r else later

-- The row with the primary key.
unfoldable pub find_by_id : ℕ → List Reservation → Option Reservation
find_by_id id [] = none
find_by_id id (r ∷ rest) = let later = find_by_id id rest in if r.id == id then some r else later

unfoldable pub has_id : ℕ → List Reservation → Bool
has_id id [] = false
has_id id (r ∷ rest) = r.id == id || has_id id rest

-- `replay`
abbrev pub replay :
    ℕ → Reservation → Shelves → Result ReservationError (Shelves × Reservation × Bool)
replay fingerprint found shelves =
    if found.fingerprint == fingerprint then ok (shelves, found, true) else err idempotency_conflict

-- `line_key` stands for the text `reservation:${id}:${index + 1}`, or `reservation-close:...` for the movements of a
-- closure; `is_tracked` for whether the valuation, the lots and the serials, which have tables of their own,
-- accept a movement.
pub record MovementNames : Type 0 where
  pub line_key : ℕ → ℕ → ℕ
  pub is_tracked : Books → StockMovement → Bool

-- `is_product`, `is_location` and `is_customer` stand for the lookups among the active products, locations and
-- customers.
module _ (names : MovementNames) (is_product : ℕ → Bool) where
  -- One turn of the loop of `create`.
  unfoldable pub reserve_line :
      (id fingerprint location index : ℕ) → ReservationLine → Books → Result ReservationError Books
  reserve_line id fingerprint location index line books = do
    throw_if (not (ltb 0 line.quantity)) target_not_found
    throw_if (not (is_product line.product)) target_not_found
    let balance = balance_at books.stock line.product location
    throw_if (ltb balance.available line.quantity) (insufficient_stock line.product)
    let movement : StockMovement = record {
      key = names.line_key id (suc index);
      fingerprint = fingerprint;
      product = line.product;
      location = location;
      kind = state_transition;
      change = pos 0;
      resulting = balance.quantity;
      changed_state = some (available_state, reserved_state, line.quantity);
    }
    let after =
        post books line.product location
          (record balance {
            available = balance.available - line.quantity;
            reserved = balance.reserved + line.quantity;
          })
          movement
    throw_if (not (names.is_tracked after movement)) tracking_refused
    ok after

  unfoldable pub reserve_lines :
      (id fingerprint location index : ℕ)
      → List ReservationLine
      → Books
      → Result ReservationError Books
  reserve_lines id fingerprint location index [] books = ok books
  reserve_lines id fingerprint location index (line ∷ rest) books =
      reserve_line id fingerprint location index line books
      >>= reserve_lines id fingerprint location (suc index) rest

  -- The transaction of `create` for a new key.
  unfoldable pub write_reservation :
      (is_location : ℕ → ℕ → ℕ → Bool) (is_customer : ℕ → Bool) (id now fingerprint : ℕ)
      → ReservationRequest
      → Shelves
      → Result ReservationError (Shelves × Reservation × Bool)
  write_reservation is_location is_customer id now fingerprint request shelves = do
    throw_if
        (not (is_location request.branch request.warehouse request.location)
          || not (is_customer request.customer))
        target_not_found
    throw_if (has_id id shelves.reservations) duplicate_row
    let reservation : Reservation = record {
      id = id;
      key = request.key;
      fingerprint = fingerprint;
      branch = request.branch;
      location = request.location;
      customer = request.customer;
      status = active;
      expires_at = now + request.expires_in_hours * 3600000;
      closure = none;
      lines = sort_lines request.lines;
    }
    books ← reserve_lines id fingerprint request.location 0 (sort_lines request.lines) shelves.books
    ok (
      record { books = books; reservations = reservation ∷ shelves.reservations },
      reservation,
      false,
    )

  unfoldable pub create :
      (is_location : ℕ → ℕ → ℕ → Bool) (is_customer : ℕ → Bool)
      (digest : ReservationRequest → List ReservationLine → ℕ) (id now : ℕ)
      → ReservationRequest
      → Shelves
      → Result ReservationError (Shelves × Reservation × Bool)
  create is_location is_customer digest id now request shelves =
      let fingerprint = digest request (sort_lines request.lines) in
      let written = write_reservation is_location is_customer id now fingerprint request shelves in
      elim (find_by_key request.key shelves.reservations) [
        | some found ↦ replay fingerprint found shelves
        | none ↦ written
      ]
