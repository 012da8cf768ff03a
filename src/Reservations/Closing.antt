-- ===== src/Reservations/Closing.antt =====
-- `close`, `release` and `expireDue` of src/reservations/product-reservation.repository.ts.
use uinventario_api.Base.{
  ℕ, suc, ◌+◌, ◌-◌, Bool, true, false, not, ◌&&◌, ◌||◌, Option, none, some, List, [], ◌∷◌, ◌++◌,
  ◌==◌, ltb, leb, if◌then◌else◌, Result, ok, err, ◌>>=◌, ◌>>◌, throw_if,
}
use uinventario_api.Base.Int.{pos}
use uinventario_api.Stock.{
  Balance, available_state, reserved_state, state_transition, StockMovement, Books, balance_at,
  post,
}
use uinventario_api.Reservations.{
  MovementNames, tracking_refused, ReservationLine, ReservationStatus, active, released, expired,
  consumed, is_active, Reservation, Shelves, ReservationError, target_not_found, insufficient_stock,
  not_active, find_by_id,
}

abbrev pub is_row : Option Balance → Bool
is_row none = false
is_row (some _) = true

abbrev pub status_index : ReservationStatus → ℕ
status_index active = 0
status_index released = 1
status_index expired = 2
status_index consumed = 3

pub record Closure : Type 0 where
  pub branch : ℕ
  pub id : ℕ
  pub key : ℕ
  pub fingerprint : ℕ
  pub status : ReservationStatus

-- The closure that is stored has the key and the fingerprint of the request.
abbrev pub is_closed_by : Option (ℕ × ℕ) → Closure → Bool
is_closed_by none closure = false
is_closed_by (some (key, fingerprint)) closure =
    key == closure.key && fingerprint == closure.fingerprint

abbrev pub closed_row : Closure → Reservation → Reservation
closed_row closure r = record r {
  status = closure.status;
  closure = some (closure.key, closure.fingerprint);
}

-- `UPDATE product_reservations SET status = ?, ... WHERE id = ? AND status = 'ACTIVE'`
unfoldable pub update_row : Closure → List Reservation → List Reservation
update_row closure [] = []
update_row closure (r ∷ rest) =
    let later = update_row closure rest in
    if r.id == closure.id
    then (if is_active r.status then closed_row closure r else r) ∷ rest
    else r ∷ later

abbrev pub is_due : (now branch : ℕ) → Reservation → Bool
is_due now branch r = r.branch == branch && is_active r.status && leb r.expires_at now

-- `ORDER BY expires_at, id`
abbrev pub is_before : Reservation → Reservation → Bool
is_before a b = ltb a.expires_at b.expires_at || (a.expires_at == b.expires_at && leb a.id b.id)

unfoldable pub insert_due : Reservation → List Reservation → List Reservation
insert_due r [] = r ∷ []
insert_due r (next ∷ rest) =
    let later = insert_due r rest in if is_before r next then r ∷ next ∷ rest else next ∷ later

-- The reservations that `expireDue` selects.
unfoldable pub due : (now branch : ℕ) → List Reservation → List Reservation
due now branch [] = []
due now branch (r ∷ rest) =
    let later = due now branch rest in if is_due now branch r then insert_due r later else later

abbrev pub expiry :
    (expire_key : ℕ → ℕ) (digest : ReservationStatus → ℕ → ℕ) (branch reason : ℕ)
    → Reservation
    → Closure
expiry expire_key digest branch reason r = record {
  branch = branch;
  id = r.id;
  key = expire_key r.id;
  fingerprint = digest expired reason;
  status = expired;
}

-- One turn of the loop of `expireDue`: what is closed in the meantime is left out, any other error ends
-- the loop, and what was committed stays.
abbrev pub expired_then :
    Shelves
    → List Reservation
    → (Shelves → List Reservation → Shelves × Result ReservationError (List Reservation))
    → Result ReservationError (Shelves × Reservation × Bool)
    → Shelves × Result ReservationError (List Reservation)
expired_then shelves done next (ok (after, r, replayed)) =
    next after (if replayed then done else done ++ r ∷ [])
expired_then shelves done next (err (not_active status)) = next shelves done
expired_then shelves done next (err e) = (shelves, err e)

module _ (names : MovementNames) where
  -- One turn of the loop of `close`.
  unfoldable pub release_line :
      (closure : Closure) (location index : ℕ)
      → ReservationLine
      → Books
      → Result ReservationError Books
  release_line closure location index line books = do
    let balance = balance_at books.stock line.product location
    throw_if
        (not (is_row (books.stock line.product location)) || ltb balance.reserved line.quantity)
        (insufficient_stock line.product)
    let movement : StockMovement = record {
      key = names.line_key closure.id (suc index);
      fingerprint = closure.fingerprint;
      product = line.product;
      location = location;
      kind = state_transition;
      change = pos 0;
      resulting = balance.quantity;
      changed_state = some (reserved_state, available_state, line.quantity);
    }
    let after =
        post books line.product location
          (record balance {
            available = balance.available + line.quantity;
            reserved = balance.reserved - line.quantity;
          })
          movement
    throw_if (not (names.is_tracked after movement)) tracking_refused
    ok after

  unfoldable pub release_lines :
      (closure : Closure) (location index : ℕ)
      → List ReservationLine
      → Books
      → Result ReservationError Books
  release_lines closure location index [] books = ok books
  release_lines closure location index (line ∷ rest) books =
      release_line closure location index line books
      >>= release_lines closure location (suc index) rest

  -- The lines of an active reservation go back, and its row is closed.
  unfoldable pub close_active :
      Closure → Reservation → Shelves → Result ReservationError (Shelves × Reservation × Bool)
  close_active closure r shelves = do
    books ← release_lines closure r.location 0 r.lines shelves.books
    ok (
      record { books = books; reservations = update_row closure shelves.reservations },
      closed_row closure r,
      false,
    )

  -- The same closure of a reservation that is closed is repeated.
  unfoldable pub close_found :
      Closure → Reservation → Shelves → Result ReservationError (Shelves × Reservation × Bool)
  close_found closure r shelves =
      let closed = close_active closure r shelves in
      if not (r.branch == closure.branch)
      then err target_not_found
      else if is_active r.status
      then closed
      else if status_index r.status == status_index closure.status && is_closed_by r.closure closure
      then ok (shelves, r, true)
      else err (not_active r.status)

  unfoldable pub close : Closure → Shelves → Result ReservationError (Shelves × Reservation × Bool)
  close closure shelves = elim (find_by_id closure.id shelves.reservations) [
    | none ↦ err target_not_found
    | some r ↦ close_found closure r shelves
  ]

  -- `release`; `digest` stands for SHA-256 of the status and the reason.
  abbrev pub release :
      (digest : ReservationStatus → ℕ → ℕ) (branch id key reason : ℕ)
      → Shelves
      → Result ReservationError (Shelves × Reservation × Bool)
  release digest branch id key reason shelves =
      close
        (record {
          branch = branch;
          id = id;
          key = key;
          fingerprint = digest released reason;
          status = released;
        })
        shelves

  unfoldable pub expire_all :
      (Reservation → Closure)
      → List Reservation
      → Shelves
      → List Reservation
      → Shelves × Result ReservationError (List Reservation)
  expire_all closure [] shelves done = (shelves, ok done)
  expire_all closure (r ∷ rest) shelves done =
      expired_then shelves done (expire_all closure rest) (close (closure r) shelves)

  -- `expire_key` stands for the text `expire:${id}`, and `reason` is the constant of the source.
  unfoldable pub expire_due :
      (expire_key : ℕ → ℕ) (digest : ReservationStatus → ℕ → ℕ) (reason now branch : ℕ)
      → Shelves
      → Shelves × Result ReservationError (List Reservation)
  expire_due expire_key digest reason now branch shelves =
      expire_all (expiry expire_key digest branch reason) (due now branch shelves.reservations)
        shelves []
