-- ===== src/Reservations/Backing.antt =====
-- The reserved quantity of every balance is what the active reservations hold, but for what is moved by hand:
-- what the operations do to it.
use uinventario_api.Base.{
  ℕ, ◌+◌, ◌*◌, ◌≤◌, ◌≡◌, refl, Bool, true, false, not, ◌&&◌, ◌==◌, arith, none, some, List, [], ◌∷◌,
  ok, Result-cases, Option-cases, Bool-cases, inl, inr,
}
use uinventario_api.Stock.{StockMovement, Books, balance_at}
use uinventario_api.Stock.Ledger.{IsConsistent, no_books, no_books-IsConsistent}
use uinventario_api.Reservations.{
  MovementNames, ReservationLine, Reservation, ReservationRequest, Shelves, is_active, find_by_id,
  find_by_key, has_id, reserve_lines, write_reservation, create, sort_lines, active,
}
use uinventario_api.Reservations.Closing.{
  Closure, update_row, closed_row, release_lines, close_active, close_found, close,
}
use uinventario_api.Reservations.Held.{
  held, held_by, all_positive, held-update, all_positive-find, all_positive-update,
}
use uinventario_api.Reservations.Lines.{
  reserved_at, release_lines-facts, release_lines-total, reserve_lines-facts,
}

-- No two reservations have one identifier.
unfoldable pub is_distinct : List Reservation → Bool
is_distinct [] = true
is_distinct (r ∷ rest) = not (has_id r.id rest) && is_distinct rest

-- What is reserved, with what was taken out of that state by hand, is what the active reservations hold,
-- with what was put into it by hand.
pub record IsBackedBy (put taken : ℕ → ℕ → ℕ) (shelves : Shelves) : Type 0 where
  pub consistent : IsConsistent shelves.books
  pub reserved :
      (p l : ℕ)
      → reserved_at shelves.books p l + taken p l ≡ held p l shelves.reservations + put p l
  pub positive : all_positive shelves.reservations ≡ true
  pub distinct : is_distinct shelves.reservations ≡ true

-- Nothing was moved by hand: what is reserved is what the active reservations hold.
abbrev pub IsBacked : Shelves → Type 0
IsBacked shelves = IsBackedBy (λ p l. 0) (λ p l. 0) shelves

abbrev pub no_shelves : Shelves
no_shelves = record { books = no_books; reservations = [] }

pub no_shelves-IsBacked : IsBacked no_shelves
unfolding balance_at held all_positive is_distinct
no_shelves-IsBacked = record {
  consistent = no_books-IsConsistent;
  reserved = λ p l. refl;
  positive = refl;
  distinct = refl;
}

pub has_id-update :
    (closure : Closure) (id : ℕ) (rs : List Reservation)
    → has_id id (update_row closure rs) ≡ has_id id rs
unfolding has_id update_row
has_id-update closure id [] = refl
has_id-update closure id (r ∷ rest) =
    let later = has_id-update closure id rest in ground (arith, later)

distinct-update :
    (closure : Closure) (rs : List Reservation)
    → is_distinct rs ≡ true
    → is_distinct (update_row closure rs) ≡ true
unfolding is_distinct update_row
distinct-update closure [] h = refl
distinct-update closure (r ∷ rest) h =
    let later = distinct-update closure rest (ground arith) in
    ground (arith, later, has_id-update closure r.id rest)

-- An active reservation holds at most what is reserved.
pub held_by-le :
    (p l id : ℕ) (rs : List Reservation) (r : Reservation)
    → find_by_id id rs ≡ some r
    → held_by p l r ≤ held p l rs
unfolding held find_by_id
held_by-le p l id [] r found = absurd (ground arith)
held_by-le p l id (first ∷ rest) r found = elim (Bool-cases (first.id == id)) [
  | inl same ↦ let it : first ≡ r = ground arith in ground (arith, it)
  | inr other ↦ let later = held_by-le p l id rest r (ground arith) in omega arith
]

module _ (key : MovementNames) (closure : Closure) (closing : is_active closure.status ≡ false)
    (shelves : Shelves) where
  close_active-IsBacked :
      {put taken : ℕ → ℕ → ℕ} (r answer : Reservation) (after : Shelves) (replayed : Bool)
      → find_by_id closure.id shelves.reservations ≡ some r
      → is_active r.status ≡ true
      → close_active key closure r shelves ≡ ok (after, answer, replayed)
      → IsBackedBy put taken shelves
      → IsBackedBy put taken after
  unfolding close_active
  close_active-IsBacked r answer after replayed found e h b =
      elim (Result-cases (release_lines key closure r.location 0 r.lines shelves.books)) [
        | inr (_, f) ↦ absurd (ground arith)
        | inl (books, f) ↦
            let (c, down) =
              release_lines-facts key closure r.location 0 r.lines shelves.books books f in
            let same : (record {
              books = books;
              reservations = update_row closure shelves.reservations;
            })
                ≡ after =
              ground arith in
            rw (← same) (record {
              consistent = c b.consistent;
              reserved = λ p l. ground (
                arith,
                down p l,
                b.reserved p l,
                held-update closure p l shelves.reservations r closing found e,
              );
              positive = all_positive-update closure shelves.reservations closing b.positive;
              distinct = distinct-update closure shelves.reservations b.distinct;
            })
      ]

  pub close-IsBacked :
      {put taken : ℕ → ℕ → ℕ} (answer : Reservation) (after : Shelves) (replayed : Bool)
      → close key closure shelves ≡ ok (after, answer, replayed)
      → IsBackedBy put taken shelves
      → IsBackedBy put taken after
  unfolding close close_found
  close-IsBacked answer after replayed h b =
      elim (Option-cases (find_by_id closure.id shelves.reservations)) [
        | inl e ↦ absurd (ground arith)
        | inr (r, e) ↦ elim (Bool-cases (r.branch == closure.branch && is_active r.status)) [
          | inl yes_active ↦
              close_active-IsBacked r answer after replayed e (ground arith) (ground arith) b
          | inr closed ↦ let same : shelves ≡ after = ground arith in rw (← same) b
        ]
      ]

  close-released :
      (r : Reservation) (books : Books)
      → find_by_id closure.id shelves.reservations ≡ some r
      → r.branch == closure.branch ≡ true
      → is_active r.status ≡ true
      → release_lines key closure r.location 0 r.lines shelves.books ≡ ok books
      → close key closure shelves
        ≡ ok (
          record { books = books; reservations = update_row closure shelves.reservations },
          closed_row closure r,
          false,
        )
  unfolding close close_found close_active
  close-released r books found own e f =
      rw (close, found, close_found, own, e, close_active, f) refl

  -- What is active can be closed: its quantities are reserved.
  pub close-total :
      (tracked : (b : Books) (m : StockMovement) → key.is_tracked b m ≡ true) (r : Reservation)
      → IsBacked shelves
      → find_by_id closure.id shelves.reservations ≡ some r
      → r.branch == closure.branch ≡ true
      → is_active r.status ≡ true
      → (books : Books) × (close key closure shelves
          ≡ ok (
            record { books = books; reservations = update_row closure shelves.reservations },
            closed_row closure r,
            false,
          ))
  close-total tracked r b found own e =
      let (books, f) =
        release_lines-total key tracked closure r.location 0 r.lines shelves.books
          (all_positive-find closure.id shelves.reservations r b.positive found e)
          (λ p. ground (
            arith,
            b.reserved p r.location,
            held_by-le p r.location closure.id shelves.reservations r found,
          )) in
      (books, close-released r books found own e f)

module _ (key : MovementNames) (is_product : ℕ → Bool) (is_location : ℕ → ℕ → ℕ → Bool)
    (is_customer : ℕ → Bool) where
  write_reservation-IsBacked :
      {put taken : ℕ → ℕ → ℕ} (id now fingerprint : ℕ) (request : ReservationRequest)
      (shelves after : Shelves) (answer : Reservation) (replayed : Bool)
      → write_reservation key is_product is_location is_customer id now fingerprint request shelves
        ≡ ok (after, answer, replayed)
      → IsBackedBy put taken shelves
      → IsBackedBy put taken after
  unfolding write_reservation held all_positive is_distinct
  write_reservation-IsBacked id now fingerprint request shelves after answer replayed h b =
      let lines = sort_lines request.lines in
      elim (Result-cases
        (reserve_lines key is_product id fingerprint request.location 0 lines shelves.books)) [
          | inr (_, f) ↦ absurd (ground arith)
          | inl (books, f) ↦
              let (c, up, positive) =
                reserve_lines-facts key is_product id fingerprint request.location 0 lines
                  shelves.books books f in
              let new : Reservation = record {
                id = id;
                key = request.key;
                fingerprint = fingerprint;
                branch = request.branch;
                location = request.location;
                customer = request.customer;
                status = active;
                expires_at = now + request.expires_in_hours * 3600000;
                closure = none;
                lines = lines;
              } in
              let same : (record { books = books; reservations = new ∷ shelves.reservations })
                  ≡ after =
                ground arith in
              let fresh : has_id id shelves.reservations ≡ false = ground arith in
              rw (← same) (record {
                consistent = c b.consistent;
                reserved = λ p l. ground (arith, up p l, b.reserved p l);
                positive = rw (positive, b.positive) refl;
                distinct = rw (fresh, b.distinct) refl;
              })
        ]

  pub create-IsBacked :
      {put taken : ℕ → ℕ → ℕ} (digest : ReservationRequest → List ReservationLine → ℕ) (id now : ℕ)
      (request : ReservationRequest) (shelves after : Shelves) (answer : Reservation)
      (replayed : Bool)
      → create key is_product is_location is_customer digest id now request shelves
        ≡ ok (after, answer, replayed)
      → IsBackedBy put taken shelves
      → IsBackedBy put taken after
  unfolding create
  create-IsBacked digest id now request shelves after answer replayed h b =
      elim (Option-cases (find_by_key request.key shelves.reservations)) [
        | inl e ↦
            write_reservation-IsBacked id now (digest request (sort_lines request.lines)) request
              shelves after answer replayed (ground arith) b
        | inr (found, e) ↦ let same : shelves ≡ after = ground arith in rw (← same) b
      ]
