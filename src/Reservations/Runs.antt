-- ===== src/Reservations/Runs.antt =====
-- Requests on the stock and on the reservations, one after the other: movements and counts of stock,
-- transitions between its states by hand, and create, release and expire.
use uinventario_api.Base.{
  ℕ, ◌+◌, ◌≡◌, sym, ap, ◌∙◌, Bool, true, false, ◌==◌, arith, some, List, [], ◌∷◌, ok, Result-cases,
  Option-cases, Bool-cases, inl, inr,
}
use uinventario_api.Base.Int.{ℤ, pos}
use uinventario_api.QuantityPolicy.{ProductQuantityPolicy}
use uinventario_api.Stock.{StockGuards, Books, StockMovement, reserved_state}
use uinventario_api.Stock.Counts.{CountRequest, InventoryCount, CountBooks, write_count}
use uinventario_api.Stock.Movements.{
  MovementRequest, TransitionRequest, create_movement, create_transition,
}
use uinventario_api.Stock.Held.{put_into, taken_out}
use uinventario_api.Reservations.{
  MovementNames, Reservation, ReservationRequest, ReservationLine, ReservationStatus, Shelves,
  is_active, find_by_id, create,
}
use uinventario_api.Reservations.Closing.{
  Closure, close, close_found, close_active, update_row, closed_row, release_lines, expire_due,
}
use uinventario_api.Reservations.Backing.{
  IsBackedBy, no_shelves, no_shelves-IsBacked, create-IsBacked, close-IsBacked,
}
use uinventario_api.Reservations.Stocking.{
  create_movement-IsBacked, create_transition-IsBacked, write_count-IsBacked,
}
use uinventario_api.Reservations.Expiry.{expire_due-IsBacked}

-- What stands for the code and the data around the reservations.
pub record Surroundings : Type 0 where
  pub movement_key : MovementNames
  pub close_key : MovementNames
  pub expire_key : ℕ → ℕ
  pub guards : StockGuards
  pub policy : ℕ → ProductQuantityPolicy
  pub movement_digest : MovementRequest → ℤ → ℕ
  pub transition_digest : TransitionRequest → ℤ → ℕ
  pub is_product : ℕ → Bool
  pub is_location : ℕ → ℕ → ℕ → Bool
  pub is_customer : ℕ → Bool
  pub digest : ReservationRequest → List ReservationLine → ℕ
  pub close_digest : ReservationStatus → ℕ → ℕ

-- One accepted request, or a run of `expireDue`.
pub data ShelfStep (s : Surroundings) : Shelves → Shelves → Type 0 where
  stocked :
      (request : MovementRequest) (shelves : Shelves) (after : Books) (m : StockMovement)
      (replayed : Bool)
      → create_movement s.guards (s.policy request.product) s.movement_digest request shelves.books
        ≡ ok (after, m, replayed)
      → ShelfStep s shelves (record shelves { books = after })
  changed :
      (request : TransitionRequest) (shelves : Shelves) (after : Books) (m : StockMovement)
      (replayed : Bool)
      → create_transition s.guards
          (s.policy request.product)
          s.transition_digest
          request
          shelves.books
        ≡ ok (after, m, replayed)
      → ShelfStep s shelves (record shelves { books = after })
  counted :
      (fingerprint : ℕ) (request : CountRequest) (snapshot : ℤ) (n : ℕ) (shelves : Shelves)
      (counts : List InventoryCount) (after : CountBooks) (count : InventoryCount) (replayed : Bool)
      → write_count s.guards
          (s.policy request.product)
          fingerprint
          request
          snapshot
          (pos n)
          (record { books = shelves.books; counts = counts })
        ≡ ok (after, count, replayed)
      → ShelfStep s shelves (record shelves { books = after.books })
  reserved :
      (id now : ℕ) (request : ReservationRequest) (shelves after : Shelves) (answer : Reservation)
      (replayed : Bool)
      → create s.movement_key s.is_product s.is_location s.is_customer s.digest id now request
          shelves
        ≡ ok (after, answer, replayed)
      → ShelfStep s shelves after
  closed :
      (closure : Closure) (shelves after : Shelves) (answer : Reservation) (replayed : Bool)
      → is_active closure.status ≡ false
      → close s.close_key closure shelves ≡ ok (after, answer, replayed)
      → ShelfStep s shelves after
  swept :
      (reason now branch : ℕ) (shelves : Shelves)
      → ShelfStep s shelves
          (expire_due s.close_key s.expire_key s.close_digest reason now branch shelves).0

pub data ShelfRun (s : Surroundings) : Shelves → Type 0 where
  opened : ShelfRun s no_shelves
  continued :
      {shelves after : Shelves} → ShelfRun s shelves → ShelfStep s shelves after → ShelfRun s after

-- What the transitions by hand of a run put into the state RESERVED and took out of it.
abbrev step_put :
    {s : Surroundings} {shelves after : Shelves} → ShelfStep s shelves after → ℕ → ℕ → ℕ
step_put (changed request shelves after m replayed h) p l = put_into reserved_state m replayed p l
step_put _ p l = 0

abbrev step_taken :
    {s : Surroundings} {shelves after : Shelves} → ShelfStep s shelves after → ℕ → ℕ → ℕ
step_taken (changed request shelves after m replayed h) p l =
    taken_out reserved_state m replayed p l
step_taken _ p l = 0

abbrev pub run_put : {s : Surroundings} {shelves : Shelves} → ShelfRun s shelves → ℕ → ℕ → ℕ
run_put opened p l = 0
run_put (continued run step) p l = run_put run p l + step_put step p l

abbrev pub run_taken : {s : Surroundings} {shelves : Shelves} → ShelfRun s shelves → ℕ → ℕ → ℕ
run_taken opened p l = 0
run_taken (continued run step) p l = run_taken run p l + step_taken step p l

-- A step that moves nothing by hand.
same_by_hand :
    {put taken : ℕ → ℕ → ℕ} {shelves : Shelves}
    → IsBackedBy put taken shelves
    → IsBackedBy (λ p l. put p l + 0) (λ p l. taken p l + 0) shelves
same_by_hand b = record {
  consistent = b.consistent;
  reserved = λ p l. omega (arith, b.reserved p l);
  positive = b.positive;
  distinct = b.distinct;
}

module _ (s : Surroundings) {put taken : ℕ → ℕ → ℕ} where
  step-IsBacked :
      {shelves after : Shelves} (step : ShelfStep s shelves after)
      → IsBackedBy put taken shelves
      → IsBackedBy
          (λ p l. put p l + step_put step p l)
          (λ p l. taken p l + step_taken step p l)
          after
  step-IsBacked (stocked request shelves after m replayed h) b = same_by_hand (
      create_movement-IsBacked s.guards (s.policy request.product) s.movement_digest request shelves
        after m replayed h b)
  step-IsBacked (counted fingerprint request snapshot n shelves counts after count replayed h) b =
      same_by_hand (
        write_count-IsBacked s.guards (s.policy request.product) fingerprint request snapshot n
          shelves counts after count replayed h b)
  step-IsBacked (changed request shelves after m replayed h) b =
      create_transition-IsBacked s.guards (s.policy request.product) s.transition_digest request
        shelves after m replayed h b
  step-IsBacked (reserved id now request shelves after answer replayed h) b = same_by_hand (
      create-IsBacked s.movement_key s.is_product s.is_location s.is_customer s.digest id now
        request shelves after answer replayed h b)
  step-IsBacked (closed closure shelves after answer replayed closing h) b =
      same_by_hand (close-IsBacked s.close_key closure closing shelves answer after replayed h b)
  step-IsBacked (swept reason now branch shelves) b =
      same_by_hand
        (expire_due-IsBacked s.close_key s.expire_key s.close_digest reason now branch shelves b)

-- Whatever stock is moved or counted, whatever is moved between the states by hand, and whatever is reserved, released
-- and expired, from empty tables on: the reserved quantity of each product at each location, with what was
-- taken out of that state by hand, is what the active reservations hold of it, with what was put into it by
-- hand. The quantities are the sums of the movements, and no two reservations have one identifier.
pub run-IsBacked :
    (s : Surroundings) {shelves : Shelves} (run : ShelfRun s shelves)
    → IsBackedBy (run_put run) (run_taken run) shelves
run-IsBacked s opened = no_shelves-IsBacked
run-IsBacked s (continued run step) = step-IsBacked s step (run-IsBacked s run)

-- The row that a closure has written.
updated :
    (closure : Closure) (rs : List Reservation) (r : Reservation)
    → find_by_id closure.id rs ≡ some r
    → is_active r.status ≡ true
    → find_by_id closure.id (update_row closure rs) ≡ some (closed_row closure r)
unfolding find_by_id update_row
updated closure [] r found e = absurd (ground arith)
updated closure (first ∷ rest) r found e = elim (Bool-cases (first.id == closure.id)) [
  | inl same ↦ let it : first ≡ r = ground arith in ground (arith, it)
  | inr other ↦ let later = updated closure rest r (ground arith) e in ground (arith, later)
]

-- A closure that was answered is answered again, and writes nothing.
pub close-repeat :
    (key : MovementNames) (closure : Closure) (shelves after : Shelves) (answer : Reservation)
    (replayed : Bool)
    → is_active closure.status ≡ false
    → close key closure shelves ≡ ok (after, answer, replayed)
    → close key closure after ≡ ok (after, answer, true)
unfolding close close_found close_active
close-repeat key closure shelves after answer replayed closing h =
    elim (Option-cases (find_by_id closure.id shelves.reservations)) [
      | inl e ↦ absurd (ground arith)
      | inr (r, e) ↦ elim (Bool-cases (is_active r.status)) [
        | inl is ↦
            elim (Result-cases (release_lines key closure r.location 0 r.lines shelves.books)) [
              | inr (_, f) ↦ absurd (ground arith)
              | inl (books, f) ↦
                  let rows : after.reservations ≡ update_row closure shelves.reservations =
                    ground arith in
                  let it : answer ≡ closed_row closure r = ground arith in
                  let own : r.branch == closure.branch ≡ true = ground arith in
                  let here =
                    ap (find_by_id closure.id) rows ∙ updated closure shelves.reservations r e is in
                  rw (close, here, it, close_found, own) (ground arith)
            ]
        | inr not_is ↦
            let same : shelves ≡ after = ground arith in
            let it : r ≡ answer = ground arith in
            let here = ap (λ x. find_by_id closure.id x.reservations) (sym same) ∙ e in
            rw (close, here, ← it, close_found) (ground arith)
      ]
    ]
