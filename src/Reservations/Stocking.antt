-- ===== src/Reservations/Stocking.antt =====
-- Movements of stock, counts and transitions by hand next to the reservations: `createMovement`, `createCount`
-- and `createStateTransition` of src/inventory/inventory.repository.ts.
use uinventario_api.Base.{ℕ, ◌+◌, ◌≡◌, ap, ◌∙◌, Bool, ok, arith, List}
use uinventario_api.Base.Int.{ℤ, pos}
use uinventario_api.QuantityPolicy.{ProductQuantityPolicy}
use uinventario_api.Stock.{StockGuards, StockMovement, Books, reserved_state}
use uinventario_api.Stock.Movements.{
  MovementRequest, TransitionRequest, create_movement, create_transition,
}
use uinventario_api.Stock.Counts.{CountRequest, InventoryCount, CountBooks, write_count}
use uinventario_api.Stock.Runs.{write_count-IsConsistent}
use uinventario_api.Stock.Requests.{create_movement-IsConsistent, create_transition-IsConsistent}
use uinventario_api.Stock.Held.{
  create_movement-held, create_transition-column, write_count-held, put_into, taken_out,
}
use uinventario_api.Reservations.{Shelves}
use uinventario_api.Reservations.Backing.{IsBackedBy}

pub create_movement-IsBacked :
    {put taken : ℕ → ℕ → ℕ} (guards : StockGuards) (policy : ProductQuantityPolicy)
    (digest : MovementRequest → ℤ → ℕ) (request : MovementRequest) (shelves : Shelves)
    (after : Books) (m : StockMovement) (replayed : Bool)
    → create_movement guards policy digest request shelves.books ≡ ok (after, m, replayed)
    → IsBackedBy put taken shelves
    → IsBackedBy put taken (record shelves { books = after })
create_movement-IsBacked {taken = taken} guards policy digest request shelves after m replayed h b =
    record {
      consistent =
          create_movement-IsConsistent guards policy digest request shelves.books after m replayed h
            b.consistent;
      reserved = λ p l.
          ap (λ states. states.0 + taken p l)
            (create_movement-held guards policy digest request shelves.books after m replayed h p l)
          ∙ b.reserved p l;
      positive = b.positive;
      distinct = b.distinct;
    }

-- A transition by hand next to the reservations.
pub create_transition-IsBacked :
    {put taken : ℕ → ℕ → ℕ} (guards : StockGuards) (policy : ProductQuantityPolicy)
    (digest : TransitionRequest → ℤ → ℕ) (request : TransitionRequest) (shelves : Shelves)
    (after : Books) (m : StockMovement) (replayed : Bool)
    → create_transition guards policy digest request shelves.books ≡ ok (after, m, replayed)
    → IsBackedBy put taken shelves
    → IsBackedBy
        (λ p l. put p l + put_into reserved_state m replayed p l)
        (λ p l. taken p l + taken_out reserved_state m replayed p l)
        (record shelves { books = after })
create_transition-IsBacked guards policy digest request shelves after m replayed h b = record {
  consistent =
      create_transition-IsConsistent guards policy digest request shelves.books after m replayed h
        b.consistent;
  reserved = λ p l. omega (
    arith,
    create_transition-column guards policy reserved_state digest request shelves.books after m
        replayed h p l,
    b.reserved p l,
  );
  positive = b.positive;
  distinct = b.distinct;
}

-- A count of stock next to the reservations.
pub write_count-IsBacked :
    {put taken : ℕ → ℕ → ℕ} (guards : StockGuards) (policy : ProductQuantityPolicy)
    (fingerprint : ℕ) (request : CountRequest) (snapshot : ℤ) (counted : ℕ) (shelves : Shelves)
    (counts : List InventoryCount) (after : CountBooks) (count : InventoryCount) (replayed : Bool)
    → write_count guards policy fingerprint request snapshot
        (pos counted)
        (record { books = shelves.books; counts = counts })
      ≡ ok (after, count, replayed)
    → IsBackedBy put taken shelves
    → IsBackedBy put taken (record shelves { books = after.books })
write_count-IsBacked {taken = taken} guards policy fingerprint request snapshot counted shelves
      counts after count replayed h b =
    let before : CountBooks = record { books = shelves.books; counts = counts } in
    record {
      consistent =
          write_count-IsConsistent guards policy fingerprint request snapshot counted before after
            count replayed h b.consistent;
      reserved = λ p l.
          ap (λ states. states.0 + taken p l)
            (write_count-held guards policy fingerprint request snapshot counted before after count
              replayed h p l)
          ∙ b.reserved p l;
      positive = b.positive;
      distinct = b.distinct;
    }
