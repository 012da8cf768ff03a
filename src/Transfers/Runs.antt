-- ===== src/Transfers/Runs.antt =====
-- Requests on the stock and on the transfers, one after the other: movements and counts of stock, transitions
-- between its states by hand, and create, dispatch, receive and cancel.
use uinventario_api.Base.{ℕ, ◌+◌, ◌≡◌, refl, Bool, Option, List, [], ok, arith}
use uinventario_api.QuantityPolicy.{ProductQuantityPolicy}
use uinventario_api.Stock.{StockGuards, Books, balance_at, in_transit_state}
use uinventario_api.Stock.Ledger.{no_books, no_books-IsConsistent}
use uinventario_api.Base.Int.{ℤ, pos}
use uinventario_api.Stock.{StockMovement}
use uinventario_api.Stock.Counts.{CountRequest, InventoryCount, CountBooks, write_count}
use uinventario_api.Stock.Movements.{
  MovementRequest, TransitionRequest, create_movement, create_transition,
}
use uinventario_api.Stock.Held.{put_into, taken_out}
use uinventario_api.Transfers.{Transfer, TransferLine, Depot, TransferRequest, create}
use uinventario_api.Transfers.Operations.{MovementNames, dispatch}
use uinventario_api.Transfers.ReceiptLines.{ReceiptRequest}
use uinventario_api.Transfers.Receipts.{receive, cancel}
use uinventario_api.Transfers.Pending.{pending, all_within}
use uinventario_api.Transfers.Moving.{
  IsMoving, IsMovingBy, create-IsMoving, dispatch-IsMoving, all_fresh,
}
use uinventario_api.Transfers.Arriving.{
  receive-IsMoving, cancel-IsMoving, create_movement-IsMoving, create_transition-IsMoving,
  write_count-IsMoving,
}

-- What stands for the code and the data around the transfers.
pub record Surroundings : Type 0 where
  pub names : MovementNames
  pub guards : StockGuards
  pub policy : ℕ → ProductQuantityPolicy
  pub movement_digest : MovementRequest → ℤ → ℕ
  pub transition_digest : TransitionRequest → ℤ → ℕ
  pub may_access : ℕ → Bool
  pub are_active : ℕ → ℕ → Bool
  pub is_line_target : ℕ → ℕ → ℕ → Bool
  pub policies : ℕ → Option ProductQuantityPolicy
  pub digest : TransferRequest → List TransferLine → ℕ
  pub are_in_place : ℕ → ℕ → List TransferLine → Bool
  pub receipt_digest : ReceiptRequest → ℕ

-- One accepted request.
pub data DepotStep (s : Surroundings) : Depot → Depot → Type 0 where
  stocked :
      (request : MovementRequest) (depot : Depot) (after : Books) (m : StockMovement)
      (replayed : Bool)
      → create_movement s.guards (s.policy request.product) s.movement_digest request depot.books
        ≡ ok (after, m, replayed)
      → DepotStep s depot (record depot { books = after })
  changed :
      (request : TransitionRequest) (depot : Depot) (after : Books) (m : StockMovement)
      (replayed : Bool)
      → create_transition s.guards
          (s.policy request.product)
          s.transition_digest
          request
          depot.books
        ≡ ok (after, m, replayed)
      → DepotStep s depot (record depot { books = after })
  counted :
      (fingerprint : ℕ) (request : CountRequest) (snapshot : ℤ) (n : ℕ) (depot : Depot)
      (counts : List InventoryCount) (after : CountBooks) (count : InventoryCount) (replayed : Bool)
      → write_count s.guards
          (s.policy request.product)
          fingerprint
          request
          snapshot
          (pos n)
          (record { books = depot.books; counts = counts })
        ≡ ok (after, count, replayed)
      → DepotStep s depot (record depot { books = after.books })
  drafted :
      (id : ℕ) (new_id : ℕ → ℕ) (request : TransferRequest) (depot after : Depot)
      (answer : Transfer) (replayed : Bool)
      → create s.may_access s.are_active s.is_line_target s.policies s.digest id new_id request
          depot
        ≡ ok (after, answer, replayed)
      → DepotStep s depot after
  sent :
      (id origin key : ℕ) (depot after : Depot) (answer : Transfer) (replayed : Bool)
      → dispatch s.names s.are_active s.are_in_place id origin key depot
        ≡ ok (after, answer, replayed)
      → DepotStep s depot after
  arrived :
      (receipt : ℕ) (request : ReceiptRequest) (depot after : Depot) (answer : Transfer)
      (replayed : Bool)
      → receive s.names s.receipt_digest receipt request depot ≡ ok (after, answer, replayed)
      → DepotStep s depot after
  withdrawn :
      (id origin : ℕ) (depot after : Depot) (answer : Transfer)
      → cancel id origin depot ≡ ok (after, answer)
      → DepotStep s depot after

abbrev pub no_depot : Depot
no_depot = record { books = no_books; transfers = []; receipts = [] }

pub data DepotRun (s : Surroundings) : Depot → Type 0 where
  opened : DepotRun s no_depot
  continued : {depot after : Depot} → DepotRun s depot → DepotStep s depot after → DepotRun s after

-- What the transitions by hand of a run put into the state IN_TRANSIT and took out of it.
abbrev step_put : {s : Surroundings} {depot after : Depot} → DepotStep s depot after → ℕ → ℕ → ℕ
step_put (changed request depot after m replayed h) p l = put_into in_transit_state m replayed p l
step_put _ p l = 0

abbrev step_taken : {s : Surroundings} {depot after : Depot} → DepotStep s depot after → ℕ → ℕ → ℕ
step_taken (changed request depot after m replayed h) p l =
    taken_out in_transit_state m replayed p l
step_taken _ p l = 0

abbrev pub run_put : {s : Surroundings} {depot : Depot} → DepotRun s depot → ℕ → ℕ → ℕ
run_put opened p l = 0
run_put (continued run step) p l = run_put run p l + step_put step p l

abbrev pub run_taken : {s : Surroundings} {depot : Depot} → DepotRun s depot → ℕ → ℕ → ℕ
run_taken opened p l = 0
run_taken (continued run step) p l = run_taken run p l + step_taken step p l

no_depot-IsMoving : IsMoving no_depot
unfolding balance_at pending all_within all_fresh
no_depot-IsMoving = record {
  consistent = no_books-IsConsistent;
  moving = λ p l. refl;
  within = refl;
  fresh = refl;
}

-- A step that moves nothing by hand.
same_by_hand :
    {put taken : ℕ → ℕ → ℕ} {depot : Depot}
    → IsMovingBy put taken depot
    → IsMovingBy (λ p l. put p l + 0) (λ p l. taken p l + 0) depot
same_by_hand b = record {
  consistent = b.consistent;
  moving = λ p l. omega (arith, b.moving p l);
  within = b.within;
  fresh = b.fresh;
}

module _ (s : Surroundings) {put taken : ℕ → ℕ → ℕ} where
  step-IsMoving :
      {depot after : Depot} (step : DepotStep s depot after)
      → IsMovingBy put taken depot
      → IsMovingBy
          (λ p l. put p l + step_put step p l)
          (λ p l. taken p l + step_taken step p l)
          after
  step-IsMoving (stocked request depot after m replayed h) b = same_by_hand (
      create_movement-IsMoving s.guards (s.policy request.product) s.movement_digest request depot
        after m replayed h b)
  step-IsMoving (counted fingerprint request snapshot n depot counts after count replayed h) b =
      same_by_hand (
        write_count-IsMoving s.guards (s.policy request.product) fingerprint request snapshot n
          depot counts after count replayed h b)
  step-IsMoving (changed request depot after m replayed h) b =
      create_transition-IsMoving s.guards (s.policy request.product) s.transition_digest request
        depot after m replayed h b
  step-IsMoving (drafted id new_id request depot after answer replayed h) b = same_by_hand (
      create-IsMoving s.may_access s.are_active s.is_line_target s.policies s.digest id new_id
        request depot after answer replayed h b)
  step-IsMoving (sent id origin key depot after answer replayed h) b = same_by_hand (
      dispatch-IsMoving s.names s.are_active s.are_in_place id origin key depot after answer
        replayed h b)
  step-IsMoving (arrived receipt request depot after answer replayed h) b =
      same_by_hand
        (receive-IsMoving s.names s.receipt_digest receipt request depot after answer replayed h b)
  step-IsMoving (withdrawn id origin depot after answer h) b =
      same_by_hand (cancel-IsMoving id origin depot after answer h b)

-- Whatever stock is moved or counted, whatever is moved between the states by hand, and whatever transfers are drafted,
-- sent, received and cancelled, from empty tables on: the quantity in transit of each product to each
-- location, with what was taken out of that state by hand, is what the lines of the transfers that are sent
-- still wait for, with what was put into it by hand. The quantities are the sums of the movements and of
-- their states, and no line has more received and missed than was sent.
pub run-IsMoving :
    (s : Surroundings) {depot : Depot} (run : DepotRun s depot)
    → IsMovingBy (run_put run) (run_taken run) depot
run-IsMoving s opened = no_depot-IsMoving
run-IsMoving s (continued run step) = step-IsMoving s step (run-IsMoving s run)
