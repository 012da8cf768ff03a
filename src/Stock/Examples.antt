-- ===== src/Stock/Examples.antt =====
-- Tests of the books of src/inventory, and their properties at concrete inputs.
use uinventario_api.Base.{
  ℕ, ◌≡◌, refl, Bool, true, false, Option, none, some, [], ◌∷◌, ok, err, Result,
}
use uinventario_api.Base.Int.{ℤ, pos, negsuc, ◌+ℤ◌, ◌-ℤ◌}
use uinventario_api.Text.{
  Text, digits_value, digits_from, show_ℕ, show_fuel, pad_end, pad_start, before_dot, after_dot,
  starts_minus, drop_minus,
}
use uinventario_api.QuantityPolicy.{
  ProductQuantityPolicy, unit, down, quantity_to_units, quantity_from_units, is_quantity,
  is_whole_part, is_fraction_part, from_dot, round_units, round_to, increment,
  assert_product_quantity_policy, normalize_product_quantity,
}
use uinventario_api.Stock.{
  StockGuards, Balance, StockMovement, Books, balance_at, put_balance, post, find_movement,
  has_movement, has_key, initial, exit_, adjustment, state_transition, available_state,
  damaged_state,
}
use uinventario_api.Stock.Movements.{
  MovementRequest, TransitionRequest, normalized_units, quantity_change, record_once,
  replay_movement, write_movement, create_movement, write_transition, create_transition,
  insufficient_stock, idempotency_conflict, initial_stock_exists, reference_required, StockError,
}
use uinventario_api.Stock.Counts.{
  CountRequest, InventoryCount, CountBooks, adjust_balance, write_count,
}
use uinventario_api.Stock.Ledger.{IsConsistent, no_books}
use uinventario_api.Stock.Requests.{create_movement-repeat}
use uinventario_api.Stock.Runs.{
  BookRun, started, continued, moved, changed, counted, run-IsConsistent, write_count-available,
}

-- The character codes of "5" and "2".
abbrev five : Text
five = 53 ∷ []

abbrev two : Text
two = 50 ∷ []

abbrev pieces : ProductQuantityPolicy
pieces = record {
  base_unit = some unit;
  precision = some (pos 0);
  rounding = some down;
  minimum_quantity = 49 ∷ [];
}

abbrev any_target : StockGuards
any_target = record { is_target = λ product location. true; is_tracked = λ books movement. true }

abbrev movement_digest : MovementRequest → ℤ → ℕ
movement_digest request change = 7

abbrev transition_digest : TransitionRequest → ℤ → ℕ
transition_digest request units = 8

abbrev stocked : MovementRequest
stocked = record {
  key = 1;
  product = 10;
  location = 20;
  kind = initial;
  quantity = five;
  reference = none;
}

abbrev taken : MovementRequest
taken = record {
  key = 2;
  product = 10;
  location = 20;
  kind = exit_;
  quantity = two;
  reference = some 900;
}

abbrev spoiled : TransitionRequest
spoiled = record {
  key = 3;
  product = 10;
  location = 20;
  from_state = available_state;
  to_state = damaged_state;
  quantity = two;
}

abbrev stocked_movement : StockMovement
stocked_movement = record {
  key = 1;
  fingerprint = 7;
  product = 10;
  location = 20;
  kind = initial;
  change = pos 5000;
  resulting = 5000;
  changed_state = none;
}

abbrev stocked_balance : Balance
stocked_balance = record {
  quantity = 5000;
  available = 5000;
  reserved = 0;
  damaged = 0;
  in_transit = 0;
}

abbrev stocked_books : Books
stocked_books = post no_books 10 20 stocked_balance stocked_movement

stocks :
    create_movement any_target pieces movement_digest stocked no_books
    ≡ ok (stocked_books, stocked_movement, false)
unfolding create_movement write_movement quantity_change record_once find_movement has_movement
    balance_at ◌+ℤ◌ normalized_units normalize_product_quantity assert_product_quantity_policy
    round_units round_to increment quantity_to_units is_quantity is_whole_part is_fraction_part
    from_dot digits_value digits_from show_ℕ show_fuel pad_end pad_start before_dot after_dot
    starts_minus drop_minus quantity_from_units
stocks = refl

create_movement-repeat_example :
    create_movement any_target pieces movement_digest stocked stocked_books
    ≡ ok (stocked_books, stocked_movement, true)
create_movement-repeat_example =
    create_movement-repeat any_target pieces movement_digest stocked no_books stocked_books
      stocked_movement false stocks

-- Another request under the same key, an exit without a reference, a second initial stock.
abbrev outcome : Result StockError (Books × StockMovement × Bool) → Option StockError
outcome (ok _) = none
outcome (err e) = some e

refuses :
    (outcome (create_movement any_target pieces (λ _ _. 9) stocked stocked_books)
      ≡ some idempotency_conflict)
    × (outcome (
          create_movement any_target pieces movement_digest
            (record taken { reference = none })
            stocked_books)
        ≡ some reference_required)
    × (outcome (
          create_movement any_target pieces movement_digest
            (record stocked { key = 4 })
            stocked_books)
        ≡ some initial_stock_exists)
    × (outcome (
          create_movement any_target pieces movement_digest
            (record taken { location = 21 })
            stocked_books)
        ≡ some insufficient_stock)
unfolding create_movement write_movement quantity_change record_once replay_movement find_movement
    has_movement balance_at put_balance ◌+ℤ◌ normalized_units normalize_product_quantity
    assert_product_quantity_policy round_units round_to increment quantity_to_units is_quantity
    is_whole_part is_fraction_part from_dot digits_value digits_from show_ℕ show_fuel pad_end
    pad_start before_dot after_dot starts_minus drop_minus quantity_from_units
refuses = (refl, refl, refl, refl)

abbrev spoiled_movement : StockMovement
spoiled_movement = record {
  key = 3;
  fingerprint = 8;
  product = 10;
  location = 20;
  kind = state_transition;
  change = pos 0;
  resulting = 5000;
  changed_state = some (available_state, damaged_state, 2000);
}

abbrev spoiled_books : Books
spoiled_books =
    post stocked_books 10 20 (record stocked_balance { available = 3000; damaged = 2000 })
      spoiled_movement

spoils :
    create_transition any_target pieces transition_digest spoiled stocked_books
    ≡ ok (spoiled_books, spoiled_movement, false)
unfolding create_transition write_transition record_once find_movement balance_at put_balance
    normalized_units normalize_product_quantity assert_product_quantity_policy round_units round_to
    increment quantity_to_units is_quantity is_whole_part is_fraction_part from_dot digits_value
    digits_from show_ℕ show_fuel pad_end pad_start before_dot after_dot starts_minus drop_minus
    quantity_from_units
spoils = refl

abbrev recounted : CountRequest
recounted = record { key = 5; product = 10; location = 20; snapshot = []; counted = [] }

abbrev count_row : InventoryCount
count_row = record {
  key = 5;
  fingerprint = 6;
  product = 10;
  location = 20;
  snapshot = pos 3000;
  counted = pos 2500;
  variance = negsuc 499;
  is_moved = true;
}

abbrev count_movement : StockMovement
count_movement = record {
  key = 5;
  fingerprint = 6;
  product = 10;
  location = 20;
  kind = adjustment;
  change = negsuc 499;
  resulting = 4500;
  changed_state = none;
}

abbrev before_count : CountBooks
before_count = record { books = spoiled_books; counts = [] }

abbrev after_count : CountBooks
after_count = record {
  books =
      post spoiled_books 10 20
        (record { quantity = 4500; available = 2500; reserved = 0; damaged = 2000; in_transit = 0 })
        count_movement;
  counts = count_row ∷ [];
}

counts :
    write_count any_target pieces 6 recounted (pos 3000) (pos 2500) before_count
    ≡ ok (after_count, count_row, false)
unfolding write_count adjust_balance has_key balance_at put_balance ◌-ℤ◌ ◌+ℤ◌
counts = refl

write_count-available_example : (balance_at after_count.books.stock 10 20).available ≡ 2500
write_count-available_example =
    write_count-available any_target pieces 6 recounted (pos 3000) 2500 before_count after_count
      count_row false counts

-- Stock comes in, a part of it is damaged, and what is available is counted.
abbrev a_run : BookRun any_target (λ _. pieces) movement_digest transition_digest after_count
a_run =
    continued
      (continued
        (continued started (
          moved stocked (record { books = no_books; counts = [] }) stocked_books stocked_movement
            false stocks))
        (changed spoiled (record { books = stocked_books; counts = [] }) spoiled_books
          spoiled_movement false spoils))
      (counted 6 recounted (pos 3000) 2500 before_count after_count count_row false counts)

run-IsConsistent_example : IsConsistent after_count.books
run-IsConsistent_example =
    run-IsConsistent any_target (λ _. pieces) movement_digest transition_digest a_run
