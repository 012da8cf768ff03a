-- ===== src/Reservations/Examples.antt =====
-- Tests of the reservations of src/reservations, and their properties at concrete inputs.
use uinventario_api.Base.{
  ℕ, ◌+◌, ◌*◌, ◌≡◌, refl, Bool, true, false, none, some, Option, List, [], ◌∷◌, ok, err, Result,
}
use uinventario_api.Base.Int.{pos, ◌+ℤ◌}
use uinventario_api.Stock.{
  Balance, StockMovement, Books, balance_at, put_balance, post, find_movement, entry,
  available_state, reserved_state, state_transition,
}
use uinventario_api.Stock.Ledger.{no_books}
use uinventario_api.Stock.Movements.{
  MovementRequest, TransitionRequest, create_transition, write_transition, normalized_units,
  quantity_change, record_once, write_movement, create_movement,
}
use uinventario_api.Text.{
  digits_value, digits_from, show_ℕ, show_fuel, pad_end, pad_start, before_dot, after_dot,
  starts_minus, drop_minus,
}
use uinventario_api.QuantityPolicy.{
  unit, down, quantity_to_units, quantity_from_units, is_quantity, is_whole_part, is_fraction_part,
  from_dot, round_units, round_to, increment, assert_product_quantity_policy,
  normalize_product_quantity,
}
use uinventario_api.Reservations.{
  ReservationLine, active, released, Reservation, Shelves, ReservationError, ReservationRequest,
  insufficient_stock, insert_line, sort_lines, find_by_key, find_by_id, has_id, reserve_line,
  reserve_lines, write_reservation, create,
}
use uinventario_api.Reservations.Closing.{
  Closure, update_row, release_line, release_lines, close_active, close_found, close, due,
  insert_due, expire_due, closed_row,
}
use uinventario_api.Reservations.Backing.{IsBacked, IsBackedBy, no_shelves}
use uinventario_api.Reservations.Expiry.{expire_due_complete}
use uinventario_api.Reservations.Runs.{
  Surroundings, ShelfRun, opened, continued, stocked, reserved, changed, run_put, run_taken,
  run-IsBacked, close-repeat,
}

abbrev joined : ℕ → ℕ → ℕ
joined id index = id * 100 + index

abbrev around : Surroundings
around = record {
  movement_key = record { line_key = joined; is_tracked = λ books movement. true };
  close_key = record {
    line_key = λ id index. joined id index + 50;
    is_tracked = λ books movement. true;
  };
  expire_key = λ id. id;
  guards = record { is_target = λ product location. true; is_tracked = λ books movement. true };
  policy = λ product. record {
    base_unit = some unit;
    precision = some (pos 0);
    rounding = some down;
    minimum_quantity = 49 ∷ [];
  };
  transition_digest = λ request units. 31;
  movement_digest = λ request change. 2;
  is_product = λ product. true;
  is_location = λ branch warehouse location. true;
  is_customer = λ customer. true;
  digest = λ request lines. 7;
  close_digest = λ status reason. reason;
}

abbrev full : Balance
full = record { quantity = 5000; available = 5000; reserved = 0; damaged = 0; in_transit = 0 }

abbrev filling : MovementRequest
filling = record {
  key = 1;
  product = 10;
  location = 20;
  kind = entry;
  quantity = 53 ∷ [];
  reference = some 3;
}

abbrev filling_row : StockMovement
filling_row = record {
  key = 1;
  fingerprint = 2;
  product = 10;
  location = 20;
  kind = entry;
  change = pos 5000;
  resulting = 5000;
  changed_state = none;
}

abbrev filled : Books
filled = post no_books 10 20 full filling_row

abbrev filled_shelves : Shelves
filled_shelves = record { books = filled; reservations = [] }

fills :
    create_movement around.guards (around.policy 10) around.movement_digest filling no_books
    ≡ ok (filled, filling_row, false)
unfolding create_movement write_movement quantity_change record_once find_movement balance_at ◌+ℤ◌
    normalized_units normalize_product_quantity assert_product_quantity_policy round_units round_to
    increment quantity_to_units is_quantity is_whole_part is_fraction_part from_dot digits_value
    digits_from show_ℕ show_fuel pad_end pad_start before_dot after_dot starts_minus drop_minus
    quantity_from_units
fills = refl

abbrev a_line : ReservationLine
a_line = record { product = 10; quantity = 2000 }

abbrev request : ReservationRequest
request = record {
  key = 3;
  branch = 4;
  warehouse = 5;
  location = 20;
  customer = 6;
  expires_in_hours = 1;
  lines = a_line ∷ [];
}

abbrev a_reservation : Reservation
a_reservation = record {
  id = 8;
  key = 3;
  fingerprint = 7;
  branch = 4;
  location = 20;
  customer = 6;
  status = active;
  expires_at = 3600000;
  closure = none;
  lines = a_line ∷ [];
}

abbrev reserved_books : Books
reserved_books =
    post filled 10 20
      (record { quantity = 5000; available = 3000; reserved = 2000; damaged = 0; in_transit = 0 })
      (record {
        key = 801;
        fingerprint = 7;
        product = 10;
        location = 20;
        kind = state_transition;
        change = pos 0;
        resulting = 5000;
        changed_state = some (available_state, reserved_state, 2000);
      })

abbrev reserved_shelves : Shelves
reserved_shelves = record { books = reserved_books; reservations = a_reservation ∷ [] }

reserves :
    create around.movement_key around.is_product around.is_location around.is_customer around.digest
      8 0 request filled_shelves
    ≡ ok (reserved_shelves, a_reservation, false)
unfolding create write_reservation reserve_lines reserve_line insert_line sort_lines find_by_key
    has_id balance_at put_balance
reserves = refl

too_much :
    reserve_line around.movement_key around.is_product 9 7 20 0
      (record { product = 10; quantity = 6000 })
      filled
    ≡ err (insufficient_stock 10)
unfolding reserve_line balance_at put_balance
too_much = refl

abbrev releasing : Closure
releasing = record { branch = 4; id = 8; key = 11; fingerprint = 12; status = released }

abbrev released_books : Books
released_books = post reserved_books 10 20 full (record {
  key = 851;
  fingerprint = 12;
  product = 10;
  location = 20;
  kind = state_transition;
  change = pos 0;
  resulting = 5000;
  changed_state = some (reserved_state, available_state, 2000);
})

abbrev released_shelves : Shelves
released_shelves = record {
  books = released_books;
  reservations = closed_row releasing a_reservation ∷ [];
}

releases :
    close around.close_key releasing reserved_shelves
    ≡ ok (released_shelves, closed_row releasing a_reservation, false)
unfolding close close_found close_active release_lines release_line update_row find_by_id balance_at
    put_balance
releases = refl

close-repeat_example :
    close around.close_key releasing released_shelves
    ≡ ok (released_shelves, closed_row releasing a_reservation, true)
close-repeat_example =
    close-repeat around.close_key releasing reserved_shelves released_shelves
      (closed_row releasing a_reservation) false refl releases

abbrev a_run : ShelfRun around reserved_shelves
a_run =
    continued (continued opened (stocked filling no_shelves filled filling_row false fills))
      (reserved 8 0 request filled_shelves reserved_shelves a_reservation false reserves)

reserved-IsBacked : IsBacked reserved_shelves
reserved-IsBacked = run-IsBacked around a_run

abbrev expired_run : Shelves × Result ReservationError (List Reservation)
expired_run =
    expire_due around.close_key around.expire_key around.close_digest 13 3600000 4 reserved_shelves

expire_due_complete_example :
    IsBacked expired_run.0
    × ((done : List Reservation) × (expired_run.1 ≡ ok done))
    × (due 3600000 4 expired_run.0.reservations ≡ [])
expire_due_complete_example =
    expire_due_complete around.close_key around.expire_key around.close_digest 13 3600000 4
      reserved_shelves (λ books movement. refl) reserved-IsBacked

due_now : due 3600000 4 reserved_shelves.reservations ≡ a_reservation ∷ []
unfolding due insert_due
due_now = refl

abbrev taken_back : TransitionRequest
taken_back = record {
  key = 30;
  product = 10;
  location = 20;
  from_state = reserved_state;
  to_state = available_state;
  quantity = 50 ∷ [];
}

-- Stock that is taken out of the reserved state by hand: the balance no longer holds what the reservation
-- needs, and the sum of both is still what it was.
abbrev taken_row : StockMovement
taken_row = record {
  key = 30;
  fingerprint = 31;
  product = 10;
  location = 20;
  kind = state_transition;
  change = pos 0;
  resulting = 5000;
  changed_state = some (reserved_state, available_state, 2000);
}

abbrev taken_books : Books
taken_books = post reserved_books 10 20 full taken_row

takes :
    create_transition around.guards
      (around.policy 10)
      around.transition_digest
      taken_back
      reserved_books
    ≡ ok (taken_books, taken_row, false)
unfolding create_transition write_transition record_once find_movement normalized_units
    normalize_product_quantity assert_product_quantity_policy round_units round_to increment
    quantity_to_units is_quantity is_whole_part is_fraction_part from_dot digits_value digits_from
    show_ℕ show_fuel pad_end pad_start before_dot after_dot starts_minus drop_minus
    quantity_from_units balance_at put_balance
takes = refl

abbrev taken_shelves : Shelves
taken_shelves = record reserved_shelves { books = taken_books }

abbrev a_run_by_hand : ShelfRun around taken_shelves
a_run_by_hand =
    continued a_run (changed taken_back reserved_shelves taken_books taken_row false takes)

by_hand : (run_taken a_run_by_hand 10 20 ≡ 2000) × (run_put a_run_by_hand 10 20 ≡ 0)
by_hand = (refl, refl)

run-IsBacked_example : IsBackedBy (run_put a_run_by_hand) (run_taken a_run_by_hand) taken_shelves
run-IsBacked_example = run-IsBacked around a_run_by_hand

abbrev error_of : Result ReservationError (Shelves × Reservation × Bool) → Option ReservationError
error_of (ok _) = none
error_of (err e) = some e

-- Then the reservation can no longer be released.
unreserved :
    error_of (close around.close_key releasing taken_shelves) ≡ some (insufficient_stock 10)
unfolding close close_found close_active release_lines release_line find_by_id balance_at
    put_balance
unreserved = refl
