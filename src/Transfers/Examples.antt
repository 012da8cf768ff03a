-- ===== src/Transfers/Examples.antt =====
-- Tests of the transfers of src/inventory/inventory-transfer.repository.ts, and their properties at concrete
-- inputs.
use uinventario_api.Base.{
  ℕ, ◌+◌, ◌*◌, ◌≡◌, refl, Bool, true, false, Option, none, some, [], ◌∷◌, ok, err, Result,
}
use uinventario_api.Base.Int.{ℤ, pos, negsuc, ◌+ℤ◌}
use uinventario_api.Text.{
  digits_value, digits_from, show_ℕ, show_fuel, pad_end, pad_start, before_dot, after_dot,
  starts_minus, drop_minus,
}
use uinventario_api.QuantityPolicy.{
  ProductQuantityPolicy, unit, down, quantity_to_units, quantity_from_units, is_quantity,
  is_whole_part, is_fraction_part, from_dot, round_units, round_to, increment,
  assert_product_quantity_policy, normalize_product_quantity,
}
use uinventario_api.Stock.{
  Balance, StockMovement, Books, balance_at, put_balance, post, find_movement, entry, transfer_out,
  transfer_in, state_transition, available_state, in_transit_state,
}
use uinventario_api.Stock.Movements.{
  MovementRequest, normalized_units, quantity_change, record_once, write_movement, create_movement,
  TransitionRequest, write_transition, create_transition,
}
use uinventario_api.Stock.Ledger.{no_books}
use uinventario_api.Transfers.{
  TransferLine, Transfer, TransferStatus, draft, dispatched, partially_received, received,
  TransferError, status_conflict, exceeds_pending, TransferRequest, Depot, find_transfer,
  find_by_creation_key, is_repeated, are_distinct, normalize_lines, are_targets, write_transfer,
  create,
}
use uinventario_api.Transfers.Operations.{
  put_transfer, dispatch_line, dispatch_lines, send, dispatch_found, dispatch,
}
use uinventario_api.Transfers.ReceiptLines.{
  ReceiptRequest, check_lines, find_line, has_line, are_distinct_lines, are_zero, has_discrepancy,
  add_received, receive_line, receive_lines, is_pending, find_receipt,
}
use uinventario_api.Transfers.Receipts.{write_receipt, receive_found, receive, cancel_found, cancel}
use uinventario_api.Transfers.Moving.{IsMoving, IsMovingBy}
use uinventario_api.Transfers.Runs.{
  Surroundings, DepotRun, opened, continued, stocked, changed, drafted, sent, no_depot, run_put,
  run_taken, run-IsMoving,
}
use uinventario_api.Transfers.Arrival.{write_receipt-total}

abbrev pieces : ProductQuantityPolicy
pieces = record {
  base_unit = some unit;
  precision = some (pos 0);
  rounding = some down;
  minimum_quantity = 49 ∷ [];
}

abbrev around : Surroundings
around = record {
  names = record {
    sent_key = λ transfer line. transfer * 1000 + line.id;
    arriving_key = λ transfer line. transfer * 1000 + 100 + line.id;
    received_key = λ receipt line. receipt * 1000 + 200 + line.id;
    missing_key = λ receipt line. receipt * 1000 + 300 + line.id;
    digest = λ key. key;
    is_tracked = λ books movement. true;
  };
  guards = record { is_target = λ product location. true; is_tracked = λ books movement. true };
  policy = λ product. pieces;
  transition_digest = λ request units. 11;
  movement_digest = λ request change. 2;
  may_access = λ warehouse. true;
  are_active = λ origin target. true;
  is_line_target = λ product source destination. true;
  policies = λ product. some pieces;
  digest = λ request lines. 3;
  are_in_place = λ origin target lines. true;
  receipt_digest = λ request. 4;
}

abbrev filling : MovementRequest
filling = record {
  key = 1;
  product = 10;
  location = 20;
  kind = entry;
  quantity = 53 ∷ [];
  reference = some 3;
}

abbrev filling_row : StockMovement
filling_row = record {
  key = 1;
  fingerprint = 2;
  product = 10;
  location = 20;
  kind = entry;
  change = pos 5000;
  resulting = 5000;
  changed_state = none;
}

abbrev a_balance : ℕ → ℕ → Balance
a_balance available in_transit = record {
  quantity = available + in_transit;
  available = available;
  reserved = 0;
  damaged = 0;
  in_transit = in_transit;
}

abbrev filled : Depot
filled = record {
  books = post no_books 10 20 (a_balance 5000 0) filling_row;
  transfers = [];
  receipts = [];
}

fills :
    create_movement around.guards pieces around.movement_digest filling no_books
    ≡ ok (filled.books, filling_row, false)
unfolding create_movement write_movement quantity_change record_once find_movement balance_at ◌+ℤ◌
    normalized_units normalize_product_quantity assert_product_quantity_policy round_units round_to
    increment quantity_to_units is_quantity is_whole_part is_fraction_part from_dot digits_value
    digits_from show_ℕ show_fuel pad_end pad_start before_dot after_dot starts_minus drop_minus
    quantity_from_units
fills = refl

-- Three pieces from location 20 to location 30.
abbrev request : TransferRequest
request = record {
  key = 5;
  origin = 1;
  target = 2;
  lines = record { product = 10; source = 20; destination = 30; quantity = 51 ∷ [] } ∷ [];
}

abbrev a_line : ℕ → ℕ → TransferLine
a_line good lost = record {
  id = 40;
  product = 10;
  source = 20;
  destination = 30;
  quantity = 3000;
  received = good;
  discrepancy = lost;
}

abbrev a_transfer : TransferStatus → Option ℕ → TransferLine → Transfer
a_transfer status dispatch_key line = record {
  id = 7;
  origin = 1;
  target = 2;
  status = status;
  key = 5;
  fingerprint = 3;
  dispatch_key = dispatch_key;
  lines = line ∷ [];
}

abbrev new_ids : ℕ → ℕ
new_ids index = 40 + index

abbrev drafted_depot : Depot
drafted_depot = record filled { transfers = a_transfer draft none (a_line 0 0) ∷ [] }

drafts :
    create around.may_access around.are_active around.is_line_target around.policies around.digest 7
      new_ids request filled
    ≡ ok (drafted_depot, a_transfer draft none (a_line 0 0), false)
unfolding create write_transfer are_distinct is_repeated normalize_lines are_targets
    find_by_creation_key normalized_units normalize_product_quantity assert_product_quantity_policy
    round_units round_to increment quantity_to_units is_quantity is_whole_part is_fraction_part
    from_dot digits_value digits_from show_ℕ show_fuel pad_end pad_start before_dot after_dot
    starts_minus drop_minus quantity_from_units
drafts = refl

abbrev a_movement : ℕ → ℕ → ℤ → ℕ → StockMovement
a_movement key location change resulting = record {
  key = key;
  fingerprint = key;
  product = 10;
  location = location;
  kind = transfer_out;
  change = change;
  resulting = resulting;
  changed_state = none;
}

abbrev sent_books : Books
sent_books =
    post (post filled.books 10 20 (a_balance 2000 0) (a_movement 7040 20 (negsuc 2999) 2000)) 10 30
      (a_balance 0 3000) (record (a_movement 7140 30 (pos 3000) 3000) { kind = transfer_in })

abbrev sent_depot : Depot
sent_depot = record {
  books = sent_books;
  transfers = a_transfer dispatched (some 6) (a_line 0 0) ∷ [];
  receipts = [];
}

sends :
    dispatch around.names around.are_active around.are_in_place 7 1 6 drafted_depot
    ≡ ok (sent_depot, a_transfer dispatched (some 6) (a_line 0 0), false)
unfolding dispatch dispatch_found send dispatch_lines dispatch_line put_transfer find_transfer
    balance_at put_balance
sends = refl

abbrev a_run : DepotRun around sent_depot
a_run =
    continued
      (continued (continued opened (stocked filling no_depot filled.books filling_row false fills))
        (drafted 7 new_ids request filled drafted_depot (a_transfer draft none (a_line 0 0)) false
          drafts))
      (sent 7 1 6 drafted_depot sent_depot (a_transfer dispatched (some 6) (a_line 0 0)) false
        sends)

-- A piece that is put in transit by hand, with no transfer.
abbrev put_by_hand : TransitionRequest
put_by_hand = record {
  key = 9;
  product = 10;
  location = 20;
  from_state = available_state;
  to_state = in_transit_state;
  quantity = 49 ∷ [];
}

abbrev put_row : StockMovement
put_row = record {
  key = 9;
  fingerprint = 11;
  product = 10;
  location = 20;
  kind = state_transition;
  change = pos 0;
  resulting = 2000;
  changed_state = some (available_state, in_transit_state, 1000);
}

abbrev put_books : Books
put_books = post sent_books 10 20 (a_balance 1000 1000) put_row

puts :
    create_transition around.guards pieces around.transition_digest put_by_hand sent_books
    ≡ ok (put_books, put_row, false)
unfolding create_transition write_transition record_once find_movement balance_at put_balance
    normalized_units normalize_product_quantity assert_product_quantity_policy round_units round_to
    increment quantity_to_units is_quantity is_whole_part is_fraction_part from_dot digits_value
    digits_from show_ℕ show_fuel pad_end pad_start before_dot after_dot starts_minus drop_minus
    quantity_from_units
puts = refl

abbrev a_run_by_hand : DepotRun around (record sent_depot { books = put_books })
a_run_by_hand = continued a_run (changed put_by_hand sent_depot put_books put_row false puts)

by_hand : (run_put a_run_by_hand 10 20 ≡ 1000) × (run_taken a_run_by_hand 10 20 ≡ 0)
by_hand = (refl, refl)

run-IsMoving_example :
    IsMovingBy
      (run_put a_run_by_hand)
      (run_taken a_run_by_hand)
      (record sent_depot { books = put_books })
run-IsMoving_example = run-IsMoving around a_run_by_hand

sent-IsMoving : IsMoving sent_depot
sent-IsMoving = run-IsMoving around a_run

-- Two pieces arrive, one is missing.
abbrev receipt : ReceiptRequest
receipt = record {
  transfer = 7;
  target = 2;
  key = 8;
  lines = record { line = 40; received = 2000; discrepancy = 1000 } ∷ [];
  reason = some 9;
}

checks :
    check_lines (a_line 0 0 ∷ []) receipt.lines
    ≡ ok ((a_line 0 0, record { line = 40; received = 2000; discrepancy = 1000 }) ∷ [])
unfolding check_lines find_line
checks = refl

distinct : are_distinct_lines receipt.lines ≡ true
unfolding are_distinct_lines has_line
distinct = refl

there : find_transfer 7 sent_depot.transfers ≡ some (a_transfer dispatched (some 6) (a_line 0 0))
unfolding find_transfer
there = refl

write_receipt-total_example :
    (after : Depot × Transfer × Bool) × (write_receipt around.names 50 4 receipt
        (a_transfer dispatched (some 6) (a_line 0 0))
        sent_depot
      ≡ ok after)
write_receipt-total_example =
    write_receipt-total around.names 50 (λ books movement. refl) 4 receipt
      (a_transfer dispatched (some 6) (a_line 0 0)) sent_depot
      ((a_line 0 0, record { line = 40; received = 2000; discrepancy = 1000 }) ∷ []) sent-IsMoving
      there refl refl distinct checks

abbrev answer : Result TransferError (Depot × Transfer × Bool) → Option Transfer
answer (ok (_, t, _)) = some t
answer (err _) = none

receives :
    answer (receive around.names around.receipt_digest 50 receipt sent_depot)
    ≡ some (a_transfer received (some 6) (a_line 2000 1000))
unfolding receive receive_found write_receipt check_lines find_line receive_lines receive_line
    add_received is_pending find_receipt are_distinct_lines has_line are_zero has_discrepancy
    find_transfer balance_at put_balance
receives = refl

abbrev error_of : Result TransferError (Depot × Transfer × Bool) → Option TransferError
error_of (ok _) = none
error_of (err e) = some e

too_much :
    error_of (
      receive around.names around.receipt_digest 50
        (record receipt { lines = record { line = 40; received = 3001; discrepancy = 0 } ∷ [] })
        sent_depot)
    ≡ some exceeds_pending
unfolding receive receive_found write_receipt check_lines find_line find_receipt are_distinct_lines
    has_line are_zero has_discrepancy find_transfer
too_much = refl

-- After a part has arrived, the dispatch is no longer answered from its key, but a withdrawal is.
abbrev partly : Depot
partly = record sent_depot {
  transfers = a_transfer partially_received (some 6) (a_line 1000 0) ∷ [];
}

dispatch_repeated :
    (error_of (dispatch around.names around.are_active around.are_in_place 7 1 6 partly)
      ≡ some status_conflict)
    × (cancel 7 1 partly ≡ ok (partly, a_transfer partially_received (some 6) (a_line 1000 0)))
    × (cancel 7 1 sent_depot ≡ err status_conflict)
unfolding dispatch dispatch_found cancel cancel_found find_transfer
dispatch_repeated = (refl, refl, refl)
