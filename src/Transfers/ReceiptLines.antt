-- ===== src/Transfers/ReceiptLines.antt =====
-- The lines of a receipt: `receive` of src/inventory/inventory-transfer.repository.ts.
use uinventario_api.Base.{
  ℕ, ◌+◌, ◌-◌, Bool, true, false, not, ◌&&◌, ◌||◌, Option, none, some, List, [], ◌∷◌, ◌==◌, ltb,
  if◌then◌else◌, Result, ok, err, ◌>>=◌, ◌>>◌, throw_if,
}
use uinventario_api.Base.Int.{pos, neg_ℕ}
use uinventario_api.Stock.{
  Balance, in_transit_state, available_state, transfer_receipt, transfer_discrepancy, StockMovement,
  Books, balance_at, put_balance,
}
use uinventario_api.Transfers.{
  TransferLine, TransferReceipt, TransferError, invalid_receipt, exceeds_pending, check_violation,
  tracking_refused,
}
use uinventario_api.Transfers.Operations.{MovementNames}

-- What is asked of a receipt, in thousandths.
pub record ReceivedLine : Type 0 where
  pub line : ℕ
  pub received : ℕ
  pub discrepancy : ℕ

pub record ReceiptRequest : Type 0 where
  pub transfer : ℕ
  pub target : ℕ
  pub key : ℕ
  pub lines : List ReceivedLine
  pub reason : Option ℕ

unfoldable pub has_line : ℕ → List ReceivedLine → Bool
has_line id [] = false
has_line id (r ∷ rest) = r.line == id || has_line id rest

-- `new Set(lineIds).size !== lineIds.length`
unfoldable pub are_distinct_lines : List ReceivedLine → Bool
are_distinct_lines [] = true
are_distinct_lines (r ∷ rest) = not (has_line r.line rest) && are_distinct_lines rest

unfoldable pub are_zero : List ReceivedLine → Bool
are_zero [] = true
are_zero (r ∷ rest) = r.received == 0 && r.discrepancy == 0 && are_zero rest

unfoldable pub has_discrepancy : List ReceivedLine → Bool
has_discrepancy [] = false
has_discrepancy (r ∷ rest) = ltb 0 r.discrepancy || has_discrepancy rest

-- `transferLineMap.get(line.transferLineId)`
unfoldable pub find_line : ℕ → List TransferLine → Option TransferLine
find_line id [] = none
find_line id (line ∷ rest) =
    let later = find_line id rest in if line.id == id then some line else later

-- The checks of `requested` on one line.
abbrev pub checked_line : Option TransferLine → ReceivedLine → Result TransferError TransferLine
checked_line none r = err invalid_receipt
checked_line (some line) r =
    if r.received + r.discrepancy == 0
    then err invalid_receipt
    else if ltb line.quantity (line.received + line.discrepancy + r.received + r.discrepancy)
    then err exceeds_pending
    else ok line

-- `requested`, before anything is written.
unfoldable pub check_lines :
    List TransferLine
    → List ReceivedLine
    → Result TransferError (List (TransferLine × ReceivedLine))
check_lines lines [] = ok []
check_lines lines (r ∷ rest) = do
  line ← checked_line (find_line r.line lines) r
  later ← check_lines lines rest
  ok ((line, r) ∷ later)

-- `UPDATE inventory_transfer_lines SET received_quantity = received_quantity + ?, ...`
unfoldable pub add_received : ReceivedLine → List TransferLine → List TransferLine
add_received r [] = []
add_received r (line ∷ rest) =
    let later = add_received r rest in
    if line.id == r.line
    then record line {
      received = line.received + r.received;
      discrepancy = line.discrepancy + r.discrepancy;
    }
      ∷ rest
    else line ∷ later

abbrev pub is_row : Option Balance → Bool
is_row none = false
is_row (some _) = true

abbrev pub consed_if : Bool → StockMovement → List StockMovement → List StockMovement
consed_if true m rest = m ∷ rest
consed_if false m rest = rest

-- One turn of the loop of `receive`: the balance and its movements. The balances may not be negative in the
-- database.
unfoldable pub receive_line :
    MovementNames → ℕ → TransferLine → ReceivedLine → Books → Result TransferError Books
receive_line names receipt line r books = do
  let balance = balance_at books.stock line.product line.destination
  throw_if
      (not (is_row (books.stock line.product line.destination))
        || ltb balance.in_transit (r.received + r.discrepancy))
      invalid_receipt
  throw_if (ltb balance.quantity r.discrepancy) check_violation
  let arrived : StockMovement = record {
    key = names.received_key receipt line;
    fingerprint = names.digest (names.received_key receipt line);
    product = line.product;
    location = line.destination;
    kind = transfer_receipt;
    change = pos 0;
    resulting = balance.quantity - r.discrepancy;
    changed_state = some (in_transit_state, available_state, r.received);
  }
  let missing : StockMovement = record {
    key = names.missing_key receipt line;
    fingerprint = names.digest (names.missing_key receipt line);
    product = line.product;
    location = line.destination;
    kind = transfer_discrepancy;
    change = neg_ℕ r.discrepancy;
    resulting = balance.quantity - r.discrepancy;
    changed_state = none;
  }
  let stock = put_balance books.stock line.product line.destination (record balance {
    quantity = balance.quantity - r.discrepancy;
    available = balance.available + r.received;
    in_transit = balance.in_transit - (r.received + r.discrepancy);
  })
  let good : Books = record {
    stock = stock;
    movements = consed_if (ltb 0 r.received) arrived books.movements;
  }
  throw_if (ltb 0 r.received && not (names.is_tracked good arrived)) tracking_refused
  let after : Books = record {
    stock = stock;
    movements = consed_if (ltb 0 r.discrepancy) missing good.movements;
  }
  throw_if (ltb 0 r.discrepancy && not (names.is_tracked after missing)) tracking_refused
  ok after

unfoldable pub receive_lines :
    MovementNames
    → ℕ
    → List (TransferLine × ReceivedLine)
    → List TransferLine
    → Books
    → Result TransferError (Books × List TransferLine)
receive_lines names receipt [] lines books = ok (books, lines)
receive_lines names receipt ((line, r) ∷ rest) lines books =
    receive_line names receipt line r books
    >>= receive_lines names receipt rest (add_received r lines)

-- `SELECT COUNT(*) ... WHERE received_quantity + discrepancy_quantity < quantity` is positive.
unfoldable pub is_pending : List TransferLine → Bool
is_pending [] = false
is_pending (line ∷ rest) = ltb (line.received + line.discrepancy) line.quantity || is_pending rest

-- `findReceiptByKey`
unfoldable pub find_receipt : ℕ → List TransferReceipt → Option TransferReceipt
find_receipt key [] = none
find_receipt key (r ∷ rest) =
    let later = find_receipt key rest in if r.key == key then some r else later
