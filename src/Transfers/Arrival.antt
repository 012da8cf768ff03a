-- ===== src/Transfers/Arrival.antt =====
-- A receipt that passes the checks on its lines is booked.
use uinventario_api.Base.{
  ℕ, ◌+◌, ◌≤◌, ◌<◌, ◌≡◌, refl, Bool, true, false, ◌==◌, arith, some, List, [], ◌∷◌, ok,
  Result-cases, Option-cases, Bool-cases, inl, inr,
}
use uinventario_api.Stock.{StockMovement, Books, balance_at}
use uinventario_api.Stock.Ledger.{IsConsistent}
use uinventario_api.Transfers.{TransferLine}
use uinventario_api.Transfers.Operations.{MovementNames}
use uinventario_api.Transfers.ReceiptLines.{
  ReceivedLine, receive_line, receive_lines, add_received, check_lines, find_line,
  are_distinct_lines,
}
use uinventario_api.Transfers.Pending.{pending_lines, pending_lines-add}
use uinventario_api.Transfers.Dispatching.{in_transit_at}
use uinventario_api.Transfers.{Transfer, Depot, find_transfer}
use uinventario_api.Transfers.Operations.{is_receivable, put_transfer}
use uinventario_api.Transfers.ReceiptLines.{ReceiptRequest}
use uinventario_api.Transfers.Receipts.{write_receipt, with_receipt, progress}
use uinventario_api.Transfers.Pending.{pending, pending_in}
use uinventario_api.Transfers.Named.{AllFound, items_distinct, AllFound-add, check_lines-AllFound}
use uinventario_api.Transfers.Receiving.{receive_line-facts}
use uinventario_api.Transfers.Moving.{IsMoving}

-- A line waits for what it can still receive.
pending_lines-found :
    (r : ReceivedLine) (lines : List TransferLine) (line : TransferLine)
    → find_line r.line lines ≡ some line
    → line.received + line.discrepancy + r.received + r.discrepancy ≤ line.quantity
    → r.received + r.discrepancy ≤ pending_lines line.product line.destination lines
pending_lines-found r lines line found fits =
    ground (arith, pending_lines-add line.product line.destination r lines line found fits)

pending_in-le :
    (p l id : ℕ) (ts : List Transfer) (t : Transfer)
    → find_transfer id ts ≡ some t
    → pending_in p l t ≤ pending p l ts
unfolding pending find_transfer
pending_in-le p l id [] t found = absurd (ground arith)
pending_in-le p l id (first ∷ rest) t found = elim (Bool-cases (first.id == id)) [
  | inl same ↦ let it : first ≡ t = ground arith in ground (arith, it)
  | inr other ↦ let later = pending_in-le p l id rest t (ground arith) in omega arith
]

module _ (names : MovementNames) (receipt : ℕ)
    (tracked : (b : Books) (m : StockMovement) → names.is_tracked b m ≡ true) where
  receive_line-total :
      (line : TransferLine) (r : ReceivedLine) (books : Books)
      → 0 < r.received + r.discrepancy
      → r.received + r.discrepancy ≤ in_transit_at books.stock line.product line.destination
      → IsConsistent books
      → (after : Books) × (receive_line names receipt line r books ≡ ok after)
  unfolding receive_line balance_at
  receive_line-total line r books some_ enough c =
      elim (Result-cases (receive_line names receipt line r books)) [
        | inl found ↦ found
        | inr (_, e) ↦
            let split = c.split line.product line.destination in
            elim (Option-cases (books.stock line.product line.destination)) [
              | inl none_there ↦ absurd (ground arith)
              | inr (b, there) ↦ absurd (grind arith)
            ]
      ]

  found-total :
      (items : List (TransferLine × ReceivedLine)) (lines : List TransferLine) (books : Books)
      → AllFound items lines
      → items_distinct items ≡ true
      → ((p l : ℕ) → pending_lines p l lines ≤ in_transit_at books.stock p l)
      → IsConsistent books
      → (after : Books × List TransferLine) × (receive_lines names receipt items lines books
          ≡ ok after)
  unfolding receive_lines AllFound items_distinct
  found-total [] lines books found d enough c = ((books, lines), refl)
  found-total ((line, r) ∷ rest) lines books (here, fits, some_, found) d enough c =
      let room = pending_lines-found r lines line here fits in
      let (next, e) =
        receive_line-total line r books some_
          (omega (arith, room, enough line.product line.destination)) c in
      let (c1, t1) = receive_line-facts names receipt line r books next e in
      let (after, f) =
        found-total rest (add_received r lines) next
          (AllFound-add r rest lines (ground arith) found) (ground arith)
          (λ p l. omega (arith, enough p l, t1 p l, pending_lines-add p l r lines line here fits))
          (c1 c) in
      (after, rw e f)

  -- From a depot in order, a receipt for a transfer that was sent, to its warehouse, whose lines are
  -- different lines of the transfer with room for what they name, is booked if the valuation, the lots
  -- and the serials accept its movements: the balances never refuse it.
  pub write_receipt-total :
      (fingerprint : ℕ) (request : ReceiptRequest) (t : Transfer) (depot : Depot)
      (items : List (TransferLine × ReceivedLine))
      → IsMoving depot
      → find_transfer t.id depot.transfers ≡ some t
      → is_receivable t.status ≡ true
      → t.target == request.target ≡ true
      → are_distinct_lines request.lines ≡ true
      → check_lines t.lines request.lines ≡ ok items
      → (after : Depot × Transfer × Bool) × (write_receipt names receipt fingerprint request t depot
          ≡ ok after)
  unfolding write_receipt
  write_receipt-total fingerprint request t depot items b found open_now own d checked =
      let (all_found, distinct, _) = check_lines-AllFound t.lines request.lines items d checked in
      let ((books, lines), e) =
        found-total items t.lines depot.books all_found distinct
          (λ p l. ground (arith, b.moving p l, pending_in-le p l t.id depot.transfers t found))
          b.consistent in
      let after = record t { status = progress lines; lines = lines } in
      (
        (
          record {
            books = books;
            transfers = put_transfer after depot.transfers;
            receipts = with_receipt fingerprint request depot.receipts;
          },
          after,
          false,
        ),
        rw (own, open_now, checked, e) refl,
      )
