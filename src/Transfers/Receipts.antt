-- ===== src/Transfers/Receipts.antt =====
-- `receive` and `cancel` of src/inventory/inventory-transfer.repository.ts. The quantities of a receipt are
-- normalised before.
use uinventario_api.Base.{
  ℕ, Bool, true, false, not, ◌&&◌, ◌||◌, Option, none, some, List, ◌∷◌, ◌==◌, if◌then◌else◌, Result,
  ok, err, ◌>>=◌, ◌>>◌, throw_if,
}
use uinventario_api.Transfers.{
  TransferStatus, draft, dispatched, partially_received, received, cancelled, TransferLine,
  Transfer, TransferReceipt, Depot, TransferError, invalid_target, idempotency_conflict, not_found,
  status_conflict, invalid_receipt, discrepancy_reason_required, find_transfer,
}
use uinventario_api.Transfers.Operations.{is_status, is_receivable, put_transfer, MovementNames}
use uinventario_api.Transfers.ReceiptLines.{
  ReceiptRequest, are_distinct_lines, are_zero, has_discrepancy, check_lines, receive_lines,
  is_pending, find_receipt,
}

abbrev pub is_given : Option ℕ → Bool
is_given none = false
is_given (some _) = true

-- The status after a receipt.
abbrev pub progress : List TransferLine → TransferStatus
progress lines = if is_pending lines then partially_received else received

abbrev pub with_receipt : ℕ → ReceiptRequest → List TransferReceipt → List TransferReceipt
with_receipt fingerprint request receipts =
    record { key = request.key; transfer = request.transfer; fingerprint = fingerprint } ∷ receipts

module _ (names : MovementNames) where
  -- The transaction of `receive` for a new key, on the transfer that is there.
  unfoldable pub write_receipt :
      (receipt fingerprint : ℕ)
      → ReceiptRequest
      → Transfer
      → Depot
      → Result TransferError (Depot × Transfer × Bool)
  write_receipt receipt fingerprint request t depot = do
    throw_if (not (t.target == request.target)) invalid_target
    throw_if (not (is_receivable t.status)) status_conflict
    requested ← check_lines t.lines request.lines
    (books, lines) ← receive_lines names receipt requested t.lines depot.books
    let after = record t { status = progress lines; lines = lines }
    ok (
      record {
        books = books;
        transfers = put_transfer after depot.transfers;
        receipts = with_receipt fingerprint request depot.receipts;
      },
      after,
      false,
    )

  -- The answer to a repeated receipt.
  unfoldable pub replay_receipt :
      ℕ
      → ReceiptRequest
      → TransferReceipt
      → Transfer
      → Depot
      → Result TransferError (Depot × Transfer × Bool)
  replay_receipt fingerprint request found t depot = do
    throw_if (not (found.transfer == request.transfer) || not (found.fingerprint == fingerprint))
        idempotency_conflict
    throw_if (not (t.target == request.target)) not_found
    ok (depot, t, true)

  unfoldable pub receive_found :
      (receipt fingerprint : ℕ)
      → ReceiptRequest
      → Transfer
      → Depot
      → Result TransferError (Depot × Transfer × Bool)
  receive_found receipt fingerprint request t depot =
      let written = write_receipt receipt fingerprint request t depot in
      elim (find_receipt request.key depot.receipts) [
        | some found ↦ replay_receipt fingerprint request found t depot
        | none ↦ written
      ]

  unfoldable pub receive :
      (digest : ReceiptRequest → ℕ) (receipt : ℕ)
      → ReceiptRequest
      → Depot
      → Result TransferError (Depot × Transfer × Bool)
  receive digest receipt request depot = do
    throw_if (not (are_distinct_lines request.lines)) invalid_receipt
    t ← elim (find_transfer request.transfer depot.transfers) [
      | none ↦ err not_found
      | some t ↦ ok t
    ]
    throw_if (are_zero request.lines) invalid_receipt
    throw_if (has_discrepancy request.lines && not (is_given request.reason))
        discrepancy_reason_required
    receive_found receipt (digest request) request t depot

unfoldable pub cancel_found :
    (origin : ℕ) → Transfer → Depot → Result TransferError (Depot × Transfer)
cancel_found origin t depot =
    let after = record t { status = cancelled } in
    if not (t.origin == origin)
    then err not_found
    else if is_status t.status dispatched
    then err status_conflict
    else if is_status t.status draft
    then ok (record depot { transfers = put_transfer after depot.transfers }, after)
    else ok (depot, t)

unfoldable pub cancel : (id origin : ℕ) → Depot → Result TransferError (Depot × Transfer)
cancel id origin depot = elim (find_transfer id depot.transfers) [
  | none ↦ err not_found
  | some t ↦ cancel_found origin t depot
]
