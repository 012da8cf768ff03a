-- ===== src/Transfers/Operations.antt =====
-- `dispatch` of src/inventory/inventory-transfer.repository.ts.
use uinventario_api.Base.{
  ℕ, ◌+◌, ◌-◌, Bool, true, false, not, ◌||◌, Option, none, some, List, [], ◌∷◌, ◌==◌, ltb,
  if◌then◌else◌, Result, ok, err, ◌>>=◌, ◌>>◌, throw_if,
}
use uinventario_api.Base.Int.{pos, neg_ℕ}
use uinventario_api.Stock.{transfer_out, transfer_in, StockMovement, Books, balance_at, put_balance}
use uinventario_api.Transfers.{
  TransferStatus, draft, dispatched, partially_received, received, cancelled, TransferLine,
  Transfer, Depot, TransferError, invalid_target, not_found, status_conflict, insufficient_stock,
  check_violation, tracking_refused, find_transfer,
}

abbrev pub status_index : TransferStatus → ℕ
status_index draft = 0
status_index dispatched = 1
status_index partially_received = 2
status_index received = 3
status_index cancelled = 4

abbrev pub is_status : TransferStatus → TransferStatus → Bool
is_status a b = status_index a == status_index b

-- `['DISPATCHED', 'PARTIALLY_RECEIVED'].includes(header.status)`
abbrev pub is_receivable : TransferStatus → Bool
is_receivable status = is_status status dispatched || is_status status partially_received

-- `UPDATE inventory_transfers SET ... WHERE id = ?`
unfoldable pub put_transfer : Transfer → List Transfer → List Transfer
put_transfer new [] = []
put_transfer new (t ∷ rest) =
    let later = put_transfer new rest in if t.id == new.id then new ∷ rest else t ∷ later

-- The keys and fingerprints of the movements stand for the texts and the digests of `insertMovement` and
-- `insertReceiptMovement`; `is_tracked` for whether the valuation, the lots and the serials, which have
-- tables of their own, accept a movement.
pub record MovementNames : Type 0 where
  pub sent_key : ℕ → TransferLine → ℕ
  pub arriving_key : ℕ → TransferLine → ℕ
  pub received_key : ℕ → TransferLine → ℕ
  pub missing_key : ℕ → TransferLine → ℕ
  pub digest : ℕ → ℕ
  pub is_tracked : Books → StockMovement → Bool

-- One turn of the loop of `dispatch`: both balances are written before the movements. The balances may not be
-- negative in the database.
unfoldable pub dispatch_line : MovementNames → ℕ → TransferLine → Books → Result TransferError Books
dispatch_line names transfer line books = do
  let source = balance_at books.stock line.product line.source
  throw_if (ltb source.available line.quantity) insufficient_stock
  throw_if (ltb source.quantity line.quantity) check_violation
  let sent : StockMovement = record {
    key = names.sent_key transfer line;
    fingerprint = names.digest (names.sent_key transfer line);
    product = line.product;
    location = line.source;
    kind = transfer_out;
    change = neg_ℕ line.quantity;
    resulting = source.quantity - line.quantity;
    changed_state = none;
  }
  let left = put_balance books.stock line.product line.source (record source {
    quantity = source.quantity - line.quantity;
    available = source.available - line.quantity;
  })
  let destination = balance_at left line.product line.destination
  let stock = put_balance left line.product line.destination (record destination {
    quantity = destination.quantity + line.quantity;
    in_transit = destination.in_transit + line.quantity;
  })
  let gone : Books = record { stock = stock; movements = sent ∷ books.movements }
  throw_if (not (names.is_tracked gone sent)) tracking_refused
  let arriving : StockMovement = record {
    key = names.arriving_key transfer line;
    fingerprint = names.digest (names.arriving_key transfer line);
    product = line.product;
    location = line.destination;
    kind = transfer_in;
    change = pos line.quantity;
    resulting = destination.quantity + line.quantity;
    changed_state = none;
  }
  let moved : Books = record { stock = stock; movements = arriving ∷ gone.movements }
  throw_if (not (names.is_tracked moved arriving)) tracking_refused
  ok moved

unfoldable pub dispatch_lines :
    MovementNames → ℕ → List TransferLine → Books → Result TransferError Books
dispatch_lines names transfer [] books = ok books
dispatch_lines names transfer (line ∷ rest) books =
    dispatch_line names transfer line books >>= dispatch_lines names transfer rest

abbrev pub is_dispatched_by : Option ℕ → ℕ → Bool
is_dispatched_by none key = false
is_dispatched_by (some k) key = k == key

abbrev pub is_empty : List TransferLine → Bool
is_empty [] = true
is_empty (_ ∷ _) = false

-- `are_active` and `is_in_place` stand for `assertWarehouses` and for the columns of `findLineRows`.
module _ (names : MovementNames) (are_active : ℕ → ℕ → Bool)
    (are_in_place : ℕ → ℕ → List TransferLine → Bool) where
  -- A draft leaves.
  unfoldable pub send :
      (key : ℕ) → Transfer → Depot → Result TransferError (Depot × Transfer × Bool)
  send key t depot = do
    throw_if (not (are_active t.origin t.target)) invalid_target
    throw_if (is_empty t.lines) not_found
    throw_if (not (are_in_place t.origin t.target t.lines)) invalid_target
    books ← dispatch_lines names t.id t.lines depot.books
    let sent = record t { status = dispatched; dispatch_key = some key }
    ok (record depot { books = books; transfers = put_transfer sent depot.transfers }, sent, false)

  unfoldable pub dispatch_found :
      (origin key : ℕ) → Transfer → Depot → Result TransferError (Depot × Transfer × Bool)
  dispatch_found origin key t depot =
      let sent = send key t depot in
      if not (t.origin == origin)
      then err not_found
      else if is_status t.status dispatched
      then (if is_dispatched_by t.dispatch_key key
          then ok (depot, t, true)
          else err status_conflict)
      else if is_status t.status draft
      then sent
      else err status_conflict

  unfoldable pub dispatch :
      (id origin key : ℕ) → Depot → Result TransferError (Depot × Transfer × Bool)
  dispatch id origin key depot = elim (find_transfer id depot.transfers) [
    | none ↦ err not_found
    | some t ↦ dispatch_found origin key t depot
  ]
