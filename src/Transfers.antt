-- ===== src/Transfers.antt =====
-- Transfers of stock between warehouses: src/inventory/inventory-transfer.repository.ts, with the
-- balances of Stock. Quantities are in thousandths.
pub mod Operations
pub mod ReceiptLines
pub mod Receipts
pub mod Pending
pub mod Dispatching
pub mod Named
pub mod Receiving
pub mod Arrival
pub mod Moving
pub mod Arriving
pub mod Runs
mod Examples
use uinventario_api.Base.{
  ℕ, suc, ◌+◌, ◌-◌, Bool, true, false, not, ◌&&◌, ◌||◌, Option, none, some, List, [], ◌∷◌, ◌==◌,
  ltb, leb, if◌then◌else◌, Result, ok, err, ◌>>=◌, ◌>>◌, throw_if,
}
use uinventario_api.Base.Int.{ℤ, pos, pos_part}
use uinventario_api.Text.{Text}
use uinventario_api.QuantityPolicy.{ProductQuantityPolicy}
use uinventario_api.Stock.{Books}
use uinventario_api.Stock.Movements.{StockError, normalized_units}

pub data TransferStatus : Type 0 where
  draft dispatched partially_received received cancelled : TransferStatus

-- A row of `inventory_transfer_lines`; `source` and `destination` are locations.
pub record TransferLine : Type 0 where
  pub id : ℕ
  pub product : ℕ
  pub source : ℕ
  pub destination : ℕ
  pub quantity : ℕ
  pub received : ℕ
  pub discrepancy : ℕ

-- A row of `inventory_transfers` with its lines; `origin` and `target` are warehouses.
pub record Transfer : Type 0 where
  pub id : ℕ
  pub origin : ℕ
  pub target : ℕ
  pub status : TransferStatus
  pub key : ℕ
  pub fingerprint : ℕ
  pub dispatch_key : Option ℕ
  pub lines : List TransferLine

-- A row of `inventory_transfer_receipts`.
pub record TransferReceipt : Type 0 where
  pub key : ℕ
  pub transfer : ℕ
  pub fingerprint : ℕ

pub record Depot : Type 0 where
  pub books : Books
  pub transfers : List Transfer
  pub receipts : List TransferReceipt

pub data TransferError : Type 0 where
  invalid_target duplicate_line idempotency_conflict not_found status_conflict : TransferError
  insufficient_stock invalid_receipt exceeds_pending discrepancy_reason_required : TransferError
  check_violation tracking_refused : TransferError
  quantity_refused : StockError → TransferError

pub record LineRequest : Type 0 where
  pub product : ℕ
  pub source : ℕ
  pub destination : ℕ
  pub quantity : Text

pub record TransferRequest : Type 0 where
  pub key : ℕ
  pub origin : ℕ
  pub target : ℕ
  pub lines : List LineRequest

-- The row with the primary key.
unfoldable pub find_transfer : ℕ → List Transfer → Option Transfer
find_transfer id [] = none
find_transfer id (t ∷ rest) =
    let later = find_transfer id rest in if t.id == id then some t else later

-- `findByCreationKey`
unfoldable pub find_by_creation_key : ℕ → List Transfer → Option Transfer
find_by_creation_key key [] = none
find_by_creation_key key (t ∷ rest) =
    let later = find_by_creation_key key rest in if t.key == key then some t else later

abbrev pub is_same_line : LineRequest → LineRequest → Bool
is_same_line a b = a.product == b.product && a.source == b.source && a.destination == b.destination

unfoldable pub is_repeated : LineRequest → List LineRequest → Bool
is_repeated line [] = false
is_repeated line (next ∷ rest) = is_same_line line next || is_repeated line rest

-- `assertDistinctLines`
unfoldable pub are_distinct : List LineRequest → Bool
are_distinct [] = true
are_distinct (line ∷ rest) = not (is_repeated line rest) && are_distinct rest

abbrev pub quantity_of : Result StockError ℤ → Result TransferError ℕ
quantity_of (ok n) = ok (pos_part n)
quantity_of (err e) = err (quantity_refused e)

-- `policies.get(line.productId)` and the normalisation.
abbrev pub line_units : Option ProductQuantityPolicy → Text → Result TransferError ℕ
line_units none quantity = err invalid_target
line_units (some policy) quantity =
    quantity_of
      (normalized_units quantity policy (record { allow_negative = false; enforce_minimum = true }))

-- The lines as they are stored; `new_id` stands for the identifiers that are drawn.
unfoldable pub normalize_lines :
    (policies : ℕ → Option ProductQuantityPolicy) (new_id : ℕ → ℕ) (index : ℕ)
    → List LineRequest
    → Result TransferError (List TransferLine)
normalize_lines policies new_id index [] = ok []
normalize_lines policies new_id index (line ∷ rest) = do
  units ← line_units (policies line.product) line.quantity
  later ← normalize_lines policies new_id (suc index) rest
  let stored : TransferLine = record {
    id = new_id index;
    product = line.product;
    source = line.source;
    destination = line.destination;
    quantity = units;
    received = 0;
    discrepancy = 0;
  }
  ok (stored ∷ later)

-- `assertLineTarget` for each line.
unfoldable pub are_targets : (ℕ → ℕ → ℕ → Bool) → List TransferLine → Bool
are_targets is_line_target [] = true
are_targets is_line_target (line ∷ rest) =
    is_line_target line.product line.source line.destination && are_targets is_line_target rest

-- `may_access`, `are_active` and `is_line_target` stand for the lookups of `assertWarehouseAccess`,
-- `assertWarehouses` and `assertLineTarget`.
module _ (may_access : ℕ → Bool) (are_active : ℕ → ℕ → Bool) (is_line_target : ℕ → ℕ → ℕ → Bool)
    (policies : ℕ → Option ProductQuantityPolicy) where
  -- The transaction of `create`.
  unfoldable pub write_transfer :
      (id fingerprint : ℕ)
      → TransferRequest
      → List TransferLine
      → Depot
      → Result TransferError (Depot × Transfer × Bool)
  write_transfer id fingerprint request lines depot = do
    throw_if (not (are_active request.origin request.target)) invalid_target
    throw_if (not (are_targets is_line_target lines)) invalid_target
    let transfer : Transfer = record {
      id = id;
      origin = request.origin;
      target = request.target;
      status = draft;
      key = request.key;
      fingerprint = fingerprint;
      dispatch_key = none;
      lines = lines;
    }
    ok (record depot { transfers = transfer ∷ depot.transfers }, transfer, false)

  abbrev pub replay_transfer : ℕ → Transfer → Depot → Result TransferError (Depot × Transfer × Bool)
  replay_transfer fingerprint found depot =
      if found.fingerprint == fingerprint then ok (depot, found, true) else err idempotency_conflict

  unfoldable pub create :
      (digest : TransferRequest → List TransferLine → ℕ) (id : ℕ) (new_id : ℕ → ℕ)
      → TransferRequest
      → Depot
      → Result TransferError (Depot × Transfer × Bool)
  create digest id new_id request depot = do
    throw_if (request.origin == request.target) invalid_target
    throw_if (not (are_distinct request.lines)) duplicate_line
    lines ← normalize_lines policies new_id 0 request.lines
    throw_if (not (may_access request.target)) invalid_target
    let fingerprint = digest request lines
    let written = write_transfer id fingerprint request lines depot
    elim (find_by_creation_key request.key depot.transfers) [
      | some found ↦ replay_transfer fingerprint found depot
      | none ↦ written
    ]
