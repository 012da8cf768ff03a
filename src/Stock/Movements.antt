-- ===== src/Stock/Movements.antt =====
-- `createMovement`, `createCount` and `createStateTransition` of src/inventory/inventory.repository.ts. A
-- request that is repeated under its key is answered from the row that is there.
use uinventario_api.Base.{
  ℕ, ◌+◌, ◌-◌, Bool, true, false, not, ◌&&◌, ◌||◌, Option, none, some, ltb, ◌==◌, if◌then◌else◌,
  Result, ok, err, ◌>>=◌, ◌>>◌, throw_if,
}
use uinventario_api.Base.Int.{ℤ, pos, pos_part, neg_ℕ, abs, ◌+ℤ◌, is_neg, eqb_ℤ}
use uinventario_api.Text.{Text}
use uinventario_api.QuantityPolicy.{
  ProductQuantityPolicy, QuantityError, NormalizeOptions, normalize_product_quantity,
  quantity_to_units,
}
use uinventario_api.Stock.{
  StockGuards, Balance, StockState, available_state, reserved_state, damaged_state,
  in_transit_state, MovementKind, initial, exit_, loss, damage, adjustment, state_transition,
  StockMovement, Books, balance_at, find_movement, has_movement, post,
}

pub data StockError : Type 0 where
  quantity_refused : QuantityError → StockError
  idempotency_conflict target_not_found reference_required initial_stock_exists : StockError
  insufficient_stock insufficient_stock_state invalid_state_transition tracking_refused : StockError
  count_conflict : ℕ → StockError

abbrev pub refused : Result QuantityError ℤ → Result StockError ℤ
refused (ok n) = ok n
refused (err e) = err (quantity_refused e)

-- `toUnits(normalizeProductQuantity(...))`
unfoldable pub normalized_units :
    Text → ProductQuantityPolicy → NormalizeOptions → Result StockError ℤ
normalized_units value policy options =
    refused (normalize_product_quantity value policy options >>= quantity_to_units)

abbrev pub is_outgoing : MovementKind → Bool
is_outgoing exit_ = true
is_outgoing loss = true
is_outgoing damage = true
is_outgoing _ = false

abbrev pub is_adjustment : MovementKind → Bool
is_adjustment adjustment = true
is_adjustment _ = false

abbrev pub is_initial : MovementKind → Bool
is_initial initial = true
is_initial _ = false

-- `quantityChange`
unfoldable pub quantity_change : MovementKind → ℤ → Result StockError ℤ
quantity_change kind units =
    if eqb_ℤ units (pos 0)
    then err insufficient_stock
    else if is_adjustment kind
    then ok units
    else if is_neg units
    then err insufficient_stock
    else ok (if is_outgoing kind then neg_ℕ (abs units) else units)

pub record MovementRequest : Type 0 where
  pub key : ℕ
  pub product : ℕ
  pub location : ℕ
  pub kind : MovementKind
  pub quantity : Text
  pub reference : Option ℕ

pub record TransitionRequest : Type 0 where
  pub key : ℕ
  pub product : ℕ
  pub location : ℕ
  pub from_state : StockState
  pub to_state : StockState
  pub quantity : Text

abbrev pub is_given : Option ℕ → Bool
is_given none = false
is_given (some _) = true

-- The answer to a repeated request.
unfoldable pub replay_movement :
    ℕ → StockMovement → Books → Result StockError (Books × StockMovement × Bool)
replay_movement fingerprint found books =
    if found.fingerprint == fingerprint then ok (books, found, true) else err idempotency_conflict

-- A movement with the key is the answer; without one, it is written.
unfoldable pub record_once :
    ℕ
    → ℕ
    → Books
    → Result StockError (Books × StockMovement × Bool)
    → Result StockError (Books × StockMovement × Bool)
record_once fingerprint key books written = elim (find_movement key books.movements) [
  | some found ↦ replay_movement fingerprint found books
  | none ↦ written
]

abbrev pub state_index : StockState → ℕ
state_index available_state = 0
state_index reserved_state = 1
state_index damaged_state = 2
state_index in_transit_state = 3

abbrev pub is_state : StockState → StockState → Bool
is_state a b = state_index a == state_index b

-- `balance[stateColumn(state)]`
abbrev pub column : StockState → Balance → ℕ
column available_state b = b.available
column reserved_state b = b.reserved
column damaged_state b = b.damaged
column in_transit_state b = b.in_transit

abbrev pub set_column : StockState → ℕ → Balance → Balance
set_column available_state n b = record b { available = n }
set_column reserved_state n b = record b { reserved = n }
set_column damaged_state n b = record b { damaged = n }
set_column in_transit_state n b = record b { in_transit = n }

-- The transitions that `createStateTransition` does not refuse at once.
abbrev pub is_allowed : StockState → StockState → Bool
is_allowed from to =
    not (is_state from to) && (is_state from available_state || is_state to available_state)

-- `digest` stands for SHA-256 of the request as JSON.
module _ (guards : StockGuards) (policy : ProductQuantityPolicy) where
  -- The transaction of `createMovement` for a new key.
  unfoldable pub write_movement :
      ℕ → MovementRequest → ℤ → Books → Result StockError (Books × StockMovement × Bool)
  write_movement fingerprint request change books = do
    throw_if (not (guards.is_target request.product request.location)) target_not_found
    throw_if (not (is_initial request.kind) && not (is_given request.reference)) reference_required
    throw_if
        (is_initial request.kind && has_movement request.product request.location books.movements)
        initial_stock_exists
    let balance = balance_at books.stock request.product request.location
    let quantity = pos balance.quantity +ℤ change
    let available = pos balance.available +ℤ change
    throw_if (is_neg quantity || is_neg available) insufficient_stock
    let movement : StockMovement = record {
      key = request.key;
      fingerprint = fingerprint;
      product = request.product;
      location = request.location;
      kind = request.kind;
      change = change;
      resulting = pos_part quantity;
      changed_state = none;
    }
    let after =
        post books request.product request.location
          (record balance { quantity = pos_part quantity; available = pos_part available }) movement
    throw_if (not (guards.is_tracked after movement)) tracking_refused
    ok (after, movement, false)

  unfoldable pub create_movement :
      (MovementRequest → ℤ → ℕ)
      → MovementRequest
      → Books
      → Result StockError (Books × StockMovement × Bool)
  create_movement digest request books = do
    units ←
        normalized_units request.quantity policy
          (record { allow_negative = true; enforce_minimum = true })
    change ← quantity_change request.kind units
    record_once (digest request change) request.key books
        (write_movement (digest request change) request change books)

  -- The transaction of `createStateTransition` for a new key.
  unfoldable pub write_transition :
      ℕ → TransitionRequest → ℕ → Books → Result StockError (Books × StockMovement × Bool)
  write_transition fingerprint request units books = do
    throw_if (not (guards.is_target request.product request.location)) target_not_found
    let balance = balance_at books.stock request.product request.location
    throw_if (ltb (column request.from_state balance) units) insufficient_stock_state
    let movement : StockMovement = record {
      key = request.key;
      fingerprint = fingerprint;
      product = request.product;
      location = request.location;
      kind = state_transition;
      change = pos 0;
      resulting = balance.quantity;
      changed_state = some (request.from_state, request.to_state, units);
    }
    let after =
        post books request.product request.location
          (set_column request.to_state (column request.to_state balance + units)
            (set_column request.from_state (column request.from_state balance - units) balance))
          movement
    throw_if (not (guards.is_tracked after movement)) tracking_refused
    ok (after, movement, false)

  unfoldable pub create_transition :
      (TransitionRequest → ℤ → ℕ)
      → TransitionRequest
      → Books
      → Result StockError (Books × StockMovement × Bool)
  create_transition digest request books = do
    throw_if (not (is_allowed request.from_state request.to_state)) invalid_state_transition
    units ←
        normalized_units request.quantity policy
          (record { allow_negative = false; enforce_minimum = true })
    throw_if (not (ltb 0 (pos_part units))) invalid_state_transition
    record_once (digest request units) request.key books
        (write_transition (digest request units) request (pos_part units) books)
