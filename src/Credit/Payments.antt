-- ===== src/Credit/Payments.antt =====
-- `create` and `reverse` of src/pos/customer-credit-payment.repository.ts. The audit log and the receipt's
-- number are left out.
use uinventario_api.Base.{
  ℕ, ◌+◌, ◌-◌, Bool, true, false, not, ◌&&◌, ◌||◌, Option, none, some, List, [], ◌∷◌, ◌++◌, ◌==◌,
  ltb, leb, if◌then◌else◌, Result, ok, err, ◌>>=◌, ◌>>◌, throw_if,
}
use uinventario_api.Credit.{
  CreditAllocation, CreditPayment, completed, reversed, EntryType, debit, credit, of_payment,
  DebtEntry, income, reversal_of, CashMovement, CreditBooks, CreditError, not_found, shift_closed,
  currency_mismatch, invalid_amount, allocation_failed, already_reversed, cash_missing,
  refund_failed, idempotency_conflict, duplicate_row, not_authorized, Obligation, find_payment,
  find_by_key, is_completed, open_obligations, debits, credits,
}

-- The loop over the obligations: what is applied, and what is left pending.
unfoldable pub allocate : ℕ → ℕ → List Obligation → List CreditAllocation × ℕ
allocate payment pending [] = ([], pending)
allocate payment pending (o ∷ rest) =
    let outstanding = o.amount - o.paid in
    let applied = if ltb pending outstanding then pending else outstanding in
    let skipped = allocate payment pending rest in
    let (later, left) = allocate payment (pending - applied) rest in
    let allocation : CreditAllocation = record {
      payment = payment;
      account = o.account;
      sale = o.sale;
      installment = o.installment;
      amount = applied;
    } in
    if pending == 0
    then ([], pending)
    else if outstanding == 0
    then skipped
    else (allocation ∷ later, left)

-- What one account gets of a payment, in the order of the accounts' first allocations.
pub record AccountAmount : Type 0 where
  pub account : ℕ
  pub sale : ℕ
  pub amount : ℕ

-- `accountAmounts.set(...)`
unfoldable pub add_amount : CreditAllocation → List AccountAmount → List AccountAmount
add_amount a [] = record { account = a.account; sale = a.sale; amount = a.amount } ∷ []
add_amount a (x ∷ rest) =
    let later = add_amount a rest in
    if x.account == a.account
    then record { account = x.account; sale = a.sale; amount = x.amount + a.amount } ∷ rest
    else x ∷ later

unfoldable pub account_amounts : List CreditAllocation → List AccountAmount → List AccountAmount
account_amounts [] amounts = amounts
account_amounts (a ∷ rest) amounts = account_amounts rest (add_amount a amounts)

-- The entries of the accounts, in the ledger.
unfoldable pub enter_amounts : EntryType → List AccountAmount → List DebtEntry → List DebtEntry
enter_amounts kind [] ledger = ledger
enter_amounts kind (x ∷ rest) ledger = enter_amounts kind rest (
    record {
      account = x.account;
      sale = x.sale;
      kind = kind;
      reference = of_payment;
      amount = x.amount;
    }
    ∷ ledger)

-- The rows of a payment's allocations.
unfoldable pub allocations_of : ℕ → List CreditAllocation → List CreditAllocation
allocations_of payment [] = []
allocations_of payment (a ∷ rest) =
    let later = allocations_of payment rest in if a.payment == payment then a ∷ later else later

-- `fingerprint` stands for the request's fingerprint with its branch, its cash register and its user.
pub record PaymentRequest : Type 0 where
  pub key : ℕ
  pub fingerprint : ℕ
  pub amount : ℕ
  pub is_cash : Bool

abbrev pub cash_of : Bool → CashMovement → List CashMovement → List CashMovement
cash_of true movement cash = movement ∷ cash
cash_of false movement cash = cash

abbrev pub cash_id : Bool → ℕ → Option ℕ
cash_id true id = some id
cash_id false id = none

abbrev pub is_there : Option CreditPayment → Bool
is_there none = false
is_there (some _) = true

abbrev pub is_given : Option ℕ → Bool
is_given none = false
is_given (some _) = true

-- `shift` is the currency of the open shift of `lockCurrentShift`, `profile` that of `lockCustomer`, and
-- `is_authorized` stands for the payment's authorization.
unfoldable pub write_payment :
    (shift profile : Option ℕ) (is_authorized : PaymentRequest → Bool) (id cash_movement : ℕ)
    → PaymentRequest
    → CreditBooks
    → Result CreditError (CreditBooks × CreditPayment × Bool)
write_payment shift profile is_authorized id cash_movement request books = do
  customer_currency ← elim profile [ none ↦ err not_found | some c ↦ ok c ]
  shift_currency ← elim shift [ none ↦ err shift_closed | some c ↦ ok c ]
  throw_if (not (shift_currency == customer_currency)) currency_mismatch
  throw_if
      (request.amount == 0
        || leb (debits books.ledger) (credits books.ledger)
        || ltb (debits books.ledger) (credits books.ledger + request.amount))
      invalid_amount
  throw_if (not (is_authorized request)) not_authorized
  let (allocations, pending) =
      allocate id request.amount
        (open_obligations books.payments books.allocations books.installments)
  throw_if (not (pending == 0)) allocation_failed
  throw_if (is_there (find_payment id books.payments)) duplicate_row
  let payment : CreditPayment = record {
    id = id;
    key = request.key;
    fingerprint = request.fingerprint;
    currency = customer_currency;
    amount = request.amount;
    is_cash = request.is_cash;
    cash = cash_id request.is_cash cash_movement;
    status = completed;
    reversal = none;
  }
  ok (
    record {
      installments = books.installments;
      payments = payment ∷ books.payments;
      allocations = allocations ++ books.allocations;
      ledger = enter_amounts credit (account_amounts allocations []) books.ledger;
      cash =
          cash_of request.is_cash
            (record { id = cash_movement; kind = income; amount = request.amount }) books.cash;
    },
    payment,
    false,
  )

abbrev pub replay :
    ℕ → CreditPayment → CreditBooks → Result CreditError (CreditBooks × CreditPayment × Bool)
replay fingerprint found books =
    if found.fingerprint == fingerprint then ok (books, found, true) else err idempotency_conflict

unfoldable pub create :
    (shift profile : Option ℕ) (is_authorized : PaymentRequest → Bool) (id cash_movement : ℕ)
    → PaymentRequest
    → CreditBooks
    → Result CreditError (CreditBooks × CreditPayment × Bool)
create shift profile is_authorized id cash_movement request books =
    let written = write_payment shift profile is_authorized id cash_movement request books in
    elim (find_by_key request.key books.payments) [
      | some found ↦ replay request.fingerprint found books
      | none ↦ written
    ]

pub record ReversalRequest : Type 0 where
  pub payment : ℕ
  pub key : ℕ
  pub fingerprint : ℕ

abbrev pub reversed_row : ReversalRequest → CreditPayment → CreditPayment
reversed_row request p = record p {
  status = reversed;
  reversal = some (request.key, request.fingerprint);
}

-- `UPDATE customer_credit_payments SET status = 'REVERSED', ... WHERE id = ? AND status = 'COMPLETED'`
unfoldable pub update_payment : ReversalRequest → List CreditPayment → List CreditPayment
update_payment request [] = []
update_payment request (p ∷ rest) =
    let later = update_payment request rest in
    if p.id == request.payment
    then (if is_completed p.status then reversed_row request p else p) ∷ rest
    else p ∷ later

-- The money goes back from the register, which has to have it, or by the provider of the payment.
abbrev pub check_refund :
    (is_refunded : CreditPayment → Bool) (expected_cash : ℕ)
    → CreditPayment
    → Result CreditError (Unit {0})
check_refund is_refunded expected_cash p =
    if p.is_cash
    then throw_if (not (is_given p.cash) || ltb expected_cash p.amount) cash_missing
    else throw_if (not (is_refunded p)) refund_failed

abbrev pub is_reversed_by : Option (ℕ × ℕ) → ReversalRequest → Bool
is_reversed_by none request = false
is_reversed_by (some (key, fingerprint)) request =
    key == request.key && fingerprint == request.fingerprint

-- `is_refunded` stands for the provider of the payment, and `expected_cash` for the query of `expectedCash` over
-- the sales, the settlements and the movements of the shift.
module _ (is_refunded : CreditPayment → Bool) (expected_cash : CreditBooks → ℕ) where
  -- A completed payment is reversed.
  unfoldable pub write_reversal :
      (shift : Option ℕ) (cash_movement : ℕ)
      → ReversalRequest
      → CreditPayment
      → CreditBooks
      → Result CreditError (CreditBooks × CreditPayment × Bool)
  write_reversal shift cash_movement request p books = do
    shift_currency ← elim shift [ none ↦ err shift_closed | some c ↦ ok c ]
    throw_if (not (shift_currency == p.currency)) currency_mismatch
    check_refund is_refunded (expected_cash books) p
    ok (
      record {
        installments = books.installments;
        payments = update_payment request books.payments;
        allocations = books.allocations;
        ledger =
            enter_amounts debit (account_amounts (allocations_of p.id books.allocations) [])
              books.ledger;
        cash =
            cash_of p.is_cash (record { id = cash_movement; kind = reversal_of; amount = p.amount })
              books.cash;
      },
      reversed_row request p,
      false,
    )

  unfoldable pub reverse_found :
      (shift : Option ℕ) (cash_movement : ℕ)
      → ReversalRequest
      → CreditPayment
      → CreditBooks
      → Result CreditError (CreditBooks × CreditPayment × Bool)
  reverse_found shift cash_movement request p books =
      let written = write_reversal shift cash_movement request p books in
      if is_completed p.status
      then written
      else if is_reversed_by p.reversal request
      then ok (books, p, true)
      else err already_reversed

  unfoldable pub reverse :
      (shift profile : Option ℕ) (cash_movement : ℕ)
      → ReversalRequest
      → CreditBooks
      → Result CreditError (CreditBooks × CreditPayment × Bool)
  reverse shift profile cash_movement request books = do
    customer_currency ← elim profile [ none ↦ err not_found | some c ↦ ok c ]
    elim (find_payment request.payment books.payments) [
      | none ↦ err not_found
      | some p ↦ reverse_found shift cash_movement request p books
    ]
