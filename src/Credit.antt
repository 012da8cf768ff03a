-- ===== src/Credit.antt =====
-- Payments of a customer's credit: src/pos/customer-credit-payment.repository.ts, for one customer. Amounts are
-- in cents.
pub mod Payments
pub mod Allocating
pub mod Settled
pub mod Recording
pub mod Runs
mod Examples
use uinventario_api.Base.{
  ℕ, ◌+◌, ◌-◌, ◌≤◌, Bool, true, false, not, ◌&&◌, ◌||◌, Option, none, some, List, [], ◌∷◌, ◌==◌,
  ltb, if◌then◌else◌, Result, ok, err, ◌>>=◌, ◌>>◌, throw_if,
}

-- A row of `customer_credit_installments` with its account.
pub record Installment : Type 0 where
  pub id : ℕ
  pub account : ℕ
  pub sale : ℕ
  pub amount : ℕ
  pub is_canceled : Bool

-- A row of `customer_credit_payment_allocations`.
pub record CreditAllocation : Type 0 where
  pub payment : ℕ
  pub account : ℕ
  pub sale : ℕ
  pub installment : ℕ
  pub amount : ℕ

pub data PaymentStatus : Type 0 where
  completed reversed : PaymentStatus

-- A row of `customer_credit_payments`; `cash` is its movement in the cash register, `reversal` the key and the
-- fingerprint of the request that reversed it.
pub record CreditPayment : Type 0 where
  pub id : ℕ
  pub key : ℕ
  pub fingerprint : ℕ
  pub currency : ℕ
  pub amount : ℕ
  pub is_cash : Bool
  pub cash : Option ℕ
  pub status : PaymentStatus
  pub reversal : Option (ℕ × ℕ)

pub data EntryType : Type 0 where
  debit credit : EntryType

pub data ReferenceType : Type 0 where
  of_sale of_payment : ReferenceType

-- A row of `customer_debt_ledger`.
pub record DebtEntry : Type 0 where
  pub account : ℕ
  pub sale : ℕ
  pub kind : EntryType
  pub reference : ReferenceType
  pub amount : ℕ

pub data CashType : Type 0 where
  income reversal_of : CashType

-- A row of `cash_register_movements`.
pub record CashMovement : Type 0 where
  pub id : ℕ
  pub kind : CashType
  pub amount : ℕ

-- The tables; the installments stand in the order of `openObligations`.
pub record CreditBooks : Type 0 where
  pub installments : List Installment
  pub payments : List CreditPayment
  pub allocations : List CreditAllocation
  pub ledger : List DebtEntry
  pub cash : List CashMovement

pub data CreditError : Type 0 where
  not_found shift_closed currency_mismatch invalid_amount allocation_failed : CreditError
  already_reversed cash_missing refund_failed idempotency_conflict duplicate_row : CreditError
  not_authorized : CreditError

-- An installment that is not paid, with what was paid of it.
pub record Obligation : Type 0 where
  pub account : ℕ
  pub sale : ℕ
  pub installment : ℕ
  pub amount : ℕ
  pub paid : ℕ

unfoldable pub find_payment : ℕ → List CreditPayment → Option CreditPayment
find_payment id [] = none
find_payment id (p ∷ rest) =
    let later = find_payment id rest in if p.id == id then some p else later

-- `findByKey`
unfoldable pub find_by_key : ℕ → List CreditPayment → Option CreditPayment
find_by_key key [] = none
find_by_key key (p ∷ rest) =
    let later = find_by_key key rest in if p.key == key then some p else later

abbrev pub is_completed : PaymentStatus → Bool
is_completed completed = true
is_completed reversed = false

abbrev pub is_paid_by : Option CreditPayment → Bool
is_paid_by none = false
is_paid_by (some p) = is_completed p.status

-- `SUM(CASE WHEN payment.status = 'COMPLETED' THEN allocation.amount ELSE 0 END)`
unfoldable pub paid_amount : ℕ → List CreditPayment → List CreditAllocation → ℕ
paid_amount installment payments [] = 0
paid_amount installment payments (a ∷ rest) =
    let sum = paid_amount installment payments rest in
    if a.installment == installment && is_paid_by (find_payment a.payment payments)
    then a.amount + sum
    else sum

-- `openObligations`
unfoldable pub open_obligations :
    List CreditPayment → List CreditAllocation → List Installment → List Obligation
open_obligations payments allocations [] = []
open_obligations payments allocations (i ∷ rest) =
    let later = open_obligations payments allocations rest in
    let paid = paid_amount i.id payments allocations in
    if not i.is_canceled && ltb paid i.amount
    then record {
      account = i.account;
      sale = i.sale;
      installment = i.id;
      amount = i.amount;
      paid = paid;
    }
      ∷ later
    else later

unfoldable pub debits : List DebtEntry → ℕ
debits [] = 0
debits (e ∷ rest) = elim e.kind [ debit ↦ e.amount + debits rest | credit ↦ debits rest ]

unfoldable pub credits : List DebtEntry → ℕ
credits [] = 0
credits (e ∷ rest) = elim e.kind [ debit ↦ credits rest | credit ↦ e.amount + credits rest ]
