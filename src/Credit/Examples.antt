-- ===== src/Credit/Examples.antt =====
-- Tests of the payments of a customer's credit, and their properties at concrete inputs.
use uinventario_api.Base.{
  ℕ, ◌+◌, ◌≤◌, ◌≡◌, refl, Bool, true, false, Option, none, some, List, [], ◌∷◌, ok, err, Result,
}
use uinventario_api.Credit.{
  Installment, CreditAllocation, CreditPayment, completed, debit, credit, of_payment, income,
  reversal_of, CreditBooks, CreditError, invalid_amount, find_payment, find_by_key, paid_amount,
  open_obligations, debits, credits,
}
use uinventario_api.Credit.Payments.{
  allocate, add_amount, account_amounts, enter_amounts, allocations_of, PaymentRequest,
  write_payment, create, ReversalRequest, reversed_row, update_payment, write_reversal,
  reverse_found, reverse,
}
use uinventario_api.Credit.Settled.{IsSettled}
use uinventario_api.Credit.Recording.{write_payment-balance}
use uinventario_api.Credit.Runs.{
  Surroundings, with_sale, CreditRun, no_credit, opened, continued, charged, paid, taken_back,
  run-IsSettled,
}

abbrev around : Surroundings
around = record {
  is_authorized = λ request. true;
  is_refunded = λ payment. true;
  expected_cash = λ books. 10000;
}

-- Two installments of 50.00, and a payment of 70.00.
abbrev installments : List Installment
installments =
    record { id = 1; account = 5; sale = 6; amount = 5000; is_canceled = false }
    ∷ record { id = 2; account = 5; sale = 6; amount = 5000; is_canceled = false }
    ∷ []

abbrev sold : CreditBooks
sold = with_sale installments debit 5 6 10000 no_credit

abbrev request : PaymentRequest
request = record { key = 20; fingerprint = 21; amount = 7000; is_cash = true }

abbrev payment : CreditPayment
payment = record {
  id = 30;
  key = 20;
  fingerprint = 21;
  currency = 1;
  amount = 7000;
  is_cash = true;
  cash = some 40;
  status = completed;
  reversal = none;
}

abbrev an_allocation : ℕ → ℕ → CreditAllocation
an_allocation installment amount = record {
  payment = 30;
  account = 5;
  sale = 6;
  installment = installment;
  amount = amount;
}

abbrev after_payment : CreditBooks
after_payment = record {
  installments = installments;
  payments = payment ∷ [];
  allocations = an_allocation 1 5000 ∷ an_allocation 2 2000 ∷ [];
  ledger =
      record { account = 5; sale = 6; kind = credit; reference = of_payment; amount = 7000 }
      ∷ sold.ledger;
  cash = record { id = 40; kind = income; amount = 7000 } ∷ [];
}

writes :
    write_payment (some 1) (some 1) around.is_authorized 30 40 request sold
    ≡ ok (after_payment, payment, false)
unfolding write_payment allocate open_obligations paid_amount find_payment account_amounts
    add_amount enter_amounts debits credits
writes = refl

write_payment-balance_example :
    (credits after_payment.ledger ≡ credits sold.ledger + 7000)
    × (debits after_payment.ledger ≡ debits sold.ledger)
    × (credits after_payment.ledger ≤ debits after_payment.ledger)
write_payment-balance_example =
    write_payment-balance (some 1) (some 1) around.is_authorized 30 40 request sold after_payment
      payment false writes

abbrev error_of : Result CreditError (CreditBooks × CreditPayment × Bool) → Option CreditError
error_of (ok _) = none
error_of (err e) = some e

too_much :
    error_of (
      write_payment
        (some 1)
        (some 1)
        around.is_authorized
        31
        41
        (record request { amount = 3001 })
        after_payment)
    ≡ some invalid_amount
unfolding write_payment debits credits
too_much = refl

pays :
    create (some 1) (some 1) around.is_authorized 30 40 request sold
    ≡ ok (after_payment, payment, false)
unfolding create find_by_key write_payment allocate open_obligations paid_amount find_payment
    account_amounts add_amount enter_amounts debits credits
pays = refl

abbrev reversing : ReversalRequest
reversing = record { payment = 30; key = 50; fingerprint = 51 }

abbrev after_reversal : CreditBooks
after_reversal = record {
  installments = installments;
  payments = reversed_row reversing payment ∷ [];
  allocations = after_payment.allocations;
  ledger =
      record { account = 5; sale = 6; kind = debit; reference = of_payment; amount = 7000 }
      ∷ after_payment.ledger;
  cash = record { id = 42; kind = reversal_of; amount = 7000 } ∷ after_payment.cash;
}

reverses :
    reverse around.is_refunded around.expected_cash (some 1) (some 1) 42 reversing after_payment
    ≡ ok (after_reversal, reversed_row reversing payment, false)
unfolding reverse reverse_found write_reversal find_payment update_payment allocations_of
    account_amounts add_amount enter_amounts
reverses = refl

abbrev a_run : CreditRun around after_reversal
a_run =
    continued
      (continued (continued opened (charged installments debit 5 6 10000 no_credit))
        (paid (some 1) (some 1) 30 40 request sold after_payment payment false pays))
      (taken_back (some 1) (some 1) 42 reversing after_payment after_reversal
        (reversed_row reversing payment) false reverses)

run-IsSettled_example : IsSettled after_reversal
run-IsSettled_example = run-IsSettled around a_run

-- What was paid is open again.
reopened : paid_amount 1 after_reversal.payments after_reversal.allocations ≡ 0
unfolding paid_amount find_payment
reopened = refl
