-- ===== src/Credit/Runs.antt =====
-- Requests on a customer's credit, one after the other.
use uinventario_api.Base.{
  ℕ, ◌≡◌, refl, Bool, arith, Option, List, [], ◌∷◌, ok, Option-cases, Bool-cases, inl, inr,
}
use uinventario_api.Credit.{
  CreditPayment, CreditBooks, Installment, debit, credit, of_sale, EntryType, find_payment,
  find_by_key, is_completed, debits, credits,
}
use uinventario_api.Credit.Payments.{
  PaymentRequest, create, ReversalRequest, reverse, reverse_found,
}
use uinventario_api.Credit.Allocating.{sale_debits, sale_credits}
use uinventario_api.Credit.Settled.{IsSettled, completed_total, all_allocated, all_known}
use uinventario_api.Credit.Recording.{write_payment-IsSettled, write_reversal-IsSettled}

create-IsSettled :
    (shift profile : Option ℕ) (is_authorized : PaymentRequest → Bool) (id cash_movement : ℕ)
    (request : PaymentRequest) (books after : CreditBooks) (answer : CreditPayment)
    (replayed : Bool)
    → create shift profile is_authorized id cash_movement request books
      ≡ ok (after, answer, replayed)
    → IsSettled books
    → IsSettled after
unfolding create
create-IsSettled shift profile is_authorized id cash_movement request books after answer replayed h
      b =
    elim (Option-cases (find_by_key request.key books.payments)) [
      | inl e ↦
          write_payment-IsSettled shift profile is_authorized id cash_movement request books after
            answer replayed (ground arith) b
      | inr (found, e) ↦ let same : books ≡ after = ground arith in rw (← same) b
    ]

reverse-IsSettled :
    (is_refunded : CreditPayment → Bool) (expected_cash : CreditBooks → ℕ)
    (shift profile : Option ℕ) (cash_movement : ℕ) (request : ReversalRequest)
    (books after : CreditBooks) (answer : CreditPayment) (replayed : Bool)
    → reverse is_refunded expected_cash shift profile cash_movement request books
      ≡ ok (after, answer, replayed)
    → IsSettled books
    → IsSettled after
unfolding reverse reverse_found
reverse-IsSettled is_refunded expected_cash shift profile cash_movement request books after answer
      replayed h b =
    elim (Option-cases profile) [
      | inl e ↦ absurd (ground arith)
      | inr (_, e) ↦ elim (Option-cases (find_payment request.payment books.payments)) [
        | inl f ↦ absurd (ground arith)
        | inr (p, f) ↦ elim (Bool-cases (is_completed p.status)) [
          | inl is ↦
              write_reversal-IsSettled is_refunded expected_cash shift cash_movement request p books
                after answer replayed (ground arith) f is b
          | inr not_is ↦ let same : books ≡ after = ground arith in rw (← same) b
        ]
      ]
    ]

-- A sale on credit, or its return, writes an entry of the ledger and the installments.
abbrev pub with_sale : List Installment → EntryType → ℕ → ℕ → ℕ → CreditBooks → CreditBooks
with_sale installments kind account sale amount books = record books {
  installments = installments;
  ledger =
      record { account = account; sale = sale; kind = kind; reference = of_sale; amount = amount }
      ∷ books.ledger;
}

sale-IsSettled :
    (installments : List Installment) (kind : EntryType) (account sale amount : ℕ)
    (books : CreditBooks)
    → IsSettled books
    → IsSettled (with_sale installments kind account sale amount books)
unfolding debits credits sale_debits sale_credits
sale-IsSettled installments debit account sale amount books b = record {
  settled = omega (arith, b.settled);
  allocations = b.allocations;
  known = b.known;
}
sale-IsSettled installments credit account sale amount books b = record {
  settled = omega (arith, b.settled);
  allocations = b.allocations;
  known = b.known;
}

-- What stands for the code and the data around the payments.
pub record Surroundings : Type 0 where
  pub is_authorized : PaymentRequest → Bool
  pub is_refunded : CreditPayment → Bool
  pub expected_cash : CreditBooks → ℕ

-- One accepted request, or what a sale writes.
pub data CreditStep (s : Surroundings) : CreditBooks → CreditBooks → Type 0 where
  charged :
      (installments : List Installment) (kind : EntryType) (account sale amount : ℕ)
      (books : CreditBooks)
      → CreditStep s books (with_sale installments kind account sale amount books)
  paid :
      (shift profile : Option ℕ) (id cash_movement : ℕ) (request : PaymentRequest)
      (books after : CreditBooks) (answer : CreditPayment) (replayed : Bool)
      → create shift profile s.is_authorized id cash_movement request books
        ≡ ok (after, answer, replayed)
      → CreditStep s books after
  taken_back :
      (shift profile : Option ℕ) (cash_movement : ℕ) (request : ReversalRequest)
      (books after : CreditBooks) (answer : CreditPayment) (replayed : Bool)
      → reverse s.is_refunded s.expected_cash shift profile cash_movement request books
        ≡ ok (after, answer, replayed)
      → CreditStep s books after

abbrev pub no_credit : CreditBooks
no_credit = record { installments = []; payments = []; allocations = []; ledger = []; cash = [] }

pub data CreditRun (s : Surroundings) : CreditBooks → Type 0 where
  opened : CreditRun s no_credit
  continued :
      {books after : CreditBooks} → CreditRun s books → CreditStep s books after → CreditRun s after

no_credit-IsSettled : IsSettled no_credit
unfolding debits credits sale_debits sale_credits completed_total all_allocated all_known
no_credit-IsSettled = record { settled = refl; allocations = refl; known = refl }

module _ (s : Surroundings) where
  step-IsSettled :
      {books after : CreditBooks} → CreditStep s books after → IsSettled books → IsSettled after
  step-IsSettled (charged installments kind account sale amount books) b =
      sale-IsSettled installments kind account sale amount books b
  step-IsSettled (paid shift profile id cash_movement request books after answer replayed h) b =
      create-IsSettled shift profile s.is_authorized id cash_movement request books after answer
        replayed h b
  step-IsSettled (taken_back shift profile cash_movement request books after answer replayed h) b =
      reverse-IsSettled s.is_refunded s.expected_cash shift profile cash_movement request books
        after answer replayed h b

  -- Whatever sales charge or return and whatever payments are made and reversed, from empty tables on: the
  -- debits less the credits of the ledger are what the sales charged less the payments that are not
  -- reversed, the allocations of each payment add up to its amount, and each allocation is of a payment
  -- that is there.
  pub run-IsSettled : {books : CreditBooks} → CreditRun s books → IsSettled books
  run-IsSettled opened = no_credit-IsSettled
  run-IsSettled (continued run step) = step-IsSettled step (run-IsSettled run)
