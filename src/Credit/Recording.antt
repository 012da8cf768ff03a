-- ===== src/Credit/Recording.antt =====
-- What a payment and its reversal write, and that it keeps the books settled.
use uinventario_api.Base.{
  ℕ, ◌+◌, ◌≤◌, ◌≡◌, refl, ap, ◌∙◌, Bool, true, false, ◌==◌, arith, Option, none, some, List, [],
  ◌∷◌, ◌++◌, ok, Option-cases, Bool-cases, inl, inr,
}
use uinventario_api.Credit.{
  CreditAllocation, CreditPayment, CreditBooks, completed, debit, credit, find_payment,
  is_completed, debits, credits, open_obligations,
}
use uinventario_api.Credit.Payments.{
  allocate, account_amounts, enter_amounts, allocations_of, PaymentRequest, write_payment, is_there,
  ReversalRequest, update_payment, write_reversal, cash_id,
}
use uinventario_api.Credit.Allocating.{
  allocate-sum, entered-credit, entered-debit, entered-sales, sale_debits, sale_credits,
}
use uinventario_api.Credit.Settled.{
  completed_total, allocated_to, all_allocated, all_known, IsSettled, allocate-own, allocate-known,
  known-cons, allocated-append, unknown-none, allocations-old, allocated-find,
}

there-update :
    (request : ReversalRequest) (id : ℕ) (payments : List CreditPayment)
    → is_there (find_payment id (update_payment request payments))
      ≡ is_there (find_payment id payments)
unfolding find_payment update_payment
there-update request id [] = refl
there-update request id (p ∷ rest) =
    let later = there-update request id rest in ground (arith, later)

known-update :
    (request : ReversalRequest) (allocations : List CreditAllocation)
    (payments : List CreditPayment)
    → all_known allocations (update_payment request payments) ≡ all_known allocations payments
unfolding all_known
known-update request [] payments = refl
known-update request (a ∷ rest) payments =
    rw (there-update request a.payment payments, known-update request rest payments) refl

allocated-update :
    (request : ReversalRequest) (payments : List CreditPayment)
    (allocations : List CreditAllocation)
    → all_allocated (update_payment request payments) allocations
      ≡ all_allocated payments allocations
unfolding all_allocated update_payment
allocated-update request [] allocations = refl
allocated-update request (p ∷ rest) allocations =
    let later = allocated-update request rest allocations in ground (arith, later)

total-update :
    (request : ReversalRequest) (payments : List CreditPayment) (p : CreditPayment)
    → find_payment request.payment payments ≡ some p
    → is_completed p.status ≡ true
    → completed_total payments ≡ p.amount + completed_total (update_payment request payments)
unfolding completed_total find_payment update_payment
total-update request [] p found e = absurd (ground arith)
total-update request (first ∷ rest) p found e = elim (Bool-cases (first.id == request.payment)) [
  | inl same ↦ let it : first ≡ p = ground arith in rw (same, it, e) refl
  | inr other ↦
      let later = total-update request rest p (ground arith) e in rw other (ground (arith, later))
]

module _ (shift profile : Option ℕ) (is_authorized : PaymentRequest → Bool) (id cash_movement : ℕ)
    (request : PaymentRequest) (books after : CreditBooks) (answer : CreditPayment)
    (replayed : Bool)
    (h : write_payment shift profile is_authorized id cash_movement request books
      ≡ ok (after, answer, replayed)) where
  abbrev made : List CreditAllocation × ℕ
  made =
      allocate id request.amount
        (open_obligations books.payments books.allocations books.installments)

  written-facts :
      (made.1 ≡ 0)
      × (is_there (find_payment id books.payments) ≡ false)
      × (credits books.ledger + request.amount ≤ debits books.ledger)
      × (after.ledger ≡ enter_amounts credit (account_amounts made.0 []) books.ledger)
      × (after.allocations ≡ made.0 ++ books.allocations)
      × ((currency : ℕ) × (after.payments
            ≡ record {
              id = id;
              key = request.key;
              fingerprint = request.fingerprint;
              currency = currency;
              amount = request.amount;
              is_cash = request.is_cash;
              cash = cash_id request.is_cash cash_movement;
              status = completed;
              reversal = none;
            }
              ∷ books.payments))
  unfolding write_payment
  written-facts = elim (Option-cases profile) [
    | inl e ↦ absurd (ground arith)
    | inr (currency, e) ↦ elim (Option-cases shift) [
      | inl f ↦ absurd (ground arith)
      | inr (_, f) ↦ (
        ground arith,
        ground arith,
        ground arith,
        ground arith,
        ground arith,
        (currency, ground arith),
      )
    ]
  ]

  -- A payment that is accepted lowers the customer's balance by exactly its amount, and not below zero.
  pub write_payment-balance :
      (credits after.ledger ≡ credits books.ledger + request.amount)
      × (debits after.ledger ≡ debits books.ledger)
      × (credits after.ledger ≤ debits after.ledger)
  write_payment-balance =
      let (none_left, _, within, ledger, _, _) = written-facts in
      let (c, d) = entered-credit made.0 books.ledger in
      let sum =
        allocate-sum id request.amount
          (open_obligations books.payments books.allocations books.installments) in
      let c_after : credits after.ledger ≡ credits books.ledger + request.amount =
        ap credits ledger ∙ c ∙ omega (arith, none_left, sum) in
      let d_after : debits after.ledger ≡ debits books.ledger = ap debits ledger ∙ d in
      (c_after, d_after, omega arith)

  pub write_payment-IsSettled : IsSettled books → IsSettled after
  unfolding completed_total all_allocated find_payment
  write_payment-IsSettled b =
      let (none_left, absent, _, ledger, allocations, (currency, payments)) = written-facts in
      let (c_after, d_after, _) = write_payment-balance in
      let (sd, sc) = entered-sales credit (account_amounts made.0 []) books.ledger in
      let sum =
        allocate-sum id request.amount
          (open_obligations books.payments books.allocations books.installments) in
      let own =
        allocate-own id request.amount
          (open_obligations books.payments books.allocations books.installments) in
      let new : CreditPayment = record {
        id = id;
        key = request.key;
        fingerprint = request.fingerprint;
        currency = currency;
        amount = request.amount;
        is_cash = request.is_cash;
        cash = cash_id request.is_cash cash_movement;
        status = completed;
        reversal = none;
      } in
      let mine : allocated_to id (made.0 ++ books.allocations) ≡ request.amount = ground (
        arith,
        allocated-append id made.0 books.allocations,
        own id,
        unknown-none id books.allocations books.payments b.known absent,
        sum,
        none_left,
      ) in
      let others : all_allocated books.payments (made.0 ++ books.allocations) ≡ true =
        allocations-old id books.payments made.0 books.allocations
          (λ payment apart. own payment ∙ rw apart refl) absent b.allocations in
      record {
        settled = omega (
          arith,
          c_after,
          d_after,
          ap sale_debits ledger ∙ sd,
          ap sale_credits ledger ∙ sc,
          ap completed_total payments,
          b.settled,
        );
        allocations = rw (payments, allocations) (ground (arith, mine, others));
        known =
            rw (payments, allocations)
              (allocate-known id request.amount
                (open_obligations books.payments books.allocations books.installments)
                (new ∷ books.payments) books.allocations (ground arith)
                (known-cons new books.allocations books.payments b.known));
      }

module _ (is_refunded : CreditPayment → Bool) (expected_cash : CreditBooks → ℕ) (shift : Option ℕ)
    (cash_movement : ℕ) (request : ReversalRequest) (p : CreditPayment) (books after : CreditBooks)
    (answer : CreditPayment) (replayed : Bool)
    (h : write_reversal is_refunded expected_cash shift cash_movement request p books
      ≡ ok (after, answer, replayed)) where
  reversal-facts :
      (after.ledger
        ≡ enter_amounts debit
            (account_amounts (allocations_of p.id books.allocations) [])
            books.ledger)
      × (after.allocations ≡ books.allocations)
      × (after.payments ≡ update_payment request books.payments)
  unfolding write_reversal
  reversal-facts = elim (Option-cases shift) [
    | inl e ↦ absurd (ground arith)
    | inr (_, e) ↦ (ground arith, ground arith, ground arith)
  ]

  pub write_reversal-IsSettled :
      find_payment request.payment books.payments ≡ some p
      → is_completed p.status ≡ true
      → IsSettled books
      → IsSettled after
  write_reversal-IsSettled found e b =
      let (ledger, allocations, payments) = reversal-facts in
      let amounts = account_amounts (allocations_of p.id books.allocations) [] in
      let (d, c) = entered-debit (allocations_of p.id books.allocations) books.ledger in
      let (sd, sc) = entered-sales debit amounts books.ledger in
      let exact =
        allocated-find request.payment books.payments books.allocations p b.allocations found in
      record {
        settled = omega (
          arith,
          ap debits ledger ∙ d,
          ap credits ledger ∙ c,
          ap sale_debits ledger ∙ sd,
          ap sale_credits ledger ∙ sc,
          ap completed_total payments,
          total-update request books.payments p found e,
          exact,
          b.settled,
        );
        allocations =
            rw (payments, allocations)
              (allocated-update request books.payments books.allocations ∙ b.allocations);
        known =
            rw (payments, allocations)
              (known-update request books.allocations books.payments ∙ b.known);
      }
