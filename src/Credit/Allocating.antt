-- ===== src/Credit/Allocating.antt =====
-- The sums of a payment's allocations, and of what they enter in the ledger.
use uinventario_api.Base.{ℕ, ◌+◌, ◌-◌, ◌≡◌, refl, if◌then◌else◌, arith, ltb, List, [], ◌∷◌}
use uinventario_api.Credit.{
  CreditAllocation, EntryType, debit, credit, ReferenceType, of_payment, of_sale, DebtEntry,
  Obligation, debits, credits,
}
use uinventario_api.Credit.Payments.{
  allocate, AccountAmount, add_amount, account_amounts, enter_amounts,
}

unfoldable pub allocated : List CreditAllocation → ℕ
allocated [] = 0
allocated (a ∷ rest) = a.amount + allocated rest

unfoldable pub outstanding : List Obligation → ℕ
outstanding [] = 0
outstanding (o ∷ rest) = (o.amount - o.paid) + outstanding rest

unfoldable amounts_total : List AccountAmount → ℕ
amounts_total [] = 0
amounts_total (x ∷ rest) = x.amount + amounts_total rest

-- What the ledger has from sales, and not from payments.
abbrev sale_part : ReferenceType → ℕ → ℕ
sale_part of_sale n = n
sale_part of_payment n = 0

unfoldable pub sale_debits : List DebtEntry → ℕ
sale_debits [] = 0
sale_debits (e ∷ rest) = elim e.kind [
  | debit ↦ sale_part e.reference e.amount + sale_debits rest
  | credit ↦ sale_debits rest
]

unfoldable pub sale_credits : List DebtEntry → ℕ
sale_credits [] = 0
sale_credits (e ∷ rest) = elim e.kind [
  | debit ↦ sale_credits rest
  | credit ↦ sale_part e.reference e.amount + sale_credits rest
]

-- What is applied is the payment or all that is outstanding, whichever is less.
pub allocate-sum :
    (payment pending : ℕ) (obligations : List Obligation)
    → allocated (allocate payment pending obligations).0 + (allocate payment pending obligations).1
      ≡ pending
unfolding allocate allocated
allocate-sum payment pending [] = omega arith
allocate-sum payment pending (o ∷ rest) =
    let applied = if ltb pending (o.amount - o.paid) then pending else o.amount - o.paid in
    let skipped = allocate-sum payment pending rest in
    let later = allocate-sum payment (pending - applied) rest in ground (arith, skipped, later)

pub allocate-left :
    (payment pending : ℕ) (obligations : List Obligation)
    → (allocate payment pending obligations).1 ≡ pending - outstanding obligations
unfolding allocate outstanding
allocate-left payment pending [] = omega arith
allocate-left payment pending (o ∷ rest) =
    let applied = if ltb pending (o.amount - o.paid) then pending else o.amount - o.paid in
    let skipped = allocate-left payment pending rest in
    let later = allocate-left payment (pending - applied) rest in ground (arith, skipped, later)

add_amount-total :
    (a : CreditAllocation) (amounts : List AccountAmount)
    → amounts_total (add_amount a amounts) ≡ a.amount + amounts_total amounts
unfolding add_amount amounts_total
add_amount-total a [] = refl
add_amount-total a (x ∷ rest) = let later = add_amount-total a rest in ground (arith, later)

account_amounts-total :
    (allocations : List CreditAllocation) (amounts : List AccountAmount)
    → amounts_total (account_amounts allocations amounts)
      ≡ allocated allocations + amounts_total amounts
unfolding account_amounts allocated
account_amounts-total [] amounts = omega arith
account_amounts-total (a ∷ rest) amounts =
    let later = account_amounts-total rest (add_amount a amounts) in
    omega (arith, later, add_amount-total a amounts)

enter_amounts-credit :
    (amounts : List AccountAmount) (ledger : List DebtEntry)
    → (credits (enter_amounts credit amounts ledger) ≡ amounts_total amounts + credits ledger)
      × (debits (enter_amounts credit amounts ledger) ≡ debits ledger)
unfolding enter_amounts amounts_total credits debits
enter_amounts-credit [] ledger = (omega arith, refl)
enter_amounts-credit (x ∷ rest) ledger =
    let entry : DebtEntry = record {
      account = x.account;
      sale = x.sale;
      kind = credit;
      reference = of_payment;
      amount = x.amount;
    } in
    let (c, d) = enter_amounts-credit rest (entry ∷ ledger) in (omega (arith, c), d)

enter_amounts-debit :
    (amounts : List AccountAmount) (ledger : List DebtEntry)
    → (debits (enter_amounts debit amounts ledger) ≡ amounts_total amounts + debits ledger)
      × (credits (enter_amounts debit amounts ledger) ≡ credits ledger)
unfolding enter_amounts amounts_total credits debits
enter_amounts-debit [] ledger = (omega arith, refl)
enter_amounts-debit (x ∷ rest) ledger =
    let entry : DebtEntry = record {
      account = x.account;
      sale = x.sale;
      kind = debit;
      reference = of_payment;
      amount = x.amount;
    } in
    let (d, c) = enter_amounts-debit rest (entry ∷ ledger) in (omega (arith, d), c)

-- The allocations, summed by account, are entered in full.
pub entered-credit :
    (allocations : List CreditAllocation) (ledger : List DebtEntry)
    → (credits (enter_amounts credit (account_amounts allocations []) ledger)
        ≡ allocated allocations + credits ledger)
      × (debits (enter_amounts credit (account_amounts allocations []) ledger) ≡ debits ledger)
unfolding amounts_total
entered-credit allocations ledger =
    let (c, d) = enter_amounts-credit (account_amounts allocations []) ledger in
    (omega (arith, c, account_amounts-total allocations []), d)

pub entered-debit :
    (allocations : List CreditAllocation) (ledger : List DebtEntry)
    → (debits (enter_amounts debit (account_amounts allocations []) ledger)
        ≡ allocated allocations + debits ledger)
      × (credits (enter_amounts debit (account_amounts allocations []) ledger) ≡ credits ledger)
unfolding amounts_total
entered-debit allocations ledger =
    let (d, c) = enter_amounts-debit (account_amounts allocations []) ledger in
    (omega (arith, d, account_amounts-total allocations []), c)

pub entered-sales :
    (kind : EntryType) (amounts : List AccountAmount) (ledger : List DebtEntry)
    → (sale_debits (enter_amounts kind amounts ledger) ≡ sale_debits ledger)
      × (sale_credits (enter_amounts kind amounts ledger) ≡ sale_credits ledger)
unfolding enter_amounts sale_debits sale_credits
entered-sales kind [] ledger = (refl, refl)
entered-sales debit (x ∷ rest) ledger =
    let entry : DebtEntry = record {
      account = x.account;
      sale = x.sale;
      kind = debit;
      reference = of_payment;
      amount = x.amount;
    } in
    let (d, c) = entered-sales debit rest (entry ∷ ledger) in (omega (arith, d), c)
entered-sales credit (x ∷ rest) ledger =
    let entry : DebtEntry = record {
      account = x.account;
      sale = x.sale;
      kind = credit;
      reference = of_payment;
      amount = x.amount;
    } in
    let (d, c) = entered-sales credit rest (entry ∷ ledger) in (d, omega (arith, c))
