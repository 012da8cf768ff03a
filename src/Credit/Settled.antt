-- ===== src/Credit/Settled.antt =====
-- What payments and reversals do to the balance of a customer, and to the allocations of the payments.
use uinventario_api.Base.{
  ℕ, ◌+◌, ◌-◌, ◌≡◌, refl, ap, Bool, true, false, ◌&&◌, ◌==◌, if◌then◌else◌, arith, ltb, some, List,
  [], ◌∷◌, ◌++◌, Bool-cases, inl, inr,
}
use uinventario_api.Credit.{
  CreditAllocation, CreditPayment, CreditBooks, Obligation, find_payment, is_completed, debits,
  credits,
}
use uinventario_api.Credit.Payments.{allocate, allocations_of, is_there}
use uinventario_api.Credit.Allocating.{allocated, sale_debits, sale_credits}

unfoldable pub completed_total : List CreditPayment → ℕ
completed_total [] = 0
completed_total (p ∷ rest) =
    let sum = completed_total rest in if is_completed p.status then p.amount + sum else sum

abbrev pub allocated_to : ℕ → List CreditAllocation → ℕ
allocated_to payment allocations = allocated (allocations_of payment allocations)

-- The allocations of every payment add up to it.
unfoldable pub all_allocated : List CreditPayment → List CreditAllocation → Bool
all_allocated [] allocations = true
all_allocated (p ∷ rest) allocations =
    allocated_to p.id allocations == p.amount && all_allocated rest allocations

-- Every allocation is of a payment that is there.
unfoldable pub all_known : List CreditAllocation → List CreditPayment → Bool
all_known [] payments = true
all_known (a ∷ rest) payments =
    is_there (find_payment a.payment payments) && all_known rest payments

pub record IsSettled (books : CreditBooks) : Type 0 where
  pub settled :
      debits books.ledger + sale_credits books.ledger + completed_total books.payments
      ≡ sale_debits books.ledger + credits books.ledger
  pub allocations : all_allocated books.payments books.allocations ≡ true
  pub known : all_known books.allocations books.payments ≡ true

pub allocated-append :
    (payment : ℕ) (xs ys : List CreditAllocation)
    → allocated_to payment (xs ++ ys) ≡ allocated_to payment xs + allocated_to payment ys
unfolding allocations_of allocated
allocated-append payment [] ys = omega arith
allocated-append payment (a ∷ rest) ys =
    let later = allocated-append payment rest ys in ground (arith, later)

-- The allocations that are made are of the payment they are made for.
pub allocate-own :
    (id pending : ℕ) (obligations : List Obligation) (payment : ℕ)
    → allocated_to payment (allocate id pending obligations).0
      ≡ (if id == payment then allocated (allocate id pending obligations).0 else 0)
unfolding allocations_of allocated allocate
allocate-own id pending [] payment = ground arith
allocate-own id pending (o ∷ rest) payment =
    let applied = if ltb pending (o.amount - o.paid) then pending else o.amount - o.paid in
    let skipped = allocate-own id pending rest payment in
    let later = allocate-own id (pending - applied) rest payment in ground (arith, skipped, later)

pub allocate-known :
    (id pending : ℕ) (obligations : List Obligation) (payments : List CreditPayment)
    (old : List CreditAllocation)
    → is_there (find_payment id payments) ≡ true
    → all_known old payments ≡ true
    → all_known ((allocate id pending obligations).0 ++ old) payments ≡ true
unfolding all_known allocate
allocate-known id pending [] payments old there h = h
allocate-known id pending (o ∷ rest) payments old there h =
    let applied = if ltb pending (o.amount - o.paid) then pending else o.amount - o.paid in
    let skipped = allocate-known id pending rest payments old there h in
    let later = allocate-known id (pending - applied) rest payments old there h in
    ground (arith, skipped, later)

pub known-cons :
    (p : CreditPayment) (allocations : List CreditAllocation) (payments : List CreditPayment)
    → all_known allocations payments ≡ true
    → all_known allocations (p ∷ payments) ≡ true
unfolding all_known find_payment
known-cons p [] payments h = refl
known-cons p (a ∷ rest) payments h =
    let later = known-cons p rest payments (ground arith) in ground (arith, later)

-- A payment that is not there has no allocations.
pub unknown-none :
    (id : ℕ) (allocations : List CreditAllocation) (payments : List CreditPayment)
    → all_known allocations payments ≡ true
    → is_there (find_payment id payments) ≡ false
    → allocated_to id allocations ≡ 0
unfolding all_known allocations_of allocated
unknown-none id [] payments h new = refl
unknown-none id (a ∷ rest) payments h new = elim (Bool-cases (a.payment == id)) [
  | inl same ↦
      let it : a.payment ≡ id = ground arith in
      absurd (ground (arith, ap (λ x. is_there (find_payment x payments)) it))
  | inr other ↦ let later = unknown-none id rest payments (ground arith) new in rw other later
]

pub allocations-old :
    (id : ℕ) (payments : List CreditPayment) (new old : List CreditAllocation)
    → ((payment : ℕ) → id == payment ≡ false → allocated_to payment new ≡ 0)
    → is_there (find_payment id payments) ≡ false
    → all_allocated payments old ≡ true
    → all_allocated payments (new ++ old) ≡ true
unfolding all_allocated find_payment
allocations-old id [] new old apart absent h = refl
allocations-old id (p ∷ rest) new old apart absent h =
    let other : id == p.id ≡ false = ground arith in
    let later = allocations-old id rest new old apart (ground arith) (ground arith) in
    ground (arith, later, allocated-append p.id new old, apart p.id other)

pub allocated-find :
    (id : ℕ) (payments : List CreditPayment) (allocations : List CreditAllocation)
    (p : CreditPayment)
    → all_allocated payments allocations ≡ true
    → find_payment id payments ≡ some p
    → allocated_to p.id allocations ≡ p.amount
unfolding all_allocated find_payment
allocated-find id [] allocations p h found = absurd (ground arith)
allocated-find id (first ∷ rest) allocations p h found = elim (Bool-cases (first.id == id)) [
  | inl same ↦
      let it : first ≡ p = ground arith in
      let exact : allocated_to first.id allocations ≡ first.amount = ground arith in rw it at exact
  | inr other ↦ allocated-find id rest allocations p (ground arith) (ground arith)
]
