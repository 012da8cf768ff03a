-- ===== src/Loyalty/Balance.antt =====
-- What debits, credits, sales and reversals do to the points of a customer.
use uinventario_api.Base.{
  ℕ, zero, suc, ◌+◌, ◌-◌, ◌≤◌, ◌<◌, ◌≡◌, refl, sym, ap, ◌∙◌, Bool, ◌⊎◌, inl, inr, ltb, ◌==◌,
  if◌then◌else◌, arith, ok, Bool-cases, Result-cases, Option-cases, Option, none, some, List, [],
  ◌∷◌, ◌++◌,
}
use uinventario_api.Base.Int.{ℤ, pos, neg_ℕ, pos_part, neg_part, ◌+ℤ◌, ◌≤ℤ◌, int_laws}
use uinventario_api.Loyalty.{Rule, Quote, quote}
use uinventario_api.Loyalty.Sales.{
  SaleInput, redeem_debit, expiry, is_active, write_sale, apply_sale,
}
use uinventario_api.Loyalty.Ledger.{
  earn, materialize_expirations, EntryType, PointEntry, PointAllocation, Ledger, Credit, Debit,
  balance, sum_deltas, available_points, allocate, debited_credits, insert_debit, insert_credit,
}

sum_deltas-append :
    (xs : List PointEntry) (e : PointEntry)
    → sum_deltas (xs ++ (e ∷ [])) ≡ sum_deltas xs +ℤ e.points_delta
unfolding sum_deltas
sum_deltas-append [] e = omega int_laws
sum_deltas-append (x ∷ xs) e =
    let rest = sum_deltas-append xs e in omega (int_laws, ap pos_part rest, ap neg_part rest)

unfoldable pub sum_points : List PointAllocation → ℕ
sum_points [] = 0
sum_points (a ∷ more) = a.points + sum_points more

-- Each credit is drawn on at most once, in order, for some points that it has, and by this debit.
unfoldable pub IsDrawn : ℕ → List Credit → List PointAllocation → Type 0
IsDrawn debit credits [] = Unit
IsDrawn debit [] (a ∷ more) = ⊥
IsDrawn debit (c ∷ cs) (a ∷ more) =
    ((a.debit ≡ debit)
      × (a.credit ≡ c.id)
      × (0 < a.points)
      × (pos_part c.available ≡ a.points + (pos_part c.available - a.points))
      × IsDrawn debit cs more)
    ⊎ IsDrawn debit cs (a ∷ more)

IsDrawn-skip :
    (debit : ℕ) (c : Credit) (cs : List Credit) (more : List PointAllocation)
    → IsDrawn debit cs more
    → IsDrawn debit (c ∷ cs) more
unfolding IsDrawn
IsDrawn-skip debit c cs [] h = tt
IsDrawn-skip debit c cs (a ∷ more) h = inr h

allocate-IsDrawn :
    (debit : ℕ) (credits : List Credit) (points : ℕ)
    → points ≤ available_points credits
    → IsDrawn debit credits (allocate debit credits points)
      × (sum_points (allocate debit credits points) ≡ points)
unfolding allocate available_points sum_points IsDrawn
allocate-IsDrawn debit [] points h = (tt, omega (arith, h))
allocate-IsDrawn debit (c ∷ cs) points h =
    let taken = if ltb points (pos_part c.available) then points else pos_part c.available in
    elim (Bool-cases (points == 0)) [
      | inl z ↦ rw (allocate, z) (tt, ground arith)
      | inr z ↦
          let (drawn, total) = allocate-IsDrawn debit cs (points - taken) (ground arith) in
          elim (Bool-cases (taken == 0)) [
            | inl e ↦
                rw (allocate, z, e)
                  (
                    IsDrawn-skip debit c cs (allocate debit cs (points - taken)) drawn,
                    ground (arith, total),
                  )
            | inr e ↦
                rw (allocate, z, e)
                  (inl (refl, refl, ground arith, ground arith, drawn), ground (arith, total))
          ]
    ]

append-nil : (xs : List PointAllocation) → xs ++ [] ≡ xs
append-nil [] = refl
append-nil (x ∷ xs) = ap (λ ys. x ∷ ys) (append-nil xs)

IsDrawn-nil : (debit : ℕ) (credits : List Credit) → IsDrawn debit credits []
unfolding IsDrawn
IsDrawn-nil debit credits = tt

sum_points_nil : sum_points [] ≡ 0
unfolding sum_points
sum_points_nil = refl

debit_sum :
    (before after : ℤ) (points : ℕ) → after ≡ before +ℤ neg_ℕ points → after +ℤ pos points ≡ before
debit_sum before after zero h = omega (int_laws, ap pos_part h, ap neg_part h)
debit_sum before after (suc n) h = omega (int_laws, ap pos_part h, ap neg_part h)

-- A debit that is accepted takes exactly its points off the balance, and draws exactly these from credits
-- that have them, on each at most once.
pub insert_debit-exact :
    (now : ℕ) (input : Debit) (ledger after : Ledger)
    → insert_debit now input ledger ≡ ok after
    → (balance after +ℤ pos input.points ≡ balance ledger)
      × (drawn : List PointAllocation) × (after.allocations ≡ ledger.allocations ++ drawn)
      × IsDrawn ledger.next_id (debited_credits now input ledger) drawn
      × (sum_points drawn ≡ input.points)
unfolding insert_debit
insert_debit-exact now input ledger after h =
    let credits = debited_credits now input ledger in
    elim (Bool-cases (input.points == 0)) [
      | inl z ↦
          let same : ledger ≡ after = ground arith in
          let none : input.points ≡ 0 = ground arith in
          rw (← same) (
            omega (int_laws, none),
            [],
            sym (append-nil ledger.allocations),
            IsDrawn-nil ledger.next_id credits,
            sum_points_nil ∙ sym none,
          )
      | inr z ↦ elim (Bool-cases (ltb (available_points credits) input.points)) [
        | inl e ↦ absurd (ground arith)
        | inr e ↦
            let drawn = allocate ledger.next_id credits input.points in
            let (good, total) =
              allocate-IsDrawn ledger.next_id credits input.points (ground arith) in
            let row : PointEntry = record {
              id = ledger.next_id;
              rule = input.rule;
              sale = input.sale;
              kind = input.kind;
              points_delta = neg_ℕ input.points;
              monetary_value = input.monetary_value;
              expires_at = none;
            } in
            let same : after.entries ≡ ledger.entries ++ (row ∷ []) = ground arith in
            let taken = ap sum_deltas same ∙ sum_deltas-append ledger.entries row in
            (
              debit_sum (balance ledger) (balance after) input.points taken,
              drawn,
              ground arith,
              good,
              total,
            )
      ]
    ]

pub insert_credit-balance :
    (rule : ℕ) (sale : Option ℕ) (kind : EntryType) (points value : ℕ) (expires_at : Option ℕ)
    (ledger : Ledger)
    → balance (insert_credit rule sale kind points value expires_at ledger)
      ≡ balance ledger +ℤ pos points
unfolding insert_credit
insert_credit-balance rule sale kind points value expires_at ledger =
    elim (Bool-cases (points == 0)) [
      | inl z ↦ let none : points ≡ 0 = ground arith in rw (insert_credit, none) (omega int_laws)
      | inr z ↦
          rw (insert_credit, z)
            (sum_deltas-append ledger.entries (record {
              id = ledger.next_id;
              rule = rule;
              sale = sale;
              kind = kind;
              points_delta = pos points;
              monetary_value = value;
              expires_at = expires_at;
            }))
    ]

module _ (rule : Rule) (balance : ℤ) (total points : ℕ) (q : Quote)
    (h : quote rule balance total points ≡ ok q) where
  quote-redeemed : q.points_redeemed ≡ points
  unfolding quote
  quote-redeemed = ground arith

  quote-covered : pos points ≤ℤ balance
  unfolding quote
  quote-covered = ground arith

module _ (now : ℕ) where
  write_sale-balance :
      (input : SaleInput) (current : Quote) (ledger after : Ledger)
      → write_sale now input current ledger ≡ ok after
      → balance after +ℤ pos current.points_redeemed ≡ balance ledger +ℤ pos current.points_earned
  unfolding write_sale
  write_sale-balance input current ledger after h =
      elim (Result-cases (insert_debit now (redeem_debit input current) ledger)) [
        | inr (_, e) ↦ absurd (ground arith)
        | inl (debited, e) ↦
            let (taken, _, _, _, _) =
              insert_debit-exact now (redeem_debit input current) ledger debited e in
            let credited =
              insert_credit current.rule.id (some input.sale) earn current.points_earned input.total
                (expiry now current.rule) debited in
            let given =
              insert_credit-balance current.rule.id (some input.sale) earn current.points_earned
                input.total (expiry now current.rule) debited in
            let same : credited ≡ after = ground arith in
            rw (← same) (
              omega (
                int_laws,
                ap pos_part taken,
                ap neg_part taken,
                ap pos_part given,
                ap neg_part given,
              ))
      ]

  -- A sale that is recorded has the points of its quote: they were covered by the balance that the
  -- expirations left, and the balance changes by what is earned less what is redeemed.
  pub apply_sale-balance :
      (customer : Bool) (rule : Option Rule) (input : SaleInput) (ledger after : Ledger)
      → apply_sale customer now rule input ledger ≡ ok after
      → (expired : Ledger) × (materialize_expirations now ledger ≡ ok expired)
        × (pos input.loyalty.points_redeemed ≤ℤ balance expired)
        × (balance after +ℤ pos input.loyalty.points_redeemed
            ≡ balance expired +ℤ pos input.loyalty.points_earned)
  unfolding apply_sale
  apply_sale-balance customer rule input ledger after h =
      elim (Result-cases (materialize_expirations now ledger)) [
        | inr (_, e) ↦ absurd (ground arith)
        | inl (expired, e) ↦ elim (Option-cases (is_active rule)) [
          | inl f ↦ absurd (ground arith)
          | inr (active, f) ↦
              elim (Result-cases
                (quote active (balance expired) input.total input.loyalty.points_redeemed)) [
                  | inr (_, g) ↦ absurd (ground arith)
                  | inl (current, g) ↦
                      let written : write_sale now input current expired ≡ ok after =
                        ground arith in
                      let earned : current.points_earned ≡ input.loyalty.points_earned =
                        ground arith in
                      let redeemed : current.points_redeemed ≡ input.loyalty.points_redeemed =
                        quote-redeemed active (balance expired) input.total
                          input.loyalty.points_redeemed current g in
                      (
                        expired,
                        e,
                        quote-covered active (balance expired) input.total
                            input.loyalty.points_redeemed current g,
                        rw (← earned, ← redeemed)
                            (write_sale-balance input current expired after written),
                      )
                ]
        ]
      ]
