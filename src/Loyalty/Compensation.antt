-- ===== src/Loyalty/Compensation.antt =====
-- What the reversals of a sale of one mode give back and take away.
use uinventario_api.Base.{
  ℕ, ◌+◌, ◌-◌, ◌≤◌, ◌≡◌, refl, sym, ap, ◌∙◌, Bool, true, not, ◌&&◌, ◌||◌, inl, inr, ◌==◌,
  if◌then◌else◌, arith, ok, Bool-cases, Result-cases, Option-cases, none, some, List, [], ◌∷◌, ◌++◌,
}
use uinventario_api.Base.Int.{pos, neg_ℕ, pos_part, neg_part}
use uinventario_api.Loyalty.Bounds.{prorate-le}
use uinventario_api.Loyalty.Ledger.{
  PointEntry, Ledger, Credit, Debit, insert_debit, insert_credit, expiration, expire_credits,
  materialize_expirations, expired_credits,
}
use uinventario_api.Loyalty.Sales.{
  Mode, void, return, is_restore, is_reversal, restore_type, reversal_type, is_source, of_sale,
  restored_points, reversed_points, first_rule, is_redeem, is_earn, SaleRow, target, or_rule,
  reversal_debit, write_compensation, compensate_sale,
}

-- What one entry counts for.
abbrev restores : Mode → ℕ → PointEntry → ℕ
restores mode sale e =
    if of_sale sale e && is_restore mode e.kind then pos_part e.points_delta else 0

abbrev reverses : Mode → ℕ → PointEntry → ℕ
reverses mode sale e =
    if of_sale sale e && is_reversal mode e.kind then neg_part e.points_delta else 0

-- The row of a debit.
abbrev row_of : ℕ → Debit → PointEntry
row_of id input = record {
  id = id;
  rule = input.rule;
  sale = input.sale;
  kind = input.kind;
  points_delta = neg_ℕ input.points;
  monetary_value = input.monetary_value;
  expires_at = none;
}

add-if_zero : (b : Bool) (m n : ℕ) → n ≡ 0 → m ≡ m + (if b then n else 0)
add-if_zero b m n h = ground arith

module _ (mode : Mode) (sale : ℕ) where
  pub restored_points-append :
      (xs : List PointEntry) (e : PointEntry)
      → restored_points mode sale (xs ++ (e ∷ []))
        ≡ restored_points mode sale xs + restores mode sale e
  unfolding restored_points
  restored_points-append [] e = ground arith
  restored_points-append (x ∷ xs) e =
      let rest = restored_points-append xs e in
      elim (Bool-cases (of_sale sale x && is_restore mode x.kind)) [
        | inl t ↦ rw t (omega (arith, rest))
        | inr f ↦ rw f rest
      ]

  pub reversed_points-append :
      (xs : List PointEntry) (e : PointEntry)
      → reversed_points mode sale (xs ++ (e ∷ []))
        ≡ reversed_points mode sale xs + reverses mode sale e
  unfolding reversed_points
  reversed_points-append [] e = ground arith
  reversed_points-append (x ∷ xs) e =
      let rest = reversed_points-append xs e in
      elim (Bool-cases (of_sale sale x && is_reversal mode x.kind)) [
        | inl t ↦ rw t (omega (arith, rest))
        | inr f ↦ rw f rest
      ]

  -- A debit restores nothing, and reverses its points if it is a reversal for the sale.
  pub debit-points :
      (now : ℕ) (input : Debit) (ledger after : Ledger)
      → insert_debit now input ledger ≡ ok after
      → (restored_points mode sale after.entries ≡ restored_points mode sale ledger.entries)
        × (reversed_points mode sale after.entries
            ≡ reversed_points mode sale ledger.entries
              + (if of_sale sale (row_of ledger.next_id input) && is_reversal mode input.kind
                  then input.points
                  else 0))
  unfolding insert_debit
  debit-points now input ledger after h = elim (Bool-cases (input.points == 0)) [
    | inl z ↦
        let same : ledger ≡ after = ground arith in
        let nothing : input.points ≡ 0 = ground arith in
        rw (← same) (
          refl,
          add-if_zero (of_sale sale (row_of ledger.next_id input) && is_reversal mode input.kind)
              (reversed_points mode sale ledger.entries) input.points nothing,
        )
    | inr z ↦
        let row = row_of ledger.next_id input in
        let same : after.entries ≡ ledger.entries ++ (row ∷ []) = ground arith in
        let minus : neg_part (neg_ℕ input.points) ≡ input.points = ground arith in
        let plus : pos_part (neg_ℕ input.points) ≡ 0 = ground arith in
        rw same (
          restored_points-append ledger.entries row
              ∙ sym (
                  add-if_zero (of_sale sale row && is_restore mode input.kind)
                    (restored_points mode sale ledger.entries) (pos_part (neg_ℕ input.points))
                    plus),
          reversed_points-append ledger.entries row
              ∙ ap
                  (λ n.
                    reversed_points mode sale ledger.entries
                    + (if of_sale sale row && is_reversal mode input.kind then n else 0))
                  minus,
        )
  ]

  -- A credit reverses nothing, and restores its points if it is a restoration for the sale.
  credit-points :
      (rule points : ℕ) (ledger : Ledger)
      → let after = insert_credit rule (some sale) (restore_type mode) points 0 none ledger in
        (restored_points mode sale after.entries
          ≡ restored_points mode sale ledger.entries + points)
        × (reversed_points mode sale after.entries ≡ reversed_points mode sale ledger.entries)
  unfolding insert_credit
  credit-points rule points ledger = elim (Bool-cases (points == 0)) [
    | inl z ↦ let nothing : points ≡ 0 = ground arith in rw nothing (omega arith, refl)
    | inr z ↦
        let row : PointEntry = record {
          id = ledger.next_id;
          rule = rule;
          sale = some sale;
          kind = restore_type mode;
          points_delta = pos points;
          monetary_value = 0;
          expires_at = none;
        } in
        let mine : (sale == sale) ≡ true = ground arith in
        let kind : is_restore mode (restore_type mode) ≡ true =
          elim mode as (λ m. is_restore m (restore_type m) ≡ true) [
            | void ↦ refl
            | return ↦ refl
          ] in
        rw (insert_credit, z)
          (
            restored_points-append ledger.entries row ∙ ground (arith, mine, kind),
            reversed_points-append ledger.entries row ∙ ground (arith, mine, kind),
          )
  ]

  pub expirations-points :
      (now : ℕ) (credits : List Credit) (ledger after : Ledger)
      → expire_credits now credits ledger ≡ ok after
      → (restored_points mode sale after.entries ≡ restored_points mode sale ledger.entries)
        × (reversed_points mode sale after.entries ≡ reversed_points mode sale ledger.entries)
  unfolding expire_credits
  expirations-points now [] ledger after h =
      let same : ledger ≡ after = ground arith in rw same (refl, refl)
  expirations-points now (c ∷ cs) ledger after h =
      elim (Result-cases (insert_debit now (expiration c) ledger)) [
        | inr (_, e) ↦ absurd (ground arith)
        | inl (expired, e) ↦
            let (r, v) = debit-points now (expiration c) ledger expired e in
            let (rs, vs) = expirations-points now cs expired after (ground arith) in
            (rs ∙ r, omega (arith, v, vs))
      ]

-- What is written, if it is accepted, brings the points restored and reversed for the sale up to their
-- targets, and leaves them where they are above.
pub write_compensation-target :
    (now : ℕ) (mode : Mode) (sale : SaleRow) (first : ℕ) (ledger after : Ledger)
    → write_compensation now mode sale first ledger ≡ ok after
    → let restored = restored_points mode sale.id ledger.entries in
      let reversed = reversed_points mode sale.id ledger.entries in
      (restored_points mode sale.id after.entries
        ≡ restored + (target mode sale sale.points_redeemed - restored))
      × (reversed_points mode sale.id after.entries
          ≡ reversed + (target mode sale sale.points_earned - reversed))
unfolding write_compensation
write_compensation-target now mode sale first ledger after h =
    let entries = ledger.entries in
    let restore = target mode sale sale.points_redeemed - restored_points mode sale.id entries in
    let reverse = target mode sale sale.points_earned - reversed_points mode sale.id entries in
    let rule = or_rule (first_rule is_redeem sale.id entries) first in
    let earn_rule = or_rule (first_rule is_earn sale.id entries) first in
    let credited = insert_credit rule (some sale.id) (restore_type mode) restore 0 none ledger in
    let (r, v) = credit-points mode sale.id rule restore ledger in
    let debit = reversal_debit mode sale earn_rule reverse in
    let (rd, vd) = debit-points mode sale.id now debit credited after h in
    let mine : (sale.id == sale.id) ≡ true = ground arith in
    let kind : is_reversal mode (reversal_type mode) ≡ true =
      elim mode as (λ m. is_reversal m (reversal_type m) ≡ true) [ void ↦ refl | return ↦ refl ] in
    (rd ∙ r, vd ∙ ground (arith, mine, kind, v))

target-le : (mode : Mode) (sale : SaleRow) (points : ℕ) → target mode sale points ≤ points
target-le void sale points = omega arith
target-le return sale points = prorate-le points sale.returned sale.total

-- If in one way, by voids or by returns, no more points were given back for a sale than it redeemed, and no
-- more taken than it earned, then this is so for that way after an accepted reversal of that way.
pub compensate_sale-le :
    (customer : Bool) (now : ℕ) (mode : Mode) (sale : SaleRow) (ledger after : Ledger)
    → compensate_sale customer now mode sale ledger ≡ ok after
    → restored_points mode sale.id ledger.entries ≤ sale.points_redeemed
    → reversed_points mode sale.id ledger.entries ≤ sale.points_earned
    → (restored_points mode sale.id after.entries ≤ sale.points_redeemed)
      × (reversed_points mode sale.id after.entries ≤ sale.points_earned)
unfolding compensate_sale
compensate_sale-le customer now mode sale ledger after h low_r low_v =
    elim (Bool-cases
      (not sale.customer || (sale.points_redeemed == 0 && sale.points_earned == 0))) [
        | inl e ↦ let same : ledger ≡ after = ground arith in rw (← same) (low_r, low_v)
        | inr e ↦ elim (Result-cases (materialize_expirations now ledger)) [
          | inr (_, f) ↦ absurd (ground arith)
          | inl (expired, f) ↦
              let (r, v) =
                expirations-points mode sale.id now (expired_credits now ledger) ledger expired f in
              elim (Option-cases (first_rule is_source sale.id expired.entries)) [
                | inl g ↦
                    let same : expired ≡ after = ground arith in
                    rw (← same) (omega (arith, r, low_r), omega (arith, v, low_v))
                | inr (first, g) ↦
                    let (rs, vs) =
                      write_compensation-target now mode sale first expired after (ground arith) in
                    let top_r = target-le mode sale sale.points_redeemed in
                    let top_v = target-le mode sale sale.points_earned in
                    (omega (arith, r, low_r, rs, top_r), omega (arith, v, low_v, vs, top_v))
              ]
        ]
      ]
