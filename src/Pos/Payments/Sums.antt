-- ===== src/Pos/Payments/Sums.antt =====
-- Accepted payments cover the sale exactly.
use uinventario_api.Base.{
  ℕ, ◌+◌, ◌<◌, ◌≡◌, ◌≢◌, refl, true, false, Option, none, List, [], ◌∷◌, arith, All, length, ok,
  Result-cases, Option-cases, ◌⊎◌, inl, inr,
}
use uinventario_api.Text.{Text}
use uinventario_api.Pos.Payments.{
  PaymentMethod, SalePayment, SalePayments, PreparedPayment, PosConfig, is_given, prepare_payment,
  prepare_from, require_amount, received_cents, prepare_source, prepare_payments, sum_applied,
  is_cash,
}

-- A payment that may be recorded: a positive amount is applied, what was received covers it, the
-- change is the difference, only cash gives change, and cash has no reference.
pub record IsCovered (p : PreparedPayment) : Type 0 where
  pub positive : 0 < p.amount_applied
  pub change_eq : p.amount_applied + p.change ≡ p.amount_received
  pub change_cash : is_cash p.method ≡ false → p.change ≡ 0
  pub cash_reference : is_cash p.method ≡ true → p.reference ≡ none
  pub traceable :
      is_cash p.method ≡ false → p.reference ≡ none → is_given p.terminal_operation_id ≡ true

module _ (digest : PaymentMethod → Option Text → ℕ → ℕ → Text) (config : PosConfig) where
  prepare_payment-IsCovered :
      (count total index : ℕ) (payment : SalePayment) (p : PreparedPayment)
      → prepare_payment digest config count total index payment ≡ ok p
      → IsCovered p
  unfolding prepare_payment require_amount received_cents
  prepare_payment-IsCovered count total index payment p h = record {
    positive = ground arith;
    change_eq = ground arith;
    change_cash = ground arith;
    cash_reference = ground arith;
    traceable = ground arith;
  }

  prepare_from-IsCovered :
      (count total index : ℕ) (source : List SalePayment) (ps : List PreparedPayment)
      → prepare_from digest config count total index source ≡ ok ps
      → All IsCovered ps × (length ps ≡ length source)
  unfolding prepare_from
  prepare_from-IsCovered count total index [] ps h =
      let e : ps ≡ [] = ground arith in rw e (tt, refl)
  prepare_from-IsCovered count total index (payment ∷ source) ps h =
      elim (Result-cases (prepare_payment digest config count total index payment)) [
        | inr (_, e) ↦ absurd (ground arith)
        | inl (p, e) ↦
            elim (Result-cases (prepare_from digest config count total (index + 1) source)) [
              | inr (_, f) ↦ absurd (ground arith)
              | inl (rest, f) ↦
                  let (covered, long) =
                    prepare_from-IsCovered count total (index + 1) source rest f in
                  let both : ps ≡ p ∷ rest = ground arith in
                  rw both (
                    (prepare_payment-IsCovered count total index payment p e, covered),
                    omega (arith, long),
                  )
            ]
      ]

  prepare_source-IsCovered :
      (source : List SalePayment) (total : ℕ) (ps : List PreparedPayment)
      → prepare_source digest config source total ≡ ok ps
      → All IsCovered ps × (sum_applied ps ≡ total) × (length ps ≡ length source)
  unfolding prepare_source
  prepare_source-IsCovered source total ps h =
      elim (Result-cases (prepare_from digest config (length source) total 0 source)) [
        | inr (_, e) ↦ absurd (ground arith)
        | inl (qs, e) ↦
            let same : qs ≡ ps = ground arith in
            let exact : sum_applied qs ≡ total = ground arith in
            let (covered, long) = prepare_from-IsCovered (length source) total 0 source qs e in
            rw (← same) (covered, exact, long)
      ]

  -- Payments that are accepted for a sale that is not on credit apply exactly its total, and each of
  -- them may be recorded.
  pub prepare_payments-IsCovered :
      (dto : SalePayments) (total : ℕ) (ps : List PreparedPayment)
      → dto.credit ≡ false
      → prepare_payments digest config dto total ≡ ok ps
      → All IsCovered ps × (sum_applied ps ≡ total)
  unfolding prepare_payments
  prepare_payments-IsCovered dto total ps c h = elim (Option-cases dto.payments) [
    | inl none_given ↦ elim (Option-cases dto.payment) [
      | inl e ↦ absurd (ground arith)
      | inr (payment, e) ↦
          let (covered, exact, _) =
            prepare_source-IsCovered (payment ∷ []) total ps (ground arith) in
          (covered, exact)
    ]
    | inr (payments, e) ↦
        let (covered, exact, _) = prepare_source-IsCovered payments total ps (ground arith) in
        (covered, exact)
  ]

  -- A sale on credit takes no payment, and any other sale takes either one payment or a list of them.
  pub prepare_payments-configuration :
      (dto : SalePayments) (total : ℕ) (ps : List PreparedPayment)
      → prepare_payments digest config dto total ≡ ok ps
      → ((dto.credit ≡ true) × (dto.payment ≡ none) × (dto.payments ≡ none) × (ps ≡ []))
        ⊎ ((dto.credit ≡ false) × (is_given dto.payment ≢ is_given dto.payments))
  unfolding prepare_payments
  prepare_payments-configuration dto total ps h = ground arith
