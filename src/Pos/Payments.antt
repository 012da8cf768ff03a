-- ===== src/Pos/Payments.antt =====
-- `preparePayments` of src/pos/pos.service.ts, with the authorization of
-- src/pos/payment-authorization.service.ts.
pub mod Sums
mod Examples
use uinventario_api.Base.{
  ℕ, zero, suc, ◌+◌, ◌-◌, Bool, true, false, not, ◌&&◌, ◌||◌, Option, none, some, List, [], ◌∷◌,
  ltb, leb, ◌==◌, if◌then◌else◌, length, Result, ok, err, ◌>>=◌, ◌>>◌, throw_if,
}
use uinventario_api.Text.{Text}
use uinventario_api.Pos.{
  PosError, payment_configuration_invalid, payment_amount_invalid, payment_fields_invalid,
  cash_received_required, payment_reference_required, insufficient_cash_received,
  payment_total_mismatch, payment_method_unavailable, payment_declined,
}

pub data PaymentMethod : Type 0 where
  cash card transfer voucher : PaymentMethod

-- `SalePaymentDto`, with the money in cents; a reference has at least four characters (its DTO).
pub record SalePayment : Type 0 where
  pub method : PaymentMethod
  pub amount : Option ℕ
  pub amount_received : Option ℕ
  pub reference : Option Text
  pub terminal_operation_id : Option ℕ

-- The part of `CreateSaleDto` about payments.
pub record SalePayments : Type 0 where
  pub credit : Bool
  pub payment : Option SalePayment
  pub payments : Option (List SalePayment)

pub data Provider : Type 0 where
  cash_provider simulator terminal : Provider

pub record Authorization : Type 0 where
  pub provider : Provider
  pub provider_reference : Option Text
  pub authorization_code : Option Text

pub record PreparedPayment : Type 0 where
  pub method : PaymentMethod
  pub amount_received : ℕ
  pub amount_applied : ℕ
  pub change : ℕ
  pub reference : Option Text
  pub terminal_operation_id : Option ℕ
  pub authorization : Authorization

-- `posConfig`
pub record PosConfig : Type 0 where
  pub accepts : PaymentMethod → Bool
  pub simulates : Bool

abbrev pub is_cash : PaymentMethod → Bool
is_cash cash = true
is_cash _ = false

abbrev pub is_card : PaymentMethod → Bool
is_card card = true
is_card _ = false

abbrev pub is_given {ℓ} : {A : Type ℓ} → Option A → Bool
is_given none = false
is_given (some _) = true

abbrev upper : ℕ → ℕ
upper c = if leb b'a' c && leb c b'z' then c - 32 else c

unfoldable pub starts_upper : Text → Text → Bool
starts_upper [] s = true
starts_upper (p ∷ ps) [] = false
starts_upper (p ∷ ps) (c ∷ cs) = p == upper c && starts_upper ps cs

-- `!reference || reference.toUpperCase().startsWith('DECLINE')`
unfoldable pub is_declined : Option Text → Bool
is_declined none = true
is_declined (some reference) =
    starts_upper (b'D' ∷ b'E' ∷ b'C' ∷ b'L' ∷ b'I' ∷ b'N' ∷ b'E' ∷ []) reference

abbrev take : ℕ → Text → Text
take zero s = []
take (suc n) [] = []
take (suc n) (c ∷ cs) = c ∷ take n cs

abbrev pub sum_applied : List PreparedPayment → ℕ
sum_applied [] = 0
sum_applied (p ∷ ps) = p.amount_applied + sum_applied ps

-- `digest` stands for the first 16 digits of the SHA-256 of the request: of the method, the
-- reference, the amount and the index of the payment, under the currency and the key of the sale.
module _ (digest : PaymentMethod → Option Text → ℕ → ℕ → Text) (config : PosConfig) where
  unfoldable pub authorize : PaymentMethod → Option Text → ℕ → ℕ → Result PosError Authorization
  authorize method reference amount index = do
    throw_if (not (config.accepts method)) payment_method_unavailable
    let code = digest method reference amount index
    if is_cash method
        then ok (record {
          provider = cash_provider;
          provider_reference = none;
          authorization_code = none;
        })
        else if not config.simulates
        then err payment_method_unavailable
        else if is_declined reference
        then err payment_declined
        else ok (record {
          provider = simulator;
          provider_reference = some (b'S' ∷ b'I' ∷ b'M' ∷ b'-' ∷ code);
          authorization_code = some (take 8 code);
        })

  -- `payment.amount ?? (source.length === 1 ? total : undefined)`
  unfoldable pub chosen_amount : SalePayment → ℕ → ℕ → Option ℕ
  chosen_amount payment count total = elim payment.amount [
    | some amount ↦ some amount
    | none ↦ if count == 1 then some total else none
  ]

  -- `!amount || toMoneyCents(amount) <= 0n`
  unfoldable pub require_amount : Option ℕ → Result PosError ℕ
  require_amount none = err payment_amount_invalid
  require_amount (some amount) = if amount == 0 then err payment_amount_invalid else ok amount

  unfoldable pub received_cents : SalePayment → ℕ → ℕ
  received_cents payment amount = elim payment.amount_received [
    | none ↦ amount
    | some received ↦ if is_cash payment.method then received else amount
  ]

  unfoldable pub terminal_or_authorize : SalePayment → ℕ → ℕ → Result PosError Authorization
  terminal_or_authorize payment amount index =
      if is_given payment.terminal_operation_id
      then ok (record { provider = terminal; provider_reference = none; authorization_code = none })
      else authorize payment.method payment.reference amount index

  -- The body of the `map`, for the payment at `index` of `count`.
  unfoldable pub prepare_payment : ℕ → ℕ → ℕ → SalePayment → Result PosError PreparedPayment
  prepare_payment count total index payment = do
    amount ← require_amount (chosen_amount payment count total)
    let in_cash = is_cash payment.method
    let uses_terminal = is_given payment.terminal_operation_id
    throw_if
        ((in_cash && is_given payment.reference)
          || (not in_cash && is_given payment.amount_received)
          || (uses_terminal && (not (is_card payment.method) || is_given payment.reference)))
        payment_fields_invalid
    throw_if (in_cash && not (is_given payment.amount_received)) cash_received_required
    throw_if (not in_cash && not (is_given payment.reference) && not uses_terminal)
        payment_reference_required
    let received = received_cents payment amount
    throw_if (ltb received amount) insufficient_cash_received
    authorization ← terminal_or_authorize payment amount index
    ok (record {
      method = payment.method;
      amount_received = received;
      amount_applied = amount;
      change = received - amount;
      reference = if in_cash then none else payment.reference;
      terminal_operation_id = payment.terminal_operation_id;
      authorization = authorization;
    })

  unfoldable pub prepare_from :
      ℕ → ℕ → ℕ → List SalePayment → Result PosError (List PreparedPayment)
  prepare_from count total index [] = ok []
  prepare_from count total index (payment ∷ payments) = do
    prepared ← prepare_payment count total index payment
    rest ← prepare_from count total (index + 1) payments
    ok (prepared ∷ rest)

  unfoldable pub prepare_source : List SalePayment → ℕ → Result PosError (List PreparedPayment)
  prepare_source source total = do
    payments ← prepare_from (length source) total 0 source
    throw_if (not (sum_applied payments == total)) payment_total_mismatch
    ok payments

  unfoldable pub prepare_payments : SalePayments → ℕ → Result PosError (List PreparedPayment)
  prepare_payments dto total =
      if dto.credit
      then (if is_given dto.payment || is_given dto.payments
          then err payment_configuration_invalid
          else ok [])
      else elim dto.payments [
        | none ↦ elim dto.payment [
          | none ↦ err payment_configuration_invalid
          | some payment ↦ prepare_source (payment ∷ []) total
        ]
        | some payments ↦
            if is_given dto.payment
            then err payment_configuration_invalid
            else prepare_source payments total
      ]
