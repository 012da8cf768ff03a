-- ===== src/Pos/Payments/Examples.antt =====
-- Tests of the payments of src/pos/pos.service.ts, and their properties at concrete inputs.
use uinventario_api.Base.{
  ℕ, ◌≡◌, ◌≢◌, ◌⊎◌, refl, true, false, List, [], ◌∷◌, Option, none, some, ok, err, All,
}
use uinventario_api.Text.{Text}
use uinventario_api.Pos.{payment_total_mismatch, payment_declined}
use uinventario_api.Pos.Payments.{
  PaymentMethod, cash, card, SalePayment, SalePayments, PreparedPayment, PosConfig, cash_provider,
  simulator, starts_upper, is_declined, authorize, chosen_amount, require_amount, received_cents,
  terminal_or_authorize, prepare_payment, prepare_from, sum_applied, prepare_source,
  prepare_payments, is_given,
}
use uinventario_api.Pos.Payments.Sums.{
  IsCovered, prepare_payments-IsCovered, prepare_payments-configuration,
}

abbrev digest : PaymentMethod → Option Text → ℕ → ℕ → Text
digest method reference amount index = b'A' ∷ b'0' ∷ []

abbrev config : PosConfig
config = record { accepts = λ _. true; simulates = true }

abbrev in_cash : Option ℕ → ℕ → SalePayment
in_cash amount received = record {
  method = cash;
  amount = amount;
  amount_received = some received;
  reference = none;
  terminal_operation_id = none;
}

abbrev by_card : ℕ → Text → SalePayment
by_card amount reference = record {
  method = card;
  amount = some amount;
  amount_received = none;
  reference = some reference;
  terminal_operation_id = none;
}

abbrev split_payment : SalePayments
split_payment = record {
  credit = false;
  payment = none;
  payments = some (in_cash (some 500) 600 ∷ by_card 750 (b'1' ∷ b'2' ∷ []) ∷ []);
}

abbrev split_prepared : List PreparedPayment
split_prepared =
    record {
      method = cash;
      amount_received = 600;
      amount_applied = 500;
      change = 100;
      reference = none;
      terminal_operation_id = none;
      authorization = record {
        provider = cash_provider;
        provider_reference = none;
        authorization_code = none;
      };
    }
    ∷ record {
      method = card;
      amount_received = 750;
      amount_applied = 750;
      change = 0;
      reference = some (b'1' ∷ b'2' ∷ []);
      terminal_operation_id = none;
      authorization = record {
        provider = simulator;
        provider_reference = some (b'S' ∷ b'I' ∷ b'M' ∷ b'-' ∷ b'A' ∷ b'0' ∷ []);
        authorization_code = some (b'A' ∷ b'0' ∷ []);
      };
    }
    ∷ []

prepared : prepare_payments digest config split_payment 1250 ≡ ok split_prepared
unfolding prepare_payments prepare_source prepare_from prepare_payment require_amount chosen_amount
    received_cents terminal_or_authorize authorize is_declined starts_upper
prepared = refl

mismatch : prepare_payments digest config split_payment 1251 ≡ err payment_total_mismatch
unfolding prepare_payments prepare_source prepare_from prepare_payment require_amount chosen_amount
    received_cents terminal_or_authorize authorize is_declined starts_upper
mismatch = refl

declined :
    authorize digest config card
      (some (b'd' ∷ b'e' ∷ b'c' ∷ b'l' ∷ b'i' ∷ b'n' ∷ b'e' ∷ b'1' ∷ []))
      100
      0
    ≡ err payment_declined
unfolding authorize is_declined starts_upper
declined = refl

prepare_payments-IsCovered_example :
    All IsCovered split_prepared × (sum_applied split_prepared ≡ 1250)
prepare_payments-IsCovered_example =
    prepare_payments-IsCovered digest config split_payment 1250 split_prepared refl prepared

prepare_payments-configuration_example :
    ((false ≡ true)
      × (split_payment.payment ≡ none)
      × (split_payment.payments ≡ none)
      × (split_prepared ≡ []))
    ⊎ ((false ≡ false) × (is_given split_payment.payment ≢ is_given split_payment.payments))
prepare_payments-configuration_example =
    prepare_payments-configuration digest config split_payment 1250 split_prepared prepared
