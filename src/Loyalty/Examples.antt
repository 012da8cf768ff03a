-- ===== src/Loyalty/Examples.antt =====
-- Tests of src/loyalty/loyalty.repository.ts, and its properties at concrete inputs.
use uinventario_api.Base.{
  ℕ, ◌+◌, ◌-◌, ◌≤◌, ◌≡◌, refl, true, false, List, [], ◌∷◌, ◌++◌, Option, none, some, ok, err, arith,
}
use uinventario_api.Base.Int.{pos, neg_ℕ, ◌+ℤ◌, ◌-ℤ◌, ◌≤ℤ◌}
use uinventario_api.Loyalty.{Rule, Quote, quote, prorate, insufficient_balance}
use uinventario_api.Loyalty.Bounds.{IsFair, quote-IsFair}
use uinventario_api.Loyalty.Ledger.{
  PointEntry, PointAllocation, Ledger, Debit, redeem, earn, expire, return_redeem_restore,
  return_earn_reversal, balance, sum_deltas, allocated_to, insert_by_expiry, credits_where,
  available_points, allocate, debited_credits, insert_debit, insert_credit, expire_credits,
  materialize_expirations,
}
use uinventario_api.Loyalty.Sales.{
  SaleInput, write_sale, apply_sale, Mode, void, return, SaleRow, restored_points, reversed_points,
  first_rule, target, write_compensation, compensate_sale,
}
use uinventario_api.Loyalty.Balance.{sum_points, IsDrawn, insert_debit-exact, apply_sale-balance}
use uinventario_api.Loyalty.Compensation.{write_compensation-target}
use uinventario_api.Loyalty.Reversals.{
  ReversedSale, find_return, void_not_allowed, void_sale, first_void, return_sale, first_return,
}
use uinventario_api.Loyalty.Reversals.Totals.{
  unreversed, made, continued, returned, IsUntouched, run-le,
}

-- One point for each 10.00, and 5.00 for each 100 points.
abbrev rule : Rule
rule = record {
  id = 1;
  active = true;
  earn_amount = 1000;
  earn_points = 1;
  redeem_points = 100;
  redeem_amount = 500;
  expiration_days = some 30;
}

abbrev quoted : Quote
quoted = record {
  rule = rule;
  balance_before = pos 150;
  points_redeemed = 100;
  redemption_value = 500;
  points_earned = 7;
  balance_after = pos 57;
}

quotes : quote rule (pos 150) 8000 100 ≡ ok quoted
unfolding quote ◌+ℤ◌ ◌-ℤ◌
quotes = refl

too_few : quote rule (pos 99) 8000 100 ≡ err (insufficient_balance (pos 99) 100)
unfolding quote
too_few = refl

quote-IsFair_example : IsFair rule (pos 150) 8000 100 quoted
quote-IsFair_example =
    quote-IsFair rule (pos 150) 8000 100 quoted (omega arith) (omega arith) quotes

abbrev credit : ℕ → ℕ → Option ℕ → PointEntry
credit id points expires_at = record {
  id = id;
  rule = 1;
  sale = none;
  kind = earn;
  points_delta = pos points;
  monetary_value = 0;
  expires_at = expires_at;
}

-- The second credit expires first; the third has expired.
abbrev ledger : Ledger
ledger = record {
  entries =
      credit 1 70 none
      ∷ credit 2 80 (some 900)
      ∷ credit 3 5 (some 400)
      ∷ record (credit 4 0 none) { kind = expire; points_delta = neg_ℕ 5 }
      ∷ [];
  allocations = record { debit = 4; credit = 3; points = 5 } ∷ [];
  next_id = 10;
}

abbrev redemption : Debit
redemption = record {
  rule = 1;
  sale = some 50;
  kind = redeem;
  points = 100;
  monetary_value = 500;
  credit = none;
}

abbrev redeemed_entry : PointEntry
redeemed_entry = record {
  id = 10;
  rule = 1;
  sale = some 50;
  kind = redeem;
  points_delta = neg_ℕ 100;
  monetary_value = 500;
  expires_at = none;
}

abbrev redeemed : Ledger
redeemed = record {
  entries = ledger.entries ++ (redeemed_entry ∷ []);
  allocations =
      record { debit = 4; credit = 3; points = 5 }
      ∷ record { debit = 10; credit = 2; points = 80 }
      ∷ record { debit = 10; credit = 1; points = 20 }
      ∷ [];
  next_id = 11;
}

debits : insert_debit 500 redemption ledger ≡ ok redeemed
unfolding insert_debit credits_where insert_by_expiry allocated_to available_points allocate ◌+ℤ◌
    ◌-ℤ◌
debits = refl

insert_debit-exact_example :
    (balance redeemed +ℤ pos 100 ≡ balance ledger)
    × (drawn : List PointAllocation) × (redeemed.allocations ≡ ledger.allocations ++ drawn)
    × IsDrawn 10 (debited_credits 500 redemption ledger) drawn
    × (sum_points drawn ≡ 100)
insert_debit-exact_example = insert_debit-exact 500 redemption ledger redeemed debits

abbrev sale_input : SaleInput
sale_input = record { sale = 50; total = 8000; loyalty = quoted }

abbrev sold : Ledger
sold = record redeemed {
  entries =
      redeemed.entries
      ++ (record {
        id = 11;
        rule = 1;
        sale = some 50;
        kind = earn;
        points_delta = pos 7;
        monetary_value = 8000;
        expires_at = some 2592000500;
      }
          ∷ []);
  next_id = 12;
}

sells : apply_sale true 500 (some rule) sale_input ledger ≡ ok sold
unfolding apply_sale write_sale quote expire_credits insert_debit insert_credit credits_where
    insert_by_expiry allocated_to available_points allocate sum_deltas ◌+ℤ◌ ◌-ℤ◌
sells = refl

apply_sale-balance_example :
    (expired : Ledger) × (materialize_expirations 500 ledger ≡ ok expired)
    × (pos 100 ≤ℤ balance expired)
    × (balance sold +ℤ pos 100 ≡ balance expired +ℤ pos 7)
apply_sale-balance_example = apply_sale-balance 500 true (some rule) sale_input ledger sold sells

-- A quarter of the sale has been returned.
abbrev sale_row : SaleRow
sale_row = record {
  id = 50;
  customer = true;
  total = 7500;
  points_redeemed = 100;
  points_earned = 7;
  returned = 1875;
}

abbrev reversed : Ledger
reversed = record {
  entries =
      sold.entries
      ++ (record {
        id = 12;
        rule = 1;
        sale = some 50;
        kind = return_redeem_restore;
        points_delta = pos 25;
        monetary_value = 0;
        expires_at = none;
      }
          ∷ record {
            id = 13;
            rule = 1;
            sale = some 50;
            kind = return_earn_reversal;
            points_delta = neg_ℕ 1;
            monetary_value = 0;
            expires_at = none;
          }
          ∷ []);
  allocations = redeemed.allocations ++ (record { debit = 13; credit = 11; points = 1 } ∷ []);
  next_id = 14;
}

writes : write_compensation 600 return sale_row 1 sold ≡ ok reversed
unfolding write_compensation prorate restored_points reversed_points first_rule insert_debit
    insert_credit credits_where insert_by_expiry allocated_to available_points allocate ◌+ℤ◌ ◌-ℤ◌
writes = refl

compensates : compensate_sale true 600 return sale_row sold ≡ ok reversed
unfolding compensate_sale write_compensation prorate restored_points reversed_points first_rule
    expire_credits insert_debit insert_credit credits_where insert_by_expiry allocated_to
    available_points allocate ◌+ℤ◌ ◌-ℤ◌
compensates = refl

write_compensation-target_example :
    (restored_points return 50 reversed.entries
      ≡ restored_points return 50 sold.entries
        + (target return sale_row 100 - restored_points return 50 sold.entries))
    × (reversed_points return 50 reversed.entries
        ≡ reversed_points return 50 sold.entries
          + (target return sale_row 7 - reversed_points return 50 sold.entries))
write_compensation-target_example =
    write_compensation-target 600 return sale_row 1 sold reversed writes

-- The sale before it is reversed, and after a quarter of it has come back.
abbrev made_sale : ReversedSale
made_sale = unreversed (record sale_row { returned = 0 }) sold

abbrev returned_sale : ReversedSale
returned_sale = record {
  row = sale_row;
  voided_by = none;
  returns = (90, 91) ∷ [];
  ledger = reversed;
}

returns_quarter : return_sale true 600 90 91 1875 made_sale ≡ ok (returned_sale, false)
unfolding return_sale first_return find_return compensate_sale write_compensation prorate
    restored_points reversed_points first_rule expire_credits insert_debit insert_credit
    credits_where insert_by_expiry allocated_to available_points allocate ◌+ℤ◌ ◌-ℤ◌
returns_quarter = refl

-- The return is answered again under its key, and the sale is no longer voided.
then_refused :
    (return_sale true 700 90 91 1875 returned_sale ≡ ok (returned_sale, true))
    × (void_sale true 700 92 93 returned_sale ≡ err void_not_allowed)
unfolding return_sale find_return void_sale first_void
then_refused = (refl, refl)

untouched : (mode : Mode) → IsUntouched mode made_sale
unfolding restored_points reversed_points
untouched void = (refl, refl)
untouched return = (refl, refl)

run-le_example :
    (restored_points void 50 reversed.entries + restored_points return 50 reversed.entries ≤ 100)
    × (reversed_points void 50 reversed.entries + reversed_points return 50 reversed.entries ≤ 7)
    × (false ≡ false)
run-le_example = run-le (
    continued (made (record sale_row { returned = 0 }) sold (untouched void) (untouched return))
      (returned true 600 90 91 1875 made_sale returned_sale false returns_quarter))
