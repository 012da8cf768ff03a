-- ===== src/Loyalty.antt =====
-- The loyalty programme: src/loyalty/loyalty.repository.ts. Money is in cents.
pub mod Ledger
pub mod Sales
pub mod Bounds
pub mod Balance
pub mod Compensation
pub mod Reversals
mod Examples
use uinventario_api.Base.{
  ℕ, ◌+◌, ◌-◌, ◌*◌, ◌/◌, ◌%◌, Bool, true, false, not, ◌&&◌, Option, ltb, leb, ◌==◌, if◌then◌else◌,
  Result, ok, err, ◌>>=◌, ◌>>◌, throw_if,
}
use uinventario_api.Base.Int.{ℤ, pos, ◌+ℤ◌, ◌-ℤ◌, ltb_ℤ}

pub data LoyaltyError : Type 0 where
  not_active invalid_redemption_increment : LoyaltyError
  redemption_must_leave_payable_balance rule_changed customer_not_available : LoyaltyError
  insufficient_balance : ℤ → ℕ → LoyaltyError

-- `LoyaltyRuleData`; its amounts and numbers of points are positive.
pub record Rule : Type 0 where
  pub id : ℕ
  pub active : Bool
  pub earn_amount : ℕ
  pub earn_points : ℕ
  pub redeem_points : ℕ
  pub redeem_amount : ℕ
  pub expiration_days : Option ℕ

-- `LoyaltyQuoteData`
pub record Quote : Type 0 where
  pub rule : Rule
  pub balance_before : ℤ
  pub points_redeemed : ℕ
  pub redemption_value : ℕ
  pub points_earned : ℕ
  pub balance_after : ℤ

-- `redemptionCents`
abbrev pub redemption_cents : Rule → ℕ → ℕ
redemption_cents rule points = points / rule.redeem_points * rule.redeem_amount

abbrev pub earned_points : Rule → ℕ → ℕ
earned_points rule payable = payable / rule.earn_amount * rule.earn_points

unfoldable pub quote : Rule → ℤ → ℕ → ℕ → Result LoyaltyError Quote
quote rule balance total points = do
  throw_if (ltb_ℤ balance (pos points)) (insufficient_balance balance points)
  throw_if (not (points % rule.redeem_points == 0)) invalid_redemption_increment
  let redemption = redemption_cents rule points
  throw_if (leb total redemption && ltb 0 redemption) redemption_must_leave_payable_balance
  let earned = earned_points rule (total - redemption)
  ok (record {
    rule = rule;
    balance_before = balance;
    points_redeemed = points;
    redemption_value = redemption;
    points_earned = earned;
    balance_after = balance -ℤ pos points +ℤ pos earned;
  })

-- The share of the points for the part of a total, rounded down.
unfoldable pub prorate : ℕ → ℕ → ℕ → ℕ
prorate points part total =
    if total == 0
    then 0
    else if part == 0
    then 0
    else if leb total part
    then points
    else points * part / total
