-- ===== src/Pos/Discount.antt =====
-- `discountAmount` and `toPercentageBasisPoints` of src/pos/pos.service.ts.
use uinventario_api.Base.{
  ℕ, ◌+◌, ◌*◌, ◌≤◌, ◌<◌, ◌≡◌, ◌⊎◌, ◌||◌, Option, none, some, [], ◌∷◌, ltb, leb, length, Result, ok,
  ◌>>=◌, ◌>>◌, throw_if, arith,
}
use uinventario_api.Text.{Text, digits_value, pad_end, before_dot, after_dot}
use uinventario_api.Decimal.{to_money_cents, round_divide}
use uinventario_api.Pos.{PosError, sale_discount_reason_required, sale_discount_limit_exceeded}

pub data DiscountType : Type 0 where
  percent amount : DiscountType

-- `SaleDiscountDto`; the reason is held as `reason.trim()`.
pub record SaleDiscount : Type 0 where
  pub kind : DiscountType
  pub value : Text
  pub reason : Text

abbrev take_two : Text → Text
take_two (a ∷ b ∷ _) = a ∷ b ∷ []
take_two s = s

-- Hundredths of a percent; the digits after the second decimal are cut.
unfoldable pub basis_points : Text → ℕ
basis_points value =
    digits_value (before_dot value) * 100 + digits_value (take_two (pad_end 2 (after_dot value)))

unfoldable pub to_percentage_basis_points : Text → Result PosError ℕ
to_percentage_basis_points value = do
  throw_if (ltb 5000 (basis_points value)) sale_discount_limit_exceeded
  ok (basis_points value)

-- The amount before its limits are checked.
unfoldable pub raw_amount : DiscountType → Text → ℕ → Result PosError ℕ
raw_amount percent value base = do
  points ← to_percentage_basis_points value
  ok (round_divide (base * points) 10_000)
raw_amount amount value base = ok (to_money_cents value)

unfoldable pub discount_amount : Option SaleDiscount → ℕ → Result PosError ℕ
discount_amount none base = ok 0
discount_amount (some discount) base = do
  throw_if (ltb (length discount.reason) 3) sale_discount_reason_required
  cents ← raw_amount discount.kind discount.value base
  throw_if (leb cents 0 || leb base cents || ltb base (cents * 2)) sale_discount_limit_exceeded
  ok cents

-- An accepted discount is at most half of its base; one that was asked for is positive, has a
-- reason of three characters, and is either the money written in it or the percentage of the base
-- to the nearest cent, with a tie going up.
pub discount_amount_bounds :
    (discount : SaleDiscount) (base : ℕ) {cents : ℕ}
    → discount_amount (some discount) base ≡ ok cents
    → (0 < cents)
      × (cents * 2 ≤ base)
      × (3 ≤ length discount.reason)
      × (((discount.kind ≡ amount) × (cents ≡ to_money_cents discount.value))
          ⊎ ((discount.kind ≡ percent)
              × (basis_points discount.value ≤ 5000)
              × (cents * 20_000 ≤ 2 * base * basis_points discount.value + 10_000)
              × (2 * base * basis_points discount.value < cents * 20_000 + 10_001)))
unfolding discount_amount raw_amount to_percentage_basis_points round_divide
discount_amount_bounds discount base h = ground arith
