-- ===== src/Inventory/Rounding.antt =====
-- The rounded division of src/inventory/inventory-valuation.ts, src/inventory/inventory-fifo-valuation.ts
-- and src/inventory/inventory-valuation-policy.ts. Quantities are in thousandths, costs and values in
-- ten-thousandths.
use uinventario_api.Base.{
  ℕ, ◌+◌, ◌*◌, ◌/◌, ◌%◌, ◌≤◌, ◌<◌, leb, if◌then◌else◌, arith, ◌≡◌, refl, Result, ok, err,
}
use uinventario_api.Base.Int.{
  ℤ, pos, abs, with_sign, is_neg, neg_ℕ, ltb_ℤ, leb_ℤ, ◌*ℤ◌, abs-with_sign,
}

abbrev pub quantity_scale : ℕ
quantity_scale = 1000

-- `quotient` and `rounded` of `divideRounded`, of its `absolute` and a divisor that is not zero.
unfoldable pub rounded_quotient : ℕ → ℕ → ℕ
rounded_quotient numerator denominator =
    let quotient = numerator / denominator in
    let remainder = numerator % denominator in
    if leb denominator (remainder * 2) then quotient + 1 else quotient

pub data DivisorError : Type 0 where
  invalid_divisor : DivisorError

-- `divideRounded`
unfoldable pub divide_rounded : ℤ → ℤ → Result DivisorError ℤ
divide_rounded numerator denominator =
    if leb_ℤ denominator (pos 0)
    then err invalid_divisor
    else (let negative = ltb_ℤ numerator (pos 0) in
        let rounded = rounded_quotient (abs numerator) (abs denominator) in
        ok (if negative then neg_ℕ rounded else pos rounded))

-- `quantityValue(quantity, unitCost)`: half away from zero, whatever the sign of the quantity.
unfoldable pub quantity_value : ℤ → ℕ → ℤ
quantity_value quantity unit_cost =
    with_sign (is_neg quantity) (rounded_quotient (abs quantity * unit_cost) quantity_scale)

-- By a positive divisor, the quotient is the nearest; a tie goes up.
pub rounded_quotient_nearest :
    (n d : ℕ)
    → 0 < d
    → (2 * d * rounded_quotient n d ≤ 2 * n + d) × (2 * n < 2 * d * rounded_quotient n d + d)
unfolding rounded_quotient
rounded_quotient_nearest n d h = grind arith

-- Where the numerator is not negative and the divisor is positive, as in the costs of a movement,
-- `divideRounded` is that quotient.
divide_rounded-pos :
    (n d : ℕ) → 0 < d → divide_rounded (pos n) (pos d) ≡ ok (pos (rounded_quotient n d))
unfolding divide_rounded
divide_rounded-pos n d h = ground arith

-- `quantityValue` is `divideRounded` of the product, whatever the sign of the quantity.
divide_rounded-value :
    (quantity : ℤ) (unit_cost : ℕ)
    → divide_rounded (quantity *ℤ pos unit_cost) (pos quantity_scale)
      ≡ ok (quantity_value quantity unit_cost)
unfolding divide_rounded quantity_value ◌*ℤ◌ rounded_quotient
divide_rounded-value quantity unit_cost = grind arith

-- `divideRounded` accepts every positive divisor. Its result has the sign of the numerator, or is zero, and
-- its size is the integer nearest to the size of the quotient; a tie goes away from zero.
pub divide_rounded_nearest :
    (n : ℤ) (d : ℕ)
    → 0 < d
    → (r : ℤ) × (divide_rounded n (pos d) ≡ ok r)
      × (r ≡ with_sign (is_neg n) (abs r))
      × (2 * d * abs r ≤ 2 * abs n + d)
      × (2 * abs n < 2 * d * abs r + d)
unfolding divide_rounded
divide_rounded_nearest n d h =
    let size = rounded_quotient (abs n) d in
    let is_size : abs (with_sign (is_neg n) size) ≡ size = abs-with_sign (is_neg n) size in
    let (low, near) = rounded_quotient_nearest (abs n) d h in
    (with_sign (is_neg n) size, ground arith, rw is_size refl, rw is_size low, rw is_size near)
