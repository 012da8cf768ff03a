-- ===== src/QuantityPolicy.antt =====
-- Product quantities: src/common/quantity-policy.ts. A quantity travels as a decimal string with at
-- most three decimals and is computed as an integer of thousandths.
pub mod Format
pub mod Rounding
pub mod Normalize
mod Examples
use uinventario_api.Base.{
  ℕ, suc, ◌+◌, ◌*◌, ◌/◌, ◌%◌, Bool, true, false, not, ◌&&◌, ◌||◌, Option, none, some, List, [], ◌∷◌,
  ◌++◌, ltb, leb, ◌==◌, if◌then◌else◌, length, all, Result, ok, err, ◌>>=◌, ◌>>◌, throw_if,
}
use uinventario_api.Base.Int.{
  ℤ, pos, negsuc, pos_part, neg_part, abs, sub_ℕ, neg_ℕ, with_sign, is_neg, ltb_ℤ, leb_ℤ, eqb_ℤ,
}
use uinventario_api.Text.Digits.{starts_nonzero}
use uinventario_api.Text.{
  Text, is_digit, digits_value, show_ℕ, pad_end, pad_start, before_dot, after_dot, starts_minus,
  drop_minus,
}

pub data ProductBaseUnit : Type 0 where
  unit kilogram gram liter milliliter meter centimeter : ProductBaseUnit

pub data QuantityRoundingMode : Type 0 where
  half_up down up : QuantityRoundingMode

-- What the untyped values of a request may be: `none` is a value that is not in the list of units
-- or modes, or, for the precision, a number that is not an integer.
pub record ProductQuantityPolicy : Type 0 where
  pub base_unit : Option ProductBaseUnit
  pub precision : Option ℤ
  pub rounding : Option QuantityRoundingMode
  pub minimum_quantity : Text

-- The exceptions, by their codes; `type_error` is that of BigInt arithmetic with `undefined`.
pub data QuantityError : Type 0 where
  invalid_quantity invalid_policy type_error : QuantityError
  below_minimum : Text → QuantityError

abbrev pub scale : ℕ
scale = 1000

-- What `(?:\.\d{1,3})?$` matches.
unfoldable pub is_fraction_part : Text → Bool
is_fraction_part [] = true
is_fraction_part (c ∷ cs) = c == b'.' && leb 1 (length cs) && leb (length cs) 3 && all is_digit cs

-- What `(?:0|[1-9]\d{0,11})` matches.
unfoldable pub is_whole_part : Text → Bool
is_whole_part [] = false
is_whole_part (c ∷ cs) =
    (c == b'0' && length cs == 0)
    || (starts_nonzero (c ∷ cs) && all is_digit cs && leb (length cs) 11)

-- The text from the first dot on.
unfoldable pub from_dot : Text → Text
from_dot [] = []
from_dot (c ∷ cs) = if c == b'.' then c ∷ cs else from_dot cs

-- `QUANTITY_PATTERN.test(value)`
unfoldable pub is_quantity : Text → Bool
is_quantity value =
    let unsigned = drop_minus value in
    is_whole_part (before_dot unsigned) && is_fraction_part (from_dot unsigned)

unfoldable pub quantity_to_units : Text → Result QuantityError ℤ
quantity_to_units value = do
  throw_if (not (is_quantity value)) invalid_quantity
  let negative = starts_minus value
  let unsigned = drop_minus value
  let whole = before_dot unsigned
  let fraction = after_dot unsigned
  ok (with_sign negative (digits_value whole * scale + digits_value (pad_end 3 fraction)))

unfoldable pub quantity_from_units : ℤ → Text
quantity_from_units units =
    let sign = if is_neg units then b'-' ∷ [] else [] in
    let absolute = abs units in
    sign ++ (show_ℕ (absolute / scale) ++ b'.' ∷ pad_start 3 (show_ℕ (absolute % scale)))

-- `[1000n, 100n, 10n, 1n][precision]`, where `none` is `undefined`.
abbrev pub quantum_of : Option ℤ → Option ℕ
quantum_of (some (pos n)) =
    if n == 0
    then some 1000
    else if n == 1
    then some 100
    else if n == 2
    then some 10
    else if n == 3
    then some 1
    else none
quantum_of _ = none

abbrev pub is_mode : QuantityRoundingMode → Option QuantityRoundingMode → Bool
is_mode half_up (some half_up) = true
is_mode down (some down) = true
is_mode up (some up) = true
is_mode _ _ = false

-- The increment of the quotient, as `roundUnits` decides it by the remainder.
unfoldable pub increment : ℕ → Option QuantityRoundingMode → ℕ → ℕ
increment quantum mode remainder =
    if remainder == 0
    then 0
    else if is_mode up mode || (is_mode half_up mode && leb quantum (remainder * 2))
    then 1
    else 0

-- `roundUnits` once the quantum is known.
unfoldable pub round_to : ℕ → Option QuantityRoundingMode → ℤ → ℤ
round_to quantum mode units =
    let absolute = abs units in
    let quotient = absolute / quantum in
    let remainder = absolute % quantum in
    with_sign (is_neg units) ((quotient + increment quantum mode remainder) * quantum)

unfoldable pub round_units : ℤ → Option ℤ → Option QuantityRoundingMode → Result QuantityError ℤ
round_units units precision mode = elim (quantum_of precision) [
  | none ↦ err type_error
  | some quantum ↦ ok (round_to quantum mode units)
]

abbrev pub is_some {ℓ} : {A : Type ℓ} → Option A → Bool
is_some none = false
is_some (some _) = true

-- `precision < 0 || precision > 3`; a number that is not an integer has been refused before.
abbrev pub is_out_of_range : Option ℤ → Bool
is_out_of_range (some p) = is_neg p || ltb_ℤ (pos 3) p
is_out_of_range none = false

abbrev pub is_unit : Option ProductBaseUnit → Bool
is_unit (some unit) = true
is_unit _ = false

abbrev pub is_zero_precision : Option ℤ → Bool
is_zero_precision (some p) = eqb_ℤ p (pos 0)
is_zero_precision none = false

unfoldable pub assert_product_quantity_policy :
    ProductQuantityPolicy → Bool → Result QuantityError (Unit {0})
assert_product_quantity_policy policy track_serials = do
  throw_if (not (is_some policy.base_unit) || not (is_some policy.precision)) invalid_policy
  throw_if (is_out_of_range policy.precision) invalid_policy
  throw_if (not (is_some policy.rounding)) invalid_policy
  minimum ← quantity_to_units policy.minimum_quantity
  rounded ← round_units minimum policy.precision (some down)
  throw_if (leb_ℤ minimum (pos 0) || not (eqb_ℤ rounded minimum)) invalid_policy
  throw_if
      (track_serials
        && (not (is_unit policy.base_unit)
            || not (is_zero_precision policy.precision)
            || not (eqb_ℤ minimum (pos scale))))
      invalid_policy

-- `{ allowNegative = false, enforceMinimum = true }`
pub record NormalizeOptions : Type 0 where
  pub allow_negative : Bool
  pub enforce_minimum : Bool

unfoldable pub normalize_product_quantity :
    Text → ProductQuantityPolicy → NormalizeOptions → Result QuantityError Text
normalize_product_quantity value policy options = do
  assert_product_quantity_policy policy false
  original ← quantity_to_units value
  throw_if (not options.allow_negative && is_neg original) invalid_quantity
  rounded ← round_units original policy.precision policy.rounding
  let absolute = abs rounded
  minimum ← quantity_to_units policy.minimum_quantity
  throw_if (options.enforce_minimum && ltb 0 absolute && ltb_ℤ (pos absolute) minimum)
      (below_minimum (quantity_from_units minimum))
  ok (quantity_from_units rounded)
