-- ===== src/QuantityPolicy/Examples.antt =====
-- Tests of src/common/quantity-policy.ts, and its properties at concrete inputs.
use Prim.Native.String.{String}
use Prim.Native.Char.{code}
use uinventario_api.Base.{
  ℕ, ◌≡◌, ◌⊎◌, ◌↔◌, refl, true, false, some, [], ◌∷◌, ok, err, arith, inl, inr, ◌≤◌,
}
use uinventario_api.Base.Int.{pos, negsuc, abs, ℤ, is_neg}
use uinventario_api.Text.{
  Text, digits_value, digits_from, show_ℕ, show_fuel, pad_end, pad_start, before_dot, after_dot,
  starts_minus, drop_minus,
}
use uinventario_api.QuantityPolicy.{
  ProductQuantityPolicy, gram, unit, half_up, down, quantity_to_units, quantity_from_units,
  is_quantity, is_whole_part, is_fraction_part, from_dot, round_units, round_to, increment,
  assert_product_quantity_policy, normalize_product_quantity, NormalizeOptions, invalid_quantity,
  below_minimum,
}
use uinventario_api.QuantityPolicy.Format.{quantity_to_units-from_units}
use uinventario_api.QuantityPolicy.Rounding.{round_to-IsRounded, IsOnGrid, IsSigned, IsRounded}
use uinventario_api.QuantityPolicy.Normalize.{
  IsPolicy, assert_iff, normalize-IsRounded, normalize_idempotent,
}

abbrev text : String → Text
text String.[] = []
text (String.◌∷◌ c s) = code c ∷ text s

-- A tenth of a gram at least, to a tenth, half up.
abbrev grams : ProductQuantityPolicy
grams = record {
  base_unit = some gram;
  precision = some (pos 1);
  rounding = some half_up;
  minimum_quantity = text "0.500";
}

abbrev serial_units : ProductQuantityPolicy
serial_units = record {
  base_unit = some unit;
  precision = some (pos 0);
  rounding = some down;
  minimum_quantity = text "1";
}

abbrev strict : NormalizeOptions
strict = record { allow_negative = false; enforce_minimum = true }

-- One name for all that the parsing and printing of quantities computes with.
abbrev reading : Text
unfolding quantity_to_units is_quantity is_whole_part is_fraction_part from_dot digits_value
    digits_from show_ℕ show_fuel pad_end pad_start before_dot after_dot starts_minus drop_minus
    quantity_from_units
reading = []

reads :
    (quantity_to_units (text "-12.5") ≡ ok (negsuc 12499))
    × (quantity_to_units (text "012") ≡ err invalid_quantity)
    × (quantity_to_units (text "1.0000") ≡ err invalid_quantity)
    × (quantity_to_units (text "1.") ≡ err invalid_quantity)
    × (quantity_to_units (text "-0") ≡ ok (pos 0))
unfolding quantity_to_units is_quantity is_whole_part is_fraction_part from_dot digits_value
    digits_from pad_end before_dot after_dot starts_minus drop_minus
reads = (refl, refl, refl, refl, refl)

read_half : quantity_to_units (text "0.500") ≡ ok (pos 500)
unfolding quantity_to_units is_quantity is_whole_part is_fraction_part from_dot digits_value
    digits_from pad_end before_dot after_dot starts_minus drop_minus
read_half = refl

read_one : quantity_to_units (text "1") ≡ ok (pos 1000)
unfolding quantity_to_units is_quantity is_whole_part is_fraction_part from_dot digits_value
    digits_from pad_end before_dot after_dot starts_minus drop_minus
read_one = refl

read_value : quantity_to_units (text "2.75") ≡ ok (pos 2750)
unfolding quantity_to_units is_quantity is_whole_part is_fraction_part from_dot digits_value
    digits_from pad_end before_dot after_dot starts_minus drop_minus
read_value = refl

grams-IsPolicy : IsPolicy grams 100 500
grams-IsPolicy = record {
  known_unit = cc;
  known_rounding = cc;
  has_quantum = refl;
  has_minimum = read_half;
  positive = omega arith;
  on_grid = refl;
}

normalizes : normalize_product_quantity (text "2.75") grams strict ≡ ok (text "2.800")
unfolding normalize_product_quantity assert_product_quantity_policy round_units round_to increment
    quantity_to_units is_quantity is_whole_part is_fraction_part from_dot digits_value digits_from
    show_ℕ show_fuel pad_end pad_start before_dot after_dot starts_minus drop_minus
    quantity_from_units
normalizes = refl

too_small :
    normalize_product_quantity (text "0.1") grams strict ≡ err (below_minimum (text "0.500"))
unfolding normalize_product_quantity assert_product_quantity_policy round_units round_to increment
    quantity_to_units is_quantity is_whole_part is_fraction_part from_dot digits_value digits_from
    show_ℕ show_fuel pad_end pad_start before_dot after_dot starts_minus drop_minus
    quantity_from_units
too_small = refl

quantity_to_units-from_units_example :
    quantity_to_units (quantity_from_units (negsuc 12499)) ≡ ok (negsuc 12499)
quantity_to_units-from_units_example = quantity_to_units-from_units (negsuc 12499) (omega arith)

round_to-IsRounded_example :
    let after = round_to 100 (some half_up) (negsuc 2749) in
    IsOnGrid 100 after × IsSigned (negsuc 2749) after × IsRounded half_up 100 2750 (abs after)
round_to-IsRounded_example = round_to-IsRounded 100 half_up (negsuc 2749) (inr (inr (inl refl)))

rounds_down : round_to 100 (some half_up) (negsuc 2749) ≡ negsuc 2799
unfolding round_to increment
rounds_down = refl

assert_iff_example :
    (assert_product_quantity_policy grams false ≡ ok tt) ↔ ((q : ℕ) × (m : ℕ) × IsPolicy grams q m)
assert_iff_example = assert_iff grams

normalize-IsRounded_example :
    (z : ℤ) × (text "2.800" ≡ quantity_from_units z)
    × IsOnGrid 100 z
    × IsSigned (pos 2750) z
    × IsRounded half_up 100 2750 (abs z)
    × (true ≡ true → (abs z ≡ 0) ⊎ (500 ≤ abs z))
    × (false ≡ false → is_neg (pos 2750) ≡ false)
normalize-IsRounded_example =
    normalize-IsRounded grams grams-IsPolicy half_up refl (text "2.75") read_value strict normalizes

normalize_idempotent_example :
    normalize_product_quantity (text "2.800") grams strict ≡ ok (text "2.800")
unfolding round_to increment
normalize_idempotent_example =
    normalize_idempotent grams grams-IsPolicy half_up refl (text "2.75") read_value strict
      normalizes (omega arith)
