-- ===== src/QuantityPolicy/Format.antt =====
-- The decimal strings of quantities: what is printed is read back, and what is read is bounded.
use uinventario_api.Base.{
  ℕ, zero, suc, ◌+◌, ◌-◌, ◌*◌, ◌/◌, ◌%◌, ◌^◌, ◌≤◌, ◌<◌, ◌≡◌, refl, Bool, true, false, ◌&&◌, [], ◌∷◌,
  ◌++◌, arith, length, all, ok,
}
use uinventario_api.Base.Int.{ℤ, pos, negsuc, abs, with_sign}
use uinventario_api.Text.{
  Text, is_digit, digits_from, digits_value, show_ℕ, pad_end, pad_start, before_dot, after_dot,
  starts_minus, drop_minus,
}
use uinventario_api.Text.Digits.{
  starts_nonzero, show_value, show_digits, show_length, show_starts, show_zero, pad_start-value,
  pad_start-length, pad_start-digits, pad_end-digits, pad_end-length, pad_end_full,
  before_dot-digits, before_dot-append, after_dot-append,
}
use native.Mathlib.Nat.{pow-succ', mul-le-mul, le_refl, pow-le-pow_right, le_of_eq}
use uinventario_api.QuantityPolicy.{
  is_quantity, is_whole_part, is_fraction_part, from_dot, quantity_to_units, quantity_from_units,
  scale,
}

-- The printed form of an absolute value.
abbrev printed : ℕ → Text
printed n = show_ℕ (n / 1000) ++ b'.' ∷ pad_start 3 (show_ℕ (n % 1000))

is_whole_of :
    (t : Text)
    → starts_nonzero t ≡ true
    → all is_digit t ≡ true
    → length t ≤ 12
    → is_whole_part t ≡ true
unfolding is_whole_part
is_whole_of [] h d l = cc
is_whole_of (c ∷ cs) h d l = ground arith

is_whole-show : (n : ℕ) → n < 10 ^ 12 → is_whole_part (show_ℕ n) ≡ true
is_whole-show zero h = rw show_zero (unfold is_whole_part in refl)
is_whole-show (suc n) h =
    is_whole_of (show_ℕ (suc n)) (show_starts (suc n) (omega arith)) (show_digits (suc n))
      (show_length (suc n) 11 h)

from_dot-append : (s t : Text) → all is_digit s ≡ true → from_dot (s ++ b'.' ∷ t) ≡ b'.' ∷ t
unfolding from_dot
from_dot-append [] t h = refl
from_dot-append (c ∷ s) t h = ground (arith, from_dot-append s t)

starts_minus-digits : (s t : Text) → all is_digit s ≡ true → starts_minus (s ++ b'.' ∷ t) ≡ false
unfolding starts_minus
starts_minus-digits [] t h = refl
starts_minus-digits (c ∷ s) t h = ground arith

drop_minus-digits :
    (s t : Text) → all is_digit s ≡ true → drop_minus (s ++ b'.' ∷ t) ≡ s ++ b'.' ∷ t
unfolding drop_minus
drop_minus-digits [] t h = refl
drop_minus-digits (c ∷ s) t h = ground arith

module _ (n : ℕ) (h : n < 10 ^ 15) where
  abbrev whole : Text
  whole = show_ℕ (n / 1000)

  abbrev fraction : Text
  fraction = pad_start 3 (show_ℕ (n % 1000))

  whole-digits : all is_digit whole ≡ true
  whole-digits = show_digits (n / 1000)

  fraction-digits : all is_digit fraction ≡ true
  fraction-digits = pad_start-digits 3 (show_ℕ (n % 1000)) (show_digits (n % 1000))

  fraction-length : length fraction ≡ 3
  fraction-length = pad_start-length 3 (show_ℕ (n % 1000)) (show_length (n % 1000) 2 (omega arith))

  fraction_fits : is_fraction_part (b'.' ∷ fraction) ≡ true
  unfolding is_fraction_part
  fraction_fits = rw (fraction-length, fraction-digits)

  matches :
      (is_whole_part (before_dot (printed n)) && is_fraction_part (from_dot (printed n))) ≡ true
  matches = rw (
    before_dot-append whole fraction whole-digits,
    from_dot-append whole fraction whole-digits,
    is_whole-show (n / 1000) (omega arith),
    fraction_fits,
  )

  value :
      digits_value (before_dot (printed n)) * scale
        + digits_value (pad_end 3 (after_dot (printed n)))
      ≡ n
  value =
      rw
        (
          before_dot-append whole fraction whole-digits,
          after_dot-append whole fraction whole-digits fraction-digits,
          pad_end_full 3 fraction (omega (arith, fraction-length)),
          pad_start-value 3 (show_ℕ (n % 1000)),
          show_value (n / 1000),
          show_value (n % 1000),
        )
        (omega arith)

-- Reading `sign ++ printed n`, for either sign.
read_back :
    (n : ℕ) (signed : Text) (negative : Bool)
    → n < 10 ^ 15
    → starts_minus signed ≡ negative
    → drop_minus signed ≡ printed n
    → quantity_to_units signed ≡ ok (with_sign negative n)
unfolding quantity_to_units is_quantity
read_back n signed negative h s d = rw (d, matches n h, s, value n h)

from_units-pos : (n : ℕ) → quantity_from_units (pos n) ≡ printed n
unfolding quantity_from_units
from_units-pos n = ground arith

from_units-negsuc : (n : ℕ) → quantity_from_units (negsuc n) ≡ b'-' ∷ printed (suc n)
unfolding quantity_from_units
from_units-negsuc n = ground arith

-- What `quantityFromUnits` prints of an integer of at most 15 digits, of either sign,
-- `quantityToUnits` accepts and reads as the same integer.
pub quantity_to_units-from_units :
    (units : ℤ) → abs units < 10 ^ 15 → quantity_to_units (quantity_from_units units) ≡ ok units
quantity_to_units-from_units (pos n) h = rw (from_units-pos n) (
    read_back n (printed n) false h (starts_minus-digits _ _ (show_digits (n / 1000)))
      (drop_minus-digits _ _ (show_digits (n / 1000))))
quantity_to_units-from_units (negsuc n) h = rw (from_units-negsuc n) (
    read_back (suc n) (b'-' ∷ printed (suc n)) true h (unfold starts_minus in refl)
      (unfold drop_minus in refl))

digits_from-lt :
    (acc : ℕ) (s : Text) → all is_digit s ≡ true → digits_from acc s < (acc + 1) * 10 ^ length s
unfolding digits_from
digits_from-lt acc [] h = omega arith
digits_from-lt acc (c ∷ s) h =
    let small : acc * 10 + (c - b'0') + 1 ≤ (acc + 1) * 10 = ground arith in
    let rest : all is_digit s ≡ true = ground arith in
    rw pow-succ' (
      omega (
        arith,
        digits_from-lt (acc * 10 + (c - b'0')) s rest,
        mul-le-mul small (le_refl (10 ^ length s)),
      ))

digits_value-lt :
    (k : ℕ) (s : Text) → all is_digit s ≡ true → length s ≤ k → digits_value s < 10 ^ k
unfolding digits_value
digits_value-lt k s h l =
    omega (arith, digits_from-lt 0 s h, pow-le-pow_right {n = 10} (omega arith) l)

is_whole_facts : (t : Text) → is_whole_part t ≡ true → (all is_digit t ≡ true) × (length t ≤ 12)
unfolding is_whole_part
is_whole_facts [] h = cc
is_whole_facts (c ∷ []) h = ground arith
is_whole_facts (c ∷ d ∷ cs) h = ground arith

is_fraction_facts :
    (t : Text)
    → is_fraction_part (from_dot t) ≡ true
    → (all is_digit (after_dot t) ≡ true) × (length (after_dot t) ≤ 3)
unfolding is_fraction_part from_dot after_dot
is_fraction_facts [] h = ground arith
is_fraction_facts (c ∷ cs) h = ground (arith, before_dot-digits cs, is_fraction_facts cs)

value_lt :
    (whole fraction : Text)
    → (all is_digit whole ≡ true) × (length whole ≤ 12)
    → (all is_digit fraction ≡ true) × (length fraction ≤ 3)
    → digits_value whole * scale + digits_value (pad_end 3 fraction) < 10 ^ 15
value_lt whole fraction (wd, wl) (fd, fl) = omega (
  arith,
  digits_value-lt 12 whole wd wl,
  digits_value-lt 3 (pad_end 3 fraction) (pad_end-digits 3 fraction fd)
      (le_of_eq (pad_end-length 3 fraction fl)),
)

with_sign_bound : (b : Bool) (n : ℕ) → abs (with_sign b n) ≡ n
with_sign_bound true zero = refl
with_sign_bound true (suc n) = refl
with_sign_bound false n = refl

-- A string that `quantityToUnits` accepts stands for an integer of at most 15 digits.
pub quantity_to_units-lt :
    (value : Text) {units : ℤ} → quantity_to_units value ≡ ok units → abs units < 10 ^ 15
unfolding quantity_to_units is_quantity
quantity_to_units-lt value h =
    let unsigned = drop_minus value in
    let n =
      digits_value (before_dot unsigned) * scale + digits_value (pad_end 3 (after_dot unsigned)) in
    ground (
      arith,
      with_sign_bound (starts_minus value) n,
      is_whole_facts (before_dot unsigned),
      is_fraction_facts unsigned,
      value_lt (before_dot unsigned) (after_dot unsigned),
    )
