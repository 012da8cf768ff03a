-- ===== src/Decimal.antt =====
-- The decimal codecs of src/pos/pos.service.ts and src/promotions/promotion-engine.service.ts: amounts
-- travel as decimal strings and are computed as integers of cents, thousandths or ten-thousandths.
-- A string here has been checked by its DTO, or comes from a DECIMAL column, so that its parts are
-- digits.
use uinventario_api.Base.{ℕ, zero, suc, ◌≤◌, ◌+◌, ◌*◌, ◌/◌, ◌%◌, ◌^◌, ◌<◌, ◌≡◌, ◌∷◌, ◌++◌, arith}
use native.Mathlib.Nat.{
  div-add-mod', mod-lt, pow-succ', mul-div-le, lt_of_mul-lt-mul_left, le-div_iff_mul-le,
}
use uinventario_api.Text.{Text, digits_value, show_ℕ, pad_end, pad_start, before_dot, after_dot}
use uinventario_api.Text.Digits.{
  show_value, show_digits, show_length, pad_start-value, pad_start-length, pad_start-digits,
  pad_end_full, before_dot-append, after_dot-append,
}

-- `BigInt(whole) * 10ⁿ + BigInt(fraction.padEnd(n, '0'))`
abbrev to_units : ℕ → Text → ℕ
to_units decimals value =
    digits_value (before_dot value) * 10 ^ decimals
    + digits_value (pad_end decimals (after_dot value))

-- `${value / 10ⁿ}.${String(value % 10ⁿ).padStart(n, '0')}`
abbrev from_units : ℕ → ℕ → Text
from_units decimals value =
    show_ℕ (value / 10 ^ decimals) ++ b'.' ∷ pad_start decimals (show_ℕ (value % 10 ^ decimals))

unfoldable pub to_money_cents : Text → ℕ
to_money_cents = to_units 2

unfoldable pub from_money_cents : ℕ → Text
from_money_cents = from_units 2

unfoldable pub to_quantity_units : Text → ℕ
to_quantity_units = to_units 3

unfoldable pub from_quantity_units : ℕ → Text
from_quantity_units = from_units 3

unfoldable pub to_cost_units : Text → ℕ
to_cost_units = to_units 4

unfoldable pub from_cost_units : ℕ → Text
from_cost_units = from_units 4

-- `(numerator + denominator / 2n) / denominator`
unfoldable pub round_divide : ℕ → ℕ → ℕ
round_divide numerator denominator = (numerator + denominator / 2) / denominator

pow_positive : (k : ℕ) → 0 < 10 ^ k
pow_positive zero = omega arith
pow_positive (suc k) = rw pow-succ' (omega (arith, pow_positive k))

to_units-from_units : (k n : ℕ) → to_units (suc k) (from_units (suc k) n) ≡ n
to_units-from_units k n =
    let s = 10 ^ suc k in
    let positive : 0 < s = pow_positive (suc k) in
    let whole = show_ℕ (n / s) in
    let digits = show_ℕ (n % s) in
    let fraction = pad_start (suc k) digits in
    let fits = show_length (n % s) k (mod-lt n positive) in
    let wd = show_digits (n / s) in
    let fd = pad_start-digits (suc k) digits (show_digits (n % s)) in
    rw
      (
        before_dot-append whole fraction wd,
        after_dot-append whole fraction wd fd,
        pad_end_full (suc k) fraction (omega (arith, pad_start-length (suc k) digits fits)),
        pad_start-value (suc k) digits,
        show_value (n / s),
        show_value (n % s),
      )
      (div-add-mod' n s)

-- What is printed of an amount of cents, thousandths or ten-thousandths is read back as the same
-- amount.
pub decimal_round_trip :
    (n : ℕ)
    → (to_money_cents (from_money_cents n) ≡ n)
      × (to_quantity_units (from_quantity_units n) ≡ n)
      × (to_cost_units (from_cost_units n) ≡ n)
unfolding to_money_cents from_money_cents to_quantity_units from_quantity_units to_cost_units
    from_cost_units
decimal_round_trip n = (to_units-from_units 1 n, to_units-from_units 2 n, to_units-from_units 3 n)

-- By a positive divisor, `roundDivide` returns the integer nearest to the quotient, and a tie goes up.
pub round_divide_nearest :
    (n d : ℕ)
    → 0 < d
    → (2 * d * round_divide n d ≤ 2 * n + d) × (2 * n < 2 * d * round_divide n d + d + 1)
unfolding round_divide
round_divide_nearest n d h = omega arith

pub round_divide-le : (n d k : ℕ) → 0 < d → n ≤ d * k → round_divide n d ≤ k
unfolding round_divide
round_divide-le n d k p h =
    let r = (n + d / 2) / d in
    let low = mul-div-le (n + d / 2) d in
    let below : r < k + 1 = lt_of_mul-lt-mul_left d (omega arith) in omega arith

pub le-round_divide : (n d k : ℕ) → 0 < d → d * k ≤ n → k ≤ round_divide n d
unfolding round_divide
le-round_divide n d k p h = (le-div_iff_mul-le p).1 (omega arith)
