-- ===== src/QuantityPolicy/Rounding.antt =====
-- What `roundUnits` returns, for each mode.
use uinventario_api.Base.{
  ℕ, ◌+◌, ◌*◌, ◌/◌, ◌%◌, ◌≤◌, ◌<◌, ◌≡◌, refl, false, ◌⊎◌, inl, inr, Option, some, arith,
}
use uinventario_api.Base.Int.{ℤ, abs, with_sign, is_neg, with_sign-abs, abs-with_sign}
use uinventario_api.QuantityPolicy.{QuantityRoundingMode, half_up, down, up, round_to, increment}

abbrev pub IsQuantum : ℕ → Type 0
IsQuantum q = (q ≡ 1) ⊎ (q ≡ 10) ⊎ (q ≡ 100) ⊎ (q ≡ 1000)

-- The integer of thousandths lies on the grid of the quantum.
abbrev pub IsOnGrid : ℕ → ℤ → Type 0
IsOnGrid q z = abs z % q ≡ 0

-- How far the mode may move an absolute value: towards zero, away from it, or to the nearest
-- multiple with ties away from zero.
abbrev pub IsRounded : QuantityRoundingMode → ℕ → ℕ → ℕ → Type 0
IsRounded down q before after = (after ≤ before) × (before < after + q)
IsRounded up q before after = (before ≤ after) × (after < before + q)
IsRounded half_up q before after = (2 * after ≤ 2 * before + q) × (2 * before < 2 * after + q)

abbrev rounded : ℕ → QuantityRoundingMode → ℕ → ℕ
rounded q mode n = (n / q + increment q (some mode) (n % q)) * q

module _ (mode : QuantityRoundingMode) (n : ℕ) where
  abbrev Claim : ℕ → Type 0
  Claim q = (rounded q mode n % q ≡ 0) × IsRounded mode q n (rounded q mode n)

rounded_lem : (mode : QuantityRoundingMode) (n q : ℕ) → IsQuantum q → Claim mode n q
unfolding increment
rounded_lem down n q w = elim w [
  | inl e ↦ rw e (ground arith)
  | inr (inl e) ↦ rw e (ground arith)
  | inr (inr (inl e)) ↦ rw e (ground arith)
  | inr (inr (inr e)) ↦ rw e (ground arith)
]
rounded_lem up n q w = elim w [
  | inl e ↦ rw e (ground arith)
  | inr (inl e) ↦ rw e (ground arith)
  | inr (inr (inl e)) ↦ rw e (ground arith)
  | inr (inr (inr e)) ↦ rw e (ground arith)
]
rounded_lem half_up n q w = elim w [
  | inl e ↦ rw e (ground arith)
  | inr (inl e) ↦ rw e (ground arith)
  | inr (inr (inl e)) ↦ rw e (ground arith)
  | inr (inr (inr e)) ↦ rw e (ground arith)
]

-- The sign of an integer is kept by another one, which may be zero.
abbrev pub IsSigned : ℤ → ℤ → Type 0
IsSigned before after = after ≡ with_sign (is_neg before) (abs after)

-- A rounded quantity is a multiple of the quantum, has the sign of the original or is zero, and is no
-- further from the original than its mode allows: `DOWN` towards zero, `UP` away from zero, `HALF_UP` to the
-- nearest multiple, a tie away from zero.
pub round_to-IsRounded :
    (q : ℕ) (mode : QuantityRoundingMode) (units : ℤ)
    → IsQuantum q
    → let after = round_to q (some mode) units in
      IsOnGrid q after × IsSigned units after × IsRounded mode q (abs units) (abs after)
unfolding round_to
round_to-IsRounded q mode units w =
    let (grid, near) = rounded_lem mode (abs units) q w in rw abs-with_sign (grid, refl, near)

-- What lies on the grid is not moved.
pub round_to_fixed :
    (q : ℕ) (mode : Option QuantityRoundingMode) (units : ℤ)
    → IsQuantum q
    → IsOnGrid q units
    → round_to q mode units ≡ units
unfolding round_to increment
round_to_fixed q mode units w g = rw (g, exact q (abs units) w g) (with_sign-abs units)
  where
    exact : (q n : ℕ) → IsQuantum q → n % q ≡ 0 → (n / q + 0) * q ≡ n
    exact q n w g = grind arith

-- Rounding makes no quantity negative.
pub round_to-sign :
    (q : ℕ) (mode : Option QuantityRoundingMode) (units : ℤ)
    → is_neg units ≡ false
    → is_neg (round_to q mode units) ≡ false
unfolding round_to
round_to-sign q mode units h = rw h (ground arith)
