-- ===== src/Loyalty/Bounds.antt =====
-- What a quote promises, and the bounds of prorated points.
use uinventario_api.Base.{
  ℕ, ◌+◌, ◌-◌, ◌*◌, ◌/◌, ◌%◌, ◌≤◌, ◌<◌, ◌≡◌, refl, sym, ap, ◌∙◌, ◌⊎◌, inl, inr, ◌==◌, arith, ok,
  Bool-cases,
}
use uinventario_api.Base.Int.{ℤ, pos, ◌+ℤ◌, ◌-ℤ◌, ◌≤ℤ◌, int_laws}
use uinventario_api.Loyalty.{Rule, Quote, quote, prorate, redemption_cents, earned_points}
use native.Mathlib.Decide.{dec_lt}
use native.Mathlib.Nat.{
  le_of_lt, div-eq_of_lt, div-add-mod, mul-div-le, le-div_iff_mul-le, mul-le-mul_left,
  mul-le-mul_right, div-le_of_le-mul, div-mul-le_self,
}

-- The points and the money of a quote fit the rule, the balance and the total.
pub record IsFair (rule : Rule) (balance : ℤ) (total : ℕ) (points : ℕ) (q : Quote) : Type 0 where
  pub redeemed : q.points_redeemed ≡ points
  pub covered : pos points ≤ℤ balance
  pub worth : q.redemption_value * rule.redeem_points ≡ points * rule.redeem_amount
  pub payable : (q.redemption_value ≡ 0) ⊎ (q.redemption_value < total)
  pub earned : q.points_earned * rule.earn_amount ≤ (total - q.redemption_value) * rule.earn_points
  pub after : q.balance_after +ℤ pos points ≡ balance +ℤ pos q.points_earned

redemption-worth :
    (rule : Rule) (points : ℕ)
    → 0 < rule.redeem_points
    → points % rule.redeem_points ≡ 0
    → redemption_cents rule points * rule.redeem_points ≡ points * rule.redeem_amount
redemption-worth rule points p even =
    let d = rule.redeem_points in
    let whole : points / d * d ≡ points = omega (arith, div-add-mod points d, even) in
    omega (arith, ap (λ x. x * rule.redeem_amount) whole)

earned-le :
    (rule : Rule) (payable : ℕ)
    → 0 < rule.earn_amount
    → earned_points rule payable * rule.earn_amount ≤ payable * rule.earn_points
earned-le rule payable p =
    let low = mul-div-le payable rule.earn_amount in
    omega (arith, mul-le-mul_right rule.earn_points low)

-- Under a rule with positive points to redeem and a positive amount to earn by, an accepted redemption is
-- covered by the balance, is worth the rule's money for its points, is worth nothing or leaves something to
-- pay, and earns no more than the rule gives for that; the balance afterwards is exact.
pub quote-IsFair :
    (rule : Rule) (balance : ℤ) (total points : ℕ) (q : Quote)
    → 0 < rule.redeem_points
    → 0 < rule.earn_amount
    → quote rule balance total points ≡ ok q
    → IsFair rule balance total points q
unfolding quote
quote-IsFair rule balance total points q p e h =
    let even : points % rule.redeem_points ≡ 0 = ground arith in
    let value : q.redemption_value ≡ redemption_cents rule points = ground arith in
    let earned : q.points_earned ≡ earned_points rule (total - redemption_cents rule points) =
      ground arith in
    let after : q.balance_after ≡ balance -ℤ pos points +ℤ pos q.points_earned = ground arith in
    record {
      redeemed = ground arith;
      covered = ground arith;
      worth = rw value (redemption-worth rule points p even);
      payable = rw value (ground arith);
      earned = rw (earned, value) (earned-le rule (total - redemption_cents rule points) e);
      after = rw after (omega int_laws);
    }

prorate-zero : (points part : ℕ) → prorate points part 0 ≡ 0
unfolding prorate
prorate-zero points part = refl

prorate-full :
    (points part total : ℕ) → 0 < total → total ≤ part → prorate points part total ≡ points
unfolding prorate
prorate-full points part total p h = ground arith

prorate-share :
    (points part total : ℕ)
    → 0 < total
    → part < total
    → prorate points part total ≡ points * part / total
unfolding prorate
prorate-share points part total p h = elim (Bool-cases (part == 0)) [
  | inl z ↦
      let none : part ≡ 0 = ground arith in
      let nothing : points * part ≡ 0 = ap (λ x. points * x) none ∙ omega arith in
      let empty : 0 ≡ points * part / total = sym (div-eq_of_lt (omega (arith, p, nothing))) in
      ground arith
  | inr z ↦ ground arith
]

pub prorate-le : (points part total : ℕ) → prorate points part total ≤ points
prorate-le points part total = elim (dec_lt 0 total) [
  | no e ↦ let z : total ≡ 0 = omega arith in rw z (rw (prorate-zero points part) (omega arith))
  | yes p ↦ elim (dec_lt part total) [
    | no f ↦ rw (prorate-full points part total p (omega arith)) (omega arith)
    | yes f ↦
        rw (prorate-share points part total p f)
          (div-le_of_le-mul total (omega (arith, mul-le-mul_left points (le_of_lt f))))
  ]
]

-- Prorated points are at most all of them, all of them from the whole total on, and do not fall as the
-- part grows, if the total is positive.
pub prorate_bounds :
    (points part more total : ℕ)
    → 0 < total
    → part ≤ more
    → (prorate points part total ≤ points)
      × (prorate points (total + part) total ≡ points)
      × (prorate points part total ≤ prorate points more total)
prorate_bounds points part more total p h = (
  prorate-le points part total,
  prorate-full points (total + part) total p (omega arith),
  elim (dec_lt more total) [
    | no f ↦ rw (prorate-full points more total p (omega arith)) (prorate-le points part total)
    | yes f ↦
        let g : part < total = omega (arith, h, f) in
        let whole = div-mul-le_self (points * part) total in
        rw (prorate-share points part total p g, prorate-share points more total p f)
          ((le-div_iff_mul-le p).1 (omega (arith, whole, mul-le-mul_left points h)))
  ],
)
