-- ===== src/QuantityPolicy/Normalize.antt =====
-- The checks of `assertProductQuantityPolicy`, and the result of `normalizeProductQuantity`.
use uinventario_api.Base.{
  ℕ, ◌%◌, ◌^◌, ◌≤◌, ◌<◌, ◌≡◌, ◌≢◌, true, false, ◌⊎◌, inl, inr, Option, none, some, arith, ok, err,
  ◌↔◌, not, ◌&&◌, Option-cases, Result-cases, if◌then◌else◌, ltb,
}
use uinventario_api.Base.Int.{ℤ, pos, negsuc, abs, is_neg}
use uinventario_api.Text.{Text}
use uinventario_api.QuantityPolicy.{
  unit, QuantityRoundingMode, down, ProductQuantityPolicy, invalid_quantity, below_minimum,
  round_to, round_units, quantum_of, quantity_to_units, quantity_from_units,
  assert_product_quantity_policy, normalize_product_quantity, NormalizeOptions,
}
use uinventario_api.QuantityPolicy.Format.{quantity_to_units-from_units}
use uinventario_api.QuantityPolicy.Rounding.{
  IsQuantum, IsOnGrid, IsSigned, IsRounded, round_to-IsRounded, round_to_fixed, round_to-sign,
}

-- A policy that makes sense: a known unit and mode, a precision with the quantum `q`, and a minimum
-- of `m` thousandths that is positive and a multiple of the quantum.
pub record IsPolicy (policy : ProductQuantityPolicy) (q m : ℕ) : Type 0 where
  pub known_unit : policy.base_unit ≢ none
  pub known_rounding : policy.rounding ≢ none
  pub has_quantum : quantum_of policy.precision ≡ some q
  pub has_minimum : quantity_to_units policy.minimum_quantity ≡ ok (pos m)
  pub positive : 0 < m
  pub on_grid : m % q ≡ 0

quantum_of-IsQuantum : (p : Option ℤ) {q : ℕ} → quantum_of p ≡ some q → IsQuantum q
quantum_of-IsQuantum p h = ground arith

assert-IsPolicy :
    (policy : ProductQuantityPolicy) {q m : ℕ}
    → IsPolicy policy q m
    → assert_product_quantity_policy policy false ≡ ok tt
unfolding assert_product_quantity_policy round_units
assert-IsPolicy policy {q} {m} v = ground (
  arith,
  round_to_fixed q (some down) (pos m),
  quantum_of-IsQuantum policy.precision v.has_quantum,
)

module _ (policy : ProductQuantityPolicy)
    (h : assert_product_quantity_policy policy false ≡ ok tt) where
  has_quantum_lem : (q : ℕ) × (quantum_of policy.precision ≡ some q)
  unfolding assert_product_quantity_policy round_units
  has_quantum_lem = elim (Option-cases (quantum_of policy.precision)) [
    | inl e ↦ absurd (ground arith)
    | inr found ↦ found
  ]

  has_minimum_lem : (m : ℕ) × (quantity_to_units policy.minimum_quantity ≡ ok (pos m)) × (0 < m)
  unfolding assert_product_quantity_policy
  has_minimum_lem = elim (Result-cases (quantity_to_units policy.minimum_quantity)) [
    | inl (pos m, e) ↦ (m, e, ground arith)
    | inl (negsuc m, e) ↦ absurd (ground arith)
    | inr (_, e) ↦ absurd (ground arith)
  ]

  IsPolicy-assert : (q : ℕ) × (m : ℕ) × IsPolicy policy q m
  unfolding assert_product_quantity_policy round_units
  IsPolicy-assert =
      let (q, eq) = has_quantum_lem in
      let (m, em, pm) = has_minimum_lem in
      let grid = round_to-IsRounded q down (pos m) (quantum_of-IsQuantum policy.precision eq) in
      (
        q,
        m,
        record {
          known_unit = ground arith;
          known_rounding = ground arith;
          has_quantum = eq;
          has_minimum = em;
          positive = pm;
          on_grid = ground (arith, grid);
        },
      )

-- A policy without serials passes `assertProductQuantityPolicy` exactly when its unit, mode and
-- precision are known and its minimum is a positive multiple of the precision's quantum.
pub assert_iff :
    (policy : ProductQuantityPolicy)
    → (assert_product_quantity_policy policy false ≡ ok tt)
      ↔ ((q : ℕ) × (m : ℕ) × IsPolicy policy q m)
assert_iff policy = (IsPolicy-assert policy, λ p. assert-IsPolicy policy p.2)

without_serials :
    (policy : ProductQuantityPolicy)
    → assert_product_quantity_policy policy true ≡ ok tt
    → assert_product_quantity_policy policy false ≡ ok tt
unfolding assert_product_quantity_policy round_units
without_serials policy h = ground arith

serial_facts :
    (policy : ProductQuantityPolicy) {q m : ℕ}
    → IsPolicy policy q m
    → assert_product_quantity_policy policy true ≡ ok tt
    → (policy.base_unit ≡ some unit) × (policy.precision ≡ some (pos 0)) × (q ≡ 1000) × (m ≡ 1000)
unfolding assert_product_quantity_policy round_units
serial_facts policy {q} {m} v h = ground arith

serial_back :
    (policy : ProductQuantityPolicy)
    → IsPolicy policy 1000 1000
    → policy.base_unit ≡ some unit
    → policy.precision ≡ some (pos 0)
    → assert_product_quantity_policy policy true ≡ ok tt
unfolding assert_product_quantity_policy round_units
serial_back policy v u p = ground (arith, round_to_fixed 1000 (some down) (pos 1000))

-- With serials it passes exactly when it also is in units, with precision 0 and minimum 1.
pub assert_serials_iff :
    (policy : ProductQuantityPolicy)
    → (assert_product_quantity_policy policy true ≡ ok tt) ↔ (
        (policy.base_unit ≡ some unit)
        × (policy.precision ≡ some (pos 0))
        × IsPolicy policy 1000 1000)
assert_serials_iff policy = (forth, back)
  where
    forth :
        assert_product_quantity_policy policy true ≡ ok tt
        → (policy.base_unit ≡ some unit)
          × (policy.precision ≡ some (pos 0))
          × IsPolicy policy 1000 1000
    forth h =
        let (q, m, v) = IsPolicy-assert policy (without_serials policy h) in
        let (u, p, e, f) = serial_facts policy v h in (u, p, rw e at (rw f at v))

    back :
        (policy.base_unit ≡ some unit)
          × (policy.precision ≡ some (pos 0))
          × IsPolicy policy 1000 1000
        → assert_product_quantity_policy policy true ≡ ok tt
    back (u, p, v) = serial_back policy v u p

module _ (policy : ProductQuantityPolicy) {q m : ℕ} (v : IsPolicy policy q m)
    (mode : QuantityRoundingMode) (is_mode : policy.rounding ≡ some mode) (value : Text)
    {original : ℤ} (read : quantity_to_units value ≡ ok original) (options : NormalizeOptions) where
  abbrev result : ℤ
  result = round_to q (some mode) original

  step : normalize_product_quantity value policy options ≡ (
      if not options.allow_negative && is_neg original
      then err invalid_quantity
      else if options.enforce_minimum && ltb 0 (abs result) && ltb (abs result) m
      then err (below_minimum (quantity_from_units (pos m)))
      else ok (quantity_from_units result))
  unfolding normalize_product_quantity round_units
  step = ground (arith, assert-IsPolicy policy v)

  -- An accepted quantity is printed from an integer on the policy's grid, which has the sign of the one that
  -- was read or is zero, is rounded from it as the mode says, and is zero or not below the minimum if that
  -- is enforced; without negative quantities, the one that was read is not negative.
  pub normalize-IsRounded :
      {out : Text}
      → normalize_product_quantity value policy options ≡ ok out
      → (z : ℤ) × (out ≡ quantity_from_units z)
        × IsOnGrid q z
        × IsSigned original z
        × IsRounded mode q (abs original) (abs z)
        × (options.enforce_minimum ≡ true → (abs z ≡ 0) ⊎ (m ≤ abs z))
        × (options.allow_negative ≡ false → is_neg original ≡ false)
  normalize-IsRounded h =
      let (grid, signed, near) =
        round_to-IsRounded q mode original (quantum_of-IsQuantum policy.precision v.has_quantum) in
      (
        result,
        ground (arith, step),
        grid,
        signed,
        near,
        λ e. ground (arith, step),
        λ e. ground (arith, step),
      )

-- Normalising again changes nothing: an accepted quantity of at most 15 digits is accepted once
-- more, as it is.
pub normalize_idempotent :
    (policy : ProductQuantityPolicy) {q m : ℕ}
    → IsPolicy policy q m
    → (mode : QuantityRoundingMode) → policy.rounding ≡ some mode
    → (value : Text) {original : ℤ} → quantity_to_units value ≡ ok original
    → (options : NormalizeOptions) {out : Text}
    → normalize_product_quantity value policy options ≡ ok out
    → abs (round_to q (some mode) original) < 10 ^ 15
    → normalize_product_quantity out policy options ≡ ok out
normalize_idempotent policy {q} v mode e value {original} read options {out} h small =
    let z = round_to q (some mode) original in
    let quantum = quantum_of-IsQuantum policy.precision v.has_quantum in
    let grid = (round_to-IsRounded q mode original quantum).0 in
    let fixed = round_to_fixed q (some mode) z quantum grid in
    let first = step policy v mode e value read options in
    let printed : out ≡ quantity_from_units z = ground (arith, first) in
    let again =
      step policy v mode e (quantity_from_units z) (quantity_to_units-from_units z small) options in
    rw printed (ground (arith, first, again, fixed, round_to-sign q (some mode) original))
