-- ===== src/Promotions/Bundles.antt =====
-- A bundle's discount is spread over its products to the last cent.
use uinventario_api.Base.{
  ℕ, ◌+◌, ◌*◌, ◌-◌, ◌≤◌, ◌<◌, ◌≡◌, ◌≢◌, refl, List, [], ◌∷◌, none, some, arith, map, ap,
}
use uinventario_api.Base.Int.{ℤ, pos, ◌+ℤ◌, ◌-ℤ◌, pos_part, neg_part, int_laws}
use uinventario_api.Decimal.{round_divide, round_divide-le, le-round_divide}
use native.Mathlib.Nat.{mul-le-mul, le_refl, le-add_left}
use native.Mathlib.Decide.{dec_le}
use uinventario_api.Promotions.{
  PromotionLine, PromotionProduct, Contribution, Allocation, contribution, regular_price, spread,
  allocate_bundles, bundle_allocations, count_bundles,
}

abbrev pub total_amount : List Allocation → ℤ
total_amount [] = pos 0
total_amount (a ∷ rest) = a.amount +ℤ total_amount rest

spread-total :
    (discount regular assigned : ℕ) (c : Contribution) (cs : List Contribution)
    → pos assigned +ℤ total_amount (spread discount regular assigned (c ∷ cs)) ≡ pos discount
unfolding spread
spread-total discount regular assigned c [] = omega int_laws
spread-total discount regular assigned c (d ∷ cs) =
    let r = round_divide (discount * c.amount) regular in
    let rest = spread-total discount regular (assigned + r) d cs in
    omega (int_laws, ap pos_part rest, ap neg_part rest)

-- The regular price of so many bundles: the contributions of the products, each rounded to a cent.
abbrev pub bundle_price : List PromotionLine → ℕ → List PromotionProduct → ℕ
bundle_price lines bundles products = regular_price (map (contribution lines bundles) products)

spread_all :
    (discount regular : ℕ) (c : Contribution) (cs : List Contribution)
    → total_amount (spread discount regular 0 (c ∷ cs)) ≡ pos discount
spread_all discount regular c cs =
    let all = spread-total discount regular 0 c cs in
    omega (int_laws, ap pos_part all, ap neg_part all)

allocate_bundles-total :
    (fixed_price : ℕ) (lines : List PromotionLine) (x : PromotionProduct)
    (xs : List PromotionProduct) (bundles : ℕ)
    → fixed_price * bundles < bundle_price lines bundles (x ∷ xs)
    → total_amount (allocate_bundles fixed_price lines (x ∷ xs) bundles)
      ≡ pos (bundle_price lines bundles (x ∷ xs) - fixed_price * bundles)
unfolding allocate_bundles
allocate_bundles-total fixed_price lines x xs bundles h =
    let regular = bundle_price lines bundles (x ∷ xs) in
    ground (
      arith,
      spread_all (regular - fixed_price * bundles) regular (contribution lines bundles x)
          (map (contribution lines bundles) xs),
    )

allocate_bundles-none :
    (fixed_price : ℕ) (lines : List PromotionLine) (products : List PromotionProduct) (bundles : ℕ)
    → bundle_price lines bundles products ≤ fixed_price * bundles
    → allocate_bundles fixed_price lines products bundles ≡ []
unfolding allocate_bundles
allocate_bundles-none fixed_price lines products bundles h = ground arith

-- The allocations of an applied bundle add up to exactly what the customer saves: the regular price
-- of the bundles less their fixed price. It is not applied if that is not positive.
pub bundle_allocations-total :
    (fixed_price : ℕ) (lines : List PromotionLine) (products : List PromotionProduct) (bundles : ℕ)
    → count_bundles none lines products ≡ some bundles
    → 0 < bundles
    → products ≢ []
    → (fixed_price * bundles < bundle_price lines bundles products
        → total_amount (bundle_allocations fixed_price lines products)
          ≡ pos (bundle_price lines bundles products - fixed_price * bundles))
      × (bundle_price lines bundles products ≤ fixed_price * bundles
          → bundle_allocations fixed_price lines products ≡ [])
unfolding bundle_allocations
bundle_allocations-total fixed_price lines [] bundles e p ne = absurd (ne refl)
bundle_allocations-total fixed_price lines (x ∷ xs) bundles e p ne = (
  λ h. ground (arith, allocate_bundles-total fixed_price lines x xs bundles h),
  λ h. ground (arith, allocate_bundles-none fixed_price lines (x ∷ xs) bundles h),
)

module _ (discount x y : ℕ) (h : discount ≤ x + y) (p : 0 < y) where
  abbrev first : ℕ
  first = round_divide (discount * x) (x + y)

  first-le : first ≤ x
  first-le = round_divide-le (discount * x) (x + y) x (omega arith) (mul-le-mul h (le_refl x))

  first-le-discount : first ≤ discount
  first-le-discount =
      round_divide-le (discount * x) (x + y) discount (omega arith)
        (omega (arith, mul-le-mul (le_refl discount) (le-add_left x y)))

  second-le : discount - first ≤ y
  second-le =
      let e = discount - y in
      let small : e ≤ x = omega arith in
      let exact : discount ≤ e + y = omega arith in
      let enough : e ≤ first = elim (dec_le discount y) [
        | yes few ↦ omega arith
        | no many ↦
            let split : discount ≡ e + y = omega arith in
            le-round_divide (discount * x) (x + y) e (omega arith)
              (omega (arith, ap (λ (t : ℕ). t * x) split, mul-le-mul (le_refl y) small))
      ] in
      omega arith

-- Over two products of positive price, no allocation is negative, and none exceeds the product's
-- contribution to the regular price.
pub spread_pair :
    (discount : ℕ) (c d : Contribution)
    → discount ≤ c.amount + d.amount
    → 0 < d.amount
    → (a : ℕ) × (b : ℕ) × (spread discount (c.amount + d.amount) 0 (c ∷ d ∷ [])
        ≡ record { product_id = c.product_id; amount = pos a }
          ∷ record { product_id = d.product_id; amount = pos b }
          ∷ [])
      × (a ≤ c.amount)
      × (b ≤ d.amount)
unfolding spread
spread_pair discount c d h p =
    let regular = c.amount + d.amount in
    let a = round_divide (discount * c.amount) regular in
    let fits = first-le-discount discount c.amount d.amount h p in
    let rest : pos discount -ℤ pos (0 + a) ≡ pos (discount - a) = omega int_laws in
    (
      a,
      discount - a,
      rw rest refl,
      first-le discount c.amount d.amount h p,
      second-le discount c.amount d.amount h p,
    )
