-- ===== src/Promotions/Amounts.antt =====
-- What a promotion on one line takes off: never more than the line's price.
use uinventario_api.Base.{
  ℕ, ◌+◌, ◌*◌, ◌/◌, ◌≤◌, ◌≡◌, List, [], ◌∷◌, some, arith, All, Option-cases, inl, inr,
}
use native.Mathlib.Nat.{mul-le-mul, le_refl, div-mul-le_self, le-add_left}
use uinventario_api.Decimal.{round_divide}
use uinventario_api.Promotions.{
  PromotionType, buy_x_get_y, second_unit_percent, quantity_percent, bundle_fixed, PromotionProduct,
  PromotionLine, Tier, find_tier, reverse_tiers, eligible, single_amount,
}

-- The percentages of a rule are at most 100 (in ten-thousandths).
abbrev pub HasPercents : PromotionType → Type 0
HasPercents (buy_x_get_y _ _ percent) = percent ≤ 1_000_000
HasPercents (second_unit_percent percent) = percent ≤ 1_000_000
HasPercents (quantity_percent tiers) = All (λ (t : Tier). t.discount_percent ≤ 1_000_000) tiers
HasPercents (bundle_fixed _) = Unit

abbrev IsLow : Tier → Type 0
IsLow t = t.discount_percent ≤ 1_000_000

reverse_tiers-IsLow :
    (acc ts : List Tier) → All IsLow acc → All IsLow ts → All IsLow (reverse_tiers acc ts)
unfolding reverse_tiers
reverse_tiers-IsLow acc [] h k = h
reverse_tiers-IsLow acc (t ∷ ts) h (kt, ks) = reverse_tiers-IsLow (t ∷ acc) ts (kt, h) ks

find_tier-IsLow :
    (quantity : ℕ) (ts : List Tier) (t : Tier)
    → All IsLow ts
    → find_tier quantity ts ≡ some t
    → IsLow t
unfolding find_tier
find_tier-IsLow quantity [] t h e = cc
find_tier-IsLow quantity (x ∷ ts) t h e = ground (arith, find_tier-IsLow quantity ts t h.1)

cycles-le : (q b r : ℕ) → q / (b + r) * r ≤ q
cycles-le q b r =
    let n = q / (b + r) in
    omega (arith, div-mul-le_self q (b + r), mul-le-mul (le_refl n) (le-add_left r b))

halves-le : (q u : ℕ) → q / (u * 2) * u ≤ q
halves-le q u = omega (arith, div-mul-le_self q (u * 2))

-- The eligible quantity is at most the quantity of the line, at a percentage of at most 100.
eligible-le :
    (kind : PromotionType) (products : List PromotionProduct) (quantity : ℕ) {q p : ℕ}
    → HasPercents kind
    → eligible kind products quantity ≡ some (q, p)
    → (q ≤ quantity) × (p ≤ 1_000_000)
unfolding eligible
eligible-le (buy_x_get_y buy reward percent) products quantity h e =
    ground (arith, cycles-le quantity buy reward)
eligible-le (second_unit_percent percent) [] quantity h e = cc
eligible-le (second_unit_percent percent) (x ∷ xs) quantity h e =
    ground (arith, halves-le quantity x.quantity)
eligible-le (quantity_percent tiers) products quantity h e =
    elim (Option-cases (find_tier quantity (reverse_tiers [] tiers))) [
      | inl missing ↦ absurd (ground arith)
      | inr (t, found) ↦
          let low =
            find_tier-IsLow quantity (reverse_tiers [] tiers) t (reverse_tiers-IsLow [] tiers tt h)
              found in
          ground arith
    ]
eligible-le (bundle_fixed _) products quantity h e = cc

scaled-le :
    (price quantity q p : ℕ)
    → q ≤ quantity
    → p ≤ 1_000_000
    → round_divide (price * q * p) (1000 * 1_000_000) ≤ round_divide (price * quantity) 1000
unfolding round_divide
scaled-le price quantity q p hq hp = omega (arith, mul-le-mul (mul-le-mul (le_refl price) hq) hp)

-- A promotion on one line never takes off more than the price of the line, rounded as the quote
-- rounds it.
pub single_amount-le :
    (kind : PromotionType) (products : List PromotionProduct) (line : PromotionLine)
    → HasPercents kind
    → single_amount kind products line ≤ round_divide (line.unit_price * line.quantity) 1000
unfolding single_amount
single_amount-le kind products line h = elim (Option-cases (eligible kind products line.quantity)) [
  | inl nothing ↦ rw (single_amount, nothing) (omega arith)
  | inr ((q, p), e) ↦
      let (hq, hp) = eligible-le kind products line.quantity h e in
      rw (single_amount, e) (scaled-le line.unit_price line.quantity q p hq hp)
]
