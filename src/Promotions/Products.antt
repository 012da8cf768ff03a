-- ===== src/Promotions/Products.antt =====
-- The allocations of a promotion are for products of that promotion.
use uinventario_api.Base.{
  ℕ, ◌+◌, ◌≡◌, refl, true, List, [], ◌∷◌, none, some, arith, map, Option-cases, Bool-cases, inl,
  inr, ◌*◌, ◌-◌, leb, ltb, All, ◌==◌,
}
use uinventario_api.Decimal.{round_divide}
use uinventario_api.Promotions.{
  PromotionLine, PromotionProduct, PromotionType, buy_x_get_y, second_unit_percent,
  quantity_percent, bundle_fixed, Contribution, Allocation, contribution, spread, allocate_bundles,
  bundle_allocations, regular_price, count_bundles, single_allocation, single_amount,
  allocations_of, find_line, contains, product_ids,
}

-- The products of the allocations are among `ids`.
abbrev pub AreAmong : List ℕ → List Allocation → Type 0
AreAmong ids = All (λ (a : Allocation). contains a.product_id ids ≡ true)

pub find_line-id :
    (id : ℕ) (ls : List PromotionLine) (l : PromotionLine)
    → find_line id ls ≡ some l
    → l.product_id ≡ id
unfolding find_line
find_line-id id [] l h = cc
find_line-id id (x ∷ ls) l h = ground (arith, find_line-id id ls l)

pub AreAmong-weaken :
    (id : ℕ) (ids : List ℕ) (as' : List Allocation) → AreAmong ids as' → AreAmong (id ∷ ids) as'
unfolding contains
AreAmong-weaken id ids [] h = tt
AreAmong-weaken id ids (a ∷ rest) (h, hs) = (ground arith, AreAmong-weaken id ids rest hs)

abbrev pub owner : Contribution → ℕ
owner c = c.product_id

pub spread-AreAmong :
    (discount regular assigned : ℕ) (cs : List Contribution)
    → AreAmong (map owner cs) (spread discount regular assigned cs)
unfolding spread contains
spread-AreAmong discount regular assigned [] = tt
spread-AreAmong discount regular assigned (c ∷ []) = (ground arith, tt)
spread-AreAmong discount regular assigned (c ∷ d ∷ cs) =
    let next = assigned + round_divide (discount * c.amount) regular in
    (
      ground arith,
      AreAmong-weaken c.product_id (map owner (d ∷ cs)) (spread discount regular next (d ∷ cs))
          (spread-AreAmong discount regular next (d ∷ cs)),
    )

pub owners :
    (lines : List PromotionLine) (n : ℕ) (ps : List PromotionProduct)
    → map owner (map (contribution lines n) ps) ≡ product_ids ps
unfolding contribution
owners lines n [] = refl
owners lines n (x ∷ ps) = rw (owners lines n ps)

pub allocate_bundles-AreAmong :
    (price : ℕ) (lines : List PromotionLine) (ps : List PromotionProduct) (n : ℕ)
    → AreAmong (product_ids ps) (allocate_bundles price lines ps n)
unfolding allocate_bundles
allocate_bundles-AreAmong price lines ps n =
    let cs = map (contribution lines n) ps in
    let among = spread-AreAmong (regular_price cs - price * n) (regular_price cs) 0 cs in
    elim (Bool-cases (leb (regular_price cs) (price * n))) [
      | inl e ↦ rw e tt
      | inr e ↦ rw e (rw (owners lines n ps) at among)
    ]

pub bundle_allocations-AreAmong :
    (price : ℕ) (lines : List PromotionLine) (ps : List PromotionProduct)
    → AreAmong (product_ids ps) (bundle_allocations price lines ps)
unfolding bundle_allocations
bundle_allocations-AreAmong price lines ps = elim (Option-cases (count_bundles none lines ps)) [
  | inl e ↦ rw (bundle_allocations, e) tt
  | inr (n, e) ↦ elim (Bool-cases (n == 0)) [
    | inl z ↦ rw (bundle_allocations, e, z) tt
    | inr z ↦ rw (bundle_allocations, e, z) (allocate_bundles-AreAmong price lines ps n)
  ]
]

pub single-AreAmong :
    (kind : PromotionType) (p : PromotionProduct) (ps : List PromotionProduct)
    (line : PromotionLine)
    → line.product_id ≡ p.product_id
    → AreAmong (product_ids (p ∷ ps)) (single_allocation kind (p ∷ ps) line)
unfolding single_allocation contains
single-AreAmong kind p ps line h = elim (Bool-cases (ltb 0 (single_amount kind (p ∷ ps) line))) [
  | inl e ↦ rw e (ground arith, tt)
  | inr e ↦ rw e tt
]

pub line-AreAmong :
    (kind : PromotionType) (p : PromotionProduct) (ps : List PromotionProduct)
    (lines : List PromotionLine)
    → AreAmong (product_ids (p ∷ ps)) (elim (find_line p.product_id lines) [
      | none ↦ []
      | some line ↦ single_allocation kind (p ∷ ps) line
    ])
line-AreAmong kind p ps lines = elim (Option-cases (find_line p.product_id lines)) [
  | inl e ↦ rw e tt
  | inr (line, e) ↦ rw e (single-AreAmong kind p ps line (find_line-id p.product_id lines line e))
]

pub allocations_of-AreAmong :
    (kind : PromotionType) (ps : List PromotionProduct) (lines : List PromotionLine)
    → AreAmong (product_ids ps) (allocations_of kind ps lines)
unfolding allocations_of
allocations_of-AreAmong (bundle_fixed price) ps lines = bundle_allocations-AreAmong price lines ps
allocations_of-AreAmong (buy_x_get_y b r p) [] lines = tt
allocations_of-AreAmong (buy_x_get_y b r p) (x ∷ ps) lines =
    line-AreAmong (buy_x_get_y b r p) x ps lines
allocations_of-AreAmong (second_unit_percent p) [] lines = tt
allocations_of-AreAmong (second_unit_percent p) (x ∷ ps) lines =
    line-AreAmong (second_unit_percent p) x ps lines
allocations_of-AreAmong (quantity_percent ts) [] lines = tt
allocations_of-AreAmong (quantity_percent ts) (x ∷ ps) lines =
    line-AreAmong (quantity_percent ts) x ps lines
