-- ===== src/Promotions.antt =====
-- The promotion engine: src/promotions/promotion-engine.service.ts. Quantities are in thousandths, money
-- in cents and percentages in ten-thousandths, as `quantity`, `moneyUnits` and `percent` read them.
-- An allocation may be negative, and so is an integer.
pub mod Amounts
mod Examples
pub mod Bundles
pub mod Products
pub mod Exclusive
use uinventario_api.Base.{
  ℕ, suc, ◌+◌, ◌-◌, ◌*◌, ◌/◌, Bool, true, false, not, ◌&&◌, ◌||◌, Option, none, some, List, [], ◌∷◌,
  ◌++◌, map, ltb, leb, ◌==◌, if◌then◌else◌,
}
use uinventario_api.Base.Int.{ℤ, pos, ◌-ℤ◌}
use uinventario_api.Decimal.{round_divide}

pub record PromotionLine : Type 0 where
  pub product_id : ℕ
  pub quantity : ℕ
  pub unit_price : ℕ

pub record PromotionProduct : Type 0 where
  pub product_id : ℕ
  pub quantity : ℕ

pub record Tier : Type 0 where
  pub minimum_quantity : ℕ
  pub discount_percent : ℕ

-- The type of a promotion with the fields that it uses, which are not null for that type.
pub data PromotionType : Type 0 where
  buy_x_get_y : (buy reward discount_percent : ℕ) → PromotionType
  second_unit_percent : (discount_percent : ℕ) → PromotionType
  quantity_percent : List Tier → PromotionType
  bundle_fixed : (fixed_price : ℕ) → PromotionType

pub record PromotionData : Type 0 where
  pub id : ℕ
  pub kind : PromotionType
  pub stackable : Bool
  pub products : List PromotionProduct

pub record Allocation : Type 0 where
  pub product_id : ℕ
  pub amount : ℤ

-- `lines.get(id)`
unfoldable pub find_line : ℕ → List PromotionLine → Option PromotionLine
find_line id [] = none
find_line id (l ∷ ls) = if l.product_id == id then some l else find_line id ls

unfoldable pub find_tier : ℕ → List Tier → Option Tier
find_tier quantity [] = none
find_tier quantity (t ∷ ts) =
    if leb t.minimum_quantity quantity then some t else find_tier quantity ts

unfoldable pub reverse_tiers : List Tier → List Tier → List Tier
reverse_tiers acc [] = acc
reverse_tiers acc (t ∷ ts) = reverse_tiers (t ∷ acc) ts

-- The eligible quantity and the percentage, or `none` where `singleAllocation` returns `[]` early.
-- The quantities of a rule are positive (its DTO), so that no division is by zero.
unfoldable pub eligible : PromotionType → List PromotionProduct → ℕ → Option (ℕ × ℕ)
eligible (buy_x_get_y buy reward percent) products quantity =
    let cycles = quantity / (buy + reward) in
    if cycles == 0 then none else some (cycles * reward, percent)
eligible (second_unit_percent percent) [] quantity = none
eligible (second_unit_percent percent) (p ∷ _) quantity =
    let cycles = quantity / (p.quantity * 2) in
    if cycles == 0 then none else some (cycles * p.quantity, percent)
eligible (quantity_percent tiers) products quantity =
    elim (find_tier quantity (reverse_tiers [] tiers)) [
      | none ↦ none
      | some tier ↦ some (quantity, tier.discount_percent)
    ]
eligible (bundle_fixed _) products quantity = none

unfoldable pub single_amount : PromotionType → List PromotionProduct → PromotionLine → ℕ
single_amount kind products line = elim (eligible kind products line.quantity) [
  | none ↦ 0
  | some (quantity, percent) ↦
      round_divide (line.unit_price * quantity * percent) (1000 * 1_000_000)
]

unfoldable pub single_allocation :
    PromotionType → List PromotionProduct → PromotionLine → List Allocation
single_allocation kind products line =
    let amount = single_amount kind products line in
    if ltb 0 amount then record { product_id = line.product_id; amount = pos amount } ∷ [] else []

-- How many bundles the line of a product holds; every product has a line when this is called.
unfoldable pub supported : List PromotionLine → PromotionProduct → ℕ
supported lines item = elim (find_line item.product_id lines) [
  | none ↦ 0
  | some line ↦ line.quantity / item.quantity
]

-- The `reduce` over the products, where `none` is its `null`.
unfoldable pub count_bundles : Option ℕ → List PromotionLine → List PromotionProduct → Option ℕ
count_bundles current lines [] = current
count_bundles none lines (item ∷ items) = count_bundles (some (supported lines item)) lines items
count_bundles (some n) lines (item ∷ items) =
    count_bundles (some (if ltb (supported lines item) n then supported lines item else n)) lines
      items

pub record Contribution : Type 0 where
  pub product_id : ℕ
  pub amount : ℕ

unfoldable pub contribution : List PromotionLine → ℕ → PromotionProduct → Contribution
contribution lines bundles item = record {
  product_id = item.product_id;
  amount = elim (find_line item.product_id lines) [
    | none ↦ 0
    | some line ↦ round_divide (line.unit_price * item.quantity * bundles) 1000
  ];
}

unfoldable pub regular_price : List Contribution → ℕ
regular_price [] = 0
regular_price (c ∷ cs) = c.amount + regular_price cs

-- The last `map`: every contribution but the last gets its rounded share, and the last one what
-- `assigned` leaves, which may be negative.
unfoldable pub spread : ℕ → ℕ → ℕ → List Contribution → List Allocation
spread discount regular assigned [] = []
spread discount regular assigned (c ∷ []) =
    record { product_id = c.product_id; amount = pos discount -ℤ pos assigned } ∷ []
spread discount regular assigned (c ∷ d ∷ cs) =
    let amount = round_divide (discount * c.amount) regular in
    record { product_id = c.product_id; amount = pos amount }
    ∷ spread discount regular (assigned + amount) (d ∷ cs)

unfoldable pub allocate_bundles :
    ℕ → List PromotionLine → List PromotionProduct → ℕ → List Allocation
allocate_bundles fixed_price lines products bundles =
    let contributions = map (contribution lines bundles) products in
    let regular = regular_price contributions in
    let promotional = fixed_price * bundles in
    if leb regular promotional then [] else spread (regular - promotional) regular 0 contributions

unfoldable pub bundle_allocations : ℕ → List PromotionLine → List PromotionProduct → List Allocation
bundle_allocations fixed_price lines products = elim (count_bundles none lines products) [
  | none ↦ []
  | some bundles ↦ if bundles == 0 then [] else allocate_bundles fixed_price lines products bundles
]

-- `rule.type === 'BUNDLE_FIXED' ? bundleAllocations(…) : singleAllocation(…)`
unfoldable pub allocations_of :
    PromotionType → List PromotionProduct → List PromotionLine → List Allocation
allocations_of (bundle_fixed fixed_price) products lines =
    bundle_allocations fixed_price lines products
allocations_of kind [] lines = []
allocations_of kind (p ∷ ps) lines = elim (find_line p.product_id lines) [
  | none ↦ []
  | some line ↦ single_allocation kind (p ∷ ps) line
]

pub record AppliedPromotion : Type 0 where
  pub product_id : ℕ
  pub promotion : ℕ
  pub stackable : Bool
  pub amount : ℤ

-- The local state of `resolve`; `applied` is its map, in the order of insertion.
pub record Resolution : Type 0 where
  pub applied : List AppliedPromotion
  pub exclusive : List ℕ
  pub used : List ℕ

unfoldable pub contains : ℕ → List ℕ → Bool
contains id [] = false
contains id (x ∷ xs) = x == id || contains id xs

unfoldable pub any_in : List ℕ → List ℕ → Bool
any_in [] known = false
any_in (id ∷ ids) known = contains id known || any_in ids known

unfoldable pub any_missing : List PromotionLine → List ℕ → Bool
any_missing lines [] = false
any_missing lines (id ∷ ids) = elim (find_line id lines) [
  | none ↦ true
  | some _ ↦ any_missing lines ids
]

abbrev product_ids : List PromotionProduct → List ℕ
product_ids = map (λ (p : PromotionProduct). p.product_id)

unfoldable pub record_allocations : PromotionData → List Allocation → List AppliedPromotion
record_allocations rule [] = []
record_allocations rule (a ∷ rest) =
    record {
      product_id = a.product_id;
      promotion = rule.id;
      stackable = rule.stackable;
      amount = a.amount;
    }
    ∷ record_allocations rule rest

-- What an applied rule leaves behind; the sets hold all the products of the rule.
unfoldable pub apply_rule : PromotionData → List Allocation → Resolution → Resolution
apply_rule rule allocations state =
    let ids = product_ids rule.products in
    record {
      applied = state.applied ++ record_allocations rule allocations;
      exclusive = if rule.stackable then state.exclusive else ids ++ state.exclusive;
      used = ids ++ state.used;
    }

-- One round of the loop.
unfoldable pub resolve_rule : List PromotionLine → PromotionData → Resolution → Resolution
resolve_rule lines rule state =
    let ids = product_ids rule.products in
    if any_missing lines ids
      || any_in ids state.exclusive
      || (not rule.stackable && any_in ids state.used)
    then state
    else elim (allocations_of rule.kind rule.products lines) [
      | [] ↦ state
      | a ∷ rest ↦ apply_rule rule (a ∷ rest) state
    ]

unfoldable pub resolve_from : List PromotionLine → List PromotionData → Resolution → Resolution
resolve_from lines [] state = state
resolve_from lines (rule ∷ rules) state = resolve_from lines rules (resolve_rule lines rule state)

-- The rules are those that the repository finds applicable, in its order.
unfoldable pub resolve : List PromotionData → List PromotionLine → List AppliedPromotion
resolve rules lines =
    (resolve_from lines rules (record { applied = []; exclusive = []; used = [] })).applied
