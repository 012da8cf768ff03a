-- ===== src/Promotions/Examples.antt =====
-- Tests of src/promotions/promotion-engine.service.ts, and its properties at concrete inputs.
use uinventario_api.Base.{
  ℕ, ◌-◌, ◌*◌, ◌≤◌, ◌<◌, ◌≡◌, refl, Bool, true, false, List, [], ◌∷◌, none, some, arith,
}
use uinventario_api.Base.Int.{pos, negsuc, ◌-ℤ◌}
use uinventario_api.Decimal.{round_divide}
use uinventario_api.Promotions.{
  PromotionLine, PromotionProduct, buy_x_get_y, PromotionData, Contribution, single_amount,
  eligible, find_line, bundle_allocations, count_bundles, supported, contribution, regular_price,
  spread, allocate_bundles, single_allocation, allocations_of, contains, any_in, any_missing,
  record_allocations, apply_rule, resolve_rule, resolve_from, resolve,
}
use uinventario_api.Promotions.Amounts.{single_amount-le}
use uinventario_api.Promotions.Bundles.{total_amount, bundle_price, bundle_allocations-total}
use uinventario_api.Promotions.Exclusive.{AllApart, resolve-AllApart}

abbrev item : ℕ → ℕ → PromotionProduct
item id n = record { product_id = id; quantity = n }

abbrev line : ℕ → ℕ → ℕ → PromotionLine
line id n price = record { product_id = id; quantity = n; unit_price = price }

-- Five units at 10.00, and two units of three products at 0.01.
abbrev cart : List PromotionLine
cart = line 1 5000 1000 ∷ line 2 2000 250 ∷ []

abbrev cents : List PromotionLine
cents = line 1 1000 1 ∷ line 2 1000 1 ∷ line 3 1000 1 ∷ line 4 1000 1 ∷ []

abbrev cents_bundle : List PromotionProduct
cents_bundle = item 1 1000 ∷ item 2 1000 ∷ item 3 1000 ∷ item 4 1000 ∷ []

-- Two for the price of one, stackable or not.
abbrev two_for_one : ℕ → Bool → PromotionData
two_for_one id stackable = record {
  id = id;
  kind = buy_x_get_y 1000 1000 1_000_000;
  stackable = stackable;
  products = item 1 1000 ∷ [];
}

resolve_first :
    resolve (two_for_one 7 false ∷ two_for_one 8 true ∷ []) cart
    ≡ record { product_id = 1; promotion = 7; stackable = false; amount = pos 2000 } ∷ []
unfolding resolve resolve_from resolve_rule apply_rule record_allocations any_missing any_in
    contains allocations_of single_allocation single_amount eligible find_line round_divide
resolve_first = refl

-- Four products of one cent for 0.02: three shares of half a cent are rounded up, and the last product
-- gets a discount of minus one cent.
bundle_negative :
    bundle_allocations 2 cents cents_bundle
    ≡ record { product_id = 1; amount = pos 1 }
      ∷ record { product_id = 2; amount = pos 1 }
      ∷ record { product_id = 3; amount = pos 1 }
      ∷ record { product_id = 4; amount = negsuc 0 }
      ∷ []
unfolding bundle_allocations count_bundles supported find_line allocate_bundles contribution
    regular_price spread round_divide ◌-ℤ◌
bundle_negative = refl

abbrev pair : List PromotionProduct
pair = item 1 1000 ∷ item 2 1000 ∷ []

two_bundles : count_bundles none cart pair ≡ some 2
unfolding count_bundles supported find_line
two_bundles = refl

single_amount-le_example :
    single_amount (buy_x_get_y 1000 1000 1_000_000) (item 1 1000 ∷ []) (line 1 5000 1000)
    ≤ round_divide (1000 * 5000) 1000
single_amount-le_example =
    single_amount-le (buy_x_get_y 1000 1000 1_000_000) (item 1 1000 ∷ []) (line 1 5000 1000)
      (omega arith)

bundle_allocations-total_example :
    (1100 * 2 < bundle_price cart 2 pair
      → total_amount (bundle_allocations 1100 cart pair)
        ≡ pos (bundle_price cart 2 pair - 1100 * 2))
    × (bundle_price cart 2 pair ≤ 1100 * 2 → bundle_allocations 1100 cart pair ≡ [])
bundle_allocations-total_example =
    bundle_allocations-total 1100 cart pair 2 two_bundles (omega arith) (λ e. cc)

abbrev part : ℕ → ℕ → Contribution
part id n = record { product_id = id; amount = n }

resolve-AllApart_example : AllApart (resolve (two_for_one 7 false ∷ two_for_one 8 true ∷ []) cart)
resolve-AllApart_example = resolve-AllApart (two_for_one 7 false ∷ two_for_one 8 true ∷ []) cart
