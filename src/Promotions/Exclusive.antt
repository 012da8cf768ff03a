-- ===== src/Promotions/Exclusive.antt =====
-- A promotion that is not stackable shares no product with another promotion.
use uinventario_api.Base.{
  ℕ, ◌≡◌, ◌≢◌, refl, true, false, not, ◌||◌, ◌&&◌, List, [], ◌∷◌, ◌++◌, arith, Bool-cases, inl, inr,
  List-cases, All,
}
use uinventario_api.Promotions.{
  PromotionLine, PromotionData, Allocation, AppliedPromotion, Resolution, allocations_of, contains,
  any_in, any_missing, product_ids, record_allocations, apply_rule, resolve_rule, resolve_from,
  resolve,
}
use uinventario_api.Promotions.Products.{AreAmong, allocations_of-AreAmong}

-- Two promotions of one product are both stackable.
abbrev pub AreApart : AppliedPromotion → AppliedPromotion → Type 0
AreApart a b =
    a.product_id ≡ b.product_id
    → a.promotion ≢ b.promotion
    → (a.stackable ≡ true) × (b.stackable ≡ true)

abbrev pub AllApart : List AppliedPromotion → Type 0
AllApart [] = Unit
AllApart (a ∷ rest) = All (AreApart a) rest × AllApart rest

-- The invariant of the loop, beside `AllApart`: the sets know the products of what was applied.
abbrev IsKnown : Resolution → AppliedPromotion → Type 0
IsKnown state a =
    (contains a.product_id state.used ≡ true)
    × (a.stackable ≡ false → contains a.product_id state.exclusive ≡ true)

record IsTracked (state : Resolution) : Type 0 where
  known : All (IsKnown state) state.applied
  apart : AllApart state.applied

any_in-false :
    (p : ℕ) (ids known : List ℕ)
    → any_in ids known ≡ false
    → contains p ids ≡ true
    → contains p known ≡ false
unfolding any_in contains
any_in-false p [] known h c = cc
any_in-false p (x ∷ ids) known h c = ground (arith, any_in-false p ids known)

contains-append_left :
    (p : ℕ) (xs ys : List ℕ) → contains p xs ≡ true → contains p (xs ++ ys) ≡ true
unfolding contains
contains-append_left p [] ys h = cc
contains-append_left p (x ∷ xs) ys h = ground (arith, contains-append_left p xs ys)

contains-append_right :
    (p : ℕ) (xs ys : List ℕ) → contains p ys ≡ true → contains p (xs ++ ys) ≡ true
unfolding contains
contains-append_right p [] ys h = h
contains-append_right p (x ∷ xs) ys h = ground (arith, contains-append_right p xs ys)

All-append {ℓ κ} :
    {A : Type ℓ} (P : A → Type κ) (xs ys : List A) → All P xs → All P ys → All P (xs ++ ys)
All-append P [] ys h k = k
All-append P (x ∷ xs) ys (h, hs) k = (h, All-append P xs ys hs k)

module _ (rule : PromotionData) (state : Resolution) where
  abbrev ids : List ℕ
  ids = product_ids rule.products

  after-IsKnown :
      (as' : List Allocation)
      → (xs : List AppliedPromotion) → All (IsKnown state) xs
      → All (IsKnown (apply_rule rule as' state)) xs
  unfolding apply_rule
  after-IsKnown as' [] h = tt
  after-IsKnown as' (x ∷ xs) ((u, e), hs) = (
    (
      contains-append_right x.product_id ids state.used u,
      λ s. ground (arith, e s, contains-append_right x.product_id ids state.exclusive),
    ),
    after-IsKnown as' xs hs,
  )

  new-IsKnown :
      (all' rest : List Allocation)
      → AreAmong ids rest
      → All (IsKnown (apply_rule rule all' state)) (record_allocations rule rest)
  unfolding apply_rule record_allocations
  new-IsKnown all' [] h = tt
  new-IsKnown all' (a ∷ rest) (h, hs) = (
    (
      contains-append_left a.product_id ids state.used h,
      λ s. ground (arith, contains-append_left a.product_id ids state.exclusive h),
    ),
    new-IsKnown all' rest hs,
  )

  module _ (open' : any_in ids state.exclusive ≡ false)
      (free : rule.stackable ≡ false → any_in ids state.used ≡ false) where
    old_new :
        (x : AppliedPromotion) (rest : List Allocation)
        → IsKnown state x
        → AreAmong ids rest
        → All (AreApart x) (record_allocations rule rest)
    unfolding record_allocations
    old_new x [] k h = tt
    old_new x (a ∷ rest) (u, e) (h, hs) = (
      λ same other. ground (
        arith,
        rw same at u,
        λ (s : x.stackable ≡ false). rw same at (e s),
        any_in-false a.product_id ids state.exclusive,
        any_in-false a.product_id ids state.used,
      ),
      old_new x rest (u, e) hs,
    )

    AllApart-append :
        (xs : List AppliedPromotion) (rest : List Allocation)
        → All (IsKnown state) xs
        → AreAmong ids rest
        → AllApart xs
        → AllApart (record_allocations rule rest)
        → AllApart (xs ++ record_allocations rule rest)
    AllApart-append [] rest k h p q = q
    AllApart-append (x ∷ xs) rest (k, ks) h (p, ps) q = (
      All-append (AreApart x) xs (record_allocations rule rest) p (old_new x rest k h),
      AllApart-append xs rest ks h ps q,
    )

new_same :
    (rule : PromotionData) (x : AppliedPromotion) (rest : List Allocation)
    → x.promotion ≡ rule.id
    → All (AreApart x) (record_allocations rule rest)
unfolding record_allocations
new_same rule x [] e = tt
new_same rule x (a ∷ rest) e = (λ same other. absurd (other e), new_same rule x rest e)

new_apart :
    (rule : PromotionData) (rest : List Allocation) → AllApart (record_allocations rule rest)
unfolding record_allocations
new_apart rule [] = tt
new_apart rule (a ∷ rest) =
    let x : AppliedPromotion = record {
      product_id = a.product_id;
      promotion = rule.id;
      stackable = rule.stackable;
      amount = a.amount;
    } in
    (new_same rule x rest refl, new_apart rule rest)

module _ (rule : PromotionData) (state : Resolution) (t : IsTracked state) where
  apply_rule-IsTracked :
      (rest : List Allocation)
      → AreAmong (product_ids rule.products) rest
      → any_in (product_ids rule.products) state.exclusive ≡ false
      → (rule.stackable ≡ false → any_in (product_ids rule.products) state.used ≡ false)
      → IsTracked (apply_rule rule rest state)
  unfolding apply_rule
  apply_rule-IsTracked rest among open' free = record {
    known =
        All-append (IsKnown (apply_rule rule rest state)) state.applied
          (record_allocations rule rest) (after-IsKnown rule state rest state.applied t.known)
          (new-IsKnown rule state rest rest among);
    apart =
        AllApart-append rule state open' free state.applied rest t.known among t.apart
          (new_apart rule rest);
  }

resolve_rule-IsTracked :
    (lines : List PromotionLine) (rule : PromotionData) (state : Resolution)
    → IsTracked state
    → IsTracked (resolve_rule lines rule state)
unfolding resolve_rule
resolve_rule-IsTracked lines rule state t =
    let ids = product_ids rule.products in
    elim (Bool-cases (
      any_missing lines ids
      || any_in ids state.exclusive
      || (not rule.stackable && any_in ids state.used))) [
        | inl skip ↦ rw skip t
        | inr go ↦ rw go (elim (List-cases (allocations_of rule.kind rule.products lines)) [
          | inl none_left ↦ rw none_left t
          | inr (a, rest, e) ↦ rw e (
              apply_rule-IsTracked rule state t (a ∷ rest)
                (rw e at (allocations_of-AreAmong rule.kind rule.products lines)) (ground arith)
                (λ s. ground arith))
        ])
      ]

resolve_from-IsTracked :
    (lines : List PromotionLine) (rules : List PromotionData) (state : Resolution)
    → IsTracked state
    → IsTracked (resolve_from lines rules state)
unfolding resolve_from
resolve_from-IsTracked lines [] state t = t
resolve_from-IsTracked lines (rule ∷ rules) state t =
    resolve_from-IsTracked lines rules (resolve_rule lines rule state)
      (resolve_rule-IsTracked lines rule state t)

-- Whatever the rules and the cart, if two different promotions were applied to one product, then both
-- are stackable.
pub resolve-AllApart :
    (rules : List PromotionData) (lines : List PromotionLine) → AllApart (resolve rules lines)
unfolding resolve
resolve-AllApart rules lines =
    (resolve_from-IsTracked lines rules (record { applied = []; exclusive = []; used = [] })
      (record { known = tt; apart = tt })).apart
