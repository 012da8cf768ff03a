-- ===== src/Pos/Allocation.antt =====
-- `allocateDiscount` of src/pos/pos.service.ts: a discount on the whole sale is spread over the lines in
-- proportion to their weights, and the cents that the divisions leave go to the largest remainders.

pub mod Sums
pub mod Shares
use uinventario_api.Base.{
  ℕ, zero, suc, ◌+◌, ◌-◌, ◌*◌, ◌/◌, ◌%◌, Bool, ◌&&◌, List, [], ◌∷◌, map, ltb, ◌==◌, if◌then◌else◌,
  sum, length, Result, ok, err,
}
use uinventario_api.Pos.{PosError, range_error}

-- An entry of `order`: a line, and what the division of its share leaves.
pub record Entry : Type 0 where
  pub index : ℕ
  pub rest : ℕ

-- The comparison that `sort` is given: larger remainders first, and by the index where they agree.
unfoldable pub goes_first : Entry → Entry → Bool
goes_first left right =
    if left.rest == right.rest then ltb left.index right.index else ltb right.rest left.rest

unfoldable pub insert_entry : Entry → List Entry → List Entry
insert_entry e [] = e ∷ []
insert_entry e (x ∷ xs) = if goes_first e x then e ∷ x ∷ xs else x ∷ insert_entry e xs

-- `Array.prototype.sort` by that comparison, under which no two entries are equal.
unfoldable pub sort_entries : List Entry → List Entry
sort_entries [] = []
sort_entries (e ∷ es) = insert_entry e (sort_entries es)

-- `weights.map((weight) => (amount * weight) / total)`
unfoldable pub shares : ℕ → ℕ → List ℕ → List ℕ
shares amount total [] = []
shares amount total (w ∷ ws) = amount * w / total ∷ shares amount total ws

-- `weights.map((weight, index) => ({ index, remainder }))`, from the index `i` on.
unfoldable pub entries : ℕ → ℕ → ℕ → List ℕ → List Entry
entries i amount total [] = []
entries i amount total (w ∷ ws) =
    record { index = i; rest = amount * w % total } ∷ entries (i + 1) amount total ws

-- `allocations[index] += 1n`
unfoldable pub add_one : ℕ → List ℕ → List ℕ
add_one i [] = []
add_one zero (a ∷ rest) = suc a ∷ rest
add_one (suc i) (a ∷ rest) = a ∷ add_one i rest

-- The last loop: one cent for each entry, until none is left.
unfoldable pub hand_out : ℕ → List Entry → List ℕ → List ℕ
hand_out remainder [] allocations = allocations
hand_out remainder (e ∷ es) allocations =
    let rest = hand_out (remainder - 1) es (add_one e.index allocations) in
    if remainder == 0 then allocations else rest

-- The remainder is never negative, so that `-` on ℕ is the subtraction of the source
-- (`Sums.shares-le`).
unfoldable pub allocate : List ℕ → ℕ → ℕ → List ℕ
allocate weights amount total =
    let allocations = shares amount total weights in
    hand_out (amount - sum allocations) (sort_entries (entries 0 amount total weights)) allocations

unfoldable pub allocate_discount : List ℕ → ℕ → Result PosError (List ℕ)
allocate_discount weights amount =
    let total = sum weights in
    if amount == 0
    then ok (map (λ _. 0) weights)
    else if ltb 0 (length weights) && total == 0
    then err range_error
    else ok (allocate weights amount total)
