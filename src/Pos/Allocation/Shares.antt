-- ===== src/Pos/Allocation/Shares.antt =====
-- Each line gets its proportional share, rounded down or up, and never more than its weight.
use uinventario_api.Base.{
  ℕ, zero, suc, ◌+◌, ◌-◌, ◌*◌, ◌/◌, ◌≤◌, ◌<◌, ◌≡◌, refl, List, [], ◌∷◌, map, arith, sum, ok,
  if◌then◌else◌, ◌==◌,
}
use native.Mathlib.Nat.{mul-le-mul, le_refl, mul-div-le, lt_of_mul-lt-mul_left}
use uinventario_api.Pos.Allocation.{
  Entry, insert_entry, sort_entries, shares, entries, add_one, hand_out, allocate,
  allocate_discount,
}

-- The part of the line `i`.
abbrev pub nth : ℕ → List ℕ → ℕ
nth i [] = 0
nth zero (x ∷ xs) = x
nth (suc i) (x ∷ xs) = nth i xs

-- How many entries stand for the line `i`.
abbrev times : ℕ → List Entry → ℕ
times i [] = 0
times i (e ∷ es) = (if e.index == i then 1 else 0) + times i es

times-insert_entry :
    (i : ℕ) (e : Entry) (es : List Entry) → times i (insert_entry e es) ≡ times i (e ∷ es)
unfolding insert_entry
times-insert_entry i e [] = refl
times-insert_entry i e (x ∷ es) = ground (arith, times-insert_entry i e es)

times-sort_entries : (i : ℕ) (es : List Entry) → times i (sort_entries es) ≡ times i es
unfolding sort_entries
times-sort_entries i [] = refl
times-sort_entries i (e ∷ es) =
    omega (arith, times-insert_entry i e (sort_entries es), times-sort_entries i es)

times-entries :
    (i j amount total : ℕ) (ws : List ℕ)
    → (times i (entries j amount total ws) ≤ 1) × (i < j → times i (entries j amount total ws) ≡ 0)
unfolding entries
times-entries i j amount total [] = omega arith
times-entries i j amount total (w ∷ ws) = ground (arith, times-entries i (j + 1) amount total ws)

nth-add_one :
    (i j : ℕ) (xs : List ℕ)
    → (nth i xs ≤ nth i (add_one j xs))
      × (nth i (add_one j xs) ≤ nth i xs + (if j == i then 1 else 0))
unfolding add_one
nth-add_one i j [] = omega arith
nth-add_one zero zero (x ∷ xs) = ground arith
nth-add_one (suc i) zero (x ∷ xs) = ground arith
nth-add_one zero (suc j) (x ∷ xs) = ground arith
nth-add_one (suc i) (suc j) (x ∷ xs) = ground (arith, nth-add_one i j xs)

nth-hand_out :
    (i k : ℕ) (es : List Entry) (xs : List ℕ)
    → (nth i xs ≤ nth i (hand_out k es xs)) × (nth i (hand_out k es xs) ≤ nth i xs + times i es)
unfolding hand_out
nth-hand_out i k [] xs = omega arith
nth-hand_out i k (e ∷ es) xs =
    ground (arith, nth-hand_out i (k - 1) es (add_one e.index xs), nth-add_one i e.index xs)

nth-shares :
    (i amount total : ℕ) (ws : List ℕ) → nth i (shares amount total ws) ≡ amount * nth i ws / total
unfolding shares
nth-shares i amount total [] = omega arith
nth-shares zero amount total (w ∷ ws) = refl
nth-shares (suc i) amount total (w ∷ ws) = nth-shares i amount total ws

nth-allocate :
    (i : ℕ) (ws : List ℕ) (amount total : ℕ)
    → let part = nth i (allocate ws amount total) in
      (amount * nth i ws / total ≤ part) × (part ≤ amount * nth i ws / total + 1)
unfolding allocate
nth-allocate i ws amount total =
    let given = shares amount total ws in
    let es = entries 0 amount total ws in
    omega (
      arith,
      nth-hand_out i (amount - sum given) (sort_entries es) given,
      times-sort_entries i es,
      times-entries i 0 amount total ws,
      nth-shares i amount total ws,
    )

nth-zeros : (i : ℕ) (ws : List ℕ) → nth i (map (λ _. 0) ws) ≡ 0
nth-zeros i [] = refl
nth-zeros zero (w ∷ ws) = refl
nth-zeros (suc i) (w ∷ ws) = nth-zeros i ws

-- The part of each line is its proportional share, rounded down or up to a cent.
pub allocate_discount-share :
    (ws : List ℕ) (amount : ℕ) {parts : List ℕ}
    → allocate_discount ws amount ≡ ok parts
    → (i : ℕ)
    → (amount * nth i ws / sum ws ≤ nth i parts) × (nth i parts ≤ amount * nth i ws / sum ws + 1)
unfolding allocate_discount
allocate_discount-share ws amount h i =
    ground (arith, nth-allocate i ws amount (sum ws), nth-zeros i ws)

share_lt : (amount w total : ℕ) → amount < total → 0 < w → amount * w / total < w
share_lt amount w total h p =
    let under = mul-le-mul h (le_refl w) in
    let low = mul-div-le (amount * w) total in lt_of_mul-lt-mul_left total (omega arith)

-- When the amount is less than the sum of the weights, a line of positive weight never gets more
-- than its weight, so that no line total becomes negative.
pub allocate_discount-le :
    (ws : List ℕ) (amount : ℕ) {parts : List ℕ}
    → allocate_discount ws amount ≡ ok parts
    → amount < sum ws
    → (i : ℕ) → 0 < nth i ws
    → nth i parts ≤ nth i ws
allocate_discount-le ws amount h small i positive = omega (
  arith,
  allocate_discount-share ws amount h i,
  share_lt amount (nth i ws) (sum ws) small positive,
)
