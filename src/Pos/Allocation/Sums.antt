-- ===== src/Pos/Allocation/Sums.antt =====
-- The allocation hands out exactly the amount.
use uinventario_api.Base.{
  ℕ, zero, suc, ◌+◌, ◌-◌, ◌*◌, ◌%◌, ◌≤◌, ◌<◌, ◌≡◌, refl, List, [], ◌∷◌, map, arith, sum, length,
  length-map, ap, ◌∙◌, ◌≢◌, All, ok, err,
}
use native.Mathlib.Nat.{div-add-mod, mod-lt, le_of_mul-le-mul_left}
use uinventario_api.Pos.{range_error}
use uinventario_api.Pos.Allocation.{
  Entry, insert_entry, sort_entries, shares, entries, add_one, hand_out, allocate,
  allocate_discount,
}

abbrev rests : ℕ → ℕ → List ℕ → List ℕ
rests amount total [] = []
rests amount total (w ∷ ws) = amount * w % total ∷ rests amount total ws

shares-add-rests :
    (amount total : ℕ) (ws : List ℕ)
    → total * sum (shares amount total ws) + sum (rests amount total ws) ≡ amount * sum ws
unfolding shares
shares-add-rests amount total [] = omega arith
shares-add-rests amount total (w ∷ ws) =
    omega (arith, shares-add-rests amount total ws, div-add-mod (amount * w) total)

rests-le :
    (amount total : ℕ) (ws : List ℕ) → 0 < total → sum (rests amount total ws) ≤ total * length ws
rests-le amount total [] h = omega arith
rests-le amount total (w ∷ ws) h = omega (arith, rests-le amount total ws h, mod-lt (amount * w) h)

-- The whole cents of the shares never exceed the amount, and leave fewer cents than lines.
pub shares-le :
    (amount : ℕ) (ws : List ℕ)
    → 0 < sum ws
    → let given = sum (shares amount (sum ws) ws) in (given ≤ amount) × (amount - given ≤ length ws)
shares-le amount ws h =
    let total = sum ws in
    let given = sum (shares amount total ws) in
    let e = shares-add-rests amount total ws in
    let b = rests-le amount total ws h in
    let below : given ≤ amount = le_of_mul-le-mul_left {k = total} (omega arith) h in
    let left = amount - given in
    let split : amount ≡ given + left = omega arith in
    (below, le_of_mul-le-mul_left {k = total} (omega (arith, ap (λ (t : ℕ). total * t) split)) h)

length-insert_entry : (e : Entry) (es : List Entry) → length (insert_entry e es) ≡ suc (length es)
unfolding insert_entry
length-insert_entry e [] = refl
length-insert_entry e (x ∷ es) = ground (arith, length-insert_entry e es)

length-sort_entries : (es : List Entry) → length (sort_entries es) ≡ length es
unfolding sort_entries
length-sort_entries [] = refl
length-sort_entries (e ∷ es) =
    omega (arith, length-insert_entry e (sort_entries es), length-sort_entries es)

length-entries : (i amount total : ℕ) (ws : List ℕ) → length (entries i amount total ws) ≡ length ws
unfolding entries
length-entries i amount total [] = refl
length-entries i amount total (w ∷ ws) = omega (arith, length-entries (i + 1) amount total ws)

length-shares : (amount total : ℕ) (ws : List ℕ) → length (shares amount total ws) ≡ length ws
unfolding shares
length-shares amount total [] = refl
length-shares amount total (w ∷ ws) = omega (arith, length-shares amount total ws)

-- Every entry stands for a line.
abbrev pub IsWithin : ℕ → List Entry → Type 0
IsWithin n = All (λ e. e.index < n)

insert_entry-IsWithin :
    (n : ℕ) (e : Entry) (es : List Entry)
    → e.index < n
    → IsWithin n es
    → IsWithin n (insert_entry e es)
unfolding insert_entry
insert_entry-IsWithin n e [] h hs = (h, tt)
insert_entry-IsWithin n e (x ∷ es) h hs = ground (arith, insert_entry-IsWithin n e es h)

sort_entries-IsWithin : (n : ℕ) (es : List Entry) → IsWithin n es → IsWithin n (sort_entries es)
unfolding sort_entries
sort_entries-IsWithin n [] hs = tt
sort_entries-IsWithin n (e ∷ es) (h, hs) =
    insert_entry-IsWithin n e (sort_entries es) h (sort_entries-IsWithin n es hs)

entries-IsWithin :
    (i n amount total : ℕ) (ws : List ℕ)
    → i + length ws ≤ n
    → IsWithin n (entries i amount total ws)
unfolding entries
entries-IsWithin i n amount total [] h = tt
entries-IsWithin i n amount total (w ∷ ws) h =
    (omega arith, entries-IsWithin (i + 1) n amount total ws (omega arith))

sum-add_one : (i : ℕ) (xs : List ℕ) → i < length xs → sum (add_one i xs) ≡ suc (sum xs)
unfolding add_one
sum-add_one i [] h = absurd (omega arith)
sum-add_one zero (x ∷ xs) h = omega arith
sum-add_one (suc i) (x ∷ xs) h = omega (arith, sum-add_one i xs (omega arith))

length-add_one : (i : ℕ) (xs : List ℕ) → length (add_one i xs) ≡ length xs
unfolding add_one
length-add_one i [] = refl
length-add_one zero (x ∷ xs) = refl
length-add_one (suc i) (x ∷ xs) = omega (arith, length-add_one i xs)

pub length-hand_out :
    (k : ℕ) (es : List Entry) (xs : List ℕ) → length (hand_out k es xs) ≡ length xs
unfolding hand_out
length-hand_out k [] xs = refl
length-hand_out k (e ∷ es) xs =
    ground (arith, length-hand_out (k - 1) es (add_one e.index xs), length-add_one e.index xs)

sum-hand_out :
    (k : ℕ) (es : List Entry) (xs : List ℕ)
    → IsWithin (length xs) es
    → k ≤ length es
    → sum (hand_out k es xs) ≡ sum xs + k
unfolding hand_out
sum-hand_out k [] xs hs h = omega arith
sum-hand_out k (e ∷ es) xs (he, hs) h = ground (
  arith,
  sum-hand_out (k - 1) es (add_one e.index xs) (rw (length-add_one e.index xs) hs),
  sum-add_one e.index xs he,
)

sum-zeros : (ws : List ℕ) → sum (map (λ _. 0) ws) ≡ 0
sum-zeros [] = refl
sum-zeros (w ∷ ws) = omega (arith, sum-zeros ws)

sum-allocate : (ws : List ℕ) (amount : ℕ) → 0 < sum ws → sum (allocate ws amount (sum ws)) ≡ amount
unfolding allocate
sum-allocate ws amount h =
    let total = sum ws in
    let given = shares amount total ws in
    let es = entries 0 amount total ws in
    let (below, few) = shares-le amount ws h in
    let within =
      sort_entries-IsWithin (length ws) es
        (entries-IsWithin 0 (length ws) amount total ws (omega arith)) in
    let long = length-sort_entries es ∙ length-entries 0 amount total ws in
    omega (
      arith,
      sum-hand_out (amount - sum given) (sort_entries es) given
          (rw (length-shares amount total ws) within) (rw long few),
    )

length-allocate : (ws : List ℕ) (amount total : ℕ) → length (allocate ws amount total) ≡ length ws
unfolding allocate
length-allocate ws amount total =
    let given = shares amount total ws in
    length-hand_out (amount - sum given) (sort_entries (entries 0 amount total ws)) given
    ∙ length-shares amount total ws

-- An allocation over at least one line gives each line a part, and the parts add up to the amount.
pub allocate_discount-sum :
    (ws : List ℕ) (amount : ℕ) {parts : List ℕ}
    → ws ≢ []
    → allocate_discount ws amount ≡ ok parts
    → (length parts ≡ length ws) × (sum parts ≡ amount)
unfolding allocate_discount
allocate_discount-sum [] amount ne h = absurd (ne refl)
allocate_discount-sum (w ∷ ws) amount ne h = ground (
  arith,
  length-allocate (w ∷ ws) amount (w + sum ws),
  sum-allocate (w ∷ ws) amount,
  sum-zeros ws,
  length-map {B = ℕ} ws (λ (_ : ℕ). 0),
)

-- The only failure is a positive amount over lines whose weights are all zero.
pub allocate_discount-err :
    (ws : List ℕ) (amount : ℕ) → 0 < sum ws → allocate_discount ws amount ≢ err range_error
unfolding allocate_discount
allocate_discount-err ws amount h e = ground arith
