-- ===== src/Reservations/Held.antt =====
-- What the active reservations hold of a product at a location.
use uinventario_api.Base.{
  ℕ, ◌+◌, ◌≡◌, refl, Bool, true, false, not, ◌&&◌, ◌||◌, ◌==◌, if◌then◌else◌, arith, ltb, some,
  List, [], ◌∷◌, Bool-cases, inl, inr,
}
use uinventario_api.Reservations.{ReservationLine, Reservation, is_active, find_by_id}
use uinventario_api.Reservations.Closing.{Closure, update_row}

unfoldable pub line_total : ℕ → List ReservationLine → ℕ
line_total product [] = 0
line_total product (line ∷ rest) =
    let sum = line_total product rest in
    if line.product == product then line.quantity + sum else sum

abbrev pub held_by : ℕ → ℕ → Reservation → ℕ
held_by product location r =
    if is_active r.status && r.location == location then line_total product r.lines else 0

unfoldable pub held : ℕ → ℕ → List Reservation → ℕ
held product location [] = 0
held product location (r ∷ rest) = held_by product location r + held product location rest

unfoldable pub is_positive : List ReservationLine → Bool
is_positive [] = true
is_positive (line ∷ rest) = ltb 0 line.quantity && is_positive rest

-- The lines of the active reservations are positive.
unfoldable pub all_positive : List Reservation → Bool
all_positive [] = true
all_positive (r ∷ rest) = (not (is_active r.status) || is_positive r.lines) && all_positive rest

-- A closure takes what the reservation holds, and no other reservation's.
pub held-update :
    (closure : Closure) (p l : ℕ) (rs : List Reservation) (r : Reservation)
    → is_active closure.status ≡ false
    → find_by_id closure.id rs ≡ some r
    → is_active r.status ≡ true
    → held p l rs ≡ held_by p l r + held p l (update_row closure rs)
unfolding held find_by_id update_row
held-update closure p l [] r closing found e = absurd (ground arith)
held-update closure p l (first ∷ rest) r closing found e =
    elim (Bool-cases (first.id == closure.id)) [
      | inl same ↦ let it : first ≡ r = ground arith in ground (arith, it)
      | inr other ↦
          let later = held-update closure p l rest r closing (ground arith) e in
          rw (other, later) (omega arith)
    ]

pub all_positive-find :
    (id : ℕ) (rs : List Reservation) (r : Reservation)
    → all_positive rs ≡ true
    → find_by_id id rs ≡ some r
    → is_active r.status ≡ true
    → is_positive r.lines ≡ true
unfolding all_positive find_by_id
all_positive-find id [] r h found e = absurd (ground arith)
all_positive-find id (first ∷ rest) r h found e = elim (Bool-cases (first.id == id)) [
  | inl same ↦ let it : first ≡ r = ground arith in ground (arith, it)
  | inr other ↦ all_positive-find id rest r (ground arith) (ground arith) e
]

pub all_positive-update :
    (closure : Closure) (rs : List Reservation)
    → is_active closure.status ≡ false
    → all_positive rs ≡ true
    → all_positive (update_row closure rs) ≡ true
unfolding all_positive update_row
all_positive-update closure [] closing h = refl
all_positive-update closure (first ∷ rest) closing h =
    let later = all_positive-update closure rest closing (ground arith) in ground (arith, later)
