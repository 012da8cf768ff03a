-- ===== src/Reservations/Due.antt =====
-- What `expireDue` selects among the rows.
use uinventario_api.Base.{
  ℕ, ◌≡◌, refl, Bool, true, false, not, ◌&&◌, ◌||◌, ◌==◌, arith, Option, none, some, List, [], ◌∷◌,
  Bool-cases, inl, inr,
}
use uinventario_api.Reservations.{Reservation, is_active, find_by_id, has_id}
use uinventario_api.Reservations.Closing.{Closure, update_row, is_due, insert_due, due}
use uinventario_api.Reservations.Backing.{is_distinct}

-- The branch and the time of the row with an identifier, and whether it is active.
abbrev pub row_facts : Option Reservation → Option (ℕ × ℕ)
row_facts none = none
row_facts (some r) = some (r.branch, r.expires_at)

abbrev pub is_open : Option Reservation → Bool
is_open none = false
is_open (some r) = is_active r.status

unfoldable pub contains : ℕ → List Reservation → Bool
contains id [] = false
contains id (r ∷ rest) = r.id == id || contains id rest

abbrev pub is_of_branch : ℕ → Option Reservation → Bool
is_of_branch branch none = false
is_of_branch branch (some r) = r.branch == branch

-- The reservations of a list are rows of a branch.
unfoldable pub all_of_branch : ℕ → List Reservation → List Reservation → Bool
all_of_branch branch [] rs = true
all_of_branch branch (r ∷ rest) rs =
    is_of_branch branch (find_by_id r.id rs) && all_of_branch branch rest rs

pub update-row_facts :
    (closure : Closure) (id : ℕ) (rs : List Reservation)
    → row_facts (find_by_id id (update_row closure rs)) ≡ row_facts (find_by_id id rs)
unfolding find_by_id update_row
update-row_facts closure id [] = refl
update-row_facts closure id (r ∷ rest) =
    let later = update-row_facts closure id rest in ground (arith, later)

pub update-is_open :
    (closure : Closure) (id : ℕ) (rs : List Reservation)
    → is_active closure.status ≡ false
    → is_open (find_by_id id (update_row closure rs))
      ≡ (is_open (find_by_id id rs) && not (closure.id == id))
unfolding find_by_id update_row
update-is_open closure id [] closing = refl
update-is_open closure id (r ∷ rest) closing =
    let later = update-is_open closure id rest closing in ground (arith, later)

of_branch-facts :
    (branch : ℕ) (a b : Option Reservation)
    → row_facts a ≡ row_facts b
    → is_of_branch branch a ≡ is_of_branch branch b
of_branch-facts branch none none h = refl
of_branch-facts branch none (some b) h = absurd (ground arith)
of_branch-facts branch (some a) none h = absurd (ground arith)
of_branch-facts branch (some a) (some b) h = ground arith

pub all_of_branch-update :
    (closure : Closure) (branch : ℕ) (listed rs : List Reservation)
    → all_of_branch branch listed (update_row closure rs) ≡ all_of_branch branch listed rs
unfolding all_of_branch
all_of_branch-update closure branch [] rs = refl
all_of_branch-update closure branch (r ∷ rest) rs =
    let later = all_of_branch-update closure branch rest rs in
    let first =
      of_branch-facts branch (find_by_id r.id (update_row closure rs)) (find_by_id r.id rs)
        (update-row_facts closure r.id rs) in
    rw (later, first) refl

unfound : (id : ℕ) (rs : List Reservation) → has_id id rs ≡ false → find_by_id id rs ≡ none
unfolding has_id find_by_id
unfound id [] h = refl
unfound id (r ∷ rest) h = let later = unfound id rest (ground arith) in ground (arith, later)

contains-insert :
    (id : ℕ) (r : Reservation) (listed : List Reservation)
    → contains id (insert_due r listed) ≡ (r.id == id || contains id listed)
unfolding contains insert_due
contains-insert id r [] = refl
contains-insert id r (next ∷ rest) = let later = contains-insert id r rest in ground (arith, later)

all_of_branch-insert :
    (branch : ℕ) (r : Reservation) (listed rs : List Reservation)
    → all_of_branch branch (insert_due r listed) rs
      ≡ (is_of_branch branch (find_by_id r.id rs) && all_of_branch branch listed rs)
unfolding all_of_branch insert_due
all_of_branch-insert branch r [] rs = refl
all_of_branch-insert branch r (next ∷ rest) rs =
    let later = all_of_branch-insert branch r rest rs in ground (arith, later)

-- A row that is due is selected.
pub contains-due :
    (now branch id : ℕ) (rs : List Reservation) (r : Reservation)
    → find_by_id id rs ≡ some r
    → is_due now branch r ≡ true
    → contains id (due now branch rs) ≡ true
unfolding find_by_id due
contains-due now branch id [] r e h = absurd (ground arith)
contains-due now branch id (first ∷ rest) r e h = elim (Bool-cases (first.id == id)) [
  | inl same ↦
      let it : first ≡ r = ground arith in
      let is : is_due now branch first ≡ true = rw it h in
      rw (is, contains-insert id first (due now branch rest), same) refl
  | inr other ↦
      let later = contains-due now branch id rest r (ground arith) h in
      elim (Bool-cases (is_due now branch first)) [
        | inl is ↦ rw (is, contains-insert id first (due now branch rest), later) (ground arith)
        | inr not_due ↦ rw not_due later
      ]
]

-- Rows that are found do not change when a row with another identifier is put before them.
all_of_branch-cons :
    (branch : ℕ) (first : Reservation) (listed rest : List Reservation)
    → has_id first.id rest ≡ false
    → all_of_branch branch listed rest ≡ true
    → all_of_branch branch listed (first ∷ rest) ≡ true
unfolding all_of_branch find_by_id
all_of_branch-cons branch first [] rest fresh h = refl
all_of_branch-cons branch first (r ∷ listed) rest fresh h =
    let later = all_of_branch-cons branch first listed rest fresh (ground arith) in
    elim (Bool-cases (first.id == r.id)) [
      | inl same ↦ absurd (ground (arith, unfound first.id rest fresh))
      | inr other ↦ rw (other, later) (ground arith)
    ]

pub all_of_branch-due :
    (now branch : ℕ) (rs : List Reservation)
    → is_distinct rs ≡ true
    → all_of_branch branch (due now branch rs) rs ≡ true
unfolding due is_distinct all_of_branch find_by_id
all_of_branch-due now branch [] h = refl
all_of_branch-due now branch (first ∷ rest) h =
    let later =
      all_of_branch-cons branch first (due now branch rest) rest (ground arith)
        (all_of_branch-due now branch rest (ground arith)) in
    elim (Bool-cases (is_due now branch first)) [
      | inl is ↦
          rw (is, all_of_branch-insert branch first (due now branch rest) (first ∷ rest), later)
            (ground arith)
      | inr not_due ↦ rw not_due later
    ]

-- When no row that is found is due, none is selected.
pub due-empty :
    (now branch : ℕ) (rs : List Reservation)
    → is_distinct rs ≡ true
    → ((id : ℕ) (r : Reservation) → find_by_id id rs ≡ some r → is_due now branch r ≡ false)
    → due now branch rs ≡ []
unfolding due is_distinct find_by_id
due-empty now branch [] d h = refl
due-empty now branch (first ∷ rest) d h =
    let not_due = h first.id first (ground arith) in
    let later = due-empty now branch rest (ground arith) (λ id r e.
      elim (Bool-cases (first.id == id)) [
        | inl same ↦
            let it : first.id ≡ id = ground arith in
            absurd (ground (arith, rw (← it) at e, unfound first.id rest (ground arith)))
        | inr other ↦ h id r (rw other e)
      ]) in
    rw not_due later
