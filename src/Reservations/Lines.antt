-- ===== src/Reservations/Lines.antt =====
-- What the lines of a reservation do to the balances, one after the other.
use uinventario_api.Base.{
  ℕ, suc, ◌+◌, ◌-◌, ◌≤◌, ◌≡◌, refl, Bool, true, ◌==◌, if◌then◌else◌, arith, ltb, some, List, [],
  ◌∷◌, ok, Result-cases, Option-cases, Bool-cases, inl, inr,
}
use uinventario_api.Base.Int.{pos, int_laws}
use uinventario_api.Stock.{
  Balance, StockMovement, Books, Stock, balance_at, put_balance, post, is_key, state_transition,
  available_state, reserved_state,
}
use uinventario_api.Stock.Ledger.{IsConsistent, post-IsConsistent}
use uinventario_api.Stock.Rows.{balance_at-put_same, balance_at-put_other, is_key-same}
use uinventario_api.Reservations.{MovementNames, ReservationLine, reserve_line, reserve_lines}
use uinventario_api.Reservations.Closing.{Closure, release_line, release_lines}
use uinventario_api.Reservations.Held.{line_total, is_positive}

-- The quantity that lines at a location hold of a product at another.
abbrev pub share : ℕ → ℕ → ℕ → List ReservationLine → ℕ
share location p l lines = if location == l then line_total p lines else 0

abbrev pub reserved_at : Books → ℕ → ℕ → ℕ
reserved_at books p l = (balance_at books.stock p l).reserved

-- A row that is written keeps the books consistent, when only the division of its quantity changes.
pub split-IsConsistent :
    (books : Books) (b : Balance) (m : StockMovement)
    → m.change ≡ pos 0
    → b.quantity ≡ (balance_at books.stock m.product m.location).quantity
    → b.quantity ≡ b.available + b.reserved + b.damaged + b.in_transit
    → IsConsistent books
    → IsConsistent (post books m.product m.location b m)
split-IsConsistent books b m unchanged same split c =
    post-IsConsistent books m b c
      (record { split = split; sums = rw (unchanged, same) (omega int_laws) })

-- The reserved quantity at every product and location, when the row of a line is written.
module _ (stock : Stock) (location : ℕ) (line : ReservationLine) (b : Balance) (p l : ℕ) where
  pub put-down :
      b.reserved + line.quantity ≡ (balance_at stock line.product location).reserved
      → (balance_at stock p l).reserved
        ≡ share location p l (line ∷ [])
          + (balance_at (put_balance stock line.product location b) p l).reserved
  unfolding line_total
  put-down h = elim (Bool-cases (is_key line.product location p l)) [
    | inl same ↦
        let (ep, el) = is_key-same line.product location p l same in
        let there = rw (ep, el) at h in
        rw (balance_at-put_same stock line.product location b p l same) (ground arith)
    | inr other ↦ rw (balance_at-put_other stock line.product location b p l other) (ground arith)
  ]

  pub put-up :
      b.reserved ≡ (balance_at stock line.product location).reserved + line.quantity
      → (balance_at (put_balance stock line.product location b) p l).reserved
        ≡ share location p l (line ∷ []) + (balance_at stock p l).reserved
  unfolding line_total
  put-up h = elim (Bool-cases (is_key line.product location p l)) [
    | inl same ↦
        let (ep, el) = is_key-same line.product location p l same in
        let there = rw (ep, el) at h in
        rw (balance_at-put_same stock line.product location b p l same) (ground arith)
    | inr other ↦ rw (balance_at-put_other stock line.product location b p l other) (ground arith)
  ]

-- A line is its own share, and the shares of the lines add up.
pub share-line :
    (location p l : ℕ) (line : ReservationLine) (rest : List ReservationLine)
    → share location p l (line ∷ rest) ≡ share location p l (line ∷ []) + share location p l rest
unfolding line_total
share-line location p l line rest = ground arith

module _ (key : MovementNames) where
  pub release_line-facts :
      (closure : Closure) (location index : ℕ) (line : ReservationLine) (books after : Books)
      → release_line key closure location index line books ≡ ok after
      → (IsConsistent books → IsConsistent after)
        × ((p l : ℕ)
            → reserved_at books p l ≡ share location p l (line ∷ []) + reserved_at after p l)
  unfolding release_line
  release_line-facts closure location index line books after h =
      let b = balance_at books.stock line.product location in
      let enough : line.quantity ≤ b.reserved = ground arith in
      let new : Balance = record b {
        available = b.available + line.quantity;
        reserved = b.reserved - line.quantity;
      } in
      let movement : StockMovement = record {
        key = key.line_key closure.id (suc index);
        fingerprint = closure.fingerprint;
        product = line.product;
        location = location;
        kind = state_transition;
        change = pos 0;
        resulting = b.quantity;
        changed_state = some (reserved_state, available_state, line.quantity);
      } in
      let same : post books line.product location new movement ≡ after = ground arith in
      rw (← same) (
        λ c.
            split-IsConsistent books new movement refl refl
              (ground (arith, c.split line.product location)) c,
        λ p l. put-down books.stock location line new p l (omega arith),
      )

  release_line-total :
      (tracked : (b : Books) (m : StockMovement) → key.is_tracked b m ≡ true) (closure : Closure)
      (location index : ℕ) (line : ReservationLine) (books : Books)
      → ltb 0 line.quantity ≡ true
      → line.quantity ≤ reserved_at books line.product location
      → (after : Books) × (release_line key closure location index line books ≡ ok after)
  unfolding release_line balance_at
  release_line-total tracked closure location index line books positive enough =
      elim (Result-cases (release_line key closure location index line books)) [
        | inl found ↦ found
        | inr (x, e) ↦ elim (Option-cases (books.stock line.product location)) [
          | inl none_there ↦ absurd (ground arith)
          | inr (b, there) ↦ absurd (grind arith)
        ]
      ]

  pub release_lines-facts :
      (closure : Closure) (location index : ℕ) (lines : List ReservationLine) (books after : Books)
      → release_lines key closure location index lines books ≡ ok after
      → (IsConsistent books → IsConsistent after)
        × ((p l : ℕ) → reserved_at books p l ≡ share location p l lines + reserved_at after p l)
  unfolding release_lines line_total
  release_lines-facts closure location index [] books after h =
      let same : books ≡ after = ground arith in rw (← same) (λ c. c, λ p l. ground arith)
  release_lines-facts closure location index (line ∷ rest) books after h =
      elim (Result-cases (release_line key closure location index line books)) [
        | inr (_, e) ↦ absurd (ground arith)
        | inl (next, e) ↦
            let (c1, r1) = release_line-facts closure location index line books next e in
            let (c2, r2) =
              release_lines-facts closure location (suc index) rest next after (ground arith) in
            (
              λ c. c2 (c1 c),
              λ p l. omega (arith, share-line location p l line rest, r1 p l, r2 p l),
            )
      ]

  -- Lines whose quantity is reserved are released.
  pub release_lines-total :
      (tracked : (b : Books) (m : StockMovement) → key.is_tracked b m ≡ true) (closure : Closure)
      (location index : ℕ) (lines : List ReservationLine) (books : Books)
      → is_positive lines ≡ true
      → ((p : ℕ) → line_total p lines ≤ reserved_at books p location)
      → (after : Books) × (release_lines key closure location index lines books ≡ ok after)
  unfolding release_lines is_positive line_total
  release_lines-total tracked closure location index [] books positive enough = (books, refl)
  release_lines-total tracked closure location index (line ∷ rest) books positive enough =
      elim (Result-cases (release_line key closure location index line books)) [
        | inr (x, e) ↦
            let (next, f) =
              release_line-total tracked closure location index line books (ground arith)
                (ground (arith, enough line.product)) in
            absurd (ground arith)
        | inl (next, e) ↦
            let (_, r1) = release_line-facts closure location index line books next e in
            let (after, f) =
              release_lines-total tracked closure location (suc index) rest next (ground arith)
                (λ p. ground (arith, enough p, r1 p location)) in
            (after, rw e f)
      ]

module _ (key : MovementNames) (is_product : ℕ → Bool) where
  pub reserve_line-facts :
      (id fingerprint location index : ℕ) (line : ReservationLine) (books after : Books)
      → reserve_line key is_product id fingerprint location index line books ≡ ok after
      → (IsConsistent books → IsConsistent after)
        × ((p l : ℕ)
            → reserved_at after p l ≡ share location p l (line ∷ []) + reserved_at books p l)
        × (ltb 0 line.quantity ≡ true)
  unfolding reserve_line
  reserve_line-facts id fingerprint location index line books after h =
      let b = balance_at books.stock line.product location in
      let enough : line.quantity ≤ b.available = ground arith in
      let new : Balance = record b {
        available = b.available - line.quantity;
        reserved = b.reserved + line.quantity;
      } in
      let movement : StockMovement = record {
        key = key.line_key id (suc index);
        fingerprint = fingerprint;
        product = line.product;
        location = location;
        kind = state_transition;
        change = pos 0;
        resulting = b.quantity;
        changed_state = some (available_state, reserved_state, line.quantity);
      } in
      let same : post books line.product location new movement ≡ after = ground arith in
      rw (← same) (
        λ c.
            split-IsConsistent books new movement refl refl
              (ground (arith, c.split line.product location)) c,
        λ p l. put-up books.stock location line new p l refl,
        ground arith,
      )

  pub reserve_lines-facts :
      (id fingerprint location index : ℕ) (lines : List ReservationLine) (books after : Books)
      → reserve_lines key is_product id fingerprint location index lines books ≡ ok after
      → (IsConsistent books → IsConsistent after)
        × ((p l : ℕ) → reserved_at after p l ≡ share location p l lines + reserved_at books p l)
        × (is_positive lines ≡ true)
  unfolding reserve_lines line_total is_positive
  reserve_lines-facts id fingerprint location index [] books after h =
      let same : books ≡ after = ground arith in rw (← same) (λ c. c, λ p l. ground arith, refl)
  reserve_lines-facts id fingerprint location index (line ∷ rest) books after h =
      elim (Result-cases (reserve_line key is_product id fingerprint location index line books)) [
        | inr (_, e) ↦ absurd (ground arith)
        | inl (next, e) ↦
            let (c1, r1, p1) = reserve_line-facts id fingerprint location index line books next e in
            let (c2, r2, p2) =
              reserve_lines-facts id fingerprint location (suc index) rest next after
                (ground arith) in
            (
              λ c. c2 (c1 c),
              λ p l. omega (arith, share-line location p l line rest, r1 p l, r2 p l),
              rw (p1, p2) refl,
            )
      ]
