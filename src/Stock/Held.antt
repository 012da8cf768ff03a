-- ===== src/Stock/Held.antt =====
-- A movement of stock and a count leave what is reserved, damaged or in transit; a transition between the states moves
-- its units from one to the other.
use uinventario_api.Base.{
  ℕ, ◌+◌, ◌-◌, ◌≡◌, refl, ap, ◌∙◌, Bool, true, false, ◌&&◌, ltb, if◌then◌else◌, arith, none, some,
  ok, Option-cases, Bool-cases, inl, inr,
}
use uinventario_api.Base.Int.{ℤ, pos, pos_part, ◌+ℤ◌, ◌-ℤ◌, eqb_ℤ}
use uinventario_api.QuantityPolicy.{ProductQuantityPolicy}
use uinventario_api.Stock.{
  StockGuards, Balance, StockState, StockMovement, Books, balance_at, put_balance, is_key,
  find_movement,
}
use uinventario_api.Stock.Movements.{
  MovementRequest, write_movement, create_movement, record_once, replay_movement, is_state,
  is_allowed, column, set_column, TransitionRequest, write_transition, create_transition,
}
use uinventario_api.Stock.Counts.{
  CountRequest, InventoryCount, CountBooks, adjust_balance, write_count,
}
use uinventario_api.Stock.Runs.{write_count-adjusted}
use uinventario_api.Stock.Requests.{create_movement-units, create_transition-units}
use uinventario_api.Stock.Rows.{balance_at-put_same, balance_at-put_other, is_key-same}

-- The states of a row that a movement leaves.
abbrev pub held_states : Balance → ℕ × ℕ × ℕ
held_states b = (b.reserved, b.damaged, b.in_transit)

put-held :
    (books : Books) (product location quantity available p l : ℕ)
    → let b = balance_at books.stock product location in
      held_states (
        balance_at
          (put_balance books.stock product location
            (record b { quantity = quantity; available = available }))
          p
          l)
      ≡ held_states (balance_at books.stock p l)
put-held books product location quantity available p l =
    let b = balance_at books.stock product location in
    let new : Balance = record b { quantity = quantity; available = available } in
    elim (Bool-cases (is_key product location p l)) [
      | inl same ↦
          let (ep, el) = is_key-same product location p l same in
          rw (balance_at-put_same books.stock product location new p l same, ep, el) refl
      | inr other ↦ rw (balance_at-put_other books.stock product location new p l other) refl
    ]

module _ (guards : StockGuards) (policy : ProductQuantityPolicy) where
  write_movement-held :
      (fingerprint : ℕ) (request : MovementRequest) (change : ℤ) (books after : Books)
      (m : StockMovement) (replayed : Bool)
      → write_movement guards policy fingerprint request change books ≡ ok (after, m, replayed)
      → (p l : ℕ)
      → held_states (balance_at after.stock p l) ≡ held_states (balance_at books.stock p l)
  unfolding write_movement
  write_movement-held fingerprint request change books after m replayed h p l =
      let b = balance_at books.stock request.product request.location in
      let quantity = pos_part (pos b.quantity +ℤ change) in
      let available = pos_part (pos b.available +ℤ change) in
      let stock : after.stock
          ≡ put_balance books.stock request.product request.location
              (record b { quantity = quantity; available = available }) =
        ground arith in
      ap (λ s. held_states (balance_at s p l)) stock
      ∙ put-held books request.product request.location quantity available p l

  record_once-held :
      (fingerprint : ℕ) (request : MovementRequest) (change : ℤ) (books after : Books)
      (m : StockMovement) (replayed : Bool)
      → record_once fingerprint request.key books
          (write_movement guards policy fingerprint request change books)
        ≡ ok (after, m, replayed)
      → (p l : ℕ)
      → held_states (balance_at after.stock p l) ≡ held_states (balance_at books.stock p l)
  unfolding record_once replay_movement
  record_once-held fingerprint request change books after m replayed h p l =
      elim (Option-cases (find_movement request.key books.movements)) [
        | inl e ↦
            write_movement-held fingerprint request change books after m replayed (ground arith) p l
        | inr (found, e) ↦
            let same : after ≡ books = ground arith in
            ap (λ x. held_states (balance_at x.stock p l)) same
      ]

  pub create_movement-held :
      (digest : MovementRequest → ℤ → ℕ) (request : MovementRequest) (books after : Books)
      (m : StockMovement) (replayed : Bool)
      → create_movement guards policy digest request books ≡ ok (after, m, replayed)
      → (p l : ℕ)
      → held_states (balance_at after.stock p l) ≡ held_states (balance_at books.stock p l)
  create_movement-held digest request books after m replayed h p l =
      let (_, change, _, _, reached) =
        create_movement-units guards policy digest request books after m replayed h in
      record_once-held (digest request change) request change books after m replayed reached p l

adjust_balance-held :
    (guards : StockGuards) (fingerprint : ℕ) (request : CountRequest) (counted : ℕ)
    (books after : Books)
    → adjust_balance guards fingerprint request (pos counted) books ≡ ok after
    → (p l : ℕ)
    → held_states (balance_at after.stock p l) ≡ held_states (balance_at books.stock p l)
unfolding adjust_balance
adjust_balance-held guards fingerprint request counted books after h p l =
    let b = balance_at books.stock request.product request.location in
    let variance = pos counted -ℤ pos b.available in
    let quantity = pos_part (pos b.quantity +ℤ variance) in
    elim (Bool-cases (eqb_ℤ variance (pos 0))) [
      | inl e ↦
          let same : after ≡ books = ground arith in
          ap (λ x. held_states (balance_at x.stock p l)) same
      | inr e ↦
          let stock : after.stock
              ≡ put_balance books.stock request.product request.location
                  (record b { quantity = quantity; available = counted }) =
            ground arith in
          ap (λ s. held_states (balance_at s p l)) stock
          ∙ put-held books request.product request.location quantity counted p l
    ]

-- A count leaves what is reserved, damaged or in transit.
pub write_count-held :
    (guards : StockGuards) (policy : ProductQuantityPolicy) (fingerprint : ℕ)
    (request : CountRequest) (snapshot : ℤ) (counted : ℕ) (books after : CountBooks)
    (count : InventoryCount) (replayed : Bool)
    → write_count guards policy fingerprint request snapshot (pos counted) books
      ≡ ok (after, count, replayed)
    → (p l : ℕ)
    → held_states (balance_at after.books.stock p l)
      ≡ held_states (balance_at books.books.stock p l)
write_count-held guards policy fingerprint request snapshot counted books after count replayed h =
    adjust_balance-held guards fingerprint request counted books.books after.books (
      write_count-adjusted guards policy fingerprint request snapshot counted books after count
        replayed h)

-- What a written transition takes out of a state of a row, and what it puts into it.
abbrev pub taken_out : StockState → StockMovement → Bool → ℕ → ℕ → ℕ
taken_out state m true p l = 0
taken_out state m false p l = elim m.changed_state [
  | none ↦ 0
  | some (from, to, units) ↦
      if is_state from state && is_key m.product m.location p l then units else 0
]

abbrev pub put_into : StockState → StockMovement → Bool → ℕ → ℕ → ℕ
put_into state m true p l = 0
put_into state m false p l = elim m.changed_state [
  | none ↦ 0
  | some (from, to, units) ↦
      if is_state to state && is_key m.product m.location p l then units else 0
]

-- The row after a transition between two states.
abbrev moved_row : StockState → StockState → ℕ → Balance → Balance
moved_row from to units b =
    set_column to (column to b + units) (set_column from (column from b - units) b)

moved_row-column :
    (state from to : StockState) (units : ℕ) (b : Balance)
    → is_allowed from to ≡ true
    → ltb (column from b) units ≡ false
    → column state (moved_row from to units b) + (if is_state from state then units else 0)
      ≡ column state b + (if is_state to state then units else 0)
moved_row-column state from to units b allowed enough = ground arith

module _ (guards : StockGuards) (policy : ProductQuantityPolicy) (state : StockState) where
  write_transition-column :
      (fingerprint : ℕ) (request : TransitionRequest) (units : ℕ) (books after : Books)
      (m : StockMovement) (replayed : Bool)
      → is_allowed request.from_state request.to_state ≡ true
      → write_transition guards policy fingerprint request units books ≡ ok (after, m, replayed)
      → (p l : ℕ)
      → column state (balance_at after.stock p l) + taken_out state m replayed p l
        ≡ column state (balance_at books.stock p l) + put_into state m replayed p l
  unfolding write_transition
  write_transition-column fingerprint request units books after m replayed allowed h p l =
      let b = balance_at books.stock request.product request.location in
      let new = moved_row request.from_state request.to_state units b in
      let enough : ltb (column request.from_state b) units ≡ false = ground arith in
      let stock : after.stock ≡ put_balance books.stock request.product request.location new =
        ground arith in
      let fresh : replayed ≡ false = ground arith in
      let states : m.changed_state ≡ some (request.from_state, request.to_state, units) =
        ground arith in
      let product : m.product ≡ request.product = ground arith in
      let location : m.location ≡ request.location = ground arith in
      let row = moved_row-column state request.from_state request.to_state units b allowed enough in
      rw (stock, fresh, taken_out, put_into, states, product, location)
        (elim (Bool-cases (is_key request.product request.location p l)) [
          | inl same ↦
              let (ep, el) = is_key-same request.product request.location p l same in
              rw
                (
                  balance_at-put_same books.stock request.product request.location new p l same,
                  same,
                  ep,
                  el,
                )
                (ground (arith, row))
          | inr other ↦
              rw
                (
                  balance_at-put_other books.stock request.product request.location new p l other,
                  other,
                )
                (ground arith)
        ])

  record_once-column :
      (fingerprint : ℕ) (request : TransitionRequest) (units : ℕ) (books after : Books)
      (m : StockMovement) (replayed : Bool)
      → is_allowed request.from_state request.to_state ≡ true
      → record_once fingerprint request.key books
          (write_transition guards policy fingerprint request units books)
        ≡ ok (after, m, replayed)
      → (p l : ℕ)
      → column state (balance_at after.stock p l) + taken_out state m replayed p l
        ≡ column state (balance_at books.stock p l) + put_into state m replayed p l
  unfolding record_once replay_movement
  record_once-column fingerprint request units books after m replayed allowed h p l =
      elim (Option-cases (find_movement request.key books.movements)) [
        | inl e ↦
            write_transition-column fingerprint request units books after m replayed allowed
              (ground arith) p l
        | inr (found, e) ↦
            let same : books ≡ after = ground arith in
            let again : replayed ≡ true = ground arith in rw (← same, again) refl
      ]

  -- A transition by hand takes its units out of one state of its row and puts them into the other.
  pub create_transition-column :
      (digest : TransitionRequest → ℤ → ℕ) (request : TransitionRequest) (books after : Books)
      (m : StockMovement) (replayed : Bool)
      → create_transition guards policy digest request books ≡ ok (after, m, replayed)
      → (p l : ℕ)
      → column state (balance_at after.stock p l) + taken_out state m replayed p l
        ≡ column state (balance_at books.stock p l) + put_into state m replayed p l
  create_transition-column digest request books after m replayed h p l =
      let (units, _, allowed, _, reached) =
        create_transition-units guards policy digest request books after m replayed h in
      record_once-column (digest request units) request (pos_part units) books after m replayed
        allowed reached p l
