-- ===== src/Stock/Requests.antt =====
-- What the requests on the stock do to the books.
use uinventario_api.Base.{ℕ, ◌≡◌, Bool, true, false, arith, ltb, ok, Result-cases, inl, inr}
use uinventario_api.Base.Int.{ℤ, pos_part}
use uinventario_api.QuantityPolicy.{ProductQuantityPolicy}
use uinventario_api.Stock.{StockGuards, StockMovement, Books}
use uinventario_api.Stock.Movements.{
  MovementRequest, TransitionRequest, normalized_units, quantity_change, record_once, is_allowed,
  write_movement, create_movement, write_transition, create_transition,
}
use uinventario_api.Stock.Ledger.{IsConsistent}
use uinventario_api.Stock.Writes.{
  write_movement-IsWritten, write_transition-IsWritten, record_once-IsConsistent,
  record_once-repeat,
}

module _ (guards : StockGuards) (policy : ProductQuantityPolicy) (digest : MovementRequest → ℤ → ℕ)
    (request : MovementRequest) (books after : Books) (m : StockMovement) (replayed : Bool)
    (h : create_movement guards policy digest request books ≡ ok (after, m, replayed)) where
  pub create_movement-units :
      (units change : ℤ) × (normalized_units request.quantity policy
          (record { allow_negative = true; enforce_minimum = true })
        ≡ ok units)
      × (quantity_change request.kind units ≡ ok change)
      × (record_once
            (digest request change)
            request.key
            books
            (write_movement guards policy (digest request change) request change books)
          ≡ ok (after, m, replayed))
  unfolding create_movement
  create_movement-units =
      elim (Result-cases (
        normalized_units request.quantity policy
          (record { allow_negative = true; enforce_minimum = true }))) [
            | inr (_, e) ↦ absurd (ground arith)
            | inl (units, e) ↦ elim (Result-cases (quantity_change request.kind units)) [
              | inr (_, f) ↦ absurd (ground arith)
              | inl (change, f) ↦ (units, change, e, f, ground arith)
            ]
          ]

  pub create_movement-IsConsistent : IsConsistent books → IsConsistent after
  create_movement-IsConsistent c =
      let (_, change, _, _, reached) = create_movement-units in
      let fingerprint = digest request change in
      record_once-IsConsistent fingerprint request.product request.location request.key books after
        m replayed (write_movement guards policy fingerprint request change books)
        (write_movement-IsWritten guards policy fingerprint request change books after m replayed)
        reached c

  -- A movement that was answered is answered again, with nothing written, as the same movement.
  pub create_movement-repeat :
      create_movement guards policy digest request after ≡ ok (after, m, true)
  unfolding create_movement
  create_movement-repeat =
      let (_, change, e, f, reached) = create_movement-units in
      let fingerprint = digest request change in
      rw (e, f)
        (record_once-repeat fingerprint request.product request.location request.key books after m
          replayed (write_movement guards policy fingerprint request change books)
          (write_movement-IsWritten guards policy fingerprint request change books after m replayed)
          reached (write_movement guards policy fingerprint request change after))

module _ (guards : StockGuards) (policy : ProductQuantityPolicy)
    (digest : TransitionRequest → ℤ → ℕ) (request : TransitionRequest) (books after : Books)
    (m : StockMovement) (replayed : Bool)
    (h : create_transition guards policy digest request books ≡ ok (after, m, replayed)) where
  pub create_transition-units :
      (units : ℤ) × (normalized_units request.quantity policy
          (record { allow_negative = false; enforce_minimum = true })
        ≡ ok units)
      × (is_allowed request.from_state request.to_state ≡ true)
      × (ltb 0 (pos_part units) ≡ true)
      × (record_once
            (digest request units)
            request.key
            books
            (write_transition guards policy (digest request units) request (pos_part units) books)
          ≡ ok (after, m, replayed))
  unfolding create_transition
  create_transition-units =
      elim (Result-cases (
        normalized_units request.quantity policy
          (record { allow_negative = false; enforce_minimum = true }))) [
            | inr (_, e) ↦ absurd (ground arith)
            | inl (units, e) ↦ (units, e, ground arith, ground arith, ground arith)
          ]

  pub create_transition-IsConsistent : IsConsistent books → IsConsistent after
  create_transition-IsConsistent c =
      let (units, _, allowed, _, reached) = create_transition-units in
      let fingerprint = digest request units in
      record_once-IsConsistent fingerprint request.product request.location request.key books after
        m replayed (write_transition guards policy fingerprint request (pos_part units) books)
        (write_transition-IsWritten guards policy fingerprint request (pos_part units) books after m
          replayed allowed)
        reached c

  pub create_transition-repeat :
      create_transition guards policy digest request after ≡ ok (after, m, true)
  unfolding create_transition
  create_transition-repeat =
      let (units, e, allowed, positive, reached) = create_transition-units in
      let fingerprint = digest request units in
      rw (e, allowed, positive)
        (record_once-repeat fingerprint request.product request.location request.key books after m
          replayed (write_transition guards policy fingerprint request (pos_part units) books)
          (write_transition-IsWritten guards policy fingerprint request (pos_part units) books after
            m replayed allowed)
          reached (write_transition guards policy fingerprint request (pos_part units) after))
