-- ===== src/Stock/Writes.antt =====
-- What a request on the stock writes under a new key, and what it answers under a known one.
use uinventario_api.Base.{
  ℕ, ◌+◌, ◌-◌, ◌≤◌, ◌≡◌, refl, sym, ap, ◌∙◌, Bool, true, false, ◌||◌, arith, none, some, ◌∷◌,
  Result, ok, Option-cases, inl, inr,
}
use uinventario_api.Base.Int.{ℤ, pos, pos_part, neg_part, ◌+ℤ◌, is_neg, int_laws}
use uinventario_api.QuantityPolicy.{ProductQuantityPolicy}
use uinventario_api.Stock.{
  StockGuards, Balance, StockMovement, Books, StockState, balance_at, find_movement, post,
  state_transition,
}
use uinventario_api.Stock.Movements.{
  StockError, MovementRequest, TransitionRequest, replay_movement, record_once, column, set_column,
  is_state, is_allowed, write_movement, write_transition,
}
use uinventario_api.Stock.Ledger.{IsConsistent, IsPosting, post-IsConsistent, states_total}

transition-split :
    (from to : StockState) (units : ℕ) (b : Balance)
    → is_state from to ≡ false
    → units ≤ column from b
    → b.quantity ≡ states_total b
    → let new = set_column to (column to b + units) (set_column from (column from b - units) b) in
      new.quantity ≡ states_total new
transition-split from to units b apart enough h = ground arith

transition-quantity :
    (from to : StockState) (m n : ℕ) (b : Balance)
    → pos (set_column to m (set_column from n b)).quantity ≡ pos b.quantity +ℤ pos 0
transition-quantity from to m n b =
    let same : (set_column to m (set_column from n b)).quantity ≡ b.quantity = ground arith in
    rw same (omega int_laws)

-- What a new request writes: one row, and its movement.
pub record IsWritten (books : Books) (product location key fingerprint : ℕ) (after : Books)
    (m : StockMovement) : Type 0 where
  pub balance : Balance
  pub posted : after ≡ post books m.product m.location balance m
  pub posting : IsConsistent books → IsPosting books m balance
  pub key_eq : m.key ≡ key
  pub fingerprint_eq : m.fingerprint ≡ fingerprint

module _ (guards : StockGuards) (policy : ProductQuantityPolicy) where
  pub write_movement-IsWritten :
      (fingerprint : ℕ) (request : MovementRequest) (change : ℤ) (books after : Books)
      (m : StockMovement) (replayed : Bool)
      → write_movement guards policy fingerprint request change books ≡ ok (after, m, replayed)
      → IsWritten books request.product request.location request.key fingerprint after m
        × (replayed ≡ false)
  unfolding write_movement
  write_movement-IsWritten fingerprint request change books after m replayed h =
      let b = balance_at books.stock request.product request.location in
      let quantity = pos b.quantity +ℤ change in
      let available = pos b.available +ℤ change in
      let new : Balance = record b {
        quantity = pos_part quantity;
        available = pos_part available;
      } in
      let fine : (is_neg quantity || is_neg available) ≡ false = ground arith in
      let q : neg_part quantity ≡ 0 = ground arith in
      let a : neg_part available ≡ 0 = ground arith in
      let movement : StockMovement = record {
        key = request.key;
        fingerprint = fingerprint;
        product = request.product;
        location = request.location;
        kind = request.kind;
        change = change;
        resulting = pos_part quantity;
        changed_state = none;
      } in
      let same : movement ≡ m = ground arith in
      let written : after ≡ post books request.product request.location new movement =
        ground arith in
      (
        rw (← same) (record {
          balance = new;
          posted = written;
          posting = λ c. record {
            split = omega (int_laws, c.split request.product request.location, q, a);
            sums = omega (int_laws, q);
          };
          key_eq = refl;
          fingerprint_eq = refl;
        }),
        ground arith,
      )

  pub write_transition-IsWritten :
      (fingerprint : ℕ) (request : TransitionRequest) (units : ℕ) (books after : Books)
      (m : StockMovement) (replayed : Bool)
      → is_allowed request.from_state request.to_state ≡ true
      → write_transition guards policy fingerprint request units books ≡ ok (after, m, replayed)
      → IsWritten books request.product request.location request.key fingerprint after m
        × (replayed ≡ false)
  unfolding write_transition
  write_transition-IsWritten fingerprint request units books after m replayed allowed h =
      let b = balance_at books.stock request.product request.location in
      let from = request.from_state in
      let to = request.to_state in
      let new : Balance =
        set_column to (column to b + units) (set_column from (column from b - units) b) in
      let enough : units ≤ column from b = ground arith in
      let apart : is_state from to ≡ false = ground arith in
      let movement : StockMovement = record {
        key = request.key;
        fingerprint = fingerprint;
        product = request.product;
        location = request.location;
        kind = state_transition;
        change = pos 0;
        resulting = b.quantity;
        changed_state = some (from, to, units);
      } in
      let same : movement ≡ m = ground arith in
      let written : after ≡ post books request.product request.location new movement =
        ground arith in
      (
        rw (← same) (record {
          balance = new;
          posted = written;
          posting = λ c. record {
            split =
                transition-split from to units b apart enough
                  (c.split request.product request.location);
            sums = transition-quantity from to (column to b + units) (column from b - units) b;
          };
          key_eq = refl;
          fingerprint_eq = refl;
        }),
        ground arith,
      )

-- A posted row keeps the books consistent.
written-IsConsistent :
    (books : Books) (product location key fingerprint : ℕ) (after : Books) (m : StockMovement)
    → IsWritten books product location key fingerprint after m
    → IsConsistent books
    → IsConsistent after
written-IsConsistent books product location key fingerprint after m w c =
    rw w.posted (post-IsConsistent books m w.balance c (w.posting c))

-- The movement that was written answers the same key and fingerprint from then on.
written-replay :
    (books : Books) (product location key fingerprint : ℕ) (after : Books) (m : StockMovement)
    → IsWritten books product location key fingerprint after m
    → (find_movement key after.movements ≡ some m)
      × (replay_movement fingerprint m after ≡ ok (after, m, true))
unfolding find_movement replay_movement
written-replay books product location key fingerprint after m w =
    let movements : after.movements ≡ m ∷ books.movements = ap (λ b. b.movements) w.posted in
    let found : find_movement key (m ∷ books.movements) ≡ some m = ground (arith, w.key_eq) in
    (ap (find_movement key) movements ∙ found, ground (arith, w.fingerprint_eq))

replayed-same :
    (fingerprint : ℕ) (found : StockMovement) (books after : Books) (m : StockMovement)
    (replayed : Bool)
    → replay_movement fingerprint found books ≡ ok (after, m, replayed)
    → (after ≡ books) × (m ≡ found) × (replay_movement fingerprint m after ≡ ok (after, m, true))
unfolding replay_movement
replayed-same fingerprint found books after m replayed h =
    (ground arith, ground arith, ground arith)

module _ (fingerprint product location key : ℕ) (books after : Books) (m : StockMovement)
    (replayed : Bool) (attempt : Result StockError (Books × StockMovement × Bool))
    (writes : attempt ≡ ok (after, m, replayed)
      → IsWritten books product location key fingerprint after m × (replayed ≡ false))
    (h : record_once fingerprint key books attempt ≡ ok (after, m, replayed)) where
  pub record_once-IsConsistent : IsConsistent books → IsConsistent after
  unfolding record_once
  record_once-IsConsistent c = elim (Option-cases (find_movement key books.movements)) [
    | inr (found, e) ↦
        let (same, _, _) = replayed-same fingerprint found books after m replayed (ground arith) in
        rw same c
    | inl e ↦
        let (w, _) = writes (ground arith) in
        written-IsConsistent books product location key fingerprint after m w c
  ]

  pub record_once-repeat :
      (again : Result StockError (Books × StockMovement × Bool))
      → record_once fingerprint key after again ≡ ok (after, m, true)
  unfolding record_once
  record_once-repeat again = elim (Option-cases (find_movement key books.movements)) [
    | inr (found, e) ↦
        let (same, same_m, answer) =
          replayed-same fingerprint found books after m replayed (ground arith) in
        let there : find_movement key after.movements ≡ some m =
          ap (λ b. find_movement key b.movements) same ∙ e ∙ ap some (sym same_m) in
        rw (record_once, there) answer
    | inl e ↦
        let (w, _) = writes (ground arith) in
        let (there, answer) = written-replay books product location key fingerprint after m w in
        rw (record_once, there) answer
  ]
