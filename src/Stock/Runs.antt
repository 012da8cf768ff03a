-- ===== src/Stock/Runs.antt =====
-- Requests on the stock, one after the other.
use uinventario_api.Base.{
  ℕ, ◌≡◌, ap, ◌∙◌, Bool, false, arith, none, [], ok, Result-cases, Bool-cases, inl, inr,
}
use uinventario_api.Base.Int.{ℤ, pos, pos_part, neg_part, ◌+ℤ◌, ◌-ℤ◌, is_neg, int_laws, eqb_ℤ}
use uinventario_api.QuantityPolicy.{ProductQuantityPolicy}
use uinventario_api.Stock.{
  StockGuards, Balance, StockMovement, Books, balance_at, put_balance, post, adjustment,
}
use uinventario_api.Stock.Movements.{
  MovementRequest, TransitionRequest, create_movement, create_transition,
}
use uinventario_api.Stock.Counts.{
  CountRequest, InventoryCount, CountBooks, adjust_balance, write_count,
}
use uinventario_api.Stock.Ledger.{IsConsistent, post-IsConsistent, no_books, no_books-IsConsistent}
use uinventario_api.Stock.Requests.{create_movement-IsConsistent, create_transition-IsConsistent}

-- A count that is booked leaves the row at the counted quantity, and the books consistent.
pub adjust_balance-IsConsistent :
    (guards : StockGuards) (fingerprint : ℕ) (request : CountRequest) (counted : ℕ)
    (books after : Books)
    → IsConsistent books
    → adjust_balance guards fingerprint request (pos counted) books ≡ ok after
    → IsConsistent after
unfolding adjust_balance
adjust_balance-IsConsistent guards fingerprint request counted books after c h =
    let b = balance_at books.stock request.product request.location in
    let variance = pos counted -ℤ pos b.available in
    let total = pos b.quantity +ℤ variance in
    let fine : is_neg total ≡ false = ground arith in
    let small : neg_part total ≡ 0 = ground arith in
    let new : Balance = record b { quantity = pos_part total; available = counted } in
    let movement : StockMovement = record {
      key = request.key;
      fingerprint = fingerprint;
      product = request.product;
      location = request.location;
      kind = adjustment;
      change = variance;
      resulting = pos_part total;
      changed_state = none;
    } in
    elim (Bool-cases (eqb_ℤ variance (pos 0))) [
      | inl e ↦ let same : books ≡ after = ground arith in rw (← same) c
      | inr e ↦
          let same : post books request.product request.location new movement ≡ after =
            ground arith in
          rw (← same) (
            post-IsConsistent books movement new c (record {
              split = omega (int_laws, c.split request.product request.location, small);
              sums = omega (int_laws, small);
            }))
    ]

module _ (guards : StockGuards) (policy : ProductQuantityPolicy) (fingerprint : ℕ)
    (request : CountRequest) (snapshot : ℤ) (counted : ℕ) (books after : CountBooks)
    (count : InventoryCount) (replayed : Bool)
    (h : write_count guards policy fingerprint request snapshot (pos counted) books
      ≡ ok (after, count, replayed)) where
  pub write_count-adjusted :
      adjust_balance guards fingerprint request (pos counted) books.books ≡ ok after.books
  unfolding write_count
  write_count-adjusted =
      elim (Result-cases (adjust_balance guards fingerprint request (pos counted) books.books)) [
        | inr (_, e) ↦ absurd (ground arith)
        | inl (adjusted, e) ↦ let same : adjusted ≡ after.books = ground arith in e ∙ ap ok same
      ]

  pub write_count-IsConsistent : IsConsistent books.books → IsConsistent after.books
  write_count-IsConsistent c =
      adjust_balance-IsConsistent guards fingerprint request counted books.books after.books c
        write_count-adjusted

  -- A count that is booked leaves exactly the counted quantity available, whatever was there.
  pub write_count-available :
      (balance_at after.books.stock request.product request.location).available ≡ counted
  unfolding adjust_balance balance_at put_balance ◌-ℤ◌
  write_count-available = ground (arith, write_count-adjusted)

-- One accepted request.
pub data BookStep (guards : StockGuards) (policy : ℕ → ProductQuantityPolicy)
    (digest : MovementRequest → ℤ → ℕ) (digest_transition : TransitionRequest → ℤ → ℕ)
    : CountBooks → CountBooks → Type 0 where
  moved :
      (request : MovementRequest) (books : CountBooks) (after : Books) (m : StockMovement)
      (replayed : Bool)
      → create_movement guards (policy request.product) digest request books.books
        ≡ ok (after, m, replayed)
      → BookStep guards policy digest digest_transition books (record books { books = after })
  changed :
      (request : TransitionRequest) (books : CountBooks) (after : Books) (m : StockMovement)
      (replayed : Bool)
      → create_transition guards (policy request.product) digest_transition request books.books
        ≡ ok (after, m, replayed)
      → BookStep guards policy digest digest_transition books (record books { books = after })
  counted :
      (fingerprint : ℕ) (request : CountRequest) (snapshot : ℤ) (n : ℕ) (books after : CountBooks)
      (count : InventoryCount) (replayed : Bool)
      → write_count guards (policy request.product) fingerprint request snapshot (pos n) books
        ≡ ok (after, count, replayed)
      → BookStep guards policy digest digest_transition books after

-- Accepted requests from the first books on.
pub data BookRun (guards : StockGuards) (policy : ℕ → ProductQuantityPolicy)
    (digest : MovementRequest → ℤ → ℕ) (digest_transition : TransitionRequest → ℤ → ℕ)
    : CountBooks → Type 0 where
  started :
      BookRun guards policy digest digest_transition (record { books = no_books; counts = [] })
  continued :
      {books after : CountBooks}
      → BookRun guards policy digest digest_transition books
      → BookStep guards policy digest digest_transition books after
      → BookRun guards policy digest digest_transition after

module _ (guards : StockGuards) (policy : ℕ → ProductQuantityPolicy)
    (digest : MovementRequest → ℤ → ℕ) (digest_transition : TransitionRequest → ℤ → ℕ) where
  step-IsConsistent :
      {books after : CountBooks}
      → BookStep guards policy digest digest_transition books after
      → IsConsistent books.books
      → IsConsistent after.books
  step-IsConsistent (moved request books after m replayed h) c =
      create_movement-IsConsistent guards (policy request.product) digest request books.books after
        m replayed h c
  step-IsConsistent (changed request books after m replayed h) c =
      create_transition-IsConsistent guards (policy request.product) digest_transition request
        books.books after m replayed h c
  step-IsConsistent (counted fingerprint request snapshot n books after count replayed h) c =
      write_count-IsConsistent guards (policy request.product) fingerprint request snapshot n books
        after count replayed h c

  -- Whatever movements, transitions between the states and counts are accepted, from empty books
  -- on: the quantity of a product at a location is the sum of the changes in its movements, and
  -- the sum of its four states.
  pub run-IsConsistent :
      {books : CountBooks}
      → BookRun guards policy digest digest_transition books
      → IsConsistent books.books
  run-IsConsistent started = no_books-IsConsistent
  run-IsConsistent (continued run step) = step-IsConsistent step (run-IsConsistent run)
