-- ===== src/Transfers/Arriving.antt =====
-- What is in transit is what the transfers wait for: `receive`, `cancel`, and movements, counts and
-- transitions of stock.
use uinventario_api.Base.{
  ℕ, ◌+◌, ◌≡◌, refl, sym, ap, ◌∙◌, Bool, true, false, arith, some, List, [], ◌∷◌, ok, Result-cases,
  Option-cases, Bool-cases, inl, inr,
}
use uinventario_api.QuantityPolicy.{ProductQuantityPolicy}
use uinventario_api.Stock.{StockGuards, Books, in_transit_state}
use uinventario_api.Base.Int.{ℤ, pos}
use uinventario_api.Stock.{StockMovement}
use uinventario_api.Stock.Movements.{
  MovementRequest, TransitionRequest, create_movement, create_transition,
}
use uinventario_api.Stock.Counts.{CountRequest, InventoryCount, CountBooks, write_count}
use uinventario_api.Stock.Runs.{write_count-IsConsistent}
use uinventario_api.Stock.Requests.{create_movement-IsConsistent, create_transition-IsConsistent}
use uinventario_api.Stock.Held.{
  create_movement-held, create_transition-column, write_count-held, put_into, taken_out,
}
use uinventario_api.Transfers.{Transfer, TransferLine, draft, cancelled, Depot, find_transfer}
use uinventario_api.Transfers.Operations.{is_receivable, is_status, put_transfer, MovementNames}
use uinventario_api.Transfers.ReceiptLines.{
  ReceiptRequest, check_lines, receive_lines, is_pending, find_receipt,
}
use uinventario_api.Transfers.Receipts.{
  write_receipt, replay_receipt, receive_found, receive, cancel_found, cancel, progress,
}
use uinventario_api.Transfers.Pending.{pending_in, pending_lines, all_within-find}
use uinventario_api.Transfers.Receiving.{receive_lines-facts}
use uinventario_api.Transfers.Moving.{IsMovingBy, put-IsMoving, found-id}
use uinventario_api.Transfers.ReceiptLines.{are_distinct_lines}

-- When nothing is pending any more, nothing is waited for.
done-pending :
    (p l : ℕ) (lines : List TransferLine) → is_pending lines ≡ false → pending_lines p l lines ≡ 0
unfolding is_pending pending_lines
done-pending p l [] h = refl
done-pending p l (line ∷ rest) h =
    let later = done-pending p l rest (ground arith) in ground (arith, later)

progress-pending :
    (p l : ℕ) (t : Transfer) (lines : List TransferLine)
    → pending_in p l (record t { status = progress lines; lines = lines }) ≡ pending_lines p l lines
progress-pending p l t lines = elim (Bool-cases (is_pending lines)) [
  | inl some_left ↦ rw some_left refl
  | inr done ↦ rw done (sym (done-pending p l lines done))
]

progress-sent : (lines : List TransferLine) → is_status (progress lines) draft ≡ false
progress-sent lines = ground arith

module _ (names : MovementNames) where
  write_receipt-IsMoving :
      {put taken : ℕ → ℕ → ℕ} (receipt fingerprint : ℕ) (request : ReceiptRequest) (t : Transfer)
      (depot after : Depot) (answer : Transfer) (replayed : Bool)
      → find_transfer t.id depot.transfers ≡ some t
      → are_distinct_lines request.lines ≡ true
      → write_receipt names receipt fingerprint request t depot ≡ ok (after, answer, replayed)
      → IsMovingBy put taken depot
      → IsMovingBy put taken after
  unfolding write_receipt
  write_receipt-IsMoving receipt fingerprint request t depot after answer replayed found d h b =
      elim (Result-cases (check_lines t.lines request.lines)) [
        | inr (_, e) ↦ absurd (ground arith)
        | inl (items, e) ↦
            elim (Result-cases (receive_lines names receipt items t.lines depot.books)) [
              | inr (_, f) ↦ absurd (ground arith)
              | inl ((books, lines), f) ↦
                  let new = record t { status = progress lines; lines = lines } in
                  let (c, moved, within) =
                    receive_lines-facts names receipt request.lines items t.lines lines depot.books
                      books d e f (all_within-find t.id depot.transfers t b.within found) in
                  let open_before : is_receivable t.status ≡ true = ground arith in
                  let m =
                    put-IsMoving depot t new books found b c
                      (λ p l. rw (open_before, progress-pending p l t lines) (moved p l)) within
                      (progress-sent lines) in
                  let books_same : books ≡ after.books = ground arith in
                  let transfers_same : put_transfer new depot.transfers ≡ after.transfers =
                    ground arith in
                  rw (← books_same, ← transfers_same)
                    (record {
                      consistent = m.consistent;
                      moving = m.moving;
                      within = m.within;
                      fresh = m.fresh;
                    })
            ]
      ]

  pub receive-IsMoving :
      {put taken : ℕ → ℕ → ℕ} (digest : ReceiptRequest → ℕ) (receipt : ℕ) (request : ReceiptRequest)
      (depot after : Depot) (answer : Transfer) (replayed : Bool)
      → receive names digest receipt request depot ≡ ok (after, answer, replayed)
      → IsMovingBy put taken depot
      → IsMovingBy put taken after
  unfolding receive receive_found replay_receipt
  receive-IsMoving digest receipt request depot after answer replayed h b =
      elim (Option-cases (find_transfer request.transfer depot.transfers)) [
        | inl e ↦ absurd (ground arith)
        | inr (t, e) ↦ elim (Option-cases (find_receipt request.key depot.receipts)) [
          | inl f ↦
              write_receipt-IsMoving receipt (digest request) request t depot after answer replayed
                (found-id request.transfer depot.transfers t e) (ground arith) (ground arith) b
          | inr (found, f) ↦ let same : depot ≡ after = ground arith in rw (← same) b
        ]
      ]

pub cancel-IsMoving :
    {put taken : ℕ → ℕ → ℕ} (id origin : ℕ) (depot after : Depot) (answer : Transfer)
    → cancel id origin depot ≡ ok (after, answer)
    → IsMovingBy put taken depot
    → IsMovingBy put taken after
unfolding cancel cancel_found
cancel-IsMoving id origin depot after answer h b =
    elim (Option-cases (find_transfer id depot.transfers)) [
      | inl e ↦ absurd (ground arith)
      | inr (t, e) ↦ elim (Bool-cases (is_status t.status draft)) [
        | inr not_draft ↦ let same : depot ≡ after = ground arith in rw (← same) b
        | inl is_draft ↦
            let new = record t { status = cancelled } in
            let same : (record depot { transfers = put_transfer new depot.transfers }) ≡ after =
              ground arith in
            rw (← same) (
              put-IsMoving depot t new depot.books (found-id id depot.transfers t e) b (λ c. c)
                (λ p l. ground arith) (all_within-find id depot.transfers t b.within e) refl)
      ]
    ]

-- A movement of stock next to the transfers.
pub create_movement-IsMoving :
    {put taken : ℕ → ℕ → ℕ} (guards : StockGuards) (policy : ProductQuantityPolicy)
    (digest : MovementRequest → ℤ → ℕ) (request : MovementRequest) (depot : Depot) (after : Books)
    (m : StockMovement) (replayed : Bool)
    → create_movement guards policy digest request depot.books ≡ ok (after, m, replayed)
    → IsMovingBy put taken depot
    → IsMovingBy put taken (record depot { books = after })
create_movement-IsMoving {taken = taken} guards policy digest request depot after m replayed h b =
    record {
      consistent =
          create_movement-IsConsistent guards policy digest request depot.books after m replayed h
            b.consistent;
      moving = λ p l.
          ap (λ states. states.2 + taken p l)
            (create_movement-held guards policy digest request depot.books after m replayed h p l)
          ∙ b.moving p l;
      within = b.within;
      fresh = b.fresh;
    }

-- A transition by hand next to the transfers.
pub create_transition-IsMoving :
    {put taken : ℕ → ℕ → ℕ} (guards : StockGuards) (policy : ProductQuantityPolicy)
    (digest : TransitionRequest → ℤ → ℕ) (request : TransitionRequest) (depot : Depot)
    (after : Books) (m : StockMovement) (replayed : Bool)
    → create_transition guards policy digest request depot.books ≡ ok (after, m, replayed)
    → IsMovingBy put taken depot
    → IsMovingBy
        (λ p l. put p l + put_into in_transit_state m replayed p l)
        (λ p l. taken p l + taken_out in_transit_state m replayed p l)
        (record depot { books = after })
create_transition-IsMoving guards policy digest request depot after m replayed h b = record {
  consistent =
      create_transition-IsConsistent guards policy digest request depot.books after m replayed h
        b.consistent;
  moving = λ p l. omega (
    arith,
    create_transition-column guards policy in_transit_state digest request depot.books after m
        replayed h p l,
    b.moving p l,
  );
  within = b.within;
  fresh = b.fresh;
}

-- A count of stock next to the transfers.
pub write_count-IsMoving :
    {put taken : ℕ → ℕ → ℕ} (guards : StockGuards) (policy : ProductQuantityPolicy)
    (fingerprint : ℕ) (request : CountRequest) (snapshot : ℤ) (counted : ℕ) (depot : Depot)
    (counts : List InventoryCount) (after : CountBooks) (count : InventoryCount) (replayed : Bool)
    → write_count guards policy fingerprint request snapshot
        (pos counted)
        (record { books = depot.books; counts = counts })
      ≡ ok (after, count, replayed)
    → IsMovingBy put taken depot
    → IsMovingBy put taken (record depot { books = after.books })
write_count-IsMoving {taken = taken} guards policy fingerprint request snapshot counted depot counts
      after count replayed h b =
    let before : CountBooks = record { books = depot.books; counts = counts } in
    record {
      consistent =
          write_count-IsConsistent guards policy fingerprint request snapshot counted before after
            count replayed h b.consistent;
      moving = λ p l.
          ap (λ states. states.2 + taken p l)
            (write_count-held guards policy fingerprint request snapshot counted before after count
              replayed h p l)
          ∙ b.moving p l;
      within = b.within;
      fresh = b.fresh;
    }
