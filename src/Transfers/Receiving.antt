-- ===== src/Transfers/Receiving.antt =====
-- The lines of a transfer arrive: what `receive` does to the balances and to the lines.
use uinventario_api.Base.{
  ℕ, zero, suc, ◌+◌, ◌-◌, ◌≤◌, ◌≡◌, refl, sym, Bool, true, false, if◌then◌else◌, arith, ltb, none,
  some, List, [], ◌∷◌, ok, Result-cases, Bool-cases, inl, inr,
}
use uinventario_api.Base.Int.{ℤ, pos, neg_ℕ, ◌+ℤ◌, int_laws}
use uinventario_api.Stock.{
  Balance, StockMovement, Books, balance_at, put_balance, is_key, transfer_receipt,
  transfer_discrepancy, in_transit_state, available_state,
}
use uinventario_api.Stock.Ledger.{IsConsistent, write-IsConsistent, booked}
use uinventario_api.Transfers.{TransferLine}
use uinventario_api.Transfers.Operations.{MovementNames}
use uinventario_api.Transfers.ReceiptLines.{
  ReceivedLine, receive_line, receive_lines, add_received, check_lines, are_distinct_lines,
  consed_if,
}
use uinventario_api.Transfers.Pending.{
  goes_to, pending_lines, are_within, pending_lines-add, are_within-add,
}
use uinventario_api.Transfers.Dispatching.{in_transit_at, in_transit-put, pos-minus}
use uinventario_api.Transfers.Named.{AllFound, items_distinct, AllFound-add, check_lines-AllFound}

+ℤ-pos_zero : (z : ℤ) → pos 0 +ℤ z ≡ z
+ℤ-pos_zero z = omega int_laws

-- A movement that is left out when it changes nothing books what it would book.
booked-consed :
    (flag : Bool) (m : StockMovement) (rest : List StockMovement) (p l : ℕ)
    → (flag ≡ false → m.change ≡ pos 0)
    → booked p l (consed_if flag m rest)
      ≡ (if is_key m.product m.location p l then m.change +ℤ booked p l rest else booked p l rest)
unfolding booked
booked-consed true m rest p l h = refl
booked-consed false m rest p l h = elim (Bool-cases (is_key m.product m.location p l)) [
  | inl same ↦ rw (same, h refl) (sym (+ℤ-pos_zero (booked p l rest)))
  | inr other ↦ rw other refl
]

-- The movements of a receipt book what is missing, and nothing for what arrived.
receipt-booked :
    (arrived missing : StockMovement) (is_missing has_arrived : Bool) (rest : List StockMovement)
    (p l : ℕ)
    → arrived.change ≡ pos 0
    → (is_missing ≡ false → missing.change ≡ pos 0)
    → is_key arrived.product arrived.location p l ≡ is_key missing.product missing.location p l
    → booked p l (consed_if is_missing missing (consed_if has_arrived arrived rest)) ≡ (
        if is_key missing.product missing.location p l
        then missing.change +ℤ booked p l rest
        else booked p l rest)
receipt-booked arrived missing is_missing has_arrived rest p l nothing fits same_place =
    let outer = booked-consed is_missing missing (consed_if has_arrived arrived rest) p l fits in
    let inner = booked-consed has_arrived arrived rest p l (λ _. nothing) in
    elim (Bool-cases (is_key missing.product missing.location p l)) [
      | inl same ↦
          rw (outer, same, inner, same_place, same, nothing, +ℤ-pos_zero (booked p l rest)) refl
      | inr other ↦ rw (outer, other, inner, same_place, other) refl
    ]

no_discrepancy : (n : ℕ) → ltb 0 n ≡ false → neg_ℕ n ≡ pos 0
no_discrepancy zero h = refl
no_discrepancy (suc n) h = absurd (ground arith)

module _ (names : MovementNames) (receipt : ℕ) where
  pub receive_line-facts :
      (line : TransferLine) (r : ReceivedLine) (books after : Books)
      → receive_line names receipt line r books ≡ ok after
      → (IsConsistent books → IsConsistent after)
        × ((p l : ℕ)
            → in_transit_at after.stock p l
                + (if goes_to p l line then r.received + r.discrepancy else 0)
              ≡ in_transit_at books.stock p l)
  unfolding receive_line
  receive_line-facts line r books after h =
      let b = balance_at books.stock line.product line.destination in
      let enough : r.received + r.discrepancy ≤ b.in_transit = ground arith in
      let whole : r.discrepancy ≤ b.quantity = ground arith in
      let new : Balance = record b {
        quantity = b.quantity - r.discrepancy;
        available = b.available + r.received;
        in_transit = b.in_transit - (r.received + r.discrepancy);
      } in
      let arrived : StockMovement = record {
        key = names.received_key receipt line;
        fingerprint = names.digest (names.received_key receipt line);
        product = line.product;
        location = line.destination;
        kind = transfer_receipt;
        change = pos 0;
        resulting = b.quantity - r.discrepancy;
        changed_state = some (in_transit_state, available_state, r.received);
      } in
      let missing : StockMovement = record {
        key = names.missing_key receipt line;
        fingerprint = names.digest (names.missing_key receipt line);
        product = line.product;
        location = line.destination;
        kind = transfer_discrepancy;
        change = neg_ℕ r.discrepancy;
        resulting = b.quantity - r.discrepancy;
        changed_state = none;
      } in
      let movements =
        consed_if (ltb 0 r.discrepancy) missing
          (consed_if (ltb 0 r.received) arrived books.movements) in
      let same : (record {
        stock = put_balance books.stock line.product line.destination new;
        movements = movements;
      })
          ≡ after =
        ground arith in
      rw (← same) (
        λ c.
            write-IsConsistent books line.product line.destination new (neg_ℕ r.discrepancy)
              movements (ground (arith, c.split line.product line.destination))
              (pos-minus b.quantity r.discrepancy whole)
              (λ p l.
                receipt-booked arrived missing (ltb 0 r.discrepancy) (ltb 0 r.received)
                  books.movements p l refl (λ e. no_discrepancy r.discrepancy e) refl)
              c,
        λ p l. ground (arith, in_transit-put books.stock line.product line.destination new p l),
      )

module _ (names : MovementNames) (receipt : ℕ) where
  found-facts :
      (items : List (TransferLine × ReceivedLine)) (lines after_lines : List TransferLine)
      (books after : Books)
      → AllFound items lines
      → items_distinct items ≡ true
      → receive_lines names receipt items lines books ≡ ok (after, after_lines)
      → are_within lines ≡ true
      → (IsConsistent books → IsConsistent after)
        × ((p l : ℕ)
            → in_transit_at after.stock p l + pending_lines p l lines
              ≡ in_transit_at books.stock p l + pending_lines p l after_lines)
        × (are_within after_lines ≡ true)
  unfolding receive_lines AllFound items_distinct
  found-facts [] lines after_lines books after found d h within =
      let same : books ≡ after = ground arith in
      let same_lines : lines ≡ after_lines = ground arith in
      rw (← same, ← same_lines) (λ c. c, λ p l. refl, within)
  found-facts ((line, r) ∷ rest) lines after_lines books after (here, fits, _, found) d h within =
      elim (Result-cases (receive_line names receipt line r books)) [
        | inr (_, e) ↦ absurd (ground arith)
        | inl (next, e) ↦
            let (c1, t1) = receive_line-facts names receipt line r books next e in
            let (c2, t2, w2) =
              found-facts rest (add_received r lines) after_lines next after
                (AllFound-add r rest lines (ground arith) found) (ground arith) (ground arith)
                (are_within-add r lines line here fits within) in
            (
              λ c. c2 (c1 c),
              λ p l. omega (arith, t1 p l, t2 p l, pending_lines-add p l r lines line here fits),
              w2,
            )
      ]

  -- What a receipt takes out of transit is what its lines no longer wait for.
  pub receive_lines-facts :
      (rs : List ReceivedLine) (items : List (TransferLine × ReceivedLine))
      (lines after_lines : List TransferLine) (books after : Books)
      → are_distinct_lines rs ≡ true
      → check_lines lines rs ≡ ok items
      → receive_lines names receipt items lines books ≡ ok (after, after_lines)
      → are_within lines ≡ true
      → (IsConsistent books → IsConsistent after)
        × ((p l : ℕ)
            → in_transit_at after.stock p l + pending_lines p l lines
              ≡ in_transit_at books.stock p l + pending_lines p l after_lines)
        × (are_within after_lines ≡ true)
  receive_lines-facts rs items lines after_lines books after d checked h within =
      let (found, distinct, _) = check_lines-AllFound lines rs items d checked in
      found-facts items lines after_lines books after found distinct h within
