-- ===== src/Transfers/Dispatching.antt =====
-- The lines of a transfer leave: what `dispatch` does to the balances.
use uinventario_api.Base.{
  ℕ, zero, suc, ◌+◌, ◌-◌, ◌≤◌, ◌≡◌, refl, Bool, true, ◌&&◌, ◌==◌, if◌then◌else◌, arith, none, List,
  [], ◌∷◌, ok, Result-cases, Bool-cases, inl, inr,
}
use uinventario_api.Base.Int.{pos, neg_ℕ, ◌+ℤ◌, int_laws}
use uinventario_api.Stock.{
  Balance, Stock, StockMovement, Books, balance_at, put_balance, is_key, post, transfer_out,
  transfer_in,
}
use uinventario_api.Stock.Ledger.{IsConsistent, post-IsConsistent}
use uinventario_api.Stock.Rows.{balance_at-put_same, balance_at-put_other, is_key-same}
use uinventario_api.Transfers.{TransferLine}
use uinventario_api.Transfers.Operations.{MovementNames, dispatch_line, dispatch_lines}
use uinventario_api.Transfers.Pending.{goes_to, pending_lines}

abbrev pub in_transit_at : Stock → ℕ → ℕ → ℕ
in_transit_at stock p l = (balance_at stock p l).in_transit

-- The quantity in transit everywhere, when one row is written.
pub in_transit-put :
    (stock : Stock) (product location : ℕ) (b : Balance) (p l : ℕ)
    → in_transit_at (put_balance stock product location b) p l
        + (if is_key product location p l then in_transit_at stock product location else 0)
      ≡ in_transit_at stock p l + (if is_key product location p l then b.in_transit else 0)
in_transit-put stock product location b p l = elim (Bool-cases (is_key product location p l)) [
  | inl same ↦
      let (ep, el) = is_key-same product location p l same in
      rw (in_transit_at, balance_at-put_same stock product location b p l same, same, ep, el)
        (omega arith)
  | inr other ↦
      rw (in_transit_at, balance_at-put_other stock product location b p l other, other) refl
]

pub pos-minus : (n m : ℕ) → m ≤ n → pos (n - m) ≡ pos n +ℤ neg_ℕ m
pos-minus n zero h = omega int_laws
pos-minus n (suc m) h = omega int_laws

-- No line has been received.
unfoldable pub are_fresh : List TransferLine → Bool
are_fresh [] = true
are_fresh (line ∷ rest) = line.received + line.discrepancy == 0 && are_fresh rest

module _ (names : MovementNames) (transfer : ℕ) where
  dispatch_line-facts :
      (line : TransferLine) (books after : Books)
      → dispatch_line names transfer line books ≡ ok after
      → (IsConsistent books → IsConsistent after)
        × ((p l : ℕ)
            → in_transit_at after.stock p l
              ≡ in_transit_at books.stock p l + (if goes_to p l line then line.quantity else 0))
  unfolding dispatch_line
  dispatch_line-facts line books after h =
      let source = balance_at books.stock line.product line.source in
      let enough : line.quantity ≤ source.available = ground arith in
      let whole : line.quantity ≤ source.quantity = ground arith in
      let new_source : Balance = record source {
        quantity = source.quantity - line.quantity;
        available = source.available - line.quantity;
      } in
      let sent : StockMovement = record {
        key = names.sent_key transfer line;
        fingerprint = names.digest (names.sent_key transfer line);
        product = line.product;
        location = line.source;
        kind = transfer_out;
        change = neg_ℕ line.quantity;
        resulting = source.quantity - line.quantity;
        changed_state = none;
      } in
      let left = post books line.product line.source new_source sent in
      let destination = balance_at left.stock line.product line.destination in
      let new_destination : Balance = record destination {
        quantity = destination.quantity + line.quantity;
        in_transit = destination.in_transit + line.quantity;
      } in
      let arriving : StockMovement = record {
        key = names.arriving_key transfer line;
        fingerprint = names.digest (names.arriving_key transfer line);
        product = line.product;
        location = line.destination;
        kind = transfer_in;
        change = pos line.quantity;
        resulting = destination.quantity + line.quantity;
        changed_state = none;
      } in
      let same : post left line.product line.destination new_destination arriving ≡ after =
        ground arith in
      rw (← same) (
        λ c.
            let once = post-IsConsistent books sent new_source c (record {
              split = ground (arith, c.split line.product line.source);
              sums = pos-minus source.quantity line.quantity whole;
            }) in
            post-IsConsistent left arriving new_destination once (record {
              split = ground (arith, once.split line.product line.destination);
              sums = omega int_laws;
            }),
        λ p l. ground (
          arith,
          in_transit-put books.stock line.product line.source new_source p l,
          in_transit-put left.stock line.product line.destination new_destination p l,
        ),
      )

  -- What is sent is in transit at its destination, and the books stay consistent.
  pub dispatch_lines-facts :
      (lines : List TransferLine) (books after : Books)
      → are_fresh lines ≡ true
      → dispatch_lines names transfer lines books ≡ ok after
      → (IsConsistent books → IsConsistent after)
        × ((p l : ℕ)
            → in_transit_at after.stock p l
              ≡ in_transit_at books.stock p l + pending_lines p l lines)
  unfolding dispatch_lines pending_lines are_fresh
  dispatch_lines-facts [] books after fresh h =
      let same : books ≡ after = ground arith in rw (← same) (λ c. c, λ p l. omega arith)
  dispatch_lines-facts (line ∷ rest) books after fresh h =
      elim (Result-cases (dispatch_line names transfer line books)) [
        | inr (_, e) ↦ absurd (ground arith)
        | inl (next, e) ↦
            let (c1, t1) = dispatch_line-facts line books next e in
            let (c2, t2) = dispatch_lines-facts rest next after (ground arith) (ground arith) in
            (λ c. c2 (c1 c), λ p l. ground (arith, t1 p l, t2 p l))
      ]
