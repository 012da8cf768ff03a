-- ===== src/Pos/Returns/Complete.antt =====
-- The returns of a line add up to it, and never to more than was sold.
use uinventario_api.Base.{
  ℕ, ◌+◌, ◌-◌, ◌≤◌, ◌<◌, ◌≡◌, Bool, true, false, ◌||◌, ◌==◌, if◌then◌else◌, arith, ltb, List, [],
  ◌∷◌, ok,
}
use uinventario_api.Base.Int.{pos_part, is_neg, ◌-ℤ◌}
use uinventario_api.Pos.Returns.{
  SaleLine, ReturnedLine, returned_quantity, returned_subtotal, returned_tax, prorate, return_line,
  SaleMovement, ReturnAllocation, available_at, allocate_return, allocations_for,
}

-- The accepted returns of a line, one after the other.
pub data ReturnRun (line : SaleLine) : List ReturnedLine → Type 0 where
  started : ReturnRun line []
  continued :
      {rows after : List ReturnedLine}
      → ReturnRun line rows
      → (quantity : ℕ) → return_line line quantity rows ≡ ok after
      → ReturnRun line after

pub record IsReturned (line : SaleLine) (rows : List ReturnedLine) : Type 0 where
  pub within : returned_quantity rows ≤ line.sold
  pub subtotal : returned_quantity rows ≡ line.sold → returned_subtotal rows ≡ line.subtotal
  pub tax : returned_quantity rows ≡ line.sold → returned_tax rows ≡ line.tax

completed-money :
    (original sold now before : ℕ) (completes : Bool)
    → completes ≡ true
    → is_neg (prorate original sold now before completes) ≡ false
    → pos_part (prorate original sold now before completes) + before ≡ original
unfolding prorate ◌-ℤ◌
completed-money original sold now before true done h = ground arith
completed-money original sold now before false done h = absurd (ground arith)

step-IsReturned :
    (line : SaleLine) (quantity : ℕ) (rows after : List ReturnedLine)
    → return_line line quantity rows ≡ ok after
    → IsReturned line after
unfolding return_line returned_quantity returned_subtotal returned_tax
step-IsReturned line quantity rows after h =
    let completes = returned_quantity rows + quantity == line.sold in
    let subtotal = prorate line.subtotal line.sold quantity (returned_subtotal rows) completes in
    let tax = prorate line.tax line.sold quantity (returned_tax rows) completes in
    let row : ReturnedLine = record {
      quantity = quantity;
      subtotal = pos_part subtotal;
      tax = pos_part tax;
    } in
    let same : row ∷ rows ≡ after = ground arith in
    let fits : returned_quantity rows + quantity ≤ line.sold = ground arith in
    let fine : (is_neg subtotal || is_neg tax) ≡ false = ground arith in
    rw (← same) (record {
      within = omega arith;
      subtotal = λ e.
          completed-money line.subtotal line.sold quantity (returned_subtotal rows) completes
            (ground arith) (ground (arith, fine));
      tax = λ e.
          completed-money line.tax line.sold quantity (returned_tax rows) completes (ground arith)
            (ground (arith, fine));
    })

-- Whatever parts of a line are returned, in whatever order: they are never more than was sold, and
-- once they are all of it, the amounts and the taxes given back are those of the line.
pub run-IsReturned :
    (line : SaleLine) {rows : List ReturnedLine}
    → 0 < line.sold
    → ReturnRun line rows
    → IsReturned line rows
unfolding returned_quantity
run-IsReturned line some_sold started = record {
  within = omega arith;
  subtotal = λ e. absurd (omega arith);
  tax = λ e. absurd (omega arith);
}
run-IsReturned line some_sold (continued {rows} {after} run quantity h) =
    step-IsReturned line quantity rows after h

unfoldable pub restored : List ReturnAllocation → ℕ
restored [] = 0
restored (a ∷ rest) = a.quantity + restored rest

allocate_return-sum :
    (remaining : ℕ) (movements : List SaleMovement)
    → restored (allocate_return remaining movements).0 + (allocate_return remaining movements).1
      ≡ remaining
unfolding allocate_return restored
allocate_return-sum remaining [] = omega arith
allocate_return-sum remaining (m ∷ rest) =
    let available = pos_part (available_at m) in
    let selected = if ltb available remaining then available else remaining in
    let skipped = allocate_return-sum remaining rest in
    let later = allocate_return-sum (remaining - selected) rest in ground (arith, skipped, later)

-- The stock that a return gives back is the quantity that is returned.
pub allocations_for-sum :
    (quantity : ℕ) (movements : List SaleMovement) (allocations : List ReturnAllocation)
    → allocations_for quantity movements ≡ ok allocations
    → restored allocations ≡ quantity
unfolding allocations_for
allocations_for-sum quantity movements allocations h =
    ground (arith, allocate_return-sum quantity movements)
