-- ===== src/Pos/Returns.antt =====
-- Returns of the lines of a sale: the amounts and the allocations of `create` in
-- src/pos/sale-return.repository.ts, without serials and kits. Quantities are in thousandths, money in cents.
pub mod Complete
mod Examples
use uinventario_api.Base.{
  ℕ, ◌+◌, ◌-◌, ◌*◌, ◌/◌, Bool, true, false, not, ◌&&◌, ◌||◌, List, [], ◌∷◌, ◌==◌, ltb, leb,
  if◌then◌else◌, Result, ok, err, ◌>>=◌, ◌>>◌, throw_if,
}
use uinventario_api.Base.Int.{ℤ, pos, pos_part, neg_ℕ, ◌+ℤ◌, ◌-ℤ◌, is_neg}
use uinventario_api.Text.{
  Text, digits_value, before_dot, after_dot, pad_end, starts_minus, drop_minus,
}

pub record SaleLine : Type 0 where
  pub sold : ℕ
  pub subtotal : ℕ
  pub tax : ℕ

-- A row of `sale_return_lines`.
pub record ReturnedLine : Type 0 where
  pub quantity : ℕ
  pub subtotal : ℕ
  pub tax : ℕ

pub data ReturnError : Type 0 where
  invalid_quantity check_violation : ReturnError

-- `SUM(quantity)`, `SUM(subtotal)` and `SUM(tax)`
unfoldable pub returned_quantity : List ReturnedLine → ℕ
returned_quantity [] = 0
returned_quantity (r ∷ rest) = r.quantity + returned_quantity rest

unfoldable pub returned_subtotal : List ReturnedLine → ℕ
returned_subtotal [] = 0
returned_subtotal (r ∷ rest) = r.subtotal + returned_subtotal rest

unfoldable pub returned_tax : List ReturnedLine → ℕ
returned_tax [] = 0
returned_tax (r ∷ rest) = r.tax + returned_tax rest

-- `prorate`
unfoldable pub prorate : (original sold returned_now returned_money : ℕ) (completes_line : Bool) → ℤ
prorate original sold returned_now returned_money completes_line =
    if completes_line
    then pos original -ℤ pos returned_money
    else pos ((original * returned_now + sold / 2) / sold)

-- A line that is returned, and its row; the amounts may not be negative in the database.
unfoldable pub return_line :
    SaleLine → ℕ → List ReturnedLine → Result ReturnError (List ReturnedLine)
return_line line quantity rows = do
  let returned = returned_quantity rows
  throw_if (quantity == 0 || ltb line.sold (returned + quantity)) invalid_quantity
  let completes_line = returned + quantity == line.sold
  let subtotal = prorate line.subtotal line.sold quantity (returned_subtotal rows) completes_line
  let tax = prorate line.tax line.sold quantity (returned_tax rows) completes_line
  throw_if (is_neg subtotal || is_neg tax) check_violation
  ok (record { quantity = quantity; subtotal = pos_part subtotal; tax = pos_part tax } ∷ rows)

-- `BigInt(whole)` of a whole part with a sign.
abbrev pub signed_value : Text → ℤ
signed_value whole =
    if starts_minus whole then neg_ℕ (digits_value (drop_minus whole)) else pos (digits_value whole)

abbrev pub thousand : ℤ → ℤ
thousand n = pos (1000 * pos_part n) -ℤ pos (1000 * pos_part (pos 0 -ℤ n))

-- `toQuantity` of a column with three decimals.
unfoldable pub to_quantity : Text → ℤ
to_quantity value =
    thousand (signed_value (before_dot value)) +ℤ pos (digits_value (pad_end 3 (after_dot value)))

-- A row of the sale's movements: what was sold of a product at a location, and what came back to it.
pub record SaleMovement : Type 0 where
  pub id : ℕ
  pub location : ℕ
  pub quantity_change : Text
  pub returned : Text

pub record ReturnAllocation : Type 0 where
  pub movement : ℕ
  pub location : ℕ
  pub quantity : ℕ

-- `soldAtLocation - returned`
abbrev pub available_at : SaleMovement → ℤ
available_at m = (pos 0 -ℤ to_quantity m.quantity_change) -ℤ to_quantity m.returned

-- The loop over the movements, for products without serials.
unfoldable pub allocate_return : ℕ → List SaleMovement → List ReturnAllocation × ℕ
allocate_return remaining [] = ([], remaining)
allocate_return remaining (m ∷ rest) =
    let available = pos_part (available_at m) in
    let selected = if ltb available remaining then available else remaining in
    let skipped = allocate_return remaining rest in
    let (later, left) = allocate_return (remaining - selected) rest in
    let allocation : ReturnAllocation = record {
      movement = m.id;
      location = m.location;
      quantity = selected;
    } in
    if remaining == 0
    then ([], remaining)
    else if selected == 0
    then skipped
    else (allocation ∷ later, left)

abbrev pub none_left : List ReturnAllocation × ℕ → Result ReturnError (List ReturnAllocation)
none_left (allocations, left) = if left == 0 then ok allocations else err invalid_quantity

unfoldable pub allocations_for : ℕ → List SaleMovement → Result ReturnError (List ReturnAllocation)
allocations_for quantity movements = none_left (allocate_return quantity movements)
