-- ===== src/Pos/Quote.antt =====
-- The amounts of a quote: the part of `quoteCart` in src/pos/pos.service.ts that follows the promotions.
-- The allocations of promotions may be negative, and so the amounts after them are integers; that no
-- line total is negative is a theorem.
pub mod Totals
pub mod Correct
use uinventario_api.Base.{
  ℕ, ◌+◌, ◌-◌, ◌*◌, Bool, true, false, ◌||◌, Option, none, some, List, [], ◌∷◌, map, ltb, ◌==◌,
  if◌then◌else◌, Result, ok, err, ◌>>=◌, ◌>>◌, throw_if,
}
use uinventario_api.Base.Int.{ℤ, pos, pos_part, neg_part, ◌+ℤ◌, ◌-ℤ◌, leb_ℤ, ltb_ℤ}
use uinventario_api.Decimal.{round_divide}
use uinventario_api.Pos.{PosError, sale_discount_limit_exceeded}
use uinventario_api.Pos.Discount.{SaleDiscount, discount_amount}
use uinventario_api.Pos.Allocation.{allocate_discount}

-- The fields of `preparedLines` that the amounts depend on.
pub record PreparedLine : Type 0 where
  pub gross : ℕ
  pub line_discount : ℕ
  pub promotion_discount : ℤ
  pub exempt : Bool

pub record QuotedLine : Type 0 where
  pub sale_discount : ℕ
  pub discount : ℤ
  pub subtotal : ℤ
  pub tax : ℕ
  pub total : ℤ

pub record Quote : Type 0 where
  pub lines : List QuotedLine
  pub gross : ℕ
  pub sale_discount : ℕ
  pub discount : ℤ
  pub subtotal : ℤ
  pub tax : ℕ
  pub total : ℤ

abbrev pub own_discount : PreparedLine → ℤ
own_discount line = pos line.line_discount +ℤ line.promotion_discount

-- `grossCents - lineDiscountCents - promotionDiscountCents`
unfoldable pub net : PreparedLine → ℤ
net line = pos line.gross -ℤ own_discount line

-- `if (lineDiscountCents + promotionDiscountCents >= grossCents) throw`, for each line in turn.
unfoldable pub check_lines : List PreparedLine → Result PosError (Unit {0})
check_lines [] = ok tt
check_lines (line ∷ lines) =
    let rest = check_lines lines in
    if leb_ℤ (pos line.gross) (own_discount line) then err sale_discount_limit_exceeded else rest

abbrev pub sum_gross : List PreparedLine → ℕ
sum_gross [] = 0
sum_gross (line ∷ lines) = line.gross + sum_gross lines

abbrev pub sum_own : List PreparedLine → ℤ
sum_own [] = pos 0
sum_own (line ∷ lines) = own_discount line +ℤ sum_own lines

-- The tax that is included in a line total.
unfoldable pub included_tax : ℕ → Bool → ℕ → ℕ
included_tax basis_points exempt total =
    if basis_points == 0 || exempt
    then 0
    else round_divide (total * basis_points) (10_000 + basis_points)

unfoldable pub quote_line : ℕ → PreparedLine → ℕ → QuotedLine
quote_line basis_points line allocation =
    let discount = own_discount line +ℤ pos allocation in
    let total = pos line.gross -ℤ discount in
    let tax = included_tax basis_points line.exempt (pos_part total) in
    record {
      sale_discount = allocation;
      discount = discount;
      subtotal = total -ℤ pos tax;
      tax = tax;
      total = total;
    }

-- The `map` over the lines with `saleAllocations[index] ?? 0n`.
unfoldable pub quote_lines : ℕ → List PreparedLine → List ℕ → List QuotedLine
quote_lines basis_points [] parts = []
quote_lines basis_points (line ∷ lines) [] =
    quote_line basis_points line 0 ∷ quote_lines basis_points lines []
quote_lines basis_points (line ∷ lines) (part ∷ parts) =
    quote_line basis_points line part ∷ quote_lines basis_points lines parts

abbrev pub sum_subtotal : List QuotedLine → ℤ
sum_subtotal [] = pos 0
sum_subtotal (line ∷ lines) = line.subtotal +ℤ sum_subtotal lines

abbrev pub sum_tax : List QuotedLine → ℕ
sum_tax [] = 0
sum_tax (line ∷ lines) = line.tax + sum_tax lines

abbrev pub sum_total : List QuotedLine → ℤ
sum_total [] = pos 0
sum_total (line ∷ lines) = line.total +ℤ sum_total lines

-- The weight of a line in the allocation; after `check_lines` the integer is positive.
abbrev pub weight : PreparedLine → ℕ
weight line = pos_part (net line)

unfoldable pub quote_amounts : List PreparedLine → Option SaleDiscount → ℕ → Result PosError Quote
quote_amounts prepared discount basis_points = do
  check_lines prepared
  let gross = sum_gross prepared
  let base = pos gross -ℤ sum_own prepared
  sale ← discount_amount discount (pos_part base)
  let total_discount = sum_own prepared +ℤ pos sale
  throw_if (ltb_ℤ (pos gross) (total_discount +ℤ total_discount)) sale_discount_limit_exceeded
  parts ← allocate_discount (map weight prepared) sale
  let lines = quote_lines basis_points prepared parts
  ok (record {
    lines = lines;
    gross = gross;
    sale_discount = sale;
    discount = total_discount;
    subtotal = sum_subtotal lines;
    tax = sum_tax lines;
    total = sum_total lines;
  })
