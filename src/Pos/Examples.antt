-- ===== src/Pos/Examples.antt =====
-- Tests of src/pos/pos.service.ts, and its properties at concrete inputs.
use uinventario_api.Base.{
  ℕ, ◌+◌, ◌-◌, ◌*◌, ◌/◌, ◌≤◌, ◌<◌, ◌≡◌, ◌⊎◌, refl, true, false, List, [], ◌∷◌, some, arith, ok, sum,
  length,
}
use uinventario_api.Text.{digits_value, digits_from, pad_end, before_dot, after_dot}
use uinventario_api.Decimal.{
  round_divide, to_money_cents, from_money_cents, to_quantity_units, from_quantity_units,
  to_cost_units, from_cost_units, decimal_round_trip,
}
use uinventario_api.Pos.Discount.{
  SaleDiscount, percent, amount, basis_points, raw_amount, to_percentage_basis_points,
  discount_amount, discount_amount_bounds,
}
use uinventario_api.Pos.Allocation.{
  shares, entries, insert_entry, sort_entries, goes_first, add_one, hand_out, allocate,
  allocate_discount,
}
use uinventario_api.Base.Int.{pos, ◌+ℤ◌, ◌-ℤ◌, ◌≤ℤ◌}
use uinventario_api.Pos.Quote.{
  PreparedLine, Quote, check_lines, net, quote_line, quote_lines, included_tax, quote_amounts,
  sum_total,
}
use uinventario_api.Pos.Quote.Totals.{AreSound}
use uinventario_api.Pos.Quote.Correct.{quote_amounts-AreSound}
use uinventario_api.Pos.Allocation.Sums.{allocate_discount-sum}
use uinventario_api.Pos.Allocation.Shares.{nth, allocate_discount-share, allocate_discount-le}

-- 12.5 %, because "old".
abbrev eighth : SaleDiscount
eighth = record {
  kind = percent;
  value = b'1' ∷ b'2' ∷ b'.' ∷ b'5' ∷ [];
  reason = b'o' ∷ b'l' ∷ b'd' ∷ [];
}

eighth_amount : discount_amount (some eighth) 1000 ≡ ok 125
unfolding discount_amount raw_amount to_percentage_basis_points basis_points round_divide
    digits_value digits_from pad_end before_dot after_dot
eighth_amount = refl

thirds : allocate_discount (100 ∷ 100 ∷ 101 ∷ []) 100 ≡ ok (33 ∷ 33 ∷ 34 ∷ [])
unfolding allocate_discount allocate shares entries insert_entry sort_entries goes_first add_one
    hand_out
thirds = refl

-- The cent that is left goes to the line with the larger remainder, and not to the first.
largest_remainder : allocate_discount (10 ∷ 20 ∷ []) 4 ≡ ok (1 ∷ 3 ∷ [])
unfolding allocate_discount allocate shares entries insert_entry sort_entries goes_first add_one
    hand_out
largest_remainder = refl

decimal_round_trip_example :
    (to_money_cents (from_money_cents 1205) ≡ 1205)
    × (to_quantity_units (from_quantity_units 1205) ≡ 1205)
    × (to_cost_units (from_cost_units 1205) ≡ 1205)
decimal_round_trip_example = decimal_round_trip 1205

discount_amount_bounds_example :
    (0 < 125)
    × (125 * 2 ≤ 1000)
    × (3 ≤ length eighth.reason)
    × (((eighth.kind ≡ amount) × (125 ≡ to_money_cents eighth.value))
        ⊎ ((eighth.kind ≡ percent)
            × (basis_points eighth.value ≤ 5000)
            × (125 * 20_000 ≤ 2 * 1000 * basis_points eighth.value + 10_000)
            × (2 * 1000 * basis_points eighth.value < 125 * 20_000 + 10_001)))
discount_amount_bounds_example = discount_amount_bounds eighth 1000 eighth_amount

allocate_discount-sum_example :
    (length {A = ℕ} (33 ∷ 33 ∷ 34 ∷ []) ≡ 3) × (sum (33 ∷ 33 ∷ 34 ∷ []) ≡ 100)
allocate_discount-sum_example = allocate_discount-sum (100 ∷ 100 ∷ 101 ∷ []) 100 (λ e. cc) thirds

allocate_discount-share_example :
    (100 * nth 2 (100 ∷ 100 ∷ 101 ∷ []) / 301 ≤ 34)
    × (34 ≤ 100 * nth 2 (100 ∷ 100 ∷ 101 ∷ []) / 301 + 1)
allocate_discount-share_example = allocate_discount-share (100 ∷ 100 ∷ 101 ∷ []) 100 thirds 2

allocate_discount-le_example : 34 ≤ 101
allocate_discount-le_example =
    allocate_discount-le (100 ∷ 100 ∷ 101 ∷ []) 100 thirds (omega arith) 2 (omega arith)

abbrev plain : PreparedLine
plain = record { gross = 1000; line_discount = 100; promotion_discount = pos 50; exempt = false }

abbrev exempt_line : PreparedLine
exempt_line = record { gross = 500; line_discount = 0; promotion_discount = pos 0; exempt = true }

abbrev two_lines : List PreparedLine
two_lines = plain ∷ exempt_line ∷ []

abbrev two_lines_quote : Quote
two_lines_quote = record {
  lines =
      record {
        sale_discount = 63;
        discount = pos 213;
        subtotal = pos 678;
        tax = 109;
        total = pos 787;
      }
      ∷ record {
        sale_discount = 106 - 69;
        discount = pos 37;
        subtotal = pos 463;
        tax = 0;
        total = pos 463;
      }
      ∷ [];
  gross = 1500;
  sale_discount = 100;
  discount = pos 250;
  subtotal = pos 1141;
  tax = 109;
  total = pos 1250;
}

abbrev flat : SaleDiscount
flat = record { kind = amount; value = b'1' ∷ b'.' ∷ b'0' ∷ []; reason = b'o' ∷ b'l' ∷ b'd' ∷ [] }

quoted : quote_amounts two_lines (some flat) 1600 ≡ ok two_lines_quote
unfolding quote_amounts check_lines net quote_lines quote_line included_tax discount_amount
    raw_amount to_money_cents round_divide digits_value digits_from pad_end before_dot after_dot
    allocate_discount allocate shares entries insert_entry sort_entries goes_first add_one hand_out
    ◌+ℤ◌ ◌-ℤ◌
quoted = refl

quote_amounts-AreSound_example :
    AreSound two_lines two_lines_quote.lines
    × (pos 1250 +ℤ pos 250 ≡ pos 1500)
    × (pos 1141 +ℤ pos 109 ≡ pos 1250)
    × (pos 1250 ≡ sum_total two_lines_quote.lines)
    × (pos 0 ≤ℤ pos 1250)
    × (pos 250 +ℤ pos 250 ≤ℤ pos 1500)
quote_amounts-AreSound_example = quote_amounts-AreSound two_lines (some flat) 1600 (λ e. cc) quoted
