-- ===== src/Pos/Returns/Examples.antt =====
-- Tests of the returns of a sale, and their properties at concrete inputs.
use Prim.Native.String.{String}
use Prim.Native.Char.{code}
use uinventario_api.Base.{◌≡◌, refl, List, [], ◌∷◌, ok, err, arith}
use uinventario_api.Base.Int.{pos, negsuc, ◌+ℤ◌, ◌-ℤ◌}
use uinventario_api.Text.{
  Text, digits_value, digits_from, before_dot, after_dot, pad_end, starts_minus, drop_minus,
}
use uinventario_api.Pos.Returns.{
  SaleLine, ReturnedLine, invalid_quantity, check_violation, returned_quantity, returned_subtotal,
  returned_tax, prorate, return_line, to_quantity, SaleMovement, allocate_return, allocations_for,
}
use uinventario_api.Pos.Returns.Complete.{
  started, continued, IsReturned, run-IsReturned, restored, allocations_for-sum,
}

abbrev text : String → Text
text String.[] = []
text (String.◌∷◌ c s) = code c ∷ text s

-- Three pieces for 10.00 and 1.60 of tax.
abbrev a_line : SaleLine
a_line = record { sold = 3000; subtotal = 1000; tax = 160 }

abbrev first_rows : List ReturnedLine
first_rows = record { quantity = 1000; subtotal = 333; tax = 53 } ∷ []

abbrev all_rows : List ReturnedLine
all_rows = record { quantity = 2000; subtotal = 667; tax = 107 } ∷ first_rows

returns_one : return_line a_line 1000 [] ≡ ok first_rows
unfolding return_line returned_quantity returned_subtotal returned_tax prorate ◌-ℤ◌
returns_one = refl

returns_rest : return_line a_line 2000 first_rows ≡ ok all_rows
unfolding return_line returned_quantity returned_subtotal returned_tax prorate ◌-ℤ◌
returns_rest = refl

run-IsReturned_example : IsReturned a_line all_rows
run-IsReturned_example =
    run-IsReturned a_line (omega arith)
      (continued (continued started 1000 returns_one) 2000 returns_rest)

-- Two cents over four pieces: three of them are rounded up to a cent each, and the last return would have to
-- take a cent back.
abbrev cheap : SaleLine
cheap = record { sold = 4000; subtotal = 2; tax = 0 }

abbrev a_cent : ReturnedLine
a_cent = record { quantity = 1000; subtotal = 1; tax = 0 }

last_refused :
    (return_line cheap 1000 (a_cent ∷ a_cent ∷ []) ≡ ok (a_cent ∷ a_cent ∷ a_cent ∷ []))
    × (return_line cheap 1000 (a_cent ∷ a_cent ∷ a_cent ∷ []) ≡ err check_violation)
unfolding return_line returned_quantity returned_subtotal returned_tax prorate ◌-ℤ◌
last_refused = (refl, refl)

-- A negative quantity with a fraction is misread.
reads :
    (to_quantity (text "-2.000") ≡ negsuc 1999)
    × (to_quantity (text "-1.500") ≡ negsuc 499)
    × (to_quantity (text "-0.500") ≡ pos 500)
unfolding to_quantity digits_value digits_from before_dot after_dot pad_end starts_minus drop_minus
    ◌+ℤ◌ ◌-ℤ◌
reads = (refl, refl, refl)

abbrev movements : Text → List SaleMovement
movements change =
    record { id = 1; location = 7; quantity_change = change; returned = text "0.000" } ∷ []

half_refused : allocations_for 500 (movements (text "-0.500")) ≡ err invalid_quantity
unfolding allocations_for allocate_return to_quantity digits_value digits_from before_dot after_dot
    pad_end starts_minus drop_minus ◌+ℤ◌ ◌-ℤ◌
half_refused = refl

two_returned :
    allocations_for 1500 (movements (text "-2.000"))
    ≡ ok (record { movement = 1; location = 7; quantity = 1500 } ∷ [])
unfolding allocations_for allocate_return to_quantity digits_value digits_from before_dot after_dot
    pad_end starts_minus drop_minus ◌+ℤ◌ ◌-ℤ◌
two_returned = refl

allocations_for-sum_example :
    restored (record { movement = 1; location = 7; quantity = 1500 } ∷ []) ≡ 1500
allocations_for-sum_example =
    allocations_for-sum 1500 (movements (text "-2.000"))
      (record { movement = 1; location = 7; quantity = 1500 } ∷ []) two_returned
