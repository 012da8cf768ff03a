-- ===== src/Pos/Quote/Correct.antt =====
-- A quote that is returned: its lines are sound and its totals are theirs.
use uinventario_api.Base.{
  ℕ, ◌<◌, ◌≡◌, ◌≢◌, refl, List, [], ◌∷◌, Option, none, some, arith, map, ok, sum, length,
  length-map, ◌∙◌, All, ap, inl, inr, Result-cases,
}
use uinventario_api.Base.Int.{pos, pos_part, neg_part, ◌+ℤ◌, ◌-ℤ◌, ◌≤ℤ◌, int_laws}
use uinventario_api.Pos.Discount.{SaleDiscount, discount_amount}
use uinventario_api.Pos.Allocation.{allocate_discount}
use uinventario_api.Pos.Allocation.Sums.{allocate_discount-sum}
use uinventario_api.Pos.Allocation.Shares.{allocate_discount-le}
use uinventario_api.Pos.Quote.{
  PreparedLine, Quote, weight, check_lines, sum_gross, sum_own, quote_lines, sum_subtotal, sum_tax,
  sum_total, quote_amounts,
}
use uinventario_api.Pos.Quote.Totals.{
  IsWorth, check_lines-IsWorth, Fit-nth, sum-weights, AreSound, quote_lines-AreSound,
  quote_lines-total, quote_lines-tax, sum_total-nonneg,
}

All-positive : (ls : List PreparedLine) → All IsWorth ls → All (λ w. 0 < w) (map weight ls)
All-positive [] h = tt
All-positive (l ∷ ls) (h, hs) = (h.1, All-positive ls hs)

-- What the steps of `quoteCart` leave behind when it succeeds.
record Steps (ls : List PreparedLine) (discount : Option SaleDiscount) (points : ℕ) (q : Quote)
    : Type 0 where
  parts : List ℕ
  checked : check_lines ls ≡ ok tt
  sale : discount_amount discount (pos_part (pos (sum_gross ls) -ℤ sum_own ls)) ≡ ok q.sale_discount
  limit : q.discount +ℤ q.discount ≤ℤ pos q.gross
  allocated : allocate_discount (map weight ls) q.sale_discount ≡ ok parts
  lines_eq : q.lines ≡ quote_lines points ls parts
  gross_eq : q.gross ≡ sum_gross ls
  discount_eq : q.discount ≡ sum_own ls +ℤ pos q.sale_discount
  subtotal_eq : q.subtotal ≡ sum_subtotal q.lines
  tax_eq : q.tax ≡ sum_tax q.lines
  total_eq : q.total ≡ sum_total q.lines

steps :
    (ls : List PreparedLine) (discount : Option SaleDiscount) (points : ℕ) {q : Quote}
    → quote_amounts ls discount points ≡ ok q
    → Steps ls discount points q
unfolding quote_amounts
steps ls discount points {q} h =
    elim (Result-cases (discount_amount discount (pos_part (pos (sum_gross ls) -ℤ sum_own ls)))) [
      | inr (_, e) ↦ absurd (ground arith)
      | inl (sale, e) ↦ elim (Result-cases (allocate_discount (map weight ls) sale)) [
        | inr (_, f) ↦ absurd (ground arith)
        | inl (parts, f) ↦ record {
          parts = parts;
          checked = ground arith;
          sale = ground arith;
          limit = ground arith;
          allocated = ground arith;
          lines_eq = ground arith;
          gross_eq = ground arith;
          discount_eq = ground arith;
          subtotal_eq = ground arith;
          tax_eq = ground arith;
          total_eq = ground arith;
        }
      ]
    ]

sale-lt :
    (discount : Option SaleDiscount) (base sale : ℕ)
    → 0 < base
    → discount_amount discount base ≡ ok sale
    → sale < base
unfolding discount_amount
sale-lt none base sale p h = ground arith
sale-lt (some d) base sale p h = ground arith

sum-positive : (ls : List PreparedLine) → ls ≢ [] → All IsWorth ls → 0 < sum (map weight ls)
sum-positive [] ne h = absurd (ne refl)
sum-positive (l ∷ ls) ne (h, hs) = omega (arith, h.1)

module _ (ls : List PreparedLine) (discount : Option SaleDiscount) (points : ℕ) {q : Quote}
    (ne : ls ≢ []) (h : quote_amounts ls discount points ≡ ok q) where
  abbrev s : Steps ls discount points q
  s = steps ls discount points h

  IsWorth-All : All IsWorth ls
  IsWorth-All = check_lines-IsWorth ls s.checked

  weights_sale : q.sale_discount < sum (map weight ls)
  weights_sale =
      let e = sum-weights ls IsWorth-All in
      sale-lt discount (sum (map weight ls)) q.sale_discount (sum-positive ls ne IsWorth-All)
        (rw (← e) at s.sale)

  parts_facts : (length s.parts ≡ length (map weight ls)) × (sum s.parts ≡ q.sale_discount)
  parts_facts =
      allocate_discount-sum (map weight ls) q.sale_discount (λ e. ne (map-eq-nil ls e)) s.allocated
    where
      map-eq-nil : (ls : List PreparedLine) → map weight ls ≡ [] → ls ≡ []
      map-eq-nil [] e = refl
      map-eq-nil (l ∷ ls) e = cc

  sound : AreSound ls (quote_lines points ls s.parts)
  sound = quote_lines-AreSound points ls s.parts IsWorth-All (
      Fit-nth (map weight ls) s.parts parts_facts.0
        (allocate_discount-le (map weight ls) q.sale_discount s.allocated weights_sale)
        (All-positive ls IsWorth-All))

  -- The quote of a cart that has a line, when one is returned: in every line the total and the
  -- discounts make up the price, the tax is included in the total, and the total is not negative;
  -- the same sums hold for the whole sale, whose total is the sum of its lines, and the discounts are
  -- at most half of its price.
  pub quote_amounts-AreSound :
      AreSound ls q.lines
      × (q.total +ℤ q.discount ≡ pos q.gross)
      × (q.subtotal +ℤ pos q.tax ≡ q.total)
      × (q.total ≡ sum_total q.lines)
      × (pos 0 ≤ℤ q.total)
      × (q.discount +ℤ q.discount ≤ℤ pos q.gross)
  quote_amounts-AreSound =
      let long = parts_facts.0 ∙ length-map ls weight in
      let all = quote_lines-total points ls s.parts long in
      let total : q.total ≡ sum_total (quote_lines points ls s.parts) =
        rw (s.total_eq, s.lines_eq) refl in
      (
        rw s.lines_eq sound,
        rw (total, s.discount_eq, s.gross_eq)
            (omega (int_laws, ap pos_part all, ap neg_part all, parts_facts.1)),
        rw (s.subtotal_eq, s.tax_eq, s.total_eq, s.lines_eq) (quote_lines-tax points ls s.parts),
        s.total_eq,
        rw total (sum_total-nonneg ls _ sound),
        s.limit,
      )
