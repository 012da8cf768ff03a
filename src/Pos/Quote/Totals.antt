-- ===== src/Pos/Quote/Totals.antt =====
-- The totals of a quote agree with its lines, and no line total is negative.
use uinventario_api.Base.{
  ℕ, suc, ◌+◌, ◌*◌, ◌≤◌, ◌<◌, ◌≡◌, Bool, false, List, [], ◌∷◌, arith, map, ok, sum, length, All, ap,
}
use uinventario_api.Base.Int.{ℤ, pos, leb_ℤ, pos_part, neg_part, ◌+ℤ◌, ◌-ℤ◌, ◌≤ℤ◌, int_laws}
use uinventario_api.Decimal.{round_divide, round_divide-le}
use uinventario_api.Pos.Allocation.Shares.{nth}
use uinventario_api.Pos.Quote.{
  PreparedLine, QuotedLine, own_discount, net, weight, check_lines, sum_gross, sum_own,
  included_tax, quote_line, quote_lines, sum_subtotal, sum_tax, sum_total,
}

-- Every line is worth more than its own discounts.
abbrev pub IsWorth : PreparedLine → Type 0
IsWorth line = (net line ≡ pos (weight line)) × (0 < weight line)

worth :
    (g : ℕ) (o : ℤ)
    → leb_ℤ (pos g) o ≡ false
    → (pos g -ℤ o ≡ pos (pos_part (pos g -ℤ o))) × (0 < pos_part (pos g -ℤ o))
unfolding ◌-ℤ◌
worth g o h = ground arith

pub check_lines-IsWorth : (ls : List PreparedLine) → check_lines ls ≡ ok tt → All IsWorth ls
unfolding check_lines net
check_lines-IsWorth [] h = tt
check_lines-IsWorth (l ∷ ls) h =
    (worth l.gross (own_discount l) (ground arith), check_lines-IsWorth ls (ground arith))

-- The lines and their parts of the sale's discount, one for one, each part within its line.
abbrev pub Fit : List ℕ → List ℕ → Type 0
Fit [] [] = Unit
Fit [] (_ ∷ _) = ⊥
Fit (_ ∷ _) [] = ⊥
Fit (w ∷ ws) (p ∷ ps) = (p ≤ w) × Fit ws ps

pub Fit-nth :
    (ws ps : List ℕ)
    → length ps ≡ length ws
    → ((i : ℕ) → 0 < nth i ws → nth i ps ≤ nth i ws)
    → All (λ w. 0 < w) ws
    → Fit ws ps
Fit-nth [] [] e h k = tt
Fit-nth [] (p ∷ ps) e h k = absurd (omega arith)
Fit-nth (w ∷ ws) [] e h k = absurd (omega arith)
Fit-nth (w ∷ ws) (p ∷ ps) e h (k, ks) = (h 0 k, Fit-nth ws ps (omega arith) (λ i. h (suc i)) ks)

pub sum-weights :
    (ls : List PreparedLine)
    → All IsWorth ls
    → pos (sum (map weight ls)) ≡ pos (sum_gross ls) -ℤ sum_own ls
unfolding net
sum-weights [] h = omega int_laws
sum-weights (l ∷ ls) ((e, _), hs) =
    let ih = sum-weights ls hs in
    omega (int_laws, ap pos_part e, ap neg_part e, ap pos_part ih, ap neg_part ih)

included_tax-le :
    (points : ℕ) (exempt : Bool) (total : ℕ) → included_tax points exempt total ≤ total
unfolding included_tax round_divide
included_tax-le points exempt total =
    ground
      (arith, round_divide-le (total * points) (10_000 + points) total (omega arith) (omega arith))

-- A line that gets no more than it is worth: its total is not negative, its discounts and its total
-- make up its price, and its tax is a part of the total.
abbrev pub IsSound : PreparedLine → QuotedLine → Type 0
IsSound line quoted =
    (pos 0 ≤ℤ quoted.total)
    × (quoted.total +ℤ quoted.discount ≡ pos line.gross)
    × (quoted.subtotal +ℤ pos quoted.tax ≡ quoted.total)
    × (pos quoted.tax ≤ℤ quoted.total)

abbrev pub AreSound : List PreparedLine → List QuotedLine → Type 0
AreSound [] [] = Unit
AreSound [] (_ ∷ _) = ⊥
AreSound (_ ∷ _) [] = ⊥
AreSound (l ∷ ls) (q ∷ qs) = IsSound l q × AreSound ls qs

pos_part-nonneg : (z : ℤ) → pos 0 ≤ℤ z → pos (pos_part z) ≡ z
pos_part-nonneg z h = ground arith

quote_line-IsSound :
    (points : ℕ) (l : PreparedLine) (part : ℕ)
    → IsWorth l
    → part ≤ weight l
    → IsSound l (quote_line points l part)
unfolding quote_line net
quote_line-IsSound points l part (e, p) h =
    let own = own_discount l in
    let total = pos l.gross -ℤ (own +ℤ pos part) in
    let positive : pos 0 ≤ℤ total = omega (int_laws, ap pos_part e, ap neg_part e) in
    let tax = included_tax-le points l.exempt (pos_part total) in
    let same = pos_part-nonneg total positive in
    (positive, omega int_laws, omega int_laws, omega (int_laws, ap neg_part same))

pub quote_lines-AreSound :
    (points : ℕ) (ls : List PreparedLine) (ps : List ℕ)
    → All IsWorth ls
    → Fit (map weight ls) ps
    → AreSound ls (quote_lines points ls ps)
unfolding quote_lines
quote_lines-AreSound points [] [] h f = tt
quote_lines-AreSound points [] (p ∷ ps) h f = tt
quote_lines-AreSound points (l ∷ ls) [] h f = absurd f
quote_lines-AreSound points (l ∷ ls) (p ∷ ps) (h, hs) (f, fs) =
    (quote_line-IsSound points l p h f, quote_lines-AreSound points ls ps hs fs)

pub quote_lines-total :
    (points : ℕ) (ls : List PreparedLine) (ps : List ℕ)
    → length ps ≡ length ls
    → sum_total (quote_lines points ls ps) +ℤ sum_own ls +ℤ pos (sum ps) ≡ pos (sum_gross ls)
unfolding quote_lines quote_line
quote_lines-total points [] [] e = omega int_laws
quote_lines-total points [] (p ∷ ps) e = absurd (omega arith)
quote_lines-total points (l ∷ ls) [] e = absurd (omega arith)
quote_lines-total points (l ∷ ls) (p ∷ ps) e =
    let ih = quote_lines-total points ls ps (omega arith) in
    omega (int_laws, ap pos_part ih, ap neg_part ih)

pub quote_lines-tax :
    (points : ℕ) (ls : List PreparedLine) (ps : List ℕ)
    → sum_subtotal (quote_lines points ls ps) +ℤ pos (sum_tax (quote_lines points ls ps))
      ≡ sum_total (quote_lines points ls ps)
unfolding quote_lines quote_line
quote_lines-tax points [] ps = omega int_laws
quote_lines-tax points (l ∷ ls) [] =
    let ih = quote_lines-tax points ls [] in omega (int_laws, ap pos_part ih, ap neg_part ih)
quote_lines-tax points (l ∷ ls) (p ∷ ps) =
    let ih = quote_lines-tax points ls ps in omega (int_laws, ap pos_part ih, ap neg_part ih)

pub sum_total-nonneg :
    (ls : List PreparedLine) (qs : List QuotedLine) → AreSound ls qs → pos 0 ≤ℤ sum_total qs
sum_total-nonneg [] [] h = omega arith
sum_total-nonneg [] (q ∷ qs) h = absurd h
sum_total-nonneg (l ∷ ls) [] h = absurd h
sum_total-nonneg (l ∷ ls) (q ∷ qs) ((n, _, _, _), hs) = omega (int_laws, sum_total-nonneg ls qs hs)
