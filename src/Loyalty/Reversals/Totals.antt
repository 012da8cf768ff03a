-- ===== src/Loyalty/Reversals/Totals.antt =====
-- How many points the returns and the void of a sale give back and take in all.
use uinventario_api.Base.{
  ℕ, ◌+◌, ◌≤◌, ◌≡◌, Bool, true, false, ◌==◌, ◌&&◌, refl, inl, inr, arith, Option, none, some, [],
  ◌∷◌, ok, Result-cases, Option-cases, Bool-cases,
}
use uinventario_api.Loyalty.{Rule}
use uinventario_api.Loyalty.Ledger.{Ledger}
use uinventario_api.Loyalty.Sales.{
  Mode, void, return, restored_points, reversed_points, SaleRow, compensate_sale, SaleInput,
  apply_sale,
}
use uinventario_api.Loyalty.Compensation.{compensate_sale-le}
use uinventario_api.Loyalty.Reversals.{
  ReversedSale, is_voided, has_return, find_return, replay_void, first_void, void_sale,
  first_return, return_sale,
}
use uinventario_api.Loyalty.Reversals.Kept.{IsKept, compensate_sale-IsKept, apply_sale-IsKept}

-- An accepted request: a void or a return of the sale, a reversal of another sale, or a sale.
pub data ReversalStep : ReversedSale → ReversedSale → Type 0 where
  voided :
      (customer : Bool) (now key fingerprint : ℕ) (sale after : ReversedSale) (replayed : Bool)
      → void_sale customer now key fingerprint sale ≡ ok (after, replayed)
      → ReversalStep sale after
  returned :
      (customer : Bool) (now key fingerprint total : ℕ) (sale after : ReversedSale)
      (replayed : Bool)
      → return_sale customer now key fingerprint total sale ≡ ok (after, replayed)
      → ReversalStep sale after
  elsewhere :
      (customer : Bool) (now : ℕ) (mode : Mode) (other : SaleRow) (sale : ReversedSale)
      (after : Ledger)
      → other.id == sale.row.id ≡ false
      → compensate_sale customer now mode other sale.ledger ≡ ok after
      → ReversalStep sale (record sale { ledger = after })
  sold :
      (customer : Bool) (now : ℕ) (rule : Option Rule) (input : SaleInput) (sale : ReversedSale)
      (after : Ledger)
      → apply_sale customer now rule input sale.ledger ≡ ok after
      → ReversalStep sale (record sale { ledger = after })

-- Nothing was given back or taken for the sale in one way.
abbrev pub IsUntouched : Mode → ReversedSale → Type 0
IsUntouched mode sale =
    (restored_points mode sale.row.id sale.ledger.entries ≡ 0)
    × (reversed_points mode sale.row.id sale.ledger.entries ≡ 0)

abbrev pub unreversed : SaleRow → Ledger → ReversedSale
unreversed row ledger = record { row = row; voided_by = none; returns = []; ledger = ledger }

pub data ReversalRun : ReversedSale → Type 0 where
  made :
      (row : SaleRow) (ledger : Ledger)
      → IsUntouched void (unreversed row ledger)
      → IsUntouched return (unreversed row ledger)
      → ReversalRun (unreversed row ledger)
  continued :
      {sale after : ReversedSale} → ReversalRun sale → ReversalStep sale after → ReversalRun after

-- In each way no more than the sale moved, and only in the ways that the sale was reversed.
record IsBounded (sale : ReversedSale) : Type 0 where
  restored :
      (mode : Mode)
      → restored_points mode sale.row.id sale.ledger.entries ≤ sale.row.points_redeemed
  reversed :
      (mode : Mode) → reversed_points mode sale.row.id sale.ledger.entries ≤ sale.row.points_earned
  not_voided : is_voided sale.voided_by ≡ false → IsUntouched void sale
  not_returned : has_return sale.returns ≡ false → IsUntouched return sale
  one_way : is_voided sale.voided_by ≡ true → has_return sale.returns ≡ false

by_mode : (P : Mode → Type 0) → P void → P return → (mode : Mode) → P mode
by_mode P v r void = v
by_mode P v r return = r

-- A ledger in which nothing was given back or taken for the sale.
kept-IsBounded :
    (sale : ReversedSale) (after : Ledger)
    → ((mode : Mode) → IsKept mode sale.row.id sale.ledger after)
    → IsBounded sale
    → IsBounded (record sale { ledger = after })
kept-IsBounded sale after kept b = record {
  restored = λ mode. let (r, _) = kept mode in rw r (b.restored mode);
  reversed = λ mode. let (_, v) = kept mode in rw v (b.reversed mode);
  not_voided = λ e. let (r, v) = kept void in rw (r, v) (b.not_voided e);
  not_returned = λ e. let (r, v) = kept return in rw (r, v) (b.not_returned e);
  one_way = b.one_way;
}

module _ (customer : Bool) (now key fingerprint : ℕ) (sale after : ReversedSale)
    (replayed : Bool) where
  first_void-IsBounded :
      first_void customer now key fingerprint sale ≡ ok (after, replayed)
      → IsBounded sale
      → IsBounded after
  unfolding first_void
  first_void-IsBounded h b =
      elim (Result-cases (compensate_sale customer now void sale.row sale.ledger)) [
        | inr (_, e) ↦ absurd (ground arith)
        | inl (ledger, e) ↦
            let same : record sale { voided_by = some (key, fingerprint); ledger = ledger }
                ≡ after =
              ground arith in
            let none_returned : has_return sale.returns ≡ false = ground arith in
            let (low_r, low_v) =
              compensate_sale-le customer now void sale.row sale.ledger ledger e (b.restored void)
                (b.reversed void) in
            let (r, v) =
              compensate_sale-IsKept return sale.row.id customer now void sale.row sale.ledger
                ledger e (ground arith) in
            rw (← same) (record {
              restored = by_mode _ low_r (rw r (b.restored return));
              reversed = by_mode _ low_v (rw v (b.reversed return));
              not_voided = λ still. absurd (ground (arith, still));
              not_returned = λ still. rw (r, v) (b.not_returned still);
              one_way = λ is. none_returned;
            })
      ]

  void_sale-IsBounded :
      void_sale customer now key fingerprint sale ≡ ok (after, replayed)
      → IsBounded sale
      → IsBounded after
  unfolding void_sale replay_void
  void_sale-IsBounded h b = elim (Option-cases sale.voided_by) [
    | inl e ↦ first_void-IsBounded (ground arith) b
    | inr (by, e) ↦ let same : sale ≡ after = ground arith in rw (← same) b
  ]

  first_return-IsBounded :
      (total : ℕ)
      → first_return customer now key fingerprint total sale ≡ ok (after, replayed)
      → IsBounded sale
      → IsBounded after
  unfolding first_return
  first_return-IsBounded total h b =
      let row = record sale.row { returned = sale.row.returned + total } in
      elim (Result-cases (compensate_sale customer now return row sale.ledger)) [
        | inr (_, e) ↦ absurd (ground arith)
        | inl (ledger, e) ↦
            let same : record sale {
              row = row;
              returns = (key, fingerprint) ∷ sale.returns;
              ledger = ledger;
            }
                ≡ after =
              ground arith in
            let none_voided : is_voided sale.voided_by ≡ false = ground arith in
            let (low_r, low_v) =
              compensate_sale-le customer now return row sale.ledger ledger e (b.restored return)
                (b.reversed return) in
            let (r, v) =
              compensate_sale-IsKept void sale.row.id customer now return row sale.ledger ledger e
                (ground arith) in
            rw (← same) (record {
              restored = by_mode _ (rw r (b.restored void)) low_r;
              reversed = by_mode _ (rw v (b.reversed void)) low_v;
              not_voided = λ still. rw (r, v) (b.not_voided still);
              not_returned = λ still. absurd (ground (arith, still));
              one_way = λ is. absurd (ground (arith, is, none_voided));
            })
      ]

  return_sale-IsBounded :
      (total : ℕ)
      → return_sale customer now key fingerprint total sale ≡ ok (after, replayed)
      → IsBounded sale
      → IsBounded after
  unfolding return_sale
  return_sale-IsBounded total h b = elim (Option-cases (find_return key sale.returns)) [
    | inl e ↦ first_return-IsBounded total (ground arith) b
    | inr (found, e) ↦ let same : sale ≡ after = ground arith in rw (← same) b
  ]

step-IsBounded :
    {sale after : ReversedSale} → ReversalStep sale after → IsBounded sale → IsBounded after
step-IsBounded (voided customer now key fingerprint sale after replayed h) b =
    void_sale-IsBounded customer now key fingerprint sale after replayed h b
step-IsBounded (returned customer now key fingerprint total sale after replayed h) b =
    return_sale-IsBounded customer now key fingerprint sale after replayed total h b
step-IsBounded (elsewhere customer now mode other sale after apart h) b =
    kept-IsBounded sale after
      (λ m.
        compensate_sale-IsKept m sale.row.id customer now mode other sale.ledger after h
          (rw apart (ground arith)))
      b
step-IsBounded (sold customer now rule input sale after h) b =
    kept-IsBounded sale after
      (λ m. apply_sale-IsKept m sale.row.id customer now rule input sale.ledger after h) b

run-IsBounded : {sale : ReversedSale} → ReversalRun sale → IsBounded sale
run-IsBounded (made row ledger (rv, vv) (rr, vr)) = record {
  restored = by_mode _ (omega (arith, rv)) (omega (arith, rr));
  reversed = by_mode _ (omega (arith, vv)) (omega (arith, vr));
  not_voided = λ e. (rv, vv);
  not_returned = λ e. (rr, vr);
  one_way = λ e. absurd (ground (arith, e));
}
run-IsBounded (continued run step) = step-IsBounded step (run-IsBounded run)

-- Whatever returns and voids of a sale are accepted, in any order and repeated or not, with sales and
-- reversals of other sales between them: all of them together give back no more points than the sale redeemed
-- and take no more than it earned, and a sale that was voided has no return.
pub run-le :
    {sale : ReversedSale}
    → ReversalRun sale
    → let entries = sale.ledger.entries in
      let id = sale.row.id in
      (restored_points void id entries + restored_points return id entries
        ≤ sale.row.points_redeemed)
      × (reversed_points void id entries + reversed_points return id entries
          ≤ sale.row.points_earned)
      × ((is_voided sale.voided_by && has_return sale.returns) ≡ false)
run-le {sale} run =
    let b = run-IsBounded run in
    elim (Bool-cases (is_voided sale.voided_by)) [
      | inl is ↦
          let (r, v) = b.not_returned (b.one_way is) in
          (
            omega (arith, r, b.restored void),
            omega (arith, v, b.reversed void),
            rw (is, b.one_way is) refl,
          )
      | inr still ↦
          let (r, v) = b.not_voided still in
          (omega (arith, r, b.restored return), omega (arith, v, b.reversed return), rw still refl)
    ]
