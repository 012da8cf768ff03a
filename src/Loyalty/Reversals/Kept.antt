-- ===== src/Loyalty/Reversals/Kept.antt =====
-- What a sale, or the reversal of another sale or in the other way, leaves of the points restored and reversed.
use uinventario_api.Base.{
  ℕ, ◌-◌, ◌≡◌, refl, ◌∙◌, Bool, true, false, not, ◌&&◌, ◌||◌, inl, inr, ◌==◌, arith, ok, Bool-cases,
  Result-cases, Option-cases, Option, none, some,
}
use uinventario_api.Base.Int.{pos}
use uinventario_api.Loyalty.{Rule, Quote, quote}
use uinventario_api.Loyalty.Ledger.{
  EntryType, PointEntry, Ledger, insert_debit, insert_credit, materialize_expirations,
  expired_credits, balance, earn,
}
use uinventario_api.Loyalty.Sales.{
  Mode, void, return, is_restore, is_reversal, restore_type, reversal_type, is_source,
  restored_points, reversed_points, first_rule, is_redeem, is_earn, SaleRow, target, or_rule,
  reversal_debit, write_compensation, compensate_sale, SaleInput, redeem_debit, expiry, is_active,
  write_sale, apply_sale,
}
use uinventario_api.Loyalty.Compensation.{
  restored_points-append, reversed_points-append, debit-points, expirations-points,
}

abbrev pub is_void : Mode → Bool
is_void void = true
is_void return = false

abbrev pub is_mode : Mode → Mode → Bool
is_mode void m = is_void m
is_mode return m = not (is_void m)

module _ (mode : Mode) (sale : ℕ) where
  -- The points restored and reversed are those of before.
  abbrev pub IsKept : Ledger → Ledger → Type 0
  IsKept before after =
      (restored_points mode sale after.entries ≡ restored_points mode sale before.entries)
      × (reversed_points mode sale after.entries ≡ reversed_points mode sale before.entries)

  credit-IsKept :
      (rule other points value : ℕ) (kind : EntryType) (expires : Option ℕ) (ledger : Ledger)
      → (other == sale && is_restore mode kind) ≡ false
      → IsKept ledger (insert_credit rule (some other) kind points value expires ledger)
  unfolding insert_credit
  credit-IsKept rule other points value kind expires ledger h =
      let row : PointEntry = record {
        id = ledger.next_id;
        rule = rule;
        sale = some other;
        kind = kind;
        points_delta = pos points;
        monetary_value = value;
        expires_at = expires;
      } in
      let r = restored_points-append mode sale ledger.entries row in
      let v = reversed_points-append mode sale ledger.entries row in
      elim (Bool-cases (points == 0)) [
        | inl z ↦ rw (insert_credit, z) (refl, refl)
        | inr z ↦ rw (insert_credit, z) (r ∙ ground (arith, h), v ∙ ground arith)
      ]

  debit-IsKept :
      (now : ℕ) (other : SaleRow) (mode' : Mode) (rule points : ℕ) (ledger after : Ledger)
      → insert_debit now (reversal_debit mode' other rule points) ledger ≡ ok after
      → (other.id == sale && is_mode mode mode') ≡ false
      → IsKept ledger after
  debit-IsKept now other mode' rule points ledger after h apart =
      let (r, v) =
        debit-points mode sale now (reversal_debit mode' other rule points) ledger after h in
      let apart_kinds : (other.id == sale && is_reversal mode (reversal_type mode')) ≡ false =
        kinds mode mode' (other.id == sale) apart in
      (r, v ∙ ground (arith, apart_kinds))
    where
      kinds :
          (m m' : Mode) (own : Bool)
          → (own && is_mode m m') ≡ false
          → (own && is_reversal m (reversal_type m')) ≡ false
      kinds void void own h = h
      kinds void return own h = h
      kinds return void own h = h
      kinds return return own h = h

  restore_kinds :
      (m m' : Mode) (own : Bool)
      → (own && is_mode m m') ≡ false
      → (own && is_restore m (restore_type m')) ≡ false
  restore_kinds void void own h = h
  restore_kinds void return own h = h
  restore_kinds return void own h = h
  restore_kinds return return own h = h

  write_compensation-IsKept :
      (now : ℕ) (mode' : Mode) (other : SaleRow) (first : ℕ) (ledger after : Ledger)
      → write_compensation now mode' other first ledger ≡ ok after
      → (other.id == sale && is_mode mode mode') ≡ false
      → IsKept ledger after
  unfolding write_compensation
  write_compensation-IsKept now mode' other first ledger after h apart =
      let entries = ledger.entries in
      let restore =
        target mode' other other.points_redeemed - restored_points mode' other.id entries in
      let reverse =
        target mode' other other.points_earned - reversed_points mode' other.id entries in
      let rule = or_rule (first_rule is_redeem other.id entries) first in
      let earn_rule = or_rule (first_rule is_earn other.id entries) first in
      let credited =
        insert_credit rule (some other.id) (restore_type mode') restore 0 none ledger in
      let (r, v) =
        credit-IsKept rule other.id restore 0 (restore_type mode') none ledger
          (restore_kinds mode mode' (other.id == sale) apart) in
      let (rd, vd) = debit-IsKept now other mode' earn_rule reverse credited after h apart in
      (rd ∙ r, vd ∙ v)

  materialize-IsKept :
      (now : ℕ) (ledger after : Ledger)
      → materialize_expirations now ledger ≡ ok after
      → IsKept ledger after
  materialize-IsKept now ledger after h =
      expirations-points mode sale now (expired_credits now ledger) ledger after h

  pub compensate_sale-IsKept :
      (customer : Bool) (now : ℕ) (mode' : Mode) (other : SaleRow) (ledger after : Ledger)
      → compensate_sale customer now mode' other ledger ≡ ok after
      → (other.id == sale && is_mode mode mode') ≡ false
      → IsKept ledger after
  unfolding compensate_sale
  compensate_sale-IsKept customer now mode' other ledger after h apart =
      elim (Bool-cases
        (not other.customer || (other.points_redeemed == 0 && other.points_earned == 0))) [
          | inl e ↦ let same : ledger ≡ after = ground arith in rw (← same) (refl, refl)
          | inr e ↦ elim (Result-cases (materialize_expirations now ledger)) [
            | inr (_, f) ↦ absurd (ground arith)
            | inl (expired, f) ↦
                let (r, v) = materialize-IsKept now ledger expired f in
                elim (Option-cases (first_rule is_source other.id expired.entries)) [
                  | inl g ↦ let same : expired ≡ after = ground arith in rw (← same) (r, v)
                  | inr (first, g) ↦
                      let (rs, vs) =
                        write_compensation-IsKept now mode' other first expired after (ground arith)
                          apart in
                      (rs ∙ r, vs ∙ v)
                ]
          ]
        ]

  write_sale-IsKept :
      (now : ℕ) (input : SaleInput) (current : Quote) (ledger after : Ledger)
      → write_sale now input current ledger ≡ ok after
      → IsKept ledger after
  unfolding write_sale
  write_sale-IsKept now input current ledger after h =
      elim (Result-cases (insert_debit now (redeem_debit input current) ledger)) [
        | inr (_, e) ↦ absurd (ground arith)
        | inl (debited, e) ↦
            let (r, v) = debit-points mode sale now (redeem_debit input current) ledger debited e in
            let (rc, vc) =
              credit-IsKept current.rule.id input.sale current.points_earned input.total earn
                (expiry now current.rule) debited (ground arith) in
            let same : insert_credit current.rule.id (some input.sale) earn current.points_earned
                  input.total (expiry now current.rule) debited
                ≡ after =
              ground arith in
            rw (← same) (rc ∙ r, vc ∙ v ∙ ground arith)
      ]

  -- A sale gives back nothing.
  pub apply_sale-IsKept :
      (customer : Bool) (now : ℕ) (rule : Option Rule) (input : SaleInput) (ledger after : Ledger)
      → apply_sale customer now rule input ledger ≡ ok after
      → IsKept ledger after
  unfolding apply_sale
  apply_sale-IsKept customer now rule input ledger after h =
      elim (Result-cases (materialize_expirations now ledger)) [
        | inr (_, e) ↦ absurd (ground arith)
        | inl (expired, e) ↦
            let (r, v) = materialize-IsKept now ledger expired e in
            elim (Option-cases (is_active rule)) [
              | inl f ↦ absurd (ground arith)
              | inr (active, f) ↦
                  elim (Result-cases
                    (quote active (balance expired) input.total input.loyalty.points_redeemed)) [
                      | inr (_, g) ↦ absurd (ground arith)
                      | inl (current, g) ↦
                          let (rs, vs) =
                            write_sale-IsKept now input current expired after (ground arith) in
                          (rs ∙ r, vs ∙ v)
                    ]
            ]
      ]
