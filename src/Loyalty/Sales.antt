-- ===== src/Loyalty/Sales.antt =====
-- What a sale and its reversal do to the points: `preview`, `applySale` and `compensateSale` of
-- src/loyalty/loyalty.repository.ts.
use uinventario_api.Base.{
  ℕ, ◌+◌, ◌-◌, ◌*◌, Bool, true, false, not, ◌&&◌, ◌||◌, Option, none, some, List, [], ◌∷◌, ltb,
  ◌==◌, if◌then◌else◌, Result, ok, err, ◌>>=◌, ◌>>◌, throw_if,
}
use uinventario_api.Base.Int.{pos_part, neg_part}
use uinventario_api.Loyalty.{
  LoyaltyError, not_active, rule_changed, customer_not_available, Rule, Quote, quote, prorate,
}
use uinventario_api.Loyalty.Ledger.{
  EntryType, redeem, earn, void_earn_reversal, return_earn_reversal, void_redeem_restore,
  return_redeem_restore, PointEntry, Ledger, Debit, balance, insert_debit, insert_credit,
  materialize_expirations,
}

abbrev pub is_active : Option Rule → Option Rule
is_active none = none
is_active (some rule) = if rule.active then some rule else none

-- `preview`: the ledger with the expirations, and the quote, which is missing without an active rule.
unfoldable pub preview :
    Bool → ℕ → Option Rule → ℕ → ℕ → Ledger → Result LoyaltyError (Ledger × Option Quote)
preview customer now rule total points ledger = do
  throw_if (not customer) customer_not_available
  current ← materialize_expirations now ledger
  elim (is_active rule) [
    | none ↦ (if ltb 0 points then err not_active else ok (current, none))
    | some active ↦ (quote active (balance current) total points >>= λ q. ok (current, some q))
  ]

pub record SaleInput : Type 0 where
  pub sale : ℕ
  pub total : ℕ
  pub loyalty : Quote

abbrev pub redeem_debit : SaleInput → Quote → Debit
redeem_debit input current = record {
  rule = current.rule.id;
  sale = some input.sale;
  kind = redeem;
  points = current.points_redeemed;
  monetary_value = current.redemption_value;
  credit = none;
}

-- `Date.now() + rule.expirationDays * 86_400_000`; zero days are no expiration.
abbrev pub expiry : ℕ → Rule → Option ℕ
expiry now rule = elim rule.expiration_days [
  | none ↦ none
  | some days ↦ if days == 0 then none else some (now + days * 86400000)
]

-- The writes of `applySale`.
unfoldable pub write_sale : ℕ → SaleInput → Quote → Ledger → Result LoyaltyError Ledger
write_sale now input current ledger = do
  debited ← insert_debit now (redeem_debit input current) ledger
  ok (
      insert_credit current.rule.id (some input.sale) earn current.points_earned input.total
        (expiry now current.rule) debited)

-- `applySale`: the quote that the sale was made with must still hold.
unfoldable pub apply_sale : Bool → ℕ → Option Rule → SaleInput → Ledger → Result LoyaltyError Ledger
apply_sale customer now rule input ledger = do
  throw_if (not customer) customer_not_available
  expired ← materialize_expirations now ledger
  elim (is_active rule) [
    | none ↦ err rule_changed
    | some active ↦
        (if not (active.id == input.loyalty.rule.id)
          then err rule_changed
          else quote active (balance expired) input.total input.loyalty.points_redeemed
            >>= λ current.
                (if not (current.redemption_value == input.loyalty.redemption_value)
                    || not (current.points_earned == input.loyalty.points_earned)
                  then err rule_changed
                  else write_sale now input current expired))
  ]

pub data Mode : Type 0 where
  void return : Mode

abbrev pub is_restore : Mode → EntryType → Bool
is_restore void void_redeem_restore = true
is_restore return return_redeem_restore = true
is_restore _ _ = false

abbrev pub is_reversal : Mode → EntryType → Bool
is_reversal void void_earn_reversal = true
is_reversal return return_earn_reversal = true
is_reversal _ _ = false

abbrev pub restore_type : Mode → EntryType
restore_type void = void_redeem_restore
restore_type return = return_redeem_restore

abbrev pub reversal_type : Mode → EntryType
reversal_type void = void_earn_reversal
reversal_type return = return_earn_reversal

abbrev pub is_source : EntryType → Bool
is_source earn = true
is_source redeem = true
is_source _ = false

abbrev pub of_sale : ℕ → PointEntry → Bool
of_sale sale entry = elim entry.sale [ none ↦ false | some s ↦ s == sale ]

-- `restored` and `reversed`, the sums of the entries of one type for a sale.
unfoldable pub restored_points : Mode → ℕ → List PointEntry → ℕ
restored_points mode sale [] = 0
restored_points mode sale (e ∷ rest) =
    let sum = restored_points mode sale rest in
    if of_sale sale e && is_restore mode e.kind then pos_part e.points_delta + sum else sum

unfoldable pub reversed_points : Mode → ℕ → List PointEntry → ℕ
reversed_points mode sale [] = 0
reversed_points mode sale (e ∷ rest) =
    let sum = reversed_points mode sale rest in
    if of_sale sale e && is_reversal mode e.kind then neg_part e.points_delta + sum else sum

-- The rule of the sale's first entry of the type, or else of its first entry.
unfoldable pub first_rule : (EntryType → Bool) → ℕ → List PointEntry → Option ℕ
first_rule kind sale [] = none
first_rule kind sale (e ∷ rest) =
    let later = first_rule kind sale rest in
    if of_sale sale e && kind e.kind then some e.rule else later

abbrev pub is_redeem : EntryType → Bool
is_redeem redeem = true
is_redeem _ = false

abbrev pub is_earn : EntryType → Bool
is_earn earn = true
is_earn _ = false

-- The row of `sales`, with the total of its returns.
pub record SaleRow : Type 0 where
  pub id : ℕ
  pub customer : Bool
  pub total : ℕ
  pub points_redeemed : ℕ
  pub points_earned : ℕ
  pub returned : ℕ

abbrev pub target : Mode → SaleRow → ℕ → ℕ
target void sale points = points
target return sale points = prorate points sale.returned sale.total

abbrev pub or_rule : Option ℕ → ℕ → ℕ
or_rule none rule = rule
or_rule (some rule) _ = rule

abbrev pub reversal_debit : Mode → SaleRow → ℕ → ℕ → Debit
reversal_debit mode sale rule points = record {
  rule = rule;
  sale = some sale.id;
  kind = reversal_type mode;
  points = points;
  monetary_value = 0;
  credit = none;
}

-- The writes of `compensateSale`: a subtraction on ℕ is `Math.max(0, a - b)`.
unfoldable pub write_compensation : ℕ → Mode → SaleRow → ℕ → Ledger → Result LoyaltyError Ledger
write_compensation now mode sale first ledger =
    let entries = ledger.entries in
    let restore = target mode sale sale.points_redeemed - restored_points mode sale.id entries in
    let reverse = target mode sale sale.points_earned - reversed_points mode sale.id entries in
    let redeem_rule = or_rule (first_rule is_redeem sale.id entries) first in
    let earn_rule = or_rule (first_rule is_earn sale.id entries) first in
    insert_debit now (reversal_debit mode sale earn_rule reverse)
      (insert_credit redeem_rule (some sale.id) (restore_type mode) restore 0 none ledger)

unfoldable pub compensate_sale : Bool → ℕ → Mode → SaleRow → Ledger → Result LoyaltyError Ledger
compensate_sale customer now mode sale ledger =
    if not sale.customer || (sale.points_redeemed == 0 && sale.points_earned == 0)
    then ok ledger
    else (do
      throw_if (not customer) customer_not_available
      expired ← materialize_expirations now ledger
      elim (first_rule is_source sale.id expired.entries) [
        | none ↦ ok expired
        | some first ↦ write_compensation now mode sale first expired
      ])
