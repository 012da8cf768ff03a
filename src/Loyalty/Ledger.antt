-- ===== src/Loyalty/Ledger.antt =====
-- The entries of a customer and the allocations of debits to credits: src/loyalty/loyalty.repository.ts.
-- Time is a number, and `next_id` stands for `randomUUID`.
use uinventario_api.Base.{
  ℕ, ◌+◌, ◌-◌, Bool, true, false, not, ◌&&◌, Option, none, some, List, [], ◌∷◌, ◌++◌, ltb, leb,
  ◌==◌, if◌then◌else◌, Result, ok, err, ◌>>=◌,
}
use uinventario_api.Base.Int.{ℤ, pos, pos_part, neg_ℕ, ◌+ℤ◌, ◌-ℤ◌, ltb_ℤ}
use uinventario_api.Loyalty.{LoyaltyError, insufficient_balance}

pub data EntryType : Type 0 where
  redeem expire void_earn_reversal return_earn_reversal : EntryType
  earn void_redeem_restore return_redeem_restore : EntryType

-- A row of `loyalty_point_entries` of the customer.
pub record PointEntry : Type 0 where
  pub id : ℕ
  pub rule : ℕ
  pub sale : Option ℕ
  pub kind : EntryType
  pub points_delta : ℤ
  pub monetary_value : ℕ
  pub expires_at : Option ℕ

-- A row of `loyalty_point_allocations`.
pub record PointAllocation : Type 0 where
  pub debit : ℕ
  pub credit : ℕ
  pub points : ℕ

pub record Ledger : Type 0 where
  pub entries : List PointEntry
  pub allocations : List PointAllocation
  pub next_id : ℕ

-- `CreditRow`
pub record Credit : Type 0 where
  pub id : ℕ
  pub rule : ℕ
  pub expires_at : Option ℕ
  pub available : ℤ

-- `SUM(points_delta)`
unfoldable pub sum_deltas : List PointEntry → ℤ
sum_deltas [] = pos 0
sum_deltas (entry ∷ rest) = entry.points_delta +ℤ sum_deltas rest

abbrev pub balance : Ledger → ℤ
balance ledger = sum_deltas ledger.entries

-- `SUM(allocation.points)` of one credit.
unfoldable pub allocated_to : ℕ → List PointAllocation → ℕ
allocated_to credit [] = 0
allocated_to credit (a ∷ rest) =
    let sum = allocated_to credit rest in if a.credit == credit then a.points + sum else sum

abbrev pub credit_of : List PointAllocation → PointEntry → Credit
credit_of allocations entry = record {
  id = entry.id;
  rule = entry.rule;
  expires_at = entry.expires_at;
  available = entry.points_delta -ℤ pos (allocated_to entry.id allocations);
}

abbrev pub is_expired : ℕ → PointEntry → Bool
is_expired now entry = elim entry.expires_at [ none ↦ false | some at ↦ leb at now ]

-- `ORDER BY expires_at IS NULL, expires_at`, stable over the order of creation.
abbrev pub expires_before : Credit → Credit → Bool
expires_before a b = elim a.expires_at [
  | none ↦ (elim b.expires_at [ none ↦ true | some _ ↦ false ])
  | some x ↦ (elim b.expires_at [ none ↦ true | some y ↦ leb x y ])
]

unfoldable pub insert_by_expiry : Credit → List Credit → List Credit
insert_by_expiry credit [] = credit ∷ []
insert_by_expiry credit (c ∷ cs) =
    if expires_before credit c then credit ∷ c ∷ cs else c ∷ insert_by_expiry credit cs

unfoldable pub credits_where :
    (PointEntry → Bool) → (Credit → Bool) → List PointAllocation → List PointEntry → List Credit
credits_where holds having allocations [] = []
credits_where holds having allocations (entry ∷ rest) =
    let credits = credits_where holds having allocations rest in
    let credit = credit_of allocations entry in
    if holds entry && having credit then insert_by_expiry credit credits else credits

-- `availableCredits`
abbrev pub available_credits : ℕ → Ledger → List Credit
available_credits now ledger =
    credits_where (λ entry. ltb_ℤ (pos 0) entry.points_delta && not (is_expired now entry))
      (λ credit. ltb_ℤ (pos 0) credit.available) ledger.allocations ledger.entries

-- The query of `materializeExpirations`.
abbrev pub expired_credits : ℕ → Ledger → List Credit
expired_credits now ledger =
    credits_where (λ entry. ltb_ℤ (pos 0) entry.points_delta && is_expired now entry) (λ _. true)
      ledger.allocations ledger.entries

-- The credit that a debit names, whatever its state.
abbrev pub named_credit : ℕ → Ledger → List Credit
named_credit id ledger =
    credits_where (λ entry. entry.id == id) (λ _. true) ledger.allocations ledger.entries

-- The sum of `Math.max(0, available_points)`.
unfoldable pub available_points : List Credit → ℕ
available_points [] = 0
available_points (c ∷ cs) = pos_part c.available + available_points cs

-- The loop of `insertDebit`.
unfoldable pub allocate : ℕ → List Credit → ℕ → List PointAllocation
allocate debit [] remaining = []
allocate debit (c ∷ cs) remaining = elim (remaining == 0) [
  | true ↦ []
  | false ↦
      let allocated =
        if ltb remaining (pos_part c.available) then remaining else pos_part c.available in
      let rest = allocate debit cs (remaining - allocated) in
      if allocated == 0
      then rest
      else record { debit = debit; credit = c.id; points = allocated } ∷ rest
]

pub record Debit : Type 0 where
  pub rule : ℕ
  pub sale : Option ℕ
  pub kind : EntryType
  pub points : ℕ
  pub monetary_value : ℕ
  pub credit : Option ℕ

abbrev pub debited_credits : ℕ → Debit → Ledger → List Credit
debited_credits now input ledger = elim input.credit [
  | none ↦ available_credits now ledger
  | some id ↦ named_credit id ledger
]

unfoldable pub insert_debit : ℕ → Debit → Ledger → Result LoyaltyError Ledger
insert_debit now input ledger =
    if input.points == 0
    then ok ledger
    else (let credits = debited_credits now input ledger in
        let available = available_points credits in
        if ltb available input.points
        then err (insufficient_balance (pos available) input.points)
        else ok (record ledger {
          entries =
              ledger.entries
              ++ (record {
                id = ledger.next_id;
                rule = input.rule;
                sale = input.sale;
                kind = input.kind;
                points_delta = neg_ℕ input.points;
                monetary_value = input.monetary_value;
                expires_at = none;
              }
                  ∷ []);
          allocations = ledger.allocations ++ allocate ledger.next_id credits input.points;
          next_id = ledger.next_id + 1;
        }))

unfoldable pub insert_credit : ℕ → Option ℕ → EntryType → ℕ → ℕ → Option ℕ → Ledger → Ledger
insert_credit rule sale kind points monetary_value expires_at ledger =
    if points == 0 then ledger else record ledger {
      entries =
          ledger.entries
          ++ (record {
            id = ledger.next_id;
            rule = rule;
            sale = sale;
            kind = kind;
            points_delta = pos points;
            monetary_value = monetary_value;
            expires_at = expires_at;
          }
              ∷ []);
      next_id = ledger.next_id + 1;
    }

-- The debit for an expired credit.
abbrev pub expiration : Credit → Debit
expiration credit = record {
  rule = credit.rule;
  sale = none;
  kind = expire;
  points = pos_part credit.available;
  monetary_value = 0;
  credit = some credit.id;
}

-- The loop of `materializeExpirations`; `insert_debit` passes over a credit without points.
unfoldable pub expire_credits : ℕ → List Credit → Ledger → Result LoyaltyError Ledger
expire_credits now [] ledger = ok ledger
expire_credits now (c ∷ cs) ledger = do
  expired ← insert_debit now (expiration c) ledger
  expire_credits now cs expired

abbrev pub materialize_expirations : ℕ → Ledger → Result LoyaltyError Ledger
materialize_expirations now ledger = expire_credits now (expired_credits now ledger) ledger
