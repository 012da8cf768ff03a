-- ===== src/Stock/Rows.antt =====
-- A write to one row of the balances changes no other.
use uinventario_api.Base.{ℕ, ◌≡◌, refl, true, false, arith}
use uinventario_api.Stock.{Balance, Stock, balance_at, put_balance, is_key}

module _ (stock : Stock) (product location : ℕ) (balance : Balance) (p l : ℕ) where
  pub balance_at-put_same :
      is_key product location p l ≡ true
      → balance_at (put_balance stock product location balance) p l ≡ balance
  unfolding balance_at put_balance
  balance_at-put_same h = rw h refl

  pub balance_at-put_other :
      is_key product location p l ≡ false
      → balance_at (put_balance stock product location balance) p l ≡ balance_at stock p l
  unfolding balance_at put_balance
  balance_at-put_other h = rw h refl

pub is_key-same :
    (product location p l : ℕ) → is_key product location p l ≡ true → (product ≡ p) × (location ≡ l)
is_key-same product location p l h = ground arith
