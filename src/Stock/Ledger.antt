-- ===== src/Stock/Ledger.antt =====
-- The balances are what the movements say, and their states add up.
use uinventario_api.Base.{
  ℕ, ◌+◌, ◌≡◌, refl, ap, ◌∙◌, if◌then◌else◌, none, List, [], ◌∷◌, Bool-cases, inl, inr,
}
use uinventario_api.Base.Int.{ℤ, pos, ◌+ℤ◌, +ℤ_comm}
use uinventario_api.Stock.{Balance, StockMovement, Books, balance_at, put_balance, is_key, post}
use uinventario_api.Stock.Rows.{balance_at-put_same, balance_at-put_other, is_key-same}

-- The sum of the changes for one product at one location.
unfoldable pub booked : ℕ → ℕ → List StockMovement → ℤ
booked product location [] = pos 0
booked product location (m ∷ rest) =
    let sum = booked product location rest in
    if is_key m.product m.location product location then m.change +ℤ sum else sum

abbrev pub states_total : Balance → ℕ
states_total b = b.available + b.reserved + b.damaged + b.in_transit

-- The quantity is the sum of the states and of the movements.
pub record IsConsistent (books : Books) : Type 0 where
  pub split :
      (p l : ℕ) → (balance_at books.stock p l).quantity ≡ states_total (balance_at books.stock p l)
  pub sums : (p l : ℕ) → pos (balance_at books.stock p l).quantity ≡ booked p l books.movements

-- What a write to one row has to be for the books to stay consistent.
pub record IsPosting (books : Books) (movement : StockMovement) (b : Balance) : Type 0 where
  pub split : b.quantity ≡ states_total b
  pub sums :
      pos b.quantity
      ≡ pos (balance_at books.stock movement.product movement.location).quantity +ℤ movement.change

module _ (books : Books) (movement : StockMovement) (b : Balance) where
  post-split :
      IsConsistent books
      → IsPosting books movement b
      → (p l : ℕ)
      → let after =
          balance_at (post books movement.product movement.location b movement).stock p l in
        after.quantity ≡ states_total after
  post-split h w p l = elim (Bool-cases (is_key movement.product movement.location p l)) [
    | inl same ↦
        rw (balance_at-put_same books.stock movement.product movement.location b p l same) w.split
    | inr other ↦
        rw (balance_at-put_other books.stock movement.product movement.location b p l other)
          (h.split p l)
  ]

  post-sums :
      IsConsistent books
      → IsPosting books movement b
      → (p l : ℕ)
      → let after = post books movement.product movement.location b movement in
        pos (balance_at after.stock p l).quantity ≡ booked p l after.movements
  unfolding booked
  post-sums h w p l = elim (Bool-cases (is_key movement.product movement.location p l)) [
    | inl same ↦
        let (ep, el) = is_key-same movement.product movement.location p l same in
        let written = rw (ep, el) at w.sums in
        rw (balance_at-put_same books.stock movement.product movement.location b p l same, same)
          (written
            ∙ ap (λ n. n +ℤ movement.change) (h.sums p l)
            ∙ +ℤ_comm (booked p l books.movements) movement.change)
    | inr other ↦
        rw (balance_at-put_other books.stock movement.product movement.location b p l other, other)
          (h.sums p l)
  ]

  pub post-IsConsistent :
      IsConsistent books
      → IsPosting books movement b
      → IsConsistent (post books movement.product movement.location b movement)
  post-IsConsistent h w = record { split = post-split h w; sums = post-sums h w }

-- Books whose movements book a change of one row are consistent with the row.
pub write-IsConsistent :
    (books : Books) (product location : ℕ) (b : Balance) (change : ℤ)
    (movements : List StockMovement)
    → b.quantity ≡ states_total b
    → pos b.quantity ≡ pos (balance_at books.stock product location).quantity +ℤ change
    → ((p l : ℕ)
        → booked p l movements ≡ (
            if is_key product location p l
            then change +ℤ booked p l books.movements
            else booked p l books.movements))
    → IsConsistent books
    → IsConsistent
        (record { stock = put_balance books.stock product location b; movements = movements })
write-IsConsistent books product location b change movements split sum log c = record {
  split = λ p l. elim (Bool-cases (is_key product location p l)) [
    | inl same ↦ rw (balance_at-put_same books.stock product location b p l same) split
    | inr other ↦ rw (balance_at-put_other books.stock product location b p l other) (c.split p l)
  ];
  sums = λ p l. elim (Bool-cases (is_key product location p l)) [
    | inl same ↦
        let (ep, el) = is_key-same product location p l same in
        let written = rw (ep, el) at sum in
        rw (balance_at-put_same books.stock product location b p l same, log p l, same)
          (written
            ∙ ap (λ n. n +ℤ change) (c.sums p l)
            ∙ +ℤ_comm (booked p l books.movements) change)
    | inr other ↦
        rw (balance_at-put_other books.stock product location b p l other, log p l, other)
          (c.sums p l)
  ];
}

abbrev pub no_books : Books
no_books = record { stock = λ _ _. none; movements = [] }

pub no_books-IsConsistent : IsConsistent no_books
unfolding balance_at booked
no_books-IsConsistent = record { split = λ p l. refl; sums = λ p l. refl }
