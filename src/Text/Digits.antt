-- ===== src/Text/Digits.antt =====
-- Printing and reading digits: the value of a printed number, its length and its characters.
use uinventario_api.Base.{
  ℕ, zero, suc, ◌+◌, ◌-◌, ◌*◌, ◌/◌, ◌%◌, ◌^◌, ◌≤◌, ◌<◌, ◌≡◌, refl, Bool, true, false, [], ◌∷◌, ◌++◌,
  arith, length, length-append, replicate, all, ◌&&◌, leb, ap,
}
use mathlib.Core.List.{append-nil}
use native.Mathlib.Nat.{pow-succ'}
use uinventario_api.Text.{
  Text, is_digit, digits_from, digits_value, show_fuel, show_ℕ, pad_start, before_dot, after_dot,
  pad_end,
}

pub digits_from-append :
    (acc : ℕ) (s t : Text) → digits_from acc (s ++ t) ≡ digits_from (digits_from acc s) t
unfolding digits_from
digits_from-append acc [] t = refl
digits_from-append acc (c ∷ s) t = digits_from-append (acc * 10 + (c - b'0')) s t

show_fuel-value : (f n : ℕ) → n < f → digits_from 0 (show_fuel f n) ≡ n
unfolding show_fuel digits_from
show_fuel-value zero n h = elim h [ ]
show_fuel-value (suc f) n h = ground (
  arith,
  digits_from-append 0 (show_fuel f (n / 10)) ((b'0' + n % 10) ∷ []),
  show_fuel-value f (n / 10),
)

pub show_value : (n : ℕ) → digits_value (show_ℕ n) ≡ n
unfolding show_ℕ digits_value
show_value n = show_fuel-value (n + 1) n (omega arith)

all-append :
    (s t : Text) → all is_digit s ≡ true → all is_digit t ≡ true → all is_digit (s ++ t) ≡ true
all-append [] t h k = k
all-append (c ∷ s) t h k = ground (arith, all-append s t)

show_fuel-digits : (f n : ℕ) → all is_digit (show_fuel f n) ≡ true
unfolding show_fuel
show_fuel-digits zero n = refl
show_fuel-digits (suc f) n =
    ground
      (arith, show_fuel-digits f (n / 10), all-append (show_fuel f (n / 10)) ((b'0' + n % 10) ∷ []))

pub show_digits : (n : ℕ) → all is_digit (show_ℕ n) ≡ true
unfolding show_ℕ
show_digits n = show_fuel-digits (n + 1) n

div_ten : (n m : ℕ) → n < 10 * m → n / 10 < m
div_ten n m h = omega arith

show_fuel-length : (f n k : ℕ) → n < 10 ^ suc k → length (show_fuel f n) ≤ suc k
unfolding show_fuel
show_fuel-length zero n k h = omega arith
show_fuel-length (suc f) n zero h = ground arith
show_fuel-length (suc f) n (suc k) h = ground (
  arith,
  length-append (show_fuel f (n / 10)) ((b'0' + n % 10) ∷ []),
  show_fuel-length f (n / 10) k (div_ten n (10 ^ suc k) (rw pow-succ' at h)),
)

pub show_length : (n k : ℕ) → n < 10 ^ suc k → length (show_ℕ n) ≤ suc k
unfolding show_ℕ
show_length n k h = show_fuel-length (n + 1) n k h

digits_from-zeros : (n : ℕ) (s : Text) → digits_from 0 (replicate n b'0' ++ s) ≡ digits_from 0 s
unfolding digits_from
digits_from-zeros zero s = refl
digits_from-zeros (suc n) s = digits_from-zeros n s

-- Padding at the left with zeros changes no value.
pub pad_start-value : (n : ℕ) (s : Text) → digits_value (pad_start n s) ≡ digits_value s
unfolding pad_start digits_value
pad_start-value n s = digits_from-zeros (n - length s) s

length-replicate : (n c : ℕ) → length (replicate n c) ≡ n
length-replicate zero c = refl
length-replicate (suc n) c = ap suc (length-replicate n c)

pub pad_start-length : (n : ℕ) (s : Text) → length s ≤ n → length (pad_start n s) ≡ n
unfolding pad_start
pad_start-length n s h =
    omega
      (arith, length-append (replicate (n - length s) b'0') s, length-replicate (n - length s) b'0')

zeros-digits : (n : ℕ) → all is_digit (replicate n b'0') ≡ true
zeros-digits zero = refl
zeros-digits (suc n) = zeros-digits n

pub pad_start-digits :
    (n : ℕ) (s : Text) → all is_digit s ≡ true → all is_digit (pad_start n s) ≡ true
unfolding pad_start
pad_start-digits n s h =
    all-append (replicate (n - length s) b'0') s (zeros-digits (n - length s)) h

-- A text that is long enough is not padded.
pub pad_end_full : (n : ℕ) (s : Text) → n ≤ length s → pad_end n s ≡ s
unfolding pad_end
pad_end_full n s h = let e : n - length s ≡ 0 = omega arith in rw (e, append-nil)

pub pad_end-digits : (n : ℕ) (s : Text) → all is_digit s ≡ true → all is_digit (pad_end n s) ≡ true
unfolding pad_end
pad_end-digits n s h = all-append s (replicate (n - length s) b'0') h (zeros-digits (n - length s))

pub pad_end-length : (n : ℕ) (s : Text) → length s ≤ n → length (pad_end n s) ≡ n
unfolding pad_end
pad_end-length n s h =
    omega
      (arith, length-append s (replicate (n - length s) b'0'), length-replicate (n - length s) b'0')

pub before_dot-append : (s t : Text) → all is_digit s ≡ true → before_dot (s ++ b'.' ∷ t) ≡ s
unfolding before_dot
before_dot-append [] t h = refl
before_dot-append (c ∷ s) t h = ground (arith, before_dot-append s t)

pub before_dot-digits : (s : Text) → all is_digit s ≡ true → before_dot s ≡ s
unfolding before_dot
before_dot-digits [] h = refl
before_dot-digits (c ∷ s) h = ground (arith, before_dot-digits s)

pub after_dot-append :
    (s t : Text) → all is_digit s ≡ true → all is_digit t ≡ true → after_dot (s ++ b'.' ∷ t) ≡ t
unfolding after_dot
after_dot-append [] t h k = before_dot-digits t k
after_dot-append (c ∷ s) t h k = ground (arith, after_dot-append s t)

-- The first character is from 1 to 9.
abbrev pub starts_nonzero : Text → Bool
starts_nonzero [] = false
starts_nonzero (c ∷ cs) = leb b'1' c && leb c b'9'

starts_nonzero-append : (s t : Text) → starts_nonzero s ≡ true → starts_nonzero (s ++ t) ≡ true
starts_nonzero-append [] t h = cc
starts_nonzero-append (c ∷ s) t h = h

show_fuel-starts : (f n : ℕ) → n < f → 0 < n → starts_nonzero (show_fuel f n) ≡ true
unfolding show_fuel
show_fuel-starts zero n h p = elim h [ ]
show_fuel-starts (suc f) n h p = ground (
  arith,
  show_fuel-starts f (n / 10),
  starts_nonzero-append (show_fuel f (n / 10)) ((b'0' + n % 10) ∷ []),
)

pub show_starts : (n : ℕ) → 0 < n → starts_nonzero (show_ℕ n) ≡ true
unfolding show_ℕ
show_starts n p = show_fuel-starts (n + 1) n (omega arith) p

pub show_zero : show_ℕ 0 ≡ b'0' ∷ []
unfolding show_ℕ show_fuel
show_zero = refl
