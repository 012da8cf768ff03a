-- ===== src/Text.antt =====
-- Strings as lists of character codes, with the JavaScript string and BigInt operations that the
-- decimal codecs of the source use (`split('.')`, `padEnd`, `padStart`, `String(n)`, `BigInt(s)`).
pub mod Digits
use uinventario_api.Base.{
  ℕ, zero, suc, ◌+◌, ◌-◌, ◌*◌, ◌/◌, ◌%◌, Bool, true, false, ◌&&◌, List, [], ◌∷◌, ◌++◌, ltb, leb,
  ◌==◌, if◌then◌else◌, length, replicate,
}

-- The character codes of a string.
abbrev pub Text : Type 0
Text = List ℕ

abbrev pub is_digit : ℕ → Bool
is_digit c = leb b'0' c && leb c b'9'

-- `BigInt(s)` of a string of digits; the empty string is 0.
unfoldable pub digits_from : ℕ → Text → ℕ
digits_from acc [] = acc
digits_from acc (c ∷ cs) = digits_from (acc * 10 + (c - b'0')) cs

unfoldable pub digits_value : Text → ℕ
digits_value = digits_from 0

-- `String(n)`, with fuel for the digits.
unfoldable pub show_fuel : ℕ → ℕ → Text
show_fuel zero n = []
show_fuel (suc f) n =
    let rest = show_fuel f (n / 10) in
    if ltb n 10 then (b'0' + n) ∷ [] else rest ++ ((b'0' + n % 10) ∷ [])

unfoldable pub show_ℕ : ℕ → Text
show_ℕ n = show_fuel (n + 1) n

-- `s.padEnd(n, '0')`
unfoldable pub pad_end : ℕ → Text → Text
pad_end n s = s ++ replicate (n - length s) b'0'

-- `s.padStart(n, '0')`
unfoldable pub pad_start : ℕ → Text → Text
pad_start n s = replicate (n - length s) b'0' ++ s

-- The first component of `s.split('.')`.
unfoldable pub before_dot : Text → Text
before_dot [] = []
before_dot (c ∷ cs) = if c == b'.' then [] else c ∷ before_dot cs

-- The second component of `s.split('.')`, with '' as its default.
unfoldable pub after_dot : Text → Text
after_dot [] = []
after_dot (c ∷ cs) = if c == b'.' then before_dot cs else after_dot cs

-- `s.startsWith('-')`
unfoldable pub starts_minus : Text → Bool
starts_minus [] = false
starts_minus (c ∷ cs) = c == b'-'

-- `negative ? s.slice(1) : s`
unfoldable pub drop_minus : Text → Text
drop_minus [] = []
drop_minus (c ∷ cs) = if c == b'-' then cs else c ∷ cs
