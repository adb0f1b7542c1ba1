-- ===== src/Python/Number.antt =====
-- `int(text)`, `str(number)` and `str.isdigit`.
pub mod Laws
use mini_nginx.Common.{
  ℕ, zero, suc, ◌+◌, ◌-◌, ◌*◌, ◌/◌, ◌%◌, Bool, true, false, ◌&&◌, Option, none, some, [], ◌∷◌, ltb,
  leb, if◌then◌else◌, ◌==◌, nat_eq, ◌>>=◌, ℤ, pos, negsuc, minus,
}
use mini_nginx.Python.Text.{Text, Unicode, strip}

module _ ⦃u : Unicode⦄ where
  -- The value of a decimal digit.
  abbrev pub decimal : ℕ → Option ℕ
  decimal c =
      if leb b'0' c && leb c b'9'
      then some (c - b'0')
      else if ltb c 128
      then none
      else u.decimal_other c

  -- The value of the digits so far, how many they are, and whether the last character was one: an
  -- underscore stands only between two digits. Past 4300 digits `int` refuses.
  digits_from : ℕ → ℕ → Bool → Text → Option ℕ
  digits_from value n digit [] = if digit && leb n 4300 then some value else none
  digits_from value n digit (c ∷ s) = elim (decimal c) [
    | some d ↦ digits_from (value * 10 + d) (n + 1) true s
    | none ↦ if digit && c == b'_' then digits_from value n false s else none
  ]

  signed : Text → Option ℤ
  unfolding digits_from
  signed [] = none
  signed (c ∷ s) =
      if c == b'-'
      then (do n ← digits_from 0 0 false s; some (minus n))
      else if c == b'+'
      then (do n ← digits_from 0 0 false s; some (pos n))
      else (do n ← digits_from 0 0 false (c ∷ s); some (pos n))

  -- `int(text)`; `none` is the `ValueError`.
  unfoldable pub int : Text → Option ℤ
  unfolding signed strip
  int s = signed (strip s)

  abbrev pub is_digit_char : ℕ → Bool
  is_digit_char c = if ltb c 128 then leb b'0' c && leb c b'9' else u.is_digit_other c

  all_digits : Text → Bool
  all_digits [] = true
  all_digits (c ∷ s) = is_digit_char c && all_digits s

  -- `text.isdigit()`
  unfoldable pub is_digit : Text → Bool
  unfolding all_digits
  is_digit [] = false
  is_digit (c ∷ s) = all_digits (c ∷ s)

-- The digits of a number go before `rest`. Each round divides by ten, so `n` rounds are enough.
show_from : ℕ → ℕ → Text → Text
show_from zero n rest = (b'0' + n % 10) ∷ rest
show_from (suc fuel) n rest =
    let more = show_from fuel (n / 10) ((b'0' + n % 10) ∷ rest) in
    if ltb n 10 then (b'0' + n) ∷ rest else more

-- `str(n)`
unfoldable pub show_nat : ℕ → Text
unfolding show_from
show_nat n = show_from n n []

unfoldable pub show_int : ℤ → Text
unfolding show_nat
show_int (pos n) = show_nat n
show_int (negsuc n) = b'-' ∷ show_nat (n + 1)
