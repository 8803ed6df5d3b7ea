-- ===== src/Parser/Numerals.antt =====
-- The numerals the parser writes and reads: `str` and `int` on the natural numbers.
use power_bridge.Base.{
  ℕ, zero, suc, ◌+◌, ◌-◌, ◌*◌, ◌/◌, ◌%◌, Bool, true, false, ◌&&◌, Option, none, some, [], ◌∷◌, ltb,
  leb, if◌then◌else◌,
}
use power_bridge.Parser.Syntax.{Text}

-- The decimal numeral of `n`, in front of `rest`; a number has at most `n` digits more than one.
unfoldable decimal_from : ℕ → ℕ → Text → Text
decimal_from zero n rest = rest
decimal_from (suc f) n rest = elim (ltb n 10) [
  | true ↦ (n % 10 + 48) ∷ rest
  | false ↦ decimal_from f (n / 10) ((n % 10 + 48) ∷ rest)
]

-- `str(n)`
unfoldable pub decimal : ℕ → Text
unfolding decimal_from
decimal n = decimal_from (suc n) n []

unfoldable pub is_digit : ℕ → Bool
is_digit c = leb b'0' c && leb c b'9'

abbrev all_digits : Text → Bool
all_digits [] = true
all_digits (c ∷ cs) = is_digit c && all_digits cs

-- `text.isdigit()`, on ASCII text.
unfoldable pub isdigit : Text → Bool
unfolding is_digit
isdigit [] = false
isdigit (c ∷ cs) = all_digits (c ∷ cs)

abbrev int_from : ℕ → Text → ℕ
int_from n [] = n
int_from n (c ∷ cs) = int_from (n * 10 + (c - 48)) cs

-- `int(text)` on ASCII digits, none for its ValueError; Python's also takes the digits of other
-- scripts.
unfoldable pub int : Text → Option ℕ
unfolding isdigit
int text = if isdigit text then some (int_from 0 text) else none
