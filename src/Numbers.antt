-- ===== src/Numbers.antt =====
-- `int(text)` and the sign of `float(text)`, as Python reads them. ASCII digits; no underscores.
pub mod Decimal
use pywings.Prelude.{
  ℕ, zero, suc, ◌+◌, ◌-◌, ◌*◌, ◌/◌, ◌%◌, Bool, true, false, not, ◌≡◌, refl, ◌++◌, ◌&&◌, ◌||◌,
  Option, none, some, List, [], ◌∷◌, ◌==◌, leb, Text, lit, is_empty, text_eq, lower, strip, split,
  if◌then◌else◌,
}

-- An integer, `minus n` is -(n + 1).
pub data Whole : Type 0 where
  plus minus : ℕ → Whole

abbrev pub is_negative : Whole → Bool
is_negative (plus n) = false
is_negative (minus n) = true

abbrev pub negate : ℕ → Whole
negate zero = plus zero
negate (suc n) = minus n

unfoldable pub is_digit : ℕ → Bool
is_digit c = leb b'0' c && leb c b'9'

-- The value of a run of digits, from the value of those read before.
unfoldable pub digits_value : ℕ → Text → Option ℕ
unfolding is_digit
digits_value n [] = some n
digits_value n (c ∷ s) =
    let rest = digits_value (n * 10 + (c - b'0')) s in if is_digit c then rest else none

unfoldable pub natural : Text → Option ℕ
unfolding digits_value
natural [] = none
natural (c ∷ s) = digits_value 0 (c ∷ s)

signed : Text → Option Whole
unfolding natural
signed [] = none
signed (c ∷ s) =
    if c == b'-'
    then elim (natural s) [ none ↦ none | some n ↦ some (negate n) ]
    else if c == b'+'
    then elim (natural s) [ none ↦ none | some n ↦ some (plus n) ]
    else elim (natural (c ∷ s)) [ none ↦ none | some n ↦ some (plus n) ]

-- int(text); `none` is the ValueError.
unfoldable pub int_text : Text → Option Whole
unfolding signed
int_text s = signed (strip s)

all_digits : Text → Bool
unfolding is_digit
all_digits [] = true
all_digits (c ∷ s) = is_digit c && all_digits s

some_nonzero : Text → Bool
some_nonzero [] = false
some_nonzero (c ∷ s) = leb b'1' c && leb c b'9' || some_nonzero s

drop_sign : Text → Text
drop_sign [] = []
drop_sign (c ∷ s) = if c == b'-' || c == b'+' then s else c ∷ s

has_minus : Text → Bool
has_minus [] = false
has_minus (c ∷ s) = c == b'-'

-- Digits with at most one point, and at least one digit.
is_mantissa : Text → List Text → Bool
unfolding all_digits
is_mantissa whole [] = all_digits whole && not (is_empty whole)
is_mantissa whole (frac ∷ []) = all_digits (whole ++ frac) && not (is_empty (whole ++ frac))
is_mantissa whole (frac ∷ more) = false

is_exponent : Text → Bool
unfolding all_digits drop_sign
is_exponent s = all_digits (drop_sign s) && not (is_empty (drop_sign s))

-- A mantissa, and an exponent behind an `e` if there is one.
is_decimal : Text → List Text → Bool
unfolding is_mantissa is_exponent split
is_decimal m [] = let (whole, more) = split b'.' m in is_mantissa whole more
is_decimal m (e ∷ []) = let (whole, more) = split b'.' m in is_mantissa whole more && is_exponent e
is_decimal m (e ∷ more) = false

-- float(text) < 0, of the text without white space in lower case; `none` is the ValueError.
float_sign : Text → Option Bool
unfolding is_decimal drop_sign has_minus some_nonzero text_eq
float_sign s =
    let body = drop_sign s in
    if text_eq body (lit "nan")
    then some false
    else if text_eq body (lit "inf") || text_eq body (lit "infinity")
    then some (has_minus s)
    else let (m, more) = split b'e' body in
      if is_decimal m more then some (has_minus s && some_nonzero m) else none

unfoldable pub float_is_negative : Text → Option Bool
unfolding float_sign strip lower
float_is_negative s = float_sign (lower (strip s))

float_examples :
    (float_is_negative (lit " -1.50e3 ") ≡ some true)
    × (float_is_negative (lit "-0.0") ≡ some false)
    × (float_is_negative (lit "NaN") ≡ some false)
    × (float_is_negative (lit ".") ≡ none)
unfolding float_is_negative
float_examples = (refl, refl, refl, refl)

int_examples :
    (int_text (lit " -12 ") ≡ some (minus 11))
    × (int_text (lit "+7") ≡ some (plus 7))
    × (int_text (lit "1.5") ≡ none)
unfolding int_text strip
int_examples = (refl, refl, refl)

-- The decimal digits of a number; a number has fewer digits than its size and one.
unfoldable pub decimal : ℕ → ℕ → Text
decimal zero n = []
decimal (suc fuel) n =
    let front = decimal fuel (n / 10) in
    if leb n 9 then (b'0' + n) ∷ [] else front ++ ((b'0' + n % 10) ∷ [])

-- str(n)
unfoldable pub whole_text : Whole → Text
unfolding decimal
whole_text (plus n) = decimal (suc n) n
whole_text (minus n) = b'-' ∷ decimal (suc (suc n)) (suc n)

-- n == 0
abbrev pub is_zero : Whole → Bool
is_zero (plus zero) = true
is_zero (plus (suc n)) = false
is_zero (minus n) = false

minus-text : whole_text (minus 8) ≡ lit "-9"
unfolding whole_text decimal
minus-text = refl

plus-text : whole_text (plus 137) ≡ lit "137"
unfolding whole_text decimal
plus-text = refl
