-- ===== src/Shared/Price.antt =====
-- price.vo.ts. An amount is a JavaScript number that is not negative, by its whole number of
-- 2 ^ -1074 (Shared.Double): sums, differences and products are rounded as JavaScript rounds them.
pub mod Laws
use shopping_cart.Prelude.{
  ℕ, zero, suc, Bool, true, false, not, ◌&&◌, ◌||◌, Option, none, some, List, [], ◌∷◌, map, ◌==◌,
  is_empty, leb, ltb, if◌then◌else◌, ℤ, pos, negsuc, Result, ok, err, argument_missing,
  argument_nan, argument_negative, currency_empty, currency_format, currency_mismatch, ◌>>=◌, ◌>>◌,
  throw_if,
}
use shopping_cart.Shared.Double.{infinity, plus, minus, times, is_nan_product}
use shopping_cart.Shared.Text.{Text, is_space, trim, is_upper, is_lower, upper}

-- What a caller may pass for the amount: a number, in the unit of the amounts, infinity among them;
-- or, from a decimal column, a text that is read as such a number.
pub data Input : Type 0 where
  missing nan : Input
  number text : ℤ → Input

pub record Price : Type 0 where
  pub amount : ℕ
  pub currency : Text

-- the regular expression /^[A-Z]{3}$/i
abbrev pub is_letter : ℕ → Bool
is_letter c = is_upper c || is_lower c

abbrev pub is_code : Text → Bool
is_code (a ∷ b ∷ c ∷ []) = is_letter a && is_letter b && is_letter c
is_code _ = false

-- `validate`, its checks on the amount, in their order; an accepted amount is given back
abbrev pub validate_amount : Input → Result ℕ
validate_amount missing = err argument_missing
validate_amount (number (negsuc n)) = err argument_negative
validate_amount (text (negsuc n)) = err argument_negative
validate_amount nan = err argument_nan
validate_amount (number (pos n)) = ok n
validate_amount (text (pos n)) = ok n

-- its checks on the currency, where `none` stands for null; the trimmed text is given back
pub validate_currency : Option Text → Result Text
unfolding trim
validate_currency none = err currency_empty
validate_currency (some c) = do
  throw_if (is_empty (trim c)) currency_empty
  throw_if (not (is_code (trim c))) currency_format
  ok (trim c)

unfoldable pub create : Input → Option Text → Result Price
unfolding validate_currency
create amount currency = do
  n ← validate_amount amount
  c ← validate_currency currency
  ok (record { amount = n; currency = map upper c })

abbrev pub usd : Text
usd = b'U' ∷ b'S' ∷ b'D' ∷ []

-- `create(amount)`, by the default `currency = 'USD'`
unfoldable pub create_default : Input → Result Price
unfolding create
create_default amount = create amount (some usd)

abbrev pub same_text : Text → Text → Bool
same_text [] [] = true
same_text (a ∷ s) (b ∷ t) = a == b && same_text s t
same_text _ _ = false

abbrev pub equals : Price → Option Price → Bool
equals p none = false
equals p (some q) = p.amount == q.amount && same_text p.currency q.currency

unfoldable pub add : Price → Price → Result Price
unfolding create
add p q = do
  throw_if (not (same_text p.currency q.currency)) currency_mismatch
  create (number (pos (plus p.amount q.amount))) (some p.currency)

-- `a - b`
unfoldable pub difference : ℕ → ℕ → Input
difference a b =
    if leb infinity a && leb infinity b
    then nan
    else if ltb a b
    then number (negsuc 0)
    else number (pos (minus a b))

unfoldable pub subtract : Price → Price → Result Price
unfolding create difference
subtract p q = do
  throw_if (not (same_text p.currency q.currency)) currency_mismatch
  create (difference p.amount q.amount) (some p.currency)

-- The factors that the program passes: whole numbers, or NaN.
pub data Factor : Type 0 where
  nan : Factor
  whole : ℤ → Factor

-- `a * f`; of a result below zero it matters only that it is
unfoldable pub scale : ℕ → ℤ → Input
scale a (pos n) = if is_nan_product a n then Input.nan else number (pos (times a n))
scale a (negsuc n) = if a == 0 then number (pos 0) else number (negsuc 0)

unfoldable pub multiply : Price → Factor → Result Price
unfolding create scale
multiply p Factor.nan = err argument_nan
multiply p (whole f) = create (scale p.amount f) (some p.currency)
