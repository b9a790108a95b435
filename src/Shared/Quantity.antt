-- ===== src/Shared/Quantity.antt =====
-- quantity.vo.ts. The value of a quantity has been validated: it is a whole number, not below 0.
-- Sums stay below 2^53, where a JavaScript number holds them exactly.
pub mod Laws
use shopping_cart.Prelude.{
  ℕ, zero, suc, ◌+◌, Bool, false, Option, none, some, ltb, ◌==◌, ℤ, pos, negsuc, sub_ℕ, Result, ok,
  err, argument_missing, argument_nan, argument_fractional, argument_negative, ◌>>=◌,
}

-- What a caller may pass for a number. A fraction or an infinity is refused whatever its value is.
pub data Input : Type 0 where
  missing nan fractional : Input
  int : ℤ → Input

-- `new Quantity(value)`, of a value that `validate` has passed
abbrev pub Quantity : Type 0
Quantity = ℕ

-- `validate`: the checks in their order; an accepted value is given back
pub validate : Input → Result Quantity
validate missing = err argument_missing
validate nan = err argument_nan
validate fractional = err argument_fractional
validate (int (negsuc n)) = err argument_negative
validate (int (pos n)) = ok n

unfoldable pub create : Input → Result Quantity
unfolding validate
create value = validate value

abbrev pub equals : Quantity → Option Quantity → Bool
equals a none = false
equals a (some b) = a == b

unfoldable pub add : Quantity → Quantity → Result Quantity
unfolding create
add a b = create (int (pos (a + b)))

unfoldable pub subtract : Quantity → Quantity → Result Quantity
unfolding create
subtract a b = create (int (sub_ℕ a b))

abbrev pub is_greater_than : Quantity → Quantity → Bool
is_greater_than a b = ltb b a

abbrev pub is_less_than : Quantity → Quantity → Bool
is_less_than a b = ltb a b

abbrev pub is_zero : Quantity → Bool
is_zero a = a == 0
