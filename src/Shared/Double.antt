-- ===== src/Shared/Double.antt =====
-- Numbers that are not negative, as JavaScript keeps them: a finite double is a whole number of
-- 2 ^ -1074, and `infinity` stands behind the last of them.
pub mod Exact
use shopping_cart.Prelude.{
  ℕ, zero, suc, ◌+◌, ◌-◌, ◌*◌, ◌/◌, ◌%◌, Bool, true, false, ◌||◌, ◌&&◌, ltb, leb, ◌==◌,
  if◌then◌else◌,
}

-- 2 ^ n
abbrev pub power : ℕ → ℕ
power zero = 1
power (suc n) = 2 * power n

-- 2 ^ 53: a double has so many significant bits.
abbrev pub significand : ℕ
significand = 9007199254740992

-- The step between the doubles next to n: the first of step, 2 * step, ... of which n has less than
-- 2 ^ 53.
unfoldable pub step_from : ℕ → ℕ → ℕ → ℕ
step_from zero step n = step
step_from (suc fuel) step n = elim (ltb n (significand * step)) [
  | true ↦ step
  | false ↦ step_from fuel (2 * step) n
]

-- The exponents of doubles end at 2045 steps.
abbrev pub exponents : ℕ
exponents = 2045

unfoldable pub infinity : ℕ
infinity = significand * power exponents

-- The multiple of a step that is nearest to n, of two the even one
unfoldable pub nearest : ℕ → ℕ → ℕ
nearest step n =
    let q = n / step in
    let r = n % step in
    if ltb (2 * r) step || (2 * r == step && q % 2 == 0) then q * step else suc q * step

-- A sum or a product as a double
unfoldable pub round : ℕ → ℕ
unfolding step_from nearest
round n = if leb infinity n then infinity else nearest (step_from exponents 1 n) n

-- `a + b`
unfoldable pub plus : ℕ → ℕ → ℕ
unfolding round
plus a b = round (a + b)

-- `a * n` of a double and a whole number, where it is a number
unfoldable pub times : ℕ → ℕ → ℕ
unfolding round
times a n = round (a * n)

-- It is not for infinity and zero.
unfoldable pub is_nan_product : ℕ → ℕ → Bool
is_nan_product a n = leb infinity a && n == 0

-- `a - b`, where it is a number that is not negative
unfoldable pub minus : ℕ → ℕ → ℕ
unfolding round
minus a b = if leb infinity a then infinity else round (a - b)

-- 1, in the unit of doubles
abbrev pub exponent_of_one : ℕ
exponent_of_one = 1074

unfoldable pub one : ℕ
one = power exponent_of_one

-- The double nearest to n / d
unfoldable pub round_over : ℕ → ℕ → ℕ
unfolding step_from
round_over d n =
    let step = step_from exponents 1 (n / d) in
    let q = n / (step * d) in
    let r = n % (step * d) in
    let m = if ltb (2 * r) (step * d) || (2 * r == step * d && q % 2 == 0) then q else suc q in
    if leb infinity (m * step) then infinity else m * step

-- `a * b` and `a / b` of two doubles that are not zero
unfoldable pub product : ℕ → ℕ → ℕ
unfolding round_over one
product a b = round_over one (a * b)

unfoldable pub quotient : ℕ → ℕ → ℕ
unfolding round_over one
quotient a b = round_over b (a * one)
