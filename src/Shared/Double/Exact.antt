-- ===== src/Shared/Double/Exact.antt =====
-- Where sums and products of doubles are exact.
use native.Mathlib.Nat.{
  add-mul, mul-one, mul_assoc, mul_comm, mul-div_cancel, mul-mod_left, mul-lt-mul_of_pos_right,
  mul-le-mul_right, mul-le-mul_left,
}
use shopping_cart.Prelude.{
  ℕ, zero, suc, ◌+◌, ◌*◌, ◌<◌, ◌≤◌, ◌≡◌, sym, ap, subst, ◌∙◌, true, false, ltb, leb, Bool-cases,
  inl, inr, arith, ◌||◌, if◌then◌else◌, ◌%◌, ◌==◌, ◌&&◌,
}
use shopping_cart.Shared.Double.{
  power, significand, step_from, exponents, infinity, nearest, round, plus, times, is_nan_product,
}

-- n is some times d.
abbrev pub IsMultiple : ℕ → ℕ → Type 0
IsMultiple n d = (0 < d) × (c : ℕ) × (n ≡ c * d)

step_from_here :
    (fuel step n : ℕ) → ltb n (significand * step) ≡ true → step_from (suc fuel) step n ≡ step
unfolding step_from
step_from_here fuel step n h =
    ap (λ b. elim b [ true ↦ step | false ↦ step_from fuel (2 * step) n ]) h

step_from_next :
    (fuel step n : ℕ)
    → ltb n (significand * step) ≡ false
    → step_from (suc fuel) step n ≡ step_from fuel (2 * step) n
unfolding step_from
step_from_next fuel step n h =
    ap (λ b. elim b [ true ↦ step | false ↦ step_from fuel (2 * step) n ]) h

ltb_lem : (a b : ℕ) → a < b → ltb a b ≡ true
ltb_lem a b h = ground arith

lt_of_ltb : (a b : ℕ) → ltb a b ≡ true → a < b
lt_of_ltb a b h = ground arith

-- The step that is chosen for m * 2 ^ k steps, with m less than 2 ^ 53, divides them.
step_from-IsMultiple :
    (fuel k m step n : ℕ)
    → k ≤ fuel
    → m < significand
    → 0 < step
    → n ≡ m * (power k * step)
    → IsMultiple n (step_from fuel step n)
unfolding step_from
step_from-IsMultiple zero k m step n h few some' e =
    (some', m * power k, e ∙ sym (mul_assoc m (power k) step))
step_from-IsMultiple (suc fuel) zero m step n h few some' e =
    let e' : n ≡ m * step = e ∙ ap (λ x. m * x) (omega arith) in
    subst (IsMultiple n)
      (sym (
        step_from_here fuel step n (
          ltb_lem n (significand * step)
            (subst (λ x. x < significand * step) (sym e') (mul-lt-mul_of_pos_right few some')))))
      (some', m, e')
step_from-IsMultiple (suc fuel) (suc k) m step n h few some' e =
    elim (Bool-cases (ltb n (significand * step))) [
      | inl less ↦
          subst (IsMultiple n) (sym (step_from_here fuel step n less))
            (some', m * power (suc k), e ∙ sym (mul_assoc m (power (suc k)) step))
      | inr more ↦ subst (IsMultiple n) (sym (step_from_next fuel step n more)) (
          step_from-IsMultiple fuel k m (2 * step) n (omega arith) few (omega arith) (
            e
            ∙ ap (λ x. m * x)
                (ap (λ x. x * step) (mul_comm 2 (power k)) ∙ mul_assoc (power k) 2 step)))
    ]

-- There is fuel enough: below infinity, n has less than 2 ^ 53 of the step that is chosen.
step_from_covers :
    (fuel step n : ℕ)
    → n < significand * (power fuel * step)
    → n < significand * step_from fuel step n
unfolding step_from
step_from_covers zero step n h = subst (λ x. n < significand * x) (omega arith) h
step_from_covers (suc fuel) step n h = elim (Bool-cases (ltb n (significand * step))) [
  | inl less ↦
      subst (λ x. n < significand * x) (sym (step_from_here fuel step n less))
        (lt_of_ltb n (significand * step) less)
  | inr more ↦
      subst (λ x. n < significand * x) (sym (step_from_next fuel step n more))
        (step_from_covers fuel (2 * step) n (
          subst (λ x. n < significand * x)
            (ap (λ x. x * step) (mul_comm 2 (power fuel)) ∙ mul_assoc (power fuel) 2 step) h))
]

pub step_covers : (n : ℕ) → n < infinity → n < significand * step_from exponents 1 n
unfolding infinity
step_covers n h =
    step_from_covers exponents 1 n
      (subst (λ x. n < significand * x) (sym (mul-one (power exponents))) h)

nearest_multiple : (step c : ℕ) → 0 < step → nearest step (c * step) ≡ c * step
unfolding nearest
nearest_multiple step c some' =
    ap
      (λ q.
        if ltb (2 * (c * step % step)) step || (2 * (c * step % step) == step && q % 2 == 0)
        then q * step
        else suc q * step)
      (mul-div_cancel c some')
    ∙ ap (λ r. if ltb (2 * r) step || (2 * r == step && c % 2 == 0) then c * step else suc c * step)
        (mul-mod_left c step)
    ∙ ap (λ b. if b || (0 == step && c % 2 == 0) then c * step else suc c * step)
        (ltb_lem 0 step some')

power_pos : (k : ℕ) → 0 < power k
power_pos zero = omega arith
power_pos (suc k) = omega (arith, power_pos k)

power_mono : (j k : ℕ) → j ≤ k → power j ≤ power k
power_mono zero k h = omega (arith, power_pos k)
power_mono (suc j) zero h = absurd (omega arith)
power_mono (suc j) (suc k) h = omega (arith, power_mono j k (omega arith))

pub below_infinity : (e n : ℕ) → e ≤ exponents → n < significand * power e → leb infinity n ≡ false
unfolding infinity
below_infinity e n h less =
    let up : significand * power e ≤ significand * power exponents =
      mul-le-mul_left significand (power_mono e exponents h) in
    let under : n < significand * power exponents = omega (arith, less, up) in
    not_leb (significand * power exponents) n under
  where
    not_leb : (a b : ℕ) → b < a → leb a b ≡ false
    not_leb a b h = ground arith

le_of_ltb : (a b : ℕ) → ltb a b ≡ false → b ≤ a
le_of_ltb a b h = ground arith

pub few_times : (m u : ℕ) → m * u < significand * u → m < significand
few_times m u h = elim (Bool-cases (ltb m significand)) [
  | inl less ↦ lt_of_ltb m significand less
  | inr more ↦ absurd (omega (arith, h, mul-le-mul_right u (le_of_ltb m significand more)))
]

-- A whole number of a power of two, less than 2 ^ 53 of them, is a double.
pub round_exact :
    (e m n : ℕ) → e ≤ exponents → n ≡ m * power e → n < significand * power e → round n ≡ n
unfolding round
round_exact e m n h whole less =
    let few : m < significand =
      few_times m (power e) (subst (λ x. x < significand * power e) whole less) in
    let (some', c, times') =
      step_from-IsMultiple exponents e m 1 n h few (omega arith)
        (whole ∙ ap (λ x. m * x) (omega arith)) in
    ap (λ b. if b then infinity else nearest (step_from exponents 1 n) n)
      (below_infinity e n h less)
    ∙ ap (nearest (step_from exponents 1 n)) times'
    ∙ nearest_multiple (step_from exponents 1 n) c some'
    ∙ sym times'

-- n is a whole number of 2 ^ e units.
abbrev pub IsUnits : ℕ → ℕ → Type 0
IsUnits e n = (m : ℕ) × (n ≡ m * power e)

-- It is less than 2 ^ 53 of them.
abbrev pub IsBelow : ℕ → ℕ → Type 0
IsBelow e n = n < significand * power e

-- Whole numbers of 2 ^ e units with a sum below 2 ^ 53 of them are added exactly.
pub plus-IsUnits :
    (e a b : ℕ)
    → e ≤ exponents
    → IsUnits e a
    → IsUnits e b
    → IsBelow e (a + b)
    → IsUnits e (a + b) × (plus a b ≡ a + b)
unfolding plus
plus-IsUnits e a b h (m, ea) (n, eb) less =
    let sum : a + b ≡ (m + n) * power e =
      ap (λ x. x + b) ea ∙ ap (λ x. m * power e + x) eb ∙ sym (add-mul m n (power e)) in
    ((m + n, sum), round_exact e (m + n) (a + b) h sum less)

-- They are multiplied exactly where the product is below 2 ^ 53 of the units.
pub times-IsUnits :
    (e a q : ℕ)
    → e ≤ exponents
    → IsUnits e a
    → IsBelow e a
    → IsBelow e (a * q)
    → IsUnits e (a * q) × (times a q ≡ a * q) × (is_nan_product a q ≡ false)
unfolding times is_nan_product
times-IsUnits e a q h (m, ea) finite less =
    let product : a * q ≡ m * q * power e =
      ap (λ x. x * q) ea
      ∙ mul_assoc m (power e) q
      ∙ ap (λ x. m * x) (mul_comm (power e) q)
      ∙ sym (mul_assoc m q (power e)) in
    (
      (m * q, product),
      round_exact e (m * q) (a * q) h product less,
      ap (λ b. b && q == 0) (below_infinity e a h finite),
    )
