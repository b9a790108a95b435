-- ===== src/Coupon/Codes.antt =====
-- What a coupon's code and its reduction may be.
use native.Mathlib.Nat.{suc-mul}
use shopping_cart.Prelude.{
  subst, ℕ, suc, ◌-◌, ◌*◌, ◌<◌, ◌≡◌, refl, sym, true, false, Option, none, some, [], ◌∷◌, length,
  is_empty, ℤ, pos, negsuc, ok, arith,
}
use shopping_cart.Shared.Text.{Text, trim}
use shopping_cart.Coupon.{
  upper_case, to_upper_case, all_allowed, validate_code, create_code, CouponType, percentage, fixed,
  CouponReduction, create_reduction, reduced, apply_to,
}

-- Whatever text is given: a code that is accepted has capital letters and digits alone, and at
-- least one.
pub create_code-letters :
    (value : Option Text) (code : Text)
    → create_code value ≡ ok code
    → (all_allowed code ≡ true) × (is_empty code ≡ false)
unfolding create_code validate_code
create_code-letters none code h = absurd (ground arith)
create_code-letters (some value) code h = ground arith

reduced-lt : (type : CouponType) (a base : ℕ) → 0 < base → reduced type (suc a) base < 100 * base
unfolding reduced
reduced-lt fixed a base some' = omega arith
reduced-lt percentage a base some' = omega (arith, suc-mul a base)

amount_positive :
    (type : CouponType) (amount : ℤ) (reduction : CouponReduction)
    → create_reduction type amount ≡ ok reduction
    → reduction.amount ≡ suc (reduction.amount - 1)
unfolding create_reduction
amount_positive type (pos n) reduction h = ground arith
amount_positive type (negsuc n) reduction h = cc

-- A reduction that is accepted can be applied to any price, and leaves less than a price that is
-- not zero.
pub apply_to_bounds :
    (type : CouponType) (amount : ℤ) (reduction : CouponReduction) (base : ℕ)
    → create_reduction type amount ≡ ok reduction
    → 0 < base
    → (left : ℕ) × (apply_to reduction (pos base) ≡ ok left) × (left < 100 * base)
unfolding apply_to
apply_to_bounds type amount reduction base h some' = (
  reduced reduction.type reduction.amount base,
  refl,
  subst (λ (n : ℕ). reduced reduction.type n base < 100 * base)
      (sym (amount_positive type amount reduction h))
      (reduced-lt reduction.type (reduction.amount - 1) base some'),
)

upper-allowed : (s : Text) → all_allowed s ≡ true → to_upper_case s ≡ s
unfolding to_upper_case upper_case
upper-allowed [] h = refl
upper-allowed (c ∷ s) h = ground (arith, upper-allowed s)

-- A text of a small sharp s and seven capital letters or digits, with nothing to trim, is accepted
-- as a code, though the code that is made of it has nine letters.
pub create_code-nine :
    (s : Text)
    → length s ≡ 7
    → all_allowed s ≡ true
    → trim (0xDF ∷ s) ≡ 0xDF ∷ s
    → create_code (some (0xDF ∷ s)) ≡ ok (b'S' ∷ b'S' ∷ s)
unfolding create_code validate_code to_upper_case upper_case
create_code-nine s seven allowed trimmed = ground (arith, upper-allowed s)
