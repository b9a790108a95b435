-- ===== src/Tests/Coupons.antt =====
-- Coupons at concrete codes and reductions.
use shopping_cart.Prelude.{
  ℕ, ◌*◌, ◌<◌, ◌≡◌, refl, false, true, some, [], ◌∷◌, is_empty, pos, ok, arith,
}
use shopping_cart.Shared.Text.{Text, trim, is_space}
use shopping_cart.Coupon.{all_allowed, create_code, percentage, CouponReduction, apply_to}
use shopping_cart.Coupon
use shopping_cart.Coupon.Codes.{create_code-letters, create_code-nine, apply_to_bounds}

abbrev summer : Text
summer = b's' ∷ b'u' ∷ b'm' ∷ b'm' ∷ b'e' ∷ b'r' ∷ b'2' ∷ b'5' ∷ []

abbrev summer_code : Text
summer_code = b'S' ∷ b'U' ∷ b'M' ∷ b'M' ∷ b'E' ∷ b'R' ∷ b'2' ∷ b'5' ∷ []

create_code-letters_example : (all_allowed summer_code ≡ true) × (is_empty summer_code ≡ false)
unfolding create_code is_space
create_code-letters_example = create_code-letters (some summer) summer_code refl

abbrev seven : Text
seven = b'U' ∷ b'M' ∷ b'M' ∷ b'E' ∷ b'R' ∷ b'2' ∷ b'5' ∷ []

create_code-nine_example : create_code (some (0xDF ∷ seven)) ≡ ok (b'S' ∷ b'S' ∷ seven)
unfolding trim is_space
create_code-nine_example = create_code-nine seven refl refl refl

abbrev fifth : CouponReduction
fifth = record { type = percentage; amount = 20 }

apply_to_bounds_example : (left : ℕ) × (apply_to fifth (pos 50) ≡ ok left) × (left < 100 * 50)
unfolding Coupon.create_reduction
apply_to_bounds_example = apply_to_bounds percentage (pos 20) fifth 50 refl (omega arith)
