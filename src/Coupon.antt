-- ===== src/Coupon.antt =====
-- Coupons (server/src/core/domain/coupon): the code, the type and the reduction.
pub mod Codes
use shopping_cart.Prelude.{
  ℕ, ◌+◌, ◌-◌, ◌*◌, ◌≤◌, Bool, true, false, not, ◌&&◌, ◌||◌, Option, none, some, List, [], ◌∷◌,
  ◌++◌, length, is_empty, leb, ltb, ◌==◌, if◌then◌else◌, ℤ, pos, negsuc, Result, ok, err, ◌>>=◌,
  ◌>>◌, throw_if, coupon_empty, coupon_length, coupon_letters, coupon_type, reduction_not_positive,
  percentage_too_high, base_negative,
}
use shopping_cart.Shared.UniqueId.{UniqueId}
use shopping_cart.Shared.Text.{Text, trim, is_upper, upper}
use shopping_cart.Shared.Price.{same_text}

-- `toUpperCase` of one code unit. Besides the ASCII letters these are the units that become ASCII
-- letters, some of them several; any other stays outside of the letters that a code may have, and
-- is left as it is.
unfoldable pub upper_case : ℕ → Text
upper_case c =
    if c == 0xDF
    then b'S' ∷ b'S' ∷ []
    else if c == 0x131
    then b'I' ∷ []
    else if c == 0x17F
    then b'S' ∷ []
    else if c == 0xFB00
    then b'F' ∷ b'F' ∷ []
    else if c == 0xFB01
    then b'F' ∷ b'I' ∷ []
    else if c == 0xFB02
    then b'F' ∷ b'L' ∷ []
    else if c == 0xFB03
    then b'F' ∷ b'F' ∷ b'I' ∷ []
    else if c == 0xFB04
    then b'F' ∷ b'F' ∷ b'L' ∷ []
    else if c == 0xFB05
    then b'S' ∷ b'T' ∷ []
    else if c == 0xFB06
    then b'S' ∷ b'T' ∷ []
    else upper c ∷ []

unfoldable pub to_upper_case : Text → Text
unfolding upper_case
to_upper_case [] = []
to_upper_case (c ∷ s) = upper_case c ++ to_upper_case s

abbrev pub is_digit : ℕ → Bool
is_digit c = leb b'0' c && leb c b'9'

-- `/^[A-Z0-9]+$/`, of a text that is not empty
abbrev pub all_allowed : Text → Bool
all_allowed [] = true
all_allowed (c ∷ s) = (is_upper c || is_digit c) && all_allowed s

-- `CouponCode.validate`; a missing value is none
unfoldable pub validate_code : Option Text → Result Text
unfolding trim to_upper_case
validate_code none = err coupon_empty
validate_code (some value) = do
  throw_if (is_empty (trim value)) coupon_empty
  throw_if (not (length (trim value) == 8)) coupon_length
  throw_if (is_empty (to_upper_case (trim value)) || not (all_allowed (to_upper_case (trim value))))
      coupon_letters
  ok value

-- `CouponCode.create`
unfoldable pub create_code : Option Text → Result Text
unfolding validate_code to_upper_case trim
create_code value = do given ← validate_code value; ok (to_upper_case (trim given))

-- `CouponType`
pub data CouponType : Type 0 where
  percentage fixed : CouponType

abbrev pub percentage_text : Text
percentage_text = b'p' ∷ b'e' ∷ b'r' ∷ b'c' ∷ b'e' ∷ b'n' ∷ b't' ∷ b'a' ∷ b'g' ∷ b'e' ∷ []

abbrev pub fixed_text : Text
fixed_text = b'f' ∷ b'i' ∷ b'x' ∷ b'e' ∷ b'd' ∷ []

-- `CouponType.custom`
unfoldable pub custom : Text → Result CouponType
custom value =
    if same_text percentage_text value
    then ok percentage
    else if same_text fixed_text value
    then ok fixed
    else err coupon_type

pub record CouponReduction : Type 0 where
  pub type : CouponType
  pub amount : ℕ

abbrev pub is_percentage : CouponType → Bool
is_percentage percentage = true
is_percentage fixed = false

-- the constructor, `of`, `fixed` and `percentage`
unfoldable pub create_reduction : CouponType → ℤ → Result CouponReduction
create_reduction type (negsuc n) = err reduction_not_positive
create_reduction type (pos amount) = do
  throw_if (amount == 0) reduction_not_positive
  throw_if (is_percentage type && ltb 100 amount) percentage_too_high
  ok (record { type = type; amount = amount })

-- The price that is left, in hundredths of the unit, so that a percentage of it is whole.
unfoldable pub reduced : CouponType → ℕ → ℕ → ℕ
reduced fixed amount base = 100 * (base - amount)
reduced percentage amount base = 100 * base - amount * base

-- `applyTo`
unfoldable pub apply_to : CouponReduction → ℤ → Result ℕ
unfolding reduced
apply_to reduction (negsuc n) = err base_negative
apply_to reduction (pos base) = ok (reduced reduction.type reduction.amount base)

pub record Coupon : Type 0 where
  pub id : UniqueId
  pub coupon_code : Text
  pub coupon_type : CouponType
  pub reduction : CouponReduction
