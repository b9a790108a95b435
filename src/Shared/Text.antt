-- ===== src/Shared/Text.antt =====
-- Strings as lists of UTF-16 code units, with what the value objects call on them.
use shopping_cart.Prelude.{
  ℕ, ◌-◌, ◌≡◌, arith, Bool, true, false, ◌&&◌, ◌||◌, List, [], ◌∷◌, leb, ◌==◌, is_empty,
  if◌then◌else◌,
}

abbrev pub Text : Type 0
Text = List ℕ

-- The white space and line terminators that `trim` removes.
unfoldable pub is_space : ℕ → Bool
is_space c =
    (leb 9 c && leb c 13)
    || c == 32
    || c == 0xA0
    || c == 0x1680
    || (leb 0x2000 c && leb c 0x200A)
    || c == 0x2028
    || c == 0x2029
    || c == 0x202F
    || c == 0x205F
    || c == 0x3000
    || c == 0xFEFF

abbrev pub trim_start : Text → Text
trim_start [] = []
trim_start (c ∷ s) = if is_space c then trim_start s else c ∷ s

abbrev pub trim_end : Text → Text
trim_end [] = []
trim_end (c ∷ s) = let rest = trim_end s in if is_space c && is_empty rest then [] else c ∷ rest

unfoldable pub trim : Text → Text
trim s = trim_end (trim_start s)

abbrev pub is_upper : ℕ → Bool
is_upper c = leb b'A' c && leb c b'Z'

abbrev pub is_lower : ℕ → Bool
is_lower c = leb b'a' c && leb c b'z'

-- `toUpperCase` of an ASCII letter
abbrev pub upper : ℕ → ℕ
upper c = if is_lower c then c - 32 else c

pub space_of_upper : (c : ℕ) → is_upper c ≡ true → is_space c ≡ false
unfolding is_space
space_of_upper c h = ground arith

pub upper_of_upper : (c : ℕ) → is_upper c ≡ true → upper c ≡ c
upper_of_upper c h = ground arith
