-- ===== src/Shared/Quantity/Laws.antt =====
-- Arithmetic on quantities: sums always exist, differences exactly when they are not negative.
use shopping_cart.Prelude.{◌+◌, ◌-◌, ◌≤◌, ◌<◌, ◌≡◌, ◌↔◌, refl, ok, err, argument_negative, arith}
use shopping_cart.Shared.Quantity.{Quantity, add, subtract}

-- A sum of quantities is never refused. A difference is the number that completes the subtrahend,
-- and it is refused as negative exactly when the subtrahend is larger.
pub add-subtract_quantity :
    (a b : Quantity)
    → (add a b ≡ ok (a + b))
      × (subtract (a + b) b ≡ ok a)
      × ((subtract a b ≡ err argument_negative) ↔ (a < b))
unfolding add subtract
add-subtract_quantity a b = (refl, ground arith, ((λ h. ground arith), (λ h. ground arith)))

pub subtract-of_le : (a b : Quantity) → b ≤ a → subtract a b ≡ ok (a - b)
unfolding subtract
subtract-of_le a b h = ground arith

pub subtract-of_lt : (a b : Quantity) → a < b → subtract a b ≡ err argument_negative
unfolding subtract
subtract-of_lt a b h = ground arith
