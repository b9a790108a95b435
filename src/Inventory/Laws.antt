-- ===== src/Inventory/Laws.antt =====
-- Stock is added and removed exactly, and never falls below 0.
use shopping_cart.Prelude.{
  ◌+◌, ◌-◌, ◌≡◌, refl, false, ok, err, argument_negative, arith, ltb, if◌then◌else◌,
}
use shopping_cart.Shared.Quantity.{Quantity}
use shopping_cart.Inventory.{Inventory, check_availability, add_quantity, remove_quantity}

-- Every removal either takes exactly the quantity, when that much is there, or throws the negative
-- quantity's InvalidArgumentException; InsufficientInventoryAvailableException is never thrown.
pub remove_quantity-cases :
    (inventory : Inventory) (q : Quantity)
    → remove_quantity inventory q ≡ (
        if ltb inventory.quantity q
        then err argument_negative
        else ok (record inventory { quantity = inventory.quantity - q }))
unfolding remove_quantity
remove_quantity-cases inventory q = ground arith

pub add_quantity-ok :
    (inventory : Inventory) (q : Quantity)
    → add_quantity inventory q ≡ ok (record inventory { quantity = inventory.quantity + q })
unfolding add_quantity
add_quantity-ok inventory q = refl

-- What was added can be removed, which gives the inventory back.
pub add-remove_quantity :
    (inventory : Inventory) (q : Quantity)
    → (stocked : Inventory) × (add_quantity inventory q ≡ ok stocked)
      × (remove_quantity stocked q ≡ ok inventory)
unfolding add_quantity remove_quantity
add-remove_quantity inventory q =
    (record inventory { quantity = inventory.quantity + q }, refl, ground arith)

-- `checkAvailability` never answers true: it answers false where there is enough, and throws where
-- there is not.
pub check_availability-cases :
    (inventory : Inventory) (q : Quantity)
    → check_availability inventory q
      ≡ (if ltb inventory.quantity q then err argument_negative else ok false)
unfolding check_availability
check_availability-cases inventory q = ground arith
