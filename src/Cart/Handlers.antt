-- ===== src/Cart/Handlers.antt =====
-- The cart handlers (server/src/core/application/cart/command).
use shopping_cart.Prelude.{ℕ, Option, none, some, lookup, product_not_found, cart_not_found}
use shopping_cart.Shared.UniqueId.{UniqueId}
use shopping_cart.Shared.Quantity.{Quantity}
use shopping_cart.Shared.Price.{Price}
use shopping_cart.Cart.{
  Cart, initialize_cart, add_cart_item, remove_cart_item, update_item_quantity,
}
use shopping_cart.Store.{Action, call, gets, lift, found_or_throw, ◌>>=◌, ◌>>◌}
use shopping_cart.Cart.Persistence.{find_cart, persist_cart}

-- ProductRepository.findById: the price of the product
unfoldable pub find_product : UniqueId → Action (Option Price)
find_product product_id = do call; gets (λ w. lookup product_id w.db.products)

abbrev pub cart_or_new : Option Cart → UniqueId → UniqueId → ℕ → Cart
cart_or_new (some cart) customer_id fresh now = cart
cart_or_new none customer_id fresh now = initialize_cart customer_id fresh now

-- AddItemToCartHandler
unfoldable pub add_item_to_cart :
    UniqueId → UniqueId → Quantity → UniqueId → UniqueId → ℕ → Action (Unit {0})
unfolding find_product find_cart persist_cart initialize_cart add_cart_item
add_item_to_cart customer_id product_id quantity fresh fresh_item now = do
  price ← found_or_throw (← find_product product_id) product_not_found
  found ← find_cart customer_id
  cart ← lift (
      add_cart_item product_id quantity price fresh_item now
        (cart_or_new found customer_id fresh now))
  persist_cart cart

-- RemoveItemFromCartHandler
unfoldable pub remove_item_from_cart : UniqueId → UniqueId → ℕ → Action (Unit {0})
unfolding find_cart persist_cart remove_cart_item
remove_item_from_cart customer_id product_id now = do
  cart ← found_or_throw (← find_cart customer_id) cart_not_found
  cart' ← lift (remove_cart_item product_id now cart)
  persist_cart cart'

-- UpdateItemQuantityHandler
unfoldable pub change_item_quantity : UniqueId → UniqueId → Quantity → ℕ → Action (Unit {0})
unfolding find_cart persist_cart update_item_quantity
change_item_quantity customer_id product_id quantity now = do
  cart ← found_or_throw (← find_cart customer_id) cart_not_found
  cart' ← lift (update_item_quantity product_id quantity now cart)
  persist_cart cart'
