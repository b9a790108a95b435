-- ===== src/Cart.antt =====
-- The cart aggregate and its items (server/src/core/domain/cart). An operation returns the new
-- cart, or what it throws. The time and the fresh ids are arguments.
pub mod Items
pub mod View
pub mod Total
pub mod Persistence
pub mod Handlers
pub mod Keeping
pub mod Adding
use shopping_cart.Prelude.{
  ℕ, ◌+◌, ◌*◌, Bool, false, Option, none, some, List, [], ◌∷◌, ◌++◌, not, length, filter, find, any,
  ◌==◌, if◌then◌else◌, pos, Result, ok, err, product_not_in_cart, ◌>>=◌, ◌>>◌, throw_if, or_throw,
}
use shopping_cart.Shared.UniqueId.{UniqueId}
use shopping_cart.Shared.UniqueId
use shopping_cart.Shared.Quantity.{Quantity}
use shopping_cart.Shared.Quantity
use shopping_cart.Shared.Text.{Text}
use shopping_cart.Shared.Double.{plus}
use shopping_cart.Shared.Price.{Price, usd, number, scale}
use shopping_cart.Shared.Price

pub record CartItem : Type 0 where
  pub cart_item_id : UniqueId
  pub cart_id : UniqueId
  pub product_id : UniqueId
  pub quantity : Quantity
  pub price_at_addition : Price

pub record Cart : Type 0 where
  pub id : UniqueId
  pub cart_items : List CartItem
  pub customer_id : UniqueId
  pub created_at : ℕ
  pub updated_at : ℕ

-- `new CartItem(id, cartId, productId, quantity, price)`
abbrev pub new_item : Option UniqueId → UniqueId → UniqueId → Quantity → Price → UniqueId → CartItem
new_item id cart_id product_id quantity price fresh = record {
  cart_item_id = UniqueId.create id fresh;
  cart_id = cart_id;
  product_id = product_id;
  quantity = quantity;
  price_at_addition = price;
}

unfoldable pub increase_quantity : CartItem → Quantity → Result CartItem
unfolding Quantity.add
increase_quantity item amount = do
  total ← Quantity.add item.quantity amount
  ok (record item { quantity = total })

abbrev pub change_quantity : CartItem → Quantity → CartItem
change_quantity item quantity = record item { quantity = quantity }

unfoldable pub calculate_subtotal : CartItem → Result Price
unfolding Price.create scale
calculate_subtotal item =
    Price.create (scale item.price_at_addition.amount (pos item.quantity))
      (some item.price_at_addition.currency)

abbrev pub same_item : CartItem → Option CartItem → Bool
same_item item none = false
same_item item (some other) = UniqueId.equals item.product_id (some other.product_id)

-- `item.productId.equals(productId)`
abbrev pub holds : UniqueId → CartItem → Bool
holds product_id item = UniqueId.equals item.product_id (some product_id)

-- `CartAggregate.initializeCart`
unfoldable pub initialize_cart : UniqueId → UniqueId → ℕ → Cart
initialize_cart customer_id fresh now = record {
  id = UniqueId.create none fresh;
  cart_items = [];
  customer_id = customer_id;
  created_at = now;
  updated_at = now;
}

-- `this._cartItems[index].increaseQuantity(quantity)` at the first item of the product
unfoldable pub increase_first : UniqueId → Quantity → List CartItem → Result (List CartItem)
unfolding increase_quantity
increase_first product_id quantity [] = ok []
increase_first product_id quantity (item ∷ items) =
    if holds product_id item
    then (do item' ← increase_quantity item quantity; ok (item' ∷ items))
    else (do items' ← increase_first product_id quantity items; ok (item ∷ items'))

unfoldable pub add_cart_item : UniqueId → Quantity → Price → UniqueId → ℕ → Cart → Result Cart
unfolding increase_first
add_cart_item product_id quantity price fresh now cart =
    if any (holds product_id) cart.cart_items
    then (do
      items ← increase_first product_id quantity cart.cart_items
      ok (record cart { cart_items = items; updated_at = now }))
    else ok (record cart {
      cart_items = cart.cart_items ++ new_item none cart.id product_id quantity price fresh ∷ [];
      updated_at = now;
    })

unfoldable pub remove_cart_item : UniqueId → ℕ → Cart → Result Cart
remove_cart_item product_id now cart = do
  let kept = filter (λ item. not (holds product_id item)) cart.cart_items
  throw_if (length kept == length cart.cart_items) (product_not_in_cart product_id)
  ok (record cart { cart_items = kept; updated_at = now })

-- `cartItem.changeQuantity(newQuantity)` at the first item of the product
unfoldable pub change_first : UniqueId → Quantity → List CartItem → List CartItem
change_first product_id quantity [] = []
change_first product_id quantity (item ∷ items) =
    if holds product_id item
    then change_quantity item quantity ∷ items
    else item ∷ change_first product_id quantity items

unfoldable pub update_item_quantity : UniqueId → Quantity → ℕ → Cart → Result Cart
unfolding change_first
update_item_quantity product_id quantity now cart = do
  _ ← or_throw (find (holds product_id) cart.cart_items) (product_not_in_cart product_id)
  ok (record cart {
    cart_items = change_first product_id quantity cart.cart_items;
    updated_at = now;
  })

-- the `reduce` of `getTotalPrice`
unfoldable pub sum_subtotals : ℕ → List CartItem → Result ℕ
unfolding calculate_subtotal
sum_subtotals total [] = ok total
sum_subtotals total (item ∷ items) = do
  subtotal ← calculate_subtotal item
  sum_subtotals (plus total subtotal.amount) items

-- the currency of the first item
abbrev pub cart_currency : List CartItem → Text
cart_currency [] = usd
cart_currency (item ∷ items) = item.price_at_addition.currency

unfoldable pub get_total_price : Cart → Result Price
unfolding sum_subtotals Price.create
get_total_price cart = do
  total ← sum_subtotals 0 cart.cart_items
  Price.create (number (pos total)) (some (cart_currency cart.cart_items))
