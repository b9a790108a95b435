-- ===== src/Handlers/Pricing.antt =====
-- How PlaceOrderHandler prices the selected products
-- (server/src/core/application/order/command/place-order/place-order.handler.ts).
pub mod Laws
use shopping_cart.Prelude.{
  ℕ, Option, none, some, List, [], ◌∷◌, Dict, ◌==◌, if◌then◌else◌, pos, Result, ok, err, ◌>>=◌,
}
use shopping_cart.Shared.UniqueId.{UniqueId}
use shopping_cart.Shared.Price.{Price, number}
use shopping_cart.Shared.Price
use shopping_cart.Event.{ProductLine}
use shopping_cart.Order.{SelectedProduct}

-- `products.findIndex(p => p.id.equals(productId))` with `products.splice(index, 1)`: the price of
-- the product, if it is among the products left, and the products then left
unfoldable pub take_price : UniqueId → Dict Price → Option Price × Dict Price
take_price id [] = (none, [])
take_price id ((k, price) ∷ products) =
    let (found, rest) = take_price id products in
    if k == id then (some price, products) else (found, (k, price) ∷ rest)

abbrev pub price_or_zero : Option Price → Result Price
unfolding Price.create_default
price_or_zero none = Price.create_default (number (pos 0))
price_or_zero (some price) = ok price

-- the `map` over the selected products
unfoldable pub price_lines : Dict Price → List ProductLine → Result (List SelectedProduct)
unfolding take_price Price.create_default
price_lines products [] = ok []
price_lines products (line ∷ lines) =
    let (found, rest) = take_price line.product_id products in
    do
      price ← price_or_zero found
      priced ← price_lines rest lines
      ok (
          record {
            product_id = line.product_id;
            quantity = line.quantity;
            price_at_time_of_order = price;
          }
          ∷ priced)
