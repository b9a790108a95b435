-- ===== src/Order/Line.antt =====
-- An order line (server/src/core/domain/order/entity/order-line.entity.ts). The only description
-- that the program writes is the text of the product's id, so a description is that id.
use shopping_cart.Prelude.{ℕ, Option, none, some, Result, ok, ◌>>=◌, or_else}
use shopping_cart.Shared.UniqueId.{UniqueId}
use shopping_cart.Shared.UniqueId
use shopping_cart.Shared.Quantity.{Quantity}
use shopping_cart.Shared.Quantity
use shopping_cart.Shared.Price.{Price}
use shopping_cart.Shared.Price

pub record OrderLine : Type 0 where
  pub id : UniqueId
  pub order_id : UniqueId
  pub product_id : UniqueId
  pub quantity : Quantity
  pub description : Option UniqueId
  pub created_at : ℕ
  pub updated_at : ℕ
  pub price_at_time_of_order : Price

pub record OrderLineProps : Type 0 where
  pub id : UniqueId
  pub order_id : UniqueId
  pub product_id : UniqueId
  pub quantity : Quantity
  pub description : Option UniqueId
  pub created_at : Option ℕ
  pub updated_at : Option ℕ
  pub price_at_time_of_order : Price

-- the constructor, which is also `reconstitute`
unfoldable pub reconstitute : OrderLineProps → ℕ → OrderLine
reconstitute props now = record {
  id = props.id;
  order_id = props.order_id;
  product_id = props.product_id;
  quantity = props.quantity;
  description = props.description;
  created_at = or_else props.created_at now;
  updated_at = or_else props.updated_at now;
  price_at_time_of_order = props.price_at_time_of_order;
}

unfoldable pub create :
    UniqueId → UniqueId → UniqueId → Quantity.Input → Price.Input → UniqueId → ℕ → Result OrderLine
unfolding reconstitute Quantity.create Price.create_default
create order_id product_id description quantity price fresh now = do
  q ← Quantity.create quantity
  p ← Price.create_default price
  ok (
      reconstitute
        (record {
          id = UniqueId.create none fresh;
          order_id = order_id;
          product_id = product_id;
          quantity = q;
          description = some description;
          created_at = none;
          updated_at = none;
          price_at_time_of_order = p;
        })
        now)
