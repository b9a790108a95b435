-- ===== src/Event.antt =====
-- The events that the aggregates and the handlers publish (server/src/core/domain/*/event and
-- server/src/core/application/*/event).
use shopping_cart.Prelude.{Option, List}
use shopping_cart.Shared.UniqueId.{UniqueId}
use shopping_cart.Shared.Quantity.{Quantity}
use shopping_cart.Shared.Price.{Price}
use shopping_cart.Order.Line.{OrderLine}

-- A product with a quantity: what a reservation is about.
pub record ProductLine : Type 0 where
  pub product_id : UniqueId
  pub quantity : Quantity

pub data Event : Type 0 where
  order_created : (order_id customer_id : UniqueId) → List OrderLine → Price → Event
  order_canceled : (order_id : UniqueId) → List OrderLine → (payment_id : Option UniqueId) → Event
  payment_paid payment_failed : (payment_id order_id : UniqueId) → Event
  product_reserved : (order_id : UniqueId) → (next_order_line : ProductLine) → Event
  inventory_reserved inventory_reservation_failed : (order_id : UniqueId) → Event
  reservation_released inventory_compensated payment_initiated : (order_id : UniqueId) → Event
