-- ===== src/Handlers/Stock.antt =====
-- The inventory handlers of the saga (server/src/core/application/inventory/command), and the
-- worker of the job queue (server/src/infrastructure/queue/processor/inventory.processor.ts).
use shopping_cart.Prelude.{
  ℕ, Option, none, some, List, map, if◌then◌else◌, pos, ltb_ℤ, saga_not_found, inventory_not_found,
  type_error, is_empty,
}
use shopping_cart.Shared.UniqueId.{UniqueId}
use shopping_cart.Shared.Quantity.{int}
use shopping_cart.Shared.Quantity
use shopping_cart.Event.{
  ProductLine, Event, product_reserved, inventory_reserved, inventory_reservation_failed,
  reservation_released, inventory_compensated,
}
use shopping_cart.Inventory
use shopping_cart.Saga.{Saga, Step}
use shopping_cart.Saga
use shopping_cart.Store.{
  Action, Job, reserve_job, compensate_job, pure, throw, lift, found_or_throw, ◌>>=◌, ◌>>◌, publish,
  find_saga, persist_saga, find_inventory, persist_inventory, add_job, reserve_stock,
  compensate_stock,
}
use shopping_cart.Handlers.Control.{try_catch, promise_all, for_each}

abbrev pub reserved_step : Option ProductLine → Step
reserved_step none = Step.inventory_reserved
reserved_step (some line) = Step.inventory_reserving

abbrev pub reserved_event : UniqueId → Option ProductLine → Event
reserved_event order_id none = inventory_reserved order_id
reserved_event order_id (some line) = product_reserved order_id line

-- ReservedInventoryForOrderV2Handler, after the stock has been taken
unfoldable pub record_reservation : UniqueId → ProductLine → ℕ → Action (Unit {0})
unfolding find_saga persist_saga add_job Saga.mark_line_as_reserve Saga.get_next_line_to_reserve
    Saga.advance_step
record_reservation order_id line now = do
  saga ← found_or_throw (← find_saga order_id) saga_not_found
  marked ← lift (Saga.mark_line_as_reserve line saga)
  next_line ← lift (Saga.get_next_line_to_reserve marked)
  saga' ← lift (Saga.advance_step (reserved_step next_line) none now marked)
  persist_saga saga'
  add_job (reserve_job line)
  publish (reserved_event order_id next_line)

-- the body of its `try`
unfoldable pub reserve_body : UniqueId → ProductLine → ℕ → Action (Unit {0})
unfolding reserve_stock record_reservation
reserve_body order_id line now = do
  new_stock_level ← reserve_stock line.product_id line.quantity
  if ltb_ℤ new_stock_level (pos 0)
      then publish (inventory_reservation_failed order_id)
      else record_reservation order_id line now

-- the whole handler; an order without lines gives it an undefined line
unfoldable pub reserve_inventory_v2 : UniqueId → Option ProductLine → ℕ → Action (Unit {0})
unfolding reserve_body compensate_stock
reserve_inventory_v2 order_id none now = throw type_error
reserve_inventory_v2 order_id (some line) now = try_catch (reserve_body order_id line now) λ error.
    do
      compensate_stock line.product_id line.quantity
      publish (inventory_reservation_failed order_id)
      throw error

-- the tasks that give the lines back to Redis
abbrev pub compensation_tasks : List ProductLine → List (Action (Unit {0}))
compensation_tasks lines = map (λ line. compensate_stock line.product_id line.quantity) lines

-- the rest of CompensateOrderInventoryHandler, once the stock is given back and the saga is found
unfoldable pub compensate_found : UniqueId → List ProductLine → ℕ → Saga → Action (Unit {0})
unfolding for_each persist_saga add_job Saga.advance_step
compensate_found order_id products now saga = do
  saga' ← lift (Saga.advance_step Step.inventory_compensated none now saga)
  persist_saga saga'
  for_each (λ line. add_job (compensate_job line)) products
  publish (inventory_compensated order_id)

-- CompensateOrderInventoryHandler
unfoldable pub compensate_order_inventory : UniqueId → List ProductLine → ℕ → Action (Unit {0})
unfolding promise_all find_saga compensate_stock compensate_found
compensate_order_inventory order_id products now = do
  promise_all (compensation_tasks products)
  saga ← found_or_throw (← find_saga order_id) saga_not_found
  compensate_found order_id products now saga

-- `if (reserved.length > 0) await Promise.all(...)`
unfoldable pub give_back : List ProductLine → Action (Unit {0})
unfolding promise_all compensate_stock
give_back reserved =
    if is_empty reserved then pure tt else promise_all (compensation_tasks reserved)

-- the rest of ReleaseProductReservationForOrderHandler, once the reserved lines are known
unfoldable pub release_lines : UniqueId → ℕ → Saga → List ProductLine → Action (Unit {0})
unfolding give_back for_each persist_saga add_job Saga.advance_step
release_lines order_id now saga reserved = do
  give_back reserved
  saga' ← lift (Saga.advance_step Step.inventory_compensated none now saga)
  persist_saga saga'
  for_each (λ line. add_job (compensate_job line)) reserved
  publish (reservation_released order_id)

-- ReleaseProductReservationForOrderHandler
unfoldable pub release_product_reservation : UniqueId → ℕ → Action (Unit {0})
unfolding find_saga Saga.get_successfully_reserved_order_lines release_lines
release_product_reservation order_id now = do
  saga ← found_or_throw (← find_saga order_id) saga_not_found
  reserved ← lift (Saga.get_successfully_reserved_order_lines saga)
  release_lines order_id now saga reserved

-- InventoryProcessor.process
unfoldable pub process_job : Job → Action (Unit {0})
unfolding find_inventory persist_inventory Inventory.remove_quantity Inventory.add_quantity
    Quantity.create
process_job (reserve_job line) = do
  inventory ← found_or_throw (← find_inventory line.product_id) inventory_not_found
  quantity ← lift (Quantity.create (int (pos line.quantity)))
  inventory' ← lift (Inventory.remove_quantity inventory quantity)
  persist_inventory inventory'
process_job (compensate_job line) = do
  inventory ← found_or_throw (← find_inventory line.product_id) inventory_not_found
  quantity ← lift (Quantity.create (int (pos line.quantity)))
  inventory' ← lift (Inventory.add_quantity inventory quantity)
  persist_inventory inventory'
