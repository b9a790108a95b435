-- ===== src/Store/Repositories.antt =====
-- The operations of the repositories, of the queue and of Redis that the handlers call.
use shopping_cart.Prelude.{
  Bool, Option, none, some, [], ◌∷◌, ◌++◌, Dict, lookup, insert, ◌==◌, if◌then◌else◌, ℤ,
}
use shopping_cart.Shared.UniqueId.{UniqueId}
use shopping_cart.Shared.Quantity.{Quantity}
use shopping_cart.Cache
use shopping_cart.Order.{Order}
use shopping_cart.Payment.{Payment}
use shopping_cart.Saga.{Saga}
use shopping_cart.Inventory.{Inventory}
use shopping_cart.Store.State.{Job, stored_order, stored_payment}
use shopping_cart.Store.Monad.{Action, pure, gets, call, modify, ◌>>◌}

-- The first row that passes.
abbrev pub find_row {ℓ} : {V : Type ℓ} → (V → Bool) → Dict V → Option V
find_row test [] = none
find_row test ((k, v) ∷ rows) = if test v then some v else find_row test rows

-- OrderRepository
unfoldable pub find_order : UniqueId → Action (Option Order)
find_order id = do call; gets (λ w. lookup id w.db.orders)

unfoldable pub persist_order : Order → Action (Unit {0})
persist_order order = do
  call
  modify λ w. record w {
    db = record (w.db) { orders = insert order.id (stored_order order) w.db.orders };
  }

-- PaymentRepository
unfoldable pub find_payment : UniqueId → Action (Option Payment)
find_payment id = do call; gets (λ w. lookup id w.db.payments)

unfoldable pub find_payment_by_order : UniqueId → Action (Option Payment)
find_payment_by_order order_id = do
  call
  gets (λ w. find_row (λ payment. payment.order_id == order_id) w.db.payments)

unfoldable pub persist_payment : Payment → Action (Unit {0})
persist_payment payment = do
  call
  modify λ w. record w {
    db = record (w.db) { payments = insert payment.id (stored_payment payment) w.db.payments };
  }

-- SagaInstanceRepository; sagas are only looked for by their correlation id, the order's id
unfoldable pub find_saga : UniqueId → Action (Option Saga)
find_saga correlation_id = do
  call
  gets (λ w. find_row (λ saga. saga.correlation_id == correlation_id) w.db.sagas)

unfoldable pub persist_saga : Saga → Action (Unit {0})
persist_saga saga = do
  call
  modify λ w. record w { db = record (w.db) { sagas = insert saga.id saga w.db.sagas } }

-- InventoryRepository, by the product
unfoldable pub find_inventory : UniqueId → Action (Option Inventory)
find_inventory product_id = do
  call
  gets (λ w. find_row (λ inventory. inventory.product_id == product_id) w.db.inventories)

unfoldable pub persist_inventory : Inventory → Action (Unit {0})
persist_inventory inventory = do
  call
  modify λ w. record w {
    db = record (w.db) { inventories = insert inventory.id inventory w.db.inventories };
  }

-- BullQueueService.addJob
unfoldable pub add_job : Job → Action (Unit {0})
add_job job = do call; modify (λ w. record w { jobs = w.jobs ++ job ∷ [] })

-- RedisCacheService
unfoldable pub reserve_stock : UniqueId → Quantity → Action ℤ
unfolding Cache.reserve_inventory
reserve_stock key quantity = do
  call
  λ w.
      let (n, stock) = Cache.reserve_inventory key quantity w.stock in
      pure n (record w { stock = stock })

unfoldable pub compensate_stock : UniqueId → Quantity → Action (Unit {0})
unfolding Cache.compensate_inventory
compensate_stock key quantity = do
  call
  modify λ w. record w { stock = Cache.compensate_inventory key quantity w.stock }
