-- ===== src/Handlers/ReserveV1/One.antt =====
-- The first version of the reservation with one inventory, where nothing of the outside world
-- fails.
use shopping_cart.Prelude.{
  ℕ, ◌+◌, ◌-◌, ◌≤◌, ◌<◌, ◌≡◌, some, List, [], ◌∷◌, ◌++◌, map, lookup, insert, false, ok, err, arith,
  ◌==◌, argument_negative, ap, ◌∙◌, Result,
}
use shopping_cart.Shared.UniqueId.{UniqueId}
use shopping_cart.Shared.Quantity
use shopping_cart.Cache.{Stock}
use shopping_cart.Event.{Event, ProductLine, inventory_reserved, inventory_reservation_failed}
use shopping_cart.Inventory.{Inventory, remove_quantity}
use shopping_cart.Saga.{Saga, Step}
use shopping_cart.Store.{Db, Job, calm, World, find_row}
use shopping_cart.UnitOfWork.{execute}
use shopping_cart.Handlers.Versions.{rows_in}
use shopping_cart.Handlers.ReserveV1.{
  line_of_product, reserve_work, after_failure, reserve_inventory_v1,
}

module _ (id : UniqueId) (lines : List ProductLine) (line : ProductLine) (now : ℕ) (db : Db)
    (stock : Stock) (jobs : List Job) (bus : List Event) (saga : Saga) (inventory : Inventory)
    (found : find_row (λ s. s.correlation_id == id) db.sagas ≡ some saga)
    (forward : saga.is_compensating ≡ false)
    (only : rows_in (map (λ l. l.product_id) lines) db.inventories ≡ inventory ∷ [])
    (there : lookup inventory.id db.inventories ≡ some inventory)
    (ordered : line_of_product lines inventory.product_id ≡ some line) where
  taken :
      line.quantity ≤ inventory.quantity
      → remove_quantity inventory line.quantity
        ≡ ok (record inventory { quantity = inventory.quantity - line.quantity })
  unfolding remove_quantity Quantity.subtract
  taken enough = ground arith

  -- Where nothing of the outside world fails, the saga of the order is found and not compensating,
  -- and the products of the lines have one inventory, found by its id, that holds what its line
  -- wants: the handler takes it from the inventory under the next version, advances the saga, and
  -- publishes that the inventory is reserved.
  pub reserve_inventory_v1-one :
      line.quantity ≤ inventory.quantity
      → let saga' = record saga {
        current_step = Step.inventory_reserved;
        retries = 0;
        updated_at = now;
      } in
        let inventory' = record inventory {
          quantity = inventory.quantity - line.quantity;
          version = inventory.version + 1;
        } in
        reserve_inventory_v1 id lines now (calm db stock jobs bus) ≡ (
          ok tt,
          calm
              (record db {
                sagas = insert saga.id saga' db.sagas;
                inventories = insert inventory.id inventory' db.inventories;
              })
              stock
              jobs
              (bus ++ inventory_reserved id ∷ []),
        )
  unfolding reserve_inventory_v1
  reserve_inventory_v1-one enough = ground (arith, taken enough)

  refused :
      inventory.quantity < line.quantity
      → remove_quantity inventory line.quantity ≡ err argument_negative
  unfolding remove_quantity Quantity.subtract
  refused short = ground arith

  refused_work :
      inventory.quantity < line.quantity
      → execute (reserve_work id lines now) (calm db stock jobs bus)
        ≡ (err argument_negative, calm db stock jobs bus)
  unfolding execute reserve_work
  refused_work short = ground (arith, refused short)

  noted_failure : after_failure id now argument_negative (calm db stock jobs bus) ≡ (
    err argument_negative,
    calm
        (record db {
          sagas =
              insert saga.id
                (record saga {
                  current_step = Step.inventory_reserve_failed;
                  retries = 0;
                  updated_at = now;
                })
                db.sagas;
        })
        stock
        jobs
        (bus ++ inventory_reservation_failed id ∷ []),
  )
  unfolding after_failure
  noted_failure = ground arith

  -- In the same setting, an inventory that is less than what its line wants: the handler throws,
  -- the saga says that the reservation failed, and so does the event; nothing else changes.
  pub reserve_inventory_v1-short :
      inventory.quantity < line.quantity
      → let saga' = record saga {
        current_step = Step.inventory_reserve_failed;
        retries = 0;
        updated_at = now;
      } in
        reserve_inventory_v1 id lines now (calm db stock jobs bus) ≡ (
          err argument_negative,
          calm
              (record db { sagas = insert saga.id saga' db.sagas })
              stock
              jobs
              (bus ++ inventory_reservation_failed id ∷ []),
        )
  unfolding reserve_inventory_v1
  reserve_inventory_v1-short short =
      ap
        (λ o. elim o.0 as (λ r. Result (Unit {0}) × World) [
          | ok a ↦ (ok a, o.1)
          | err e ↦ after_failure id now e o.1
        ])
        (refused_work short)
      ∙ noted_failure
