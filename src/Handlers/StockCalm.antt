-- ===== src/Handlers/StockCalm.antt =====
-- What the job worker does where nothing of the outside world fails.
use shopping_cart.Prelude.{
  ℕ, ◌+◌, ◌≡◌, some, List, insert, ◌==◌, ok, err, arith, argument_negative, ◌<◌,
}
use shopping_cart.Event.{Event, ProductLine}
use shopping_cart.Cache.{Stock}
use shopping_cart.Inventory.{Inventory}
use shopping_cart.Store.{Db, Job, reserve_job, compensate_job, calm, find_row}
use shopping_cart.Handlers.Stock.{process_job}

abbrev pub with_inventory : Db → Inventory → Db
with_inventory db inventory = record db {
  inventories = insert inventory.id inventory db.inventories;
}

module _ (line : ProductLine) (db : Db) (stock : Stock) (jobs : List Job) (bus : List Event)
    (inventory : Inventory)
    (found : find_row (λ i. i.product_id == line.product_id) db.inventories ≡ some inventory) where
  -- A reservation job takes the line's quantity out of the product's inventory.
  pub process_job-reserve :
      (n : ℕ)
      → inventory.quantity ≡ n + line.quantity
      → process_job (reserve_job line) (calm db stock jobs bus)
        ≡ (ok tt, calm (with_inventory db (record inventory { quantity = n })) stock jobs bus)
  unfolding process_job
  process_job-reserve n enough = ground arith

  -- With less in the inventory the job fails, and nothing changes.
  pub process_job-short :
      inventory.quantity < line.quantity
      → process_job (reserve_job line) (calm db stock jobs bus)
        ≡ (err argument_negative, calm db stock jobs bus)
  unfolding process_job
  process_job-short short = ground arith

  -- A compensation job puts the line's quantity back.
  pub process_job-compensate : process_job (compensate_job line) (calm db stock jobs bus) ≡ (
    ok tt,
    calm
        (with_inventory db (record inventory { quantity = inventory.quantity + line.quantity }))
        stock
        jobs
        bus,
  )
  unfolding process_job
  process_job-compensate = ground arith
