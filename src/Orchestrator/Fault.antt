-- ===== src/Orchestrator/Fault.antt =====
-- A reservation whose job cannot be queued.
use shopping_cart.Prelude.{
  ℕ, ◌+◌, ◌≡◌, refl, ◌∙◌, ap, true, false, Option, some, List, [], ◌∷◌, ◌++◌, lookup, insert, ◌==◌,
  ok, err, arith, pos, outage, lookup-insert_self,
}
use shopping_cart.Shared.UniqueId.{UniqueId}
use shopping_cart.Event.{Event, ProductLine, inventory_reservation_failed}
use shopping_cart.Cache.{Stock, compensate_inventory}
use shopping_cart.Cache.Conservation.{reserve_fits, level}
use shopping_cart.Inventory.{Inventory}
use shopping_cart.Saga.{Saga, first_unreserved, get_next_line_to_reserve}
use shopping_cart.Store.{World, Db, Job, calm, find_row, reserve_stock}
use shopping_cart.Handlers.Stock.{
  release_product_reservation, reserve_inventory_v2, reserve_body, record_reservation,
  reserved_step,
}
use shopping_cart.Orchestrator.Reserve.{IsReady, with_line, with_sagas}
use shopping_cart.Orchestrator.Release.{release_product_reservation_lem, give_level}
use shopping_cart.Store.Tracking.{IsTracked, IsTracked-found, insert-IsTracked}

abbrev pub with_inventory : Db → Inventory → Db
with_inventory db inventory = record db {
  inventories = insert inventory.id inventory db.inventories;
}

-- The world in which the fourth call to the outside fails.
abbrev pub fourth_fails : World → World
fourth_fails w = record w { faults = false ∷ false ∷ false ∷ true ∷ [] }

record_reservation_fault :
    (id : UniqueId) (l : ProductLine) (now : ℕ) (db : Db) (stock : Stock) (jobs : List Job)
    (bus : List Event) (saga : Saga) (next : Option ProductLine)
    → IsReady id saga
    → find_row (λ s. s.correlation_id == id) db.sagas ≡ some saga
    → first_unreserved (saga.payload.reserved_order_lines ++ l ∷ []) saga.payload.order_lines
      ≡ ok next
    → let saga' = with_line saga l (reserved_step next) now in
      record_reservation id l now
        (record (calm db stock jobs bus) { faults = false ∷ false ∷ true ∷ [] })
      ≡ (err outage, calm (with_sagas db (insert saga'.id saga' db.sagas)) stock jobs bus)
unfolding record_reservation get_next_line_to_reserve
record_reservation_fault id l now db stock jobs bus saga next ready found search = ground arith

-- When the queue fails after the reservation was recorded, the handler gives the stock back, but
-- the saga keeps the line as reserved.
pub reserve_queue_fault :
    (id : UniqueId) (l : ProductLine) (now : ℕ) (db : Db) (stock : Stock) (jobs : List Job)
    (bus : List Event) (saga : Saga) (next : Option ProductLine) (n : ℕ)
    → lookup l.product_id stock ≡ some (pos (n + l.quantity))
    → IsReady id saga
    → find_row (λ s. s.correlation_id == id) db.sagas ≡ some saga
    → first_unreserved (saga.payload.reserved_order_lines ++ l ∷ []) saga.payload.order_lines
      ≡ ok next
    → let saga' = with_line saga l (reserved_step next) now in
      reserve_inventory_v2 id (some l) now (fourth_fails (calm db stock jobs bus)) ≡ (
        err outage,
        calm
            (with_sagas db (insert saga'.id saga' db.sagas))
            (compensate_inventory l.product_id l.quantity (insert l.product_id (pos n) stock))
            jobs
            (bus ++ inventory_reservation_failed id ∷ []),
      )
unfolding reserve_inventory_v2 reserve_body reserve_stock
reserve_queue_fault id l now db stock jobs bus saga next n fits ready found search = ground (
  arith,
  reserve_fits l.product_id l.quantity n stock fits,
  record_reservation_fault id l now db (insert l.product_id (pos n) stock) jobs bus saga next ready
      found search,
)

-- Where a line fits its stock level, its order's saga is tracked, can go on and has reserved
-- nothing, and the queue fails as the fourth call of the reservation, the reservation gives the
-- stock back at once, and the release that its event asks for gives it back a second time, since
-- the saga names the line: the level of the product ends above what it was, by the quantity of the
-- line.
pub queue_fault-release :
    (id : UniqueId) (l : ProductLine) (now : ℕ) (db : Db) (stock : Stock) (jobs : List Job)
    (saga : Saga) (next : Option ProductLine) (n : ℕ)
    → lookup l.product_id stock ≡ some (pos (n + l.quantity))
    → IsReady id saga
    → IsTracked id saga db.sagas
    → saga.payload.reserved_order_lines ≡ []
    → first_unreserved (l ∷ []) saga.payload.order_lines ≡ ok next
    → level l.product_id
        (release_product_reservation id now
          (reserve_inventory_v2 id (some l) now (fourth_fails (calm db stock jobs []))).1).1.stock
      ≡ pos (n + l.quantity + l.quantity)
queue_fault-release id l now db stock jobs saga next n fits ready tracked fresh search =
    let saga' = with_line saga l (reserved_step next) now in
    let db' = with_sagas db (insert saga'.id saga' db.sagas) in
    let lowered = insert l.product_id (pos n) stock in
    let kept : first_unreserved (saga.payload.reserved_order_lines ++ l ∷ [])
          saga.payload.order_lines
        ≡ ok next =
      rw fresh search in
    let first =
      reserve_queue_fault id l now db stock jobs [] saga next n fits ready
        (IsTracked-found id saga db.sagas ready.own tracked) kept in
    let named : saga'.payload.reserved_order_lines ≡ l ∷ [] = rw fresh refl in
    let second =
      release_product_reservation_lem id now saga' (l ∷ []) db'
        (compensate_inventory l.product_id l.quantity lowered) jobs
        (inventory_reservation_failed id ∷ [])
        (record { own = ready.own; type = ready.type; forward = ready.forward })
        (IsTracked-found id saga' db'.sagas ready.own
          (insert-IsTracked id saga saga' db.sagas refl tracked))
        named in
    let low : level l.product_id lowered ≡ pos n =
      rw (lookup-insert_self l.product_id (pos n) stock) refl in
    let twice = give_level l.product_id (l ∷ l ∷ []) n lowered low in
    ap (λ o. level l.product_id (release_product_reservation id now o.1).1.stock) first
    ∙ ap (λ o. level l.product_id o.1.stock) second
    ∙ ground (arith, twice)
