-- ===== src/Orchestrator/Reserve.antt =====
-- The reservation of an order, line by line, where nothing of the outside world fails.
use shopping_cart.Prelude.{
  ℕ, suc, ◌+◌, ◌≤◌, ◌≡◌, false, Option, some, List, [], ◌∷◌, ◌++◌, ok, arith, ◌==◌, lookup, insert,
  Dict, pos,
}
use shopping_cart.Shared.UniqueId.{UniqueId}
use shopping_cart.Event.{Event, ProductLine, inventory_reservation_failed}
use shopping_cart.Cache.{Stock}
use shopping_cart.Cache.Conservation.{reserve_fits, reserve_short}
use shopping_cart.Saga.{Saga, Step, SagaType, first_unreserved, get_next_line_to_reserve}
use shopping_cart.Store.{Db, Job, reserve_job, calm, find_row, reserve_stock}
use shopping_cart.Handlers.Stock.{
  reserve_inventory_v2, reserve_body, record_reservation, reserved_event, reserved_step,
}

-- A saga of the order that can go on.
pub record IsReady (id : UniqueId) (saga : Saga) : Type 0 where
  pub own : saga.correlation_id ≡ id
  pub type : saga.saga_type ≡ SagaType.place_order
  pub forward : saga.is_compensating ≡ false

-- The saga after one more line was reserved.
abbrev pub with_line : Saga → ProductLine → Step → ℕ → Saga
with_line saga l step now = record saga {
  current_step = step;
  payload = record (saga.payload) {
    reserved_order_lines = saga.payload.reserved_order_lines ++ l ∷ [];
  };
  retries = 0;
  updated_at = now;
}

abbrev pub with_sagas : Db → Dict Saga → Db
with_sagas db sagas = record db { sagas = sagas }

record_reservation_lem :
    (id : UniqueId) (l : ProductLine) (now : ℕ) (db : Db) (stock : Stock) (jobs : List Job)
    (bus : List Event) (saga : Saga) (next : Option ProductLine)
    → IsReady id saga
    → find_row (λ s. s.correlation_id == id) db.sagas ≡ some saga
    → first_unreserved (saga.payload.reserved_order_lines ++ l ∷ []) saga.payload.order_lines
      ≡ ok next
    → let saga' = with_line saga l (reserved_step next) now in
      record_reservation id l now (calm db stock jobs bus) ≡ (
        ok tt,
        calm
            (with_sagas db (insert saga'.id saga' db.sagas))
            stock
            (jobs ++ reserve_job l ∷ [])
            (bus ++ reserved_event id next ∷ []),
      )
unfolding record_reservation get_next_line_to_reserve
record_reservation_lem id l now db stock jobs bus saga next ready found search = ground arith

module _ (id : UniqueId) (l : ProductLine) (now : ℕ) (db : Db) (stock : Stock) (jobs : List Job)
    (bus : List Event) (saga : Saga) where
  -- A line that fits is taken from the stock, recorded in the saga and queued for the database.
  pub reserve_line_fits :
      (n : ℕ) (next : Option ProductLine)
      → lookup l.product_id stock ≡ some (pos (n + l.quantity))
      → IsReady id saga
      → find_row (λ s. s.correlation_id == id) db.sagas ≡ some saga
      → first_unreserved (saga.payload.reserved_order_lines ++ l ∷ []) saga.payload.order_lines
        ≡ ok next
      → let saga' = with_line saga l (reserved_step next) now in
        reserve_inventory_v2 id (some l) now (calm db stock jobs bus) ≡ (
          ok tt,
          calm
              (with_sagas db (insert saga'.id saga' db.sagas))
              (insert l.product_id (pos n) stock)
              (jobs ++ reserve_job l ∷ [])
              (bus ++ reserved_event id next ∷ []),
        )
  unfolding reserve_inventory_v2 reserve_body reserve_stock
  reserve_line_fits n next fits ready found search = ground (
    arith,
    reserve_fits l.product_id l.quantity n stock fits,
    record_reservation_lem id l now db (insert l.product_id (pos n) stock) jobs bus saga next ready
        found search,
  )

  -- A line that does not fit changes nothing, and its failure is published.
  pub reserve_line_short :
      (n : ℕ)
      → lookup l.product_id stock ≡ some (pos n)
      → suc n ≤ l.quantity
      → reserve_inventory_v2 id (some l) now (calm db stock jobs bus)
        ≡ (ok tt, calm db stock jobs (bus ++ inventory_reservation_failed id ∷ []))
  unfolding reserve_inventory_v2 reserve_body reserve_stock
  reserve_line_short n there short =
      ground (arith, reserve_short l.product_id l.quantity n stock there short)
