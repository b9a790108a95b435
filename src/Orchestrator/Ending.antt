-- ===== src/Orchestrator/Ending.antt =====
-- The last events of a placement: a reservation that fails, and one that is complete.
use shopping_cart.Prelude.{
  ℕ, suc, ◌<◌, ◌≡◌, refl, ◌∙◌, ap, some, List, [], ◌∷◌, ◌++◌, map, ok, lookup, insert, pos,
}
use shopping_cart.Shared.UniqueId.{UniqueId}
use shopping_cart.Shared.Price.{Price}
use shopping_cart.Event.{
  Event, ProductLine, order_created, inventory_reserved, inventory_reservation_failed,
}
use shopping_cart.Cache.{Stock}
use shopping_cart.Order.{Order, pending, failed, awaiting_payment, get_total_price}
use shopping_cart.Order.Line.{OrderLine}
use shopping_cart.Payment.{Payment}
use shopping_cart.Payment
use shopping_cart.Saga.{Saga, Step, has_product}
use shopping_cart.Saga
use shopping_cart.Store.{Db, Job, compensate_job, calm, stored_order, stored_payment}
use shopping_cart.Store.Tracking.{IsTracked, IsTracked-found, insert-IsTracked}
use shopping_cart.Handlers.OrdersCalm.{mark_order_fail_lem, mark_order_awaiting_payment_lem}
use shopping_cart.Handlers.PaymentsCalm.{initiate_payment_lem}
use shopping_cart.Orchestrator.Lines.{first}
use shopping_cart.Orchestrator.Reserve.{IsReady, with_sagas, reserve_line_short}
use shopping_cart.Orchestrator.Lineup.{deliver_reserve}
use shopping_cart.Orchestrator.Release.{give_all, released_saga, release_product_reservation_lem}
use shopping_cart.Orchestrator.{
  reserve_inventory_v2, first_line, product_lines, react, dispatch, deliver, run,
}

abbrev pub failed_order : Order → ℕ → Order
failed_order order now = stored_order (record order { state = failed; updated_at = now })

first_line-product_lines : (lines : List OrderLine) → first_line lines ≡ first (product_lines lines)
first_line-product_lines [] = refl
first_line-product_lines (l ∷ ls) = refl

module _ (id : UniqueId) (now : ℕ) (db : Db) (stock : Stock) (jobs : List Job) (order : Order)
    (saga : Saga) (ls : List ProductLine) (found : lookup id db.orders ≡ some order)
    (own : order.id ≡ id) (st : order.state ≡ pending) (ready : IsReady id saga)
    (tracked : IsTracked id saga db.sagas) (reserved : saga.payload.reserved_order_lines ≡ ls) where
  -- The failure of a reservation, from its event to its end: three deliveries.
  pub fail_reservation :
      (fresh : ℕ → UniqueId)
      → let last =
          Saga.fail Saga.Reason.order_failed_reason Step.order_failed now
            (released_saga saga now) in
        run 2 fresh now (calm db stock jobs (inventory_reservation_failed id ∷ []))
        ≡ calm
            (record db {
              orders = insert order.id (failed_order order now) db.orders;
              sagas = insert saga.id last (insert saga.id (released_saga saga now) db.sagas);
            })
            (give_all ls stock)
            (jobs ++ map compensate_job ls)
            []
  unfolding run deliver dispatch react Saga.fail
  fail_reservation fresh =
      let saga' = released_saga saga now in
      let db' = with_sagas db (insert saga'.id saga' db.sagas) in
      ap (λ o. run 1 (λ i. fresh (suc i)) now o.1)
        (release_product_reservation_lem id now saga ls db stock jobs [] ready
          (IsTracked-found id saga db.sagas ready.own tracked) reserved)
      ∙ ap (λ o. o.1)
          (mark_order_fail_lem id now db' (give_all ls stock) (jobs ++ map compensate_job ls) []
            order saga' found
            (IsTracked-found id saga' db'.sagas ready.own
              (insert-IsTracked id saga saga' db.sagas refl tracked))
            st)

  -- The same from the event that asks for a line that does not fit.
  pub fail_line :
      (fresh : ℕ → UniqueId) (event : Event) (bad : ProductLine) (n : ℕ)
      → react event ≡ reserve_inventory_v2 id (some bad)
      → lookup bad.product_id stock ≡ some (pos n)
      → n < bad.quantity
      → let last =
          Saga.fail Saga.Reason.order_failed_reason Step.order_failed now
            (released_saga saga now) in
        run 3 fresh now (calm db stock jobs (event ∷ []))
        ≡ calm
            (record db {
              orders = insert order.id (failed_order order now) db.orders;
              sagas = insert saga.id last (insert saga.id (released_saga saga now) db.sagas);
            })
            (give_all ls stock)
            (jobs ++ map compensate_job ls)
            []
  unfolding run dispatch
  fail_line fresh event bad n reacts there short =
      ap (run 2 (λ i. fresh (suc i)) now) (
        deliver_reserve id bad event (fresh 0) now db stock jobs reacts
        ∙ ap (λ o. o.1) (reserve_line_short id bad now db stock jobs [] saga n there short))
      ∙ fail_reservation (λ i. fresh (suc i))

abbrev pub awaiting_order : Order → ℕ → Order
awaiting_order order now =
    stored_order (record order { state = awaiting_payment; updated_at = now })

-- The saga once the payment is made, and once the order awaits it.
abbrev pub with_payment_created : Saga → UniqueId → ℕ → Saga
with_payment_created saga payment_id now = record saga {
  current_step = Step.payment_created;
  payload = record (saga.payload) { payment_id = some payment_id };
  retries = 0;
  updated_at = now;
}

abbrev pub awaiting_saga : Saga → UniqueId → ℕ → Saga
awaiting_saga saga payment_id now = record (with_payment_created saga payment_id now) {
  current_step = Step.payment_processing;
  retries = 0;
  updated_at = now;
}

-- From the event that all is reserved: two deliveries.
pub open_payment :
    (id : UniqueId) (now : ℕ) (db : Db) (stock : Stock) (jobs : List Job) (order : Order)
    (saga : Saga) (price : Price)
    → lookup id db.orders ≡ some order
    → order.state ≡ pending
    → IsReady id saga
    → IsTracked id saga db.sagas
    → get_total_price order ≡ ok price
    → (fresh : ℕ → UniqueId)
    → run 2 fresh now (calm db stock jobs (inventory_reserved id ∷ []))
      ≡ calm
          (record db {
            orders = insert order.id (awaiting_order order now) db.orders;
            payments =
                insert (fresh 0) (stored_payment (Payment.create id price (fresh 0))) db.payments;
            sagas =
                insert saga.id
                  (awaiting_saga saga (fresh 0) now)
                  (insert saga.id (with_payment_created saga (fresh 0) now) db.sagas);
          })
          stock
          jobs
          []
unfolding run deliver dispatch react
open_payment id now db stock jobs order saga price found st ready tracked priced fresh =
    let saga' = with_payment_created saga (fresh 0) now in
    let db' = record (with_sagas db (insert saga'.id saga' db.sagas)) {
      payments = insert (fresh 0) (stored_payment (Payment.create id price (fresh 0))) db.payments;
    } in
    ap (λ o. run 1 (λ i. fresh (suc i)) now o.1)
      (initiate_payment_lem id (fresh 0) now db stock jobs [] order price saga found
        (IsTracked-found id saga db.sagas ready.own tracked) priced ready.forward)
    ∙ ap (λ o. o.1)
        (mark_order_awaiting_payment_lem id now db' stock jobs [] order saga' found
          (IsTracked-found id saga' db'.sagas ready.own
            (insert-IsTracked id saga saga' db.sagas refl tracked))
          st ready.forward)

pub reacts-first :
    (id customer : UniqueId) (lines : List OrderLine) (ls : List ProductLine) (l : ProductLine)
    (total : Price)
    → product_lines lines ≡ ls
    → first ls ≡ some l
    → react (order_created id customer lines total) ≡ reserve_inventory_v2 id (some l)
unfolding react
reacts-first id customer lines ls l total split h =
    ap (reserve_inventory_v2 id) (first_line-product_lines lines ∙ ap first split ∙ h)
