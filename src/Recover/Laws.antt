-- ===== src/Recover/Laws.antt =====
-- The recovery against the handlers: it asks for what the run that was interrupted would have asked
-- for.
use shopping_cart.Prelude.{
  ℕ, if◌then◌else◌, map, filter, List, [], ◌∷◌, lookup, insert, some, ap, ◌∙◌, ◌==◌, ◌⊎◌, inl, inr,
  ◌≡◌, refl, Option, ok,
}
use shopping_cart.Event.{Event, inventory_reserved}
use shopping_cart.Shared.UniqueId.{UniqueId}
use shopping_cart.Cache.{Stock}
use shopping_cart.Store.{
  Db, Job, calm, stored_order, find_row, find_order, find_payment_by_order, lift, pure, bind_ok,
  ◌>>=◌,
}
use shopping_cart.Handlers.Orders
use shopping_cart.Handlers.OrdersCalm.{saga_of, mark_order_as_complete_lem}
use shopping_cart.Handlers.Control.{for_each}
use shopping_cart.Order.{Order, awaiting_payment, completed}
use shopping_cart.Payment.{Payment}
use shopping_cart.Saga.{Saga, Step, place_order}
use shopping_cart.Saga
use shopping_cart.Orchestrator.{react, dispatch, mark_order_as_complete, initiate_payment}
use shopping_cart.Recover.{
  executes, is_place_order, publishes, nothing, resume, perform, resume_found, recover_saga,
  recover, find_active_sagas,
}

-- A saga whose inventory could not be reserved is resumed as if it had been: the event that is
-- published leads to the payment of the order, as after a reservation that succeeded.
pub resume-reserve_failed :
    (saga reserved : Saga) (order : Order) (payment : Option Payment)
    → saga.current_step ≡ Saga.inventory_reserve_failed
    → saga.payload.order_id ≡ order.id
    → reserved.current_step ≡ Saga.inventory_reserved
    → (event : Event) × (resume saga order payment ≡ ok (publishes event))
      × (resume reserved order payment ≡ ok (publishes event))
      × (react event ≡ initiate_payment order.id)
unfolding resume react
resume-reserve_failed saga reserved order payment failed own at =
    (inventory_reserved order.id, rw (failed, own) refl, rw at refl, refl)

-- A saga that stopped while lines were being reserved is not resumed, whatever its order and
-- payment.
pub resume-reserving :
    (saga : Saga) (order : Order) (payment : Option Payment)
    → saga.current_step ≡ Saga.inventory_reserving ⊎ saga.current_step ≡ Saga.payment_processing
    → resume saga order payment ≡ ok nothing
unfolding resume
resume-reserving saga order payment (inl at) = rw at refl
resume-reserving saga order payment (inr at) = rw at refl

module _ (id fresh : UniqueId) (now : ℕ) (db : Db) (stock : Stock) (jobs : List Job)
    (bus : List Event) (order : Order) (saga : Saga) (found : lookup id db.orders ≡ some order)
    (own : order.id ≡ id) (tracked : saga_of id db ≡ some saga)
    (asked : saga.payload.order_id ≡ id) where
  recover_saga-paid :
      saga.current_step ≡ Saga.payment_succeeded
      → order.state ≡ awaiting_payment
      → recover_saga fresh now saga (calm db stock jobs bus) ≡ (
        ok tt,
        calm
            (record db {
              orders =
                  insert order.id
                    (stored_order (record order { state = completed; updated_at = now }))
                    db.orders;
              sagas = insert saga.id (Saga.complete Step.order_completed now saga) db.sagas;
            })
            stock
            jobs
            bus,
      )
  unfolding recover_saga resume_found resume perform dispatch find_order find_payment_by_order
  recover_saga-paid at st =
      let done = mark_order_as_complete_lem id now db stock jobs bus order saga found tracked st in
      let payment = find_row (λ p. p.order_id == order.id) db.payments in
      let next : resume saga order payment ≡ ok (executes (mark_order_as_complete order.id)) =
        rw at refl in
      ap (λ o. resume_found saga o fresh now (calm db stock jobs bus))
        (ap (λ i. lookup i db.orders) asked ∙ found)
      ∙ ap (λ r. (lift r >>= λ x. perform x fresh now) (calm db stock jobs bus)) next
      ∙ ap (λ i. Orders.mark_order_as_complete i now (calm db stock jobs bus)) own
      ∙ done

  -- Recovery after a payment. Nothing of the outside world fails and no transaction is open; the
  -- table of sagas holds one saga, of an order that is stored and awaits its payment, and the saga
  -- says that the payment succeeded. Then the recovery at start-up stores the order as completed
  -- and the saga at its last step, and changes nothing else.
  pub recover_paid :
      saga.current_step ≡ Saga.payment_succeeded
      → order.state ≡ awaiting_payment
      → saga.saga_type ≡ place_order
      → db.sagas ≡ (saga.id, saga) ∷ []
      → recover fresh now (calm db stock jobs bus) ≡ (
        ok tt,
        calm
            (record db {
              orders =
                  insert order.id
                    (stored_order (record order { state = completed; updated_at = now }))
                    db.orders;
              sagas = insert saga.id (Saga.complete Step.order_completed now saga) db.sagas;
            })
            stock
            jobs
            bus,
      )
  unfolding recover find_active_sagas for_each
  recover_paid at st type alone =
      let w = calm db stock jobs bus in
      let picked : (ok (filter (λ s. is_place_order s.saga_type) (saga ∷ [])), w)
          ≡ (ok (saga ∷ []), w) =
        ap (λ t. (ok (if is_place_order t then saga ∷ [] else []), w)) type in
      let listed : find_active_sagas w ≡ (ok (saga ∷ []), w) =
        ap (λ rows. (ok (filter (λ s. is_place_order s.saga_type) (map (λ row. row.1) rows)), w))
          alone
        ∙ picked in
      bind_ok find_active_sagas (for_each (recover_saga fresh now)) {w = w} listed
      ∙ bind_ok (recover_saga fresh now saga) (λ _. pure tt) {w = w} (recover_saga-paid at st)
