-- ===== src/Handlers/OrdersCalm.antt =====
-- What the order handlers do where nothing of the outside world fails.
use shopping_cart.Prelude.{
  ℕ, [], ◌∷◌, ◌++◌, ◌≢◌, ◌⊎◌, inl, inr, ◌≡◌, Option, some, List, false, lookup, insert, ok, err,
  order_transition, arith, ◌==◌,
}
use shopping_cart.Shared.UniqueId.{UniqueId}
use shopping_cart.Event.{Event, order_canceled}
use mathlib.Core.Option
use shopping_cart.Cache.{Stock}
use shopping_cart.Order.{Order, pending, awaiting_payment, completed, canceled, failed}
use shopping_cart.Saga.{Saga, Step, Reason}
use shopping_cart.Saga
use shopping_cart.Store.{Db, Job, calm, stored_order, find_row}
use shopping_cart.Handlers.Orders.{
  mark_order_awaiting_payment, mark_order_as_complete, mark_order_fail, cancel_order,
}

abbrev pub saga_of : UniqueId → Db → Option Saga
saga_of id db = find_row (λ saga. saga.correlation_id == id) db.sagas

module _ (id : UniqueId) (now : ℕ) (db : Db) (stock : Stock) (jobs : List Job) (bus : List Event)
    (order : Order) (saga : Saga) (found : lookup id db.orders ≡ some order)
    (tracked : saga_of id db ≡ some saga) where
  pub mark_order_awaiting_payment_lem :
      order.state ≡ pending
      → saga.is_compensating ≡ false
      → mark_order_awaiting_payment id now (calm db stock jobs bus) ≡ (
        ok tt,
        calm
            (record db {
              orders =
                  insert order.id
                    (stored_order (record order { state = awaiting_payment; updated_at = now }))
                    db.orders;
              sagas =
                  insert saga.id
                    (record saga {
                      current_step = Step.payment_processing;
                      retries = 0;
                      updated_at = now;
                    })
                    db.sagas;
            })
            stock
            jobs
            bus,
      )
  unfolding mark_order_awaiting_payment
  mark_order_awaiting_payment_lem st forward = ground arith

  pub mark_order_fail_lem :
      order.state ≡ pending
      → mark_order_fail id now (calm db stock jobs bus) ≡ (
        ok tt,
        calm
            (record db {
              orders =
                  insert order.id
                    (stored_order (record order { state = failed; updated_at = now }))
                    db.orders;
              sagas =
                  insert saga.id
                    (Saga.fail Reason.order_failed_reason Step.order_failed now saga)
                    db.sagas;
            })
            stock
            jobs
            bus,
      )
  unfolding mark_order_fail
  mark_order_fail_lem st = ground arith

  -- Where nothing of the outside world fails and the order and its saga are found, completing an
  -- order that awaits its payment stores the order as completed and the saga at its last step, and
  -- changes nothing else.
  pub mark_order_as_complete_lem :
      order.state ≡ awaiting_payment
      → mark_order_as_complete id now (calm db stock jobs bus) ≡ (
        ok tt,
        calm
            (record db {
              orders =
                  insert order.id
                    (stored_order (record order { state = completed; updated_at = now }))
                    db.orders;
              sagas = insert saga.id (Saga.complete Step.order_completed now saga) db.sagas;
            })
            stock
            jobs
            bus,
      )
  unfolding mark_order_as_complete
  mark_order_as_complete_lem st = ground arith

  -- An order in any other state is refused, and nothing changes.
  pub mark_order_as_complete_refused :
      order.state ≢ awaiting_payment
      → mark_order_as_complete id now (calm db stock jobs bus)
        ≡ (err order_transition, calm db stock jobs bus)
  unfolding mark_order_as_complete
  mark_order_as_complete_refused st = ground arith

  -- Where nothing of the outside world fails, the order and its saga are found, the order has no
  -- event waiting and the saga is not compensating: canceling an order that is pending or awaits
  -- its payment stores it as canceled, advances the saga, and publishes one event, with the order's
  -- lines and the id of its payment, if there is one.
  pub cancel_order_lem :
      order.state ≡ pending ⊎ order.state ≡ awaiting_payment
      → order.events ≡ []
      → saga.is_compensating ≡ false
      → cancel_order id now (calm db stock jobs bus) ≡ (
        ok tt,
        calm
            (record db {
              orders =
                  insert order.id
                    (stored_order (record order { state = canceled; updated_at = now }))
                    db.orders;
              sagas =
                  insert saga.id
                    (record saga {
                      current_step = Step.order_canceled;
                      retries = 0;
                      updated_at = now;
                    })
                    db.sagas;
            })
            stock
            jobs
            (bus
              ++ order_canceled order.id order.order_lines
                  (Option.map (λ p. p.id) (find_row (λ p. p.order_id == id) db.payments))
                ∷ []),
      )
  unfolding cancel_order
  cancel_order_lem (inl st) fresh forward = ground arith
  cancel_order_lem (inr st) fresh forward = ground arith

  -- Where nothing of the outside world fails and the order and its saga are found, an order that is
  -- neither pending nor awaiting its payment is not canceled: the handler throws and the world
  -- stays as it was.
  pub cancel_order_refused :
      order.state ≢ pending
      → order.state ≢ awaiting_payment
      → cancel_order id now (calm db stock jobs bus)
        ≡ (err order_transition, calm db stock jobs bus)
  unfolding cancel_order
  cancel_order_refused a b = ground arith
