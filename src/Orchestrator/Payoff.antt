-- ===== src/Orchestrator/Payoff.antt =====
-- What becomes of an order that awaits its payment, where nothing of the outside world fails and it
-- is paid: at its price or not.
use shopping_cart.Prelude.{
  ℕ, suc, ◌≡◌, ◌≢◌, refl, ◌∙◌, ap, sym, subst, some, List, [], ◌++◌, map, inr, ◌==◌, lookup, insert,
  lookup-insert_self, pos,
}
use shopping_cart.Shared.UniqueId.{UniqueId}
use shopping_cart.Shared.Price.{Price}
use shopping_cart.Cache.{Stock}
use shopping_cart.Cache.Conservation.{level}
use shopping_cart.Order.{Order, awaiting_payment, completed, canceled}
use shopping_cart.Payment.{Payment, PaymentState}
use shopping_cart.Saga.{Saga, Step}
use shopping_cart.Store.{
  World, Db, Job, compensate_job, calm, find_row, stored_order, stored_payment,
}
use shopping_cart.Store.Tracking.{
  IsTracked, IsTracked-found, insert-IsTracked, IsPayment, IsOwned-found, IsOwned-lookup,
  insert-IsOwned,
}
use shopping_cart.Handlers.Orders.{cancel_order, mark_order_as_complete}
use shopping_cart.Handlers.OrdersCalm.{mark_order_as_complete_lem}
use shopping_cart.Handlers.Payments.{pay_for_order}
use shopping_cart.Handlers.PaymentsCalm.{
  pay_for_order_exact, pay_for_order_inexact, cancel_payment_settled,
}
use shopping_cart.Orchestrator.Reserve.{IsReady}
use shopping_cart.Orchestrator.Release.{give_all, give_level, released_saga}
use shopping_cart.Orchestrator.{product_lines, react, dispatch, deliver, run}
use shopping_cart.Orchestrator.Settlement.{
  IsClosed, IsGivenBack, lookup_own, canceled_order, canceled_db, canceled_saga, cancel_run,
  released_found,
}

module _ (id : UniqueId) (now later : ℕ) (fresh : ℕ → UniqueId) (db : Db) (stock : Stock)
    (jobs : List Job) (order : Order) (payment : Payment) (saga : Saga)
    (found : lookup id db.orders ≡ some order) (own : order.id ≡ id) (quiet : order.events ≡ [])
    (st : order.state ≡ awaiting_payment) (paying : IsPayment id payment db.payments)
    (owned : payment.order_id ≡ id) (still : payment.events ≡ [])
    (open_yet : payment.state ≡ PaymentState.opened) (ready : IsReady id saga)
    (tracked : IsTracked id saga db.sagas) where
  -- Where nothing of the outside world fails, no event waits, the order is found, has no events of
  -- its own and awaits its payment, its first payment is open, has no events and is found by its
  -- id, and the order's first saga is a placement's that is not compensating: paying exactly the
  -- price of the payment leads, after one delivery, to the order stored as completed and the
  -- payment as paid, no event is left, and the stock and the jobs are as before.
  pub pay-completes :
      (amount : Price)
      → payment.total_item_price ≡ amount
      → let w = run 1 fresh later (pay_for_order payment.id amount now (calm db stock jobs [])).1 in
        IsClosed id
          (record order { state = completed; updated_at = later })
          (record payment { state = PaymentState.paid; paid_at = some now })
          w
        × (w.stock ≡ stock)
        × (w.jobs ≡ jobs)
  unfolding run deliver dispatch react
  pay-completes amount exact =
      let payment' = record payment { state = PaymentState.paid; paid_at = some now } in
      let saga' = record saga {
        current_step = Step.payment_succeeded;
        retries = 0;
        updated_at = now;
      } in
      let order' = record order { state = completed; updated_at = later } in
      let db' = record db {
        payments = insert payment.id (stored_payment payment') db.payments;
        sagas = insert saga.id saga' db.sagas;
      } in
      let saga_found : find_row (λ s. s.correlation_id == payment.order_id) db.sagas ≡ some saga =
        rw owned (IsTracked-found id saga db.sagas ready.own tracked) in
      let settled =
        pay_for_order_exact payment.id amount now db stock jobs [] payment saga
          (IsOwned-lookup (λ p. p.id) (λ p. p.order_id) id payment db.payments paying) saga_found
          still ready.forward open_yet exact in
      let completed' =
        mark_order_as_complete_lem id later db' stock jobs [] order saga' found
          (IsTracked-found id saga' db'.sagas ready.own
            (insert-IsTracked id saga saga' db.sagas refl tracked))
          st in
      let end : World = (mark_order_as_complete id later (calm db' stock jobs [])).1 in
      let ran : run 1 fresh later (pay_for_order payment.id amount now (calm db stock jobs [])).1
          ≡ end =
        ap (λ o. deliver (fresh 0) later o.1) settled
        ∙ ap (λ (i : UniqueId). (mark_order_as_complete i later (calm db' stock jobs [])).1)
            owned in
      subst (λ (w : World). IsClosed id order' payment' w × (w.stock ≡ stock) × (w.jobs ≡ jobs))
        (sym (ran ∙ ap (λ o. o.1) completed'))
        (
          (
            lookup_own id order (stored_order order') db.orders own,
            lookup-insert_self payment.id (stored_payment payment') db.payments,
            refl,
          ),
          refl,
          refl,
        )

  -- In the same setting, paying any other price leads, after three deliveries, to the order stored
  -- as canceled and the payment as failed; no event is left, the stock level of each product has
  -- risen by all that the order's lines want of it, and one job for each line gives it back to the
  -- database.
  pub pay-cancels :
      (amount : Price) (j : UniqueId) (k : ℕ)
      → payment.total_item_price ≢ amount
      → level j stock ≡ pos k
      → let w = run 3 fresh later (pay_for_order payment.id amount now (calm db stock jobs [])).1 in
        IsClosed id
          (record order { state = canceled; updated_at = later })
          (record payment { state = PaymentState.failed; failed_at = some now })
          w
        × IsGivenBack (product_lines order.order_lines) jobs j k w
  unfolding run deliver dispatch react
  pay-cancels amount j k inexact at =
      let payment' = record payment { state = PaymentState.failed; failed_at = some now } in
      let saga' = record saga {
        current_step = Step.payment_failed;
        retries = 0;
        updated_at = now;
      } in
      let ls = product_lines order.order_lines in
      let db' = record db {
        payments = insert payment.id (stored_payment payment') db.payments;
        sagas = insert saga.id saga' db.sagas;
      } in
      let ready' : IsReady id saga' = record {
        own = ready.own;
        type = ready.type;
        forward = ready.forward;
      } in
      let tracked' = insert-IsTracked id saga saga' db.sagas refl tracked in
      let saga_found : find_row (λ s. s.correlation_id == payment.order_id) db.sagas ≡ some saga =
        rw owned (IsTracked-found id saga db.sagas ready.own tracked) in
      let failed' =
        pay_for_order_inexact payment.id amount now db stock jobs [] payment saga
          (IsOwned-lookup (λ p. p.id) (λ p. p.order_id) id payment db.payments paying) saga_found
          still ready.forward open_yet inexact in
      let refused =
        cancel_payment_settled id later (canceled_db order saga' later later db')
          (give_all ls stock) (jobs ++ map compensate_job ls) [] (stored_payment payment')
          (released_saga (canceled_saga saga' later) later)
          (IsOwned-found (λ p. p.id) (λ p. p.order_id) id (stored_payment payment') db'.payments
            owned
            (insert-IsOwned (λ p. p.id) (λ p. p.order_id) id payment (stored_payment payment')
              db.payments refl paying))
          (released_found id later later fresh db' stock jobs order saga' found own quiet (inr st)
            ready' tracked')
          ready.forward (cc) in
      let ran =
        ap (λ o. run 3 fresh later o.1) failed'
        ∙ ap
            (λ (i : UniqueId).
              run 2 (λ n. fresh (suc n)) later (cancel_order i later (calm db' stock jobs [])).1)
            owned
        ∙ cancel_run id later later (λ n. fresh (suc n)) db' stock jobs order saga' found own quiet
            (inr st) ready' tracked'
        ∙ ap (λ o. o.1) refused in
      subst
        (λ (w : World).
          IsClosed id (record order { state = canceled; updated_at = later }) payment' w
          × IsGivenBack ls jobs j k w)
        (sym ran)
        (
          (
            lookup_own id order (canceled_order order later) db.orders own,
            lookup-insert_self payment.id (stored_payment payment') db.payments,
            refl,
          ),
          (give_level j ls k stock at, refl),
        )
