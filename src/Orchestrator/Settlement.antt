-- ===== src/Orchestrator/Settlement.antt =====
-- What becomes of a canceled order, where nothing of the outside world fails.
use shopping_cart.Prelude.{
  ℕ, ◌+◌, ◌≡◌, refl, ◌∙◌, ap, sym, subst, Option, some, List, [], ◌∷◌, ◌++◌, map, ◌==◌, lookup,
  insert, lookup-insert_self, Dict, pos, ◌⊎◌,
}
use mathlib.Core.Option
use shopping_cart.Shared.UniqueId.{UniqueId}
use shopping_cart.Event.{ProductLine, order_canceled}
use shopping_cart.Cache.{Stock}
use shopping_cart.Cache.Conservation.{level}
use shopping_cart.Order.{Order, pending, awaiting_payment, canceled}
use shopping_cart.Order.Line.{OrderLine}
use shopping_cart.Payment.{Payment, PaymentState}
use shopping_cart.Saga.{Saga, Step}
use shopping_cart.Store.{
  World, Db, Job, compensate_job, calm, find_row, stored_order, stored_payment,
}
use shopping_cart.Store.Tracking.{
  IsTracked, IsTracked-found, insert-IsTracked, IsPayment, IsOwned-found,
}
use shopping_cart.Handlers.Orders.{cancel_order}
use shopping_cart.Handlers.OrdersCalm.{cancel_order_lem}
use shopping_cart.Handlers.Payments.{cancel_payment_for_canceled_order}
use shopping_cart.Handlers.PaymentsCalm.{cancel_payment_opened}
use shopping_cart.Orchestrator.Reserve.{IsReady, with_sagas}
use shopping_cart.Orchestrator.Release.{give_all, give_level, wanted, released_saga}
use shopping_cart.Orchestrator.Cancel.{compensate_order_inventory_lem}
use shopping_cart.Orchestrator.{product_lines, react, dispatch, deliver, run}

-- What the tables hold of an order and its payment in the end; no event is left.
abbrev pub IsClosed : UniqueId → Order → Payment → World → Type 0
IsClosed id order payment w =
    (lookup id w.db.orders ≡ some (stored_order order))
    × (lookup payment.id w.db.payments ≡ some (stored_payment payment))
    × (w.bus ≡ [])

-- The lines of the order are given back: to the stock, and by one job each to the database.
abbrev pub IsGivenBack : List ProductLine → List Job → UniqueId → ℕ → World → Type 0
IsGivenBack ls jobs j k w =
    (level j w.stock ≡ pos (k + wanted j ls)) × (w.jobs ≡ jobs ++ map compensate_job ls)

-- The orders' table after a write to the order.
pub lookup_own :
    (id : UniqueId) (order order' : Order) (orders : Dict Order)
    → order.id ≡ id
    → lookup id (insert order.id order' orders) ≡ some order'
lookup_own id order order' orders own =
    subst (λ i. lookup i (insert order.id order' orders) ≡ some order') own
      (lookup-insert_self order.id order' orders)

-- A canceled order, from its event to its payment: two deliveries.
after_cancel :
    (id : UniqueId) (lines : List OrderLine) (payment_id : Option UniqueId) (now : ℕ) (db : Db)
    (stock : Stock) (jobs : List Job) (saga : Saga) (fresh : ℕ → UniqueId)
    → IsReady id saga
    → IsTracked id saga db.sagas
    → run 2 fresh now (calm db stock jobs (order_canceled id lines payment_id ∷ []))
      ≡ (cancel_payment_for_canceled_order id now (
          calm
            (with_sagas db (insert saga.id (released_saga saga now) db.sagas))
            (give_all (product_lines lines) stock)
            (jobs ++ map compensate_job (product_lines lines))
            [])).1
unfolding run deliver dispatch react
after_cancel id lines payment_id now db stock jobs saga fresh ready tracked =
    ap (λ o. deliver (fresh 1) now o.1)
      (compensate_order_inventory_lem id now saga (product_lines lines) db stock jobs []
        (IsTracked-found id saga db.sagas ready.own tracked) ready.forward)

-- The saga of a canceled order, and the tables after the cancelation.
abbrev pub canceled_saga : Saga → ℕ → Saga
canceled_saga saga now = record saga {
  current_step = Step.order_canceled;
  retries = 0;
  updated_at = now;
}

abbrev pub canceled_order : Order → ℕ → Order
canceled_order order now = stored_order (record order { state = canceled; updated_at = now })

abbrev pub canceled_db : Order → Saga → ℕ → ℕ → Db → Db
canceled_db order saga now later db = record db {
  orders = insert order.id (canceled_order order now) db.orders;
  sagas =
      insert saga.id (released_saga (canceled_saga saga now) later)
        (insert saga.id (canceled_saga saga now) db.sagas);
}

canceled_saga-IsReady :
    (id : UniqueId) (saga : Saga) (now : ℕ) → IsReady id saga → IsReady id (canceled_saga saga now)
canceled_saga-IsReady id saga now ready = record {
  own = ready.own;
  type = ready.type;
  forward = ready.forward;
}

module _ (id : UniqueId) (now later : ℕ) (fresh : ℕ → UniqueId) (db : Db) (stock : Stock)
    (jobs : List Job) (order : Order) (saga : Saga) (found : lookup id db.orders ≡ some order)
    (own : order.id ≡ id) (quiet : order.events ≡ [])
    (st : order.state ≡ pending ⊎ order.state ≡ awaiting_payment) (ready : IsReady id saga)
    (tracked : IsTracked id saga db.sagas) where
  -- From the cancelation to the handler that cancels the payment.
  pub cancel_run :
      run 2 fresh later (cancel_order id now (calm db stock jobs [])).1
      ≡ (cancel_payment_for_canceled_order id later (
          calm
            (canceled_db order saga now later db)
            (give_all (product_lines order.order_lines) stock)
            (jobs ++ map compensate_job (product_lines order.order_lines))
            [])).1
  cancel_run =
      let lines = order.order_lines in
      let saga' = canceled_saga saga now in
      let payment_id = Option.map (λ p. p.id) (find_row (λ p. p.order_id == id) db.payments) in
      let db' = record db {
        orders = insert order.id (canceled_order order now) db.orders;
        sagas = insert saga.id saga' db.sagas;
      } in
      let done =
        cancel_order_lem id now db stock jobs [] order saga found
          (IsTracked-found id saga db.sagas ready.own tracked) st quiet ready.forward in
      ap (λ o. run 2 fresh later o.1) done
      ∙ ap
          (λ (i : UniqueId).
            run 2 fresh later (calm db' stock jobs (order_canceled i lines payment_id ∷ [])))
          own
      ∙ after_cancel id lines payment_id later db' stock jobs saga' fresh
          (canceled_saga-IsReady id saga now ready)
          (insert-IsTracked id saga saga' db.sagas refl tracked)

  -- The saga that the handler finds.
  pub released_found :
      find_row (λ s. s.correlation_id == id) (canceled_db order saga now later db).sagas
      ≡ some (released_saga (canceled_saga saga now) later)
  released_found =
      let saga' = canceled_saga saga now in
      let saga_end = released_saga saga' later in
      IsTracked-found id saga_end (insert saga.id saga_end (insert saga.id saga' db.sagas))
        ready.own
        (insert-IsTracked id saga' saga_end (insert saga.id saga' db.sagas) refl
          (insert-IsTracked id saga saga' db.sagas refl tracked))

  -- Where nothing of the outside world fails, no event waits, the order is found with no events of
  -- its own and is pending or awaits its payment, its saga is a placement's, is not compensating
  -- and is the first of the order: if the customer cancels and the order's first payment is open,
  -- then after two deliveries the order and the payment are stored as canceled and no event is
  -- left, the stock level of each product has risen by all that the order's lines want of it, and
  -- one job for each line gives it back to the database.
  pub cancel-closes :
      (payment : Payment) (j : UniqueId) (k : ℕ)
      → IsPayment id payment db.payments
      → payment.order_id ≡ id
      → payment.state ≡ PaymentState.opened
      → level j stock ≡ pos k
      → let w = run 2 fresh later (cancel_order id now (calm db stock jobs [])).1 in
        IsClosed id
          (record order { state = canceled; updated_at = now })
          (record payment { state = PaymentState.canceled })
          w
        × IsGivenBack (product_lines order.order_lines) jobs j k w
  cancel-closes payment j k paying owned open_yet at =
      let ls = product_lines order.order_lines in
      let db' = canceled_db order saga now later db in
      let payment' = stored_payment (record payment { state = PaymentState.canceled }) in
      let settled =
        cancel_payment_opened id later db' (give_all ls stock) (jobs ++ map compensate_job ls) []
          payment (released_saga (canceled_saga saga now) later)
          (IsOwned-found (λ p. p.id) (λ p. p.order_id) id payment db.payments owned paying)
          released_found ready.forward open_yet in
      subst
        (λ (w : World).
          IsClosed id (record order { state = canceled; updated_at = now })
            (record payment { state = PaymentState.canceled }) w
          × IsGivenBack ls jobs j k w)
        (sym (cancel_run ∙ ap (λ o. o.1) settled))
        (
          (
            lookup_own id order (canceled_order order now) db.orders own,
            lookup-insert_self payment.id payment' db.payments,
            refl,
          ),
          (give_level j ls k stock at, refl),
        )
