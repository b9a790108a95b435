-- ===== src/Tests/Handling.antt =====
-- The handlers and the unit of work at concrete worlds.
use shopping_cart.Prelude.{◌≡◌, refl, false, none, [], ◌∷◌, ok, arith, is_ok, outage}
use shopping_cart.Order.{pending, awaiting_payment, completed}
use shopping_cart.Payment.{PaymentState}
use shopping_cart.Saga.{Saga, Step}
use shopping_cart.Saga
use shopping_cart.Store.{Db, World, calm, Action, throw, stored_order}
use shopping_cart.UnitOfWork.{execute, KeptOnError, execute-atomic}
use shopping_cart.Handlers.Payments.{pay_for_order}
use shopping_cart.Handlers.PaymentsCalm.{pay_for_order_settled}
use shopping_cart.Recover.{recover}
use shopping_cart.Recover.Laws.{recover_paid}
use shopping_cart.Tests.Data.{order_in, payment_in, saga, db_in, full_stock, dollars_of}

-- A work that stores an order and then throws.
abbrev failing_work : Action (Unit {0})
failing_work w = throw outage (record w { db = record (w.db) { orders = [] } })

abbrev idle : World
idle = calm (db_in pending PaymentState.opened) full_stock [] []

execute-atomic_example :
    ((execute failing_work idle).1.transaction ≡ none)
    × KeptOnError idle.db (execute failing_work idle)
execute-atomic_example = execute-atomic failing_work idle (λ w. refl) refl

abbrev paid_world : World
paid_world = calm (db_in awaiting_payment PaymentState.paid) full_stock [] []

pay_for_order_settled_example :
    ((pay_for_order 41 (dollars_of 26) 9 paid_world).1 ≡ paid_world)
    × (is_ok (pay_for_order 41 (dollars_of 26) 9 paid_world).0 ≡ false)
pay_for_order_settled_example =
    pay_for_order_settled 41 (dollars_of 26) 9 (db_in awaiting_payment PaymentState.paid) full_stock
      [] [] (payment_in PaymentState.paid) saga refl refl refl refl (λ e. absurd (ground arith))

abbrev paid_saga : Saga
paid_saga = record saga { current_step = Step.payment_succeeded }

abbrev crashed_db : Db
crashed_db = record (db_in awaiting_payment PaymentState.paid) { sagas = (31, paid_saga) ∷ [] }

recover_paid_example : recover 100 9 (calm crashed_db full_stock [] []) ≡ (
  ok tt,
  calm
      (record crashed_db {
        orders = (1, stored_order (record (order_in completed) { updated_at = 9 })) ∷ [];
        sagas = (31, Saga.complete Step.order_completed 9 paid_saga) ∷ [];
      })
      full_stock
      []
      [],
)
recover_paid_example =
    recover_paid 1 100 9 crashed_db full_stock [] [] (order_in awaiting_payment) paid_saga refl refl
      refl refl refl refl refl refl
