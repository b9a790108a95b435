-- ===== src/Recover.antt =====
-- The recovery at start-up (server/src/core/application/saga/recover/order-processing.recover.ts):
-- what is done for each active saga, by its step.
pub mod Laws
use shopping_cart.Prelude.{
  ℕ, Bool, true, false, Option, none, some, List, [], ◌∷◌, map, filter, Result, ok, err,
}
use shopping_cart.Store.{
  Action, pure, lift, gets, call, publish, ◌>>=◌, ◌>>◌, find_order, find_payment_by_order,
}
use shopping_cart.Handlers.Control.{for_each}
use mathlib.Core.Option
use shopping_cart.Shared.UniqueId.{UniqueId}
use shopping_cart.Shared.Price.{Price}
use shopping_cart.Event.{
  Event, order_created, order_canceled, inventory_reserved, payment_initiated,
}
use shopping_cart.Order.{Order}
use shopping_cart.Order
use shopping_cart.Payment.{Payment}
use shopping_cart.Saga.{Saga, SagaType, Step, place_order, unknown}
use shopping_cart.Saga
use shopping_cart.Orchestrator.{
  Command, cancel_payment_for_canceled_order, cancel_order, mark_order_as_complete, dispatch,
}

-- What the recovery does for one saga: it publishes an event, executes a command, or does nothing.
pub data Resumption : Type 0 where
  publishes : Event → Resumption
  executes : Command → Resumption
  nothing : Resumption

abbrev pub created_event : Order → Price → Event
created_event order total = order_created order.id order.customer_id order.order_lines total

abbrev pub cancel_if_paid : UniqueId → Option Payment → Resumption
cancel_if_paid order_id none = nothing
cancel_if_paid order_id (some payment) = executes (cancel_payment_for_canceled_order order_id)

abbrev pub publish_created : Order → Result Price → Result Resumption
publish_created order (ok total) = ok (publishes (created_event order total))
publish_created order (err e) = err e

-- the `switch`, for a saga whose order was found
unfoldable pub resume : Saga → Order → Option Payment → Result Resumption
unfolding Order.total_of
resume saga order payment = elim saga.current_step [
  | Saga.initiated ↦ publish_created order (Order.get_total_price order)
  | Saga.inventory_reserved ↦ ok (publishes (inventory_reserved order.id))
  | Saga.payment_created ↦ ok (publishes (payment_initiated order.id))
  | Saga.inventory_reserve_failed ↦ ok (publishes (inventory_reserved saga.payload.order_id))
  | Saga.order_canceled ↦
      ok (publishes (order_canceled order.id order.order_lines (Option.map (λ p. p.id) payment)))
  | Saga.inventory_compensated ↦ ok (cancel_if_paid order.id payment)
  | Saga.payment_failed ↦ ok (executes (cancel_order order.id))
  | Saga.payment_succeeded ↦ ok (executes (mark_order_as_complete order.id))
  | _ ↦ ok nothing
]

unfoldable pub perform : Resumption → UniqueId → ℕ → Action (Unit {0})
unfolding dispatch
perform (publishes event) fresh now = publish event
perform (executes command) fresh now = dispatch command fresh now
perform nothing fresh now = pure tt

-- the body of the loop, after the order was looked for: without one it goes on
unfoldable pub resume_found : Saga → Option Order → UniqueId → ℕ → Action (Unit {0})
unfolding find_payment_by_order resume perform
resume_found saga none fresh now = pure tt
resume_found saga (some order) fresh now = do
  payment ← find_payment_by_order order.id
  resumption ← lift (resume saga order payment)
  perform resumption fresh now

unfoldable pub recover_saga : UniqueId → ℕ → Saga → Action (Unit {0})
unfolding find_order resume_found
recover_saga fresh now saga = do
  order ← find_order saga.payload.order_id
  resume_found saga order fresh now

abbrev pub is_place_order : SagaType → Bool
is_place_order place_order = true
is_place_order unknown = false

-- SagaInstanceRepository.findActiveSagaByType, which asks for the type alone
unfoldable pub find_active_sagas : Action (List Saga)
find_active_sagas = do
  call
  gets (λ w. filter (λ saga. is_place_order saga.saga_type) (map (λ row. row.1) w.db.sagas))

-- `onApplicationBootstrap`
unfoldable pub recover : UniqueId → ℕ → Action (Unit {0})
unfolding find_active_sagas recover_saga for_each
recover fresh now = do sagas ← find_active_sagas; for_each (recover_saga fresh now) sagas
