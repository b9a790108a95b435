-- ===== src/Handlers/Orders.antt =====
-- The handlers of server/src/core/application/order/command.
use shopping_cart.Prelude.{
  ℕ, none, List, [], map, any, filter, Dict, ◌==◌, order_not_found, saga_not_found,
  place_order_failed,
}
use mathlib.Core.Option
use shopping_cart.Shared.UniqueId.{UniqueId}
use shopping_cart.Shared.Price.{Price}
use shopping_cart.Event.{ProductLine}
use shopping_cart.Order.Line.{OrderLine}
use shopping_cart.Order.{Order, SelectedProduct}
use shopping_cart.Order
use shopping_cart.Saga.{Saga, Payload, Reason}
use shopping_cart.Saga
use shopping_cart.Store.{
  Action, pure, throw, lift, gets, found_or_throw, ◌>>=◌, ◌>>◌, call, commit, find_order,
  persist_order, find_saga, persist_saga, find_payment_by_order,
}
use shopping_cart.UnitOfWork.{execute, begin_transaction, commit_transaction, rollback_transaction}
use shopping_cart.Handlers.Control.{try_catch}
use shopping_cart.Handlers.Pricing.{price_lines}

-- CancelOrderHandler
unfoldable pub cancel_order : UniqueId → ℕ → Action (Unit {0})
unfolding execute find_order persist_order find_saga persist_saga find_payment_by_order
    Order.cancel_order Saga.advance_step
cancel_order order_id now = execute do
  order ← found_or_throw (← find_order order_id) order_not_found
  saga ← found_or_throw (← find_saga order_id) saga_not_found
  payment ← find_payment_by_order order_id
  order' ← lift (Order.cancel_order (Option.map (λ p. p.id) payment) now order)
  persist_order order'
  saga' ← lift (Saga.advance_step Saga.Step.order_canceled none now saga)
  persist_saga saga'
  commit order'.events

-- MarkOrderAsCompleteHandler
unfoldable pub mark_order_as_complete : UniqueId → ℕ → Action (Unit {0})
unfolding execute find_order persist_order find_saga persist_saga Order.complete_order Saga.complete
mark_order_as_complete order_id now = execute do
  order ← found_or_throw (← find_order order_id) order_not_found
  saga ← found_or_throw (← find_saga order_id) saga_not_found
  order' ← lift (Order.complete_order now order)
  persist_order order'
  persist_saga (Saga.complete Saga.Step.order_completed now saga)

-- MarkOrderAwaitingPaymentHandler
unfoldable pub mark_order_awaiting_payment : UniqueId → ℕ → Action (Unit {0})
unfolding execute find_order persist_order find_saga persist_saga Order.mark_as_await_payment
    Saga.advance_step
mark_order_awaiting_payment order_id now = execute do
  order ← found_or_throw (← find_order order_id) order_not_found
  saga ← found_or_throw (← find_saga order_id) saga_not_found
  order' ← lift (Order.mark_as_await_payment now order)
  persist_order order'
  saga' ← lift (Saga.advance_step Saga.Step.payment_processing none now saga)
  persist_saga saga'

-- MarkOrderFailHandler
unfoldable pub mark_order_fail : UniqueId → ℕ → Action (Unit {0})
unfolding execute find_order persist_order find_saga persist_saga Order.mark_as_fail Saga.fail
mark_order_fail order_id now = execute do
  order ← found_or_throw (← find_order order_id) order_not_found
  saga ← found_or_throw (← find_saga order_id) saga_not_found
  order' ← lift (Order.mark_as_fail now order)
  persist_order order'
  persist_saga (Saga.fail Reason.order_failed_reason Saga.Step.order_failed now saga)

-- ProductRepository.findAllByIds: the rows whose id is among those asked for
unfoldable pub find_all_by_ids : List UniqueId → Action (Dict Price)
find_all_by_ids ids = do call; gets (λ w. filter (λ row. any (λ id. id == row.0) ids) w.db.products)

-- the payload with which the saga of an order begins
abbrev pub initial_payload : Order → List ProductLine → Price → Payload
initial_payload order lines total = record {
  customer_id = order.customer_id;
  order_lines = lines;
  reserved_order_lines = [];
  total_price = total.amount;
  order_id = order.id;
  payment_id = none;
  failure_reason = none;
}

abbrev pub product_line : OrderLine → ProductLine
product_line line = record { product_id = line.product_id; quantity = line.quantity }

-- The ids that `v7()` makes in one placement.
pub record Fresh : Type 0 where
  pub order : UniqueId
  pub lines : ℕ → UniqueId
  pub saga : UniqueId

-- the body of the `try` of PlaceOrderHandler
unfoldable pub place_order_body : UniqueId → List ProductLine → Fresh → ℕ → Action UniqueId
unfolding find_all_by_ids price_lines persist_order persist_saga commit_transaction Order.create
    Order.total_of Saga.create
place_order_body customer_id selected fresh now = do
  products ← find_all_by_ids (map (λ l. l.product_id) selected)
  priced ← lift (price_lines products selected)
  order ← lift (Order.create customer_id priced none fresh.order fresh.lines now)
  persist_order order
  total ← lift (Order.get_total_price order)
  persist_saga (
      Saga.create Saga.SagaType.place_order order.id
        (initial_payload order (map product_line order.order_lines) total) Saga.Step.initiated
        fresh.saga now)
  commit_transaction
  commit order.events
  pure order.id

-- PlaceOrderHandler
unfoldable pub place_order : UniqueId → List ProductLine → Fresh → ℕ → Action UniqueId
unfolding place_order_body begin_transaction rollback_transaction
place_order customer_id selected fresh now = do
  begin_transaction
  try_catch (place_order_body customer_id selected fresh now)
      (λ e. do rollback_transaction; throw (place_order_failed e))
