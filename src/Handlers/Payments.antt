-- ===== src/Handlers/Payments.antt =====
-- The handlers of server/src/core/application/payment/command.
use shopping_cart.Prelude.{
  ℕ, Bool, true, false, Option, none, some, if◌then◌else◌, Result, order_not_found, saga_not_found,
  payment_not_found,
}
use shopping_cart.Shared.UniqueId.{UniqueId}
use shopping_cart.Shared.Price.{Price}
use shopping_cart.Shared.Price
use shopping_cart.Event.{payment_initiated}
use shopping_cart.Order
use shopping_cart.Payment.{Payment, PaymentState}
use shopping_cart.Payment
use shopping_cart.Saga.{Saga, Payload, Patch}
use shopping_cart.Saga
use shopping_cart.Store.{
  Action, pure, lift, found_or_throw, ◌>>=◌, ◌>>◌, commit, publish, find_order, find_saga,
  persist_saga, find_payment, find_payment_by_order, persist_payment,
}
use shopping_cart.UnitOfWork.{execute}

-- `{ ...sagaInstance.payload, paymentId }`
abbrev pub with_payment : Payload → UniqueId → Patch
with_payment payload payment_id = record {
  customer_id = some payload.customer_id;
  order_lines = some payload.order_lines;
  reserved_order_lines = some payload.reserved_order_lines;
  total_price = some payload.total_price;
  order_id = some payload.order_id;
  payment_id = some (some payment_id);
  failure_reason = some payload.failure_reason;
}

-- InitiatePaymentHandler
unfoldable pub initiate_payment : UniqueId → UniqueId → ℕ → Action (Unit {0})
unfolding execute find_order find_saga persist_saga persist_payment Order.total_of Payment.create
    Saga.advance_step
initiate_payment order_id fresh now = do
  execute do
    order ← found_or_throw (← find_order order_id) order_not_found
    total ← lift (Order.get_total_price order)
    let payment = Payment.create order_id total fresh
    saga ← found_or_throw (← find_saga order_id) saga_not_found
    let payload = with_payment saga.payload payment.id
    persist_payment payment
    saga' ← lift (Saga.advance_step Saga.Step.payment_created (some payload) now saga)
    persist_saga saga'
  publish (payment_initiated order_id)

-- What PayForOrderHandler answers.
pub record PayResult : Type 0 where
  pub success : Bool
  pub failed : Bool

-- the branch of PayForOrderHandler on whether the amount is the price
abbrev pub settle : Bool → ℕ → Payment → Result Payment
settle true now payment = Payment.mark_as_paid now payment
settle false now payment = Payment.mark_as_failed now payment

abbrev pub settle_step : Bool → Saga.Step
settle_step true = Saga.Step.payment_succeeded
settle_step false = Saga.Step.payment_failed

abbrev pub settle_result : Bool → PayResult
settle_result true = record { success = true; failed = false }
settle_result false = record { success = false; failed = true }

-- PayForOrderHandler
unfoldable pub pay_for_order : UniqueId → Price → ℕ → Action PayResult
unfolding execute find_payment find_saga persist_saga persist_payment Payment.mark_as_paid
    Payment.mark_as_failed Saga.advance_step
pay_for_order payment_id amount now = execute do
  payment ← found_or_throw (← find_payment payment_id) payment_not_found
  saga ← found_or_throw (← find_saga payment.order_id) saga_not_found
  let exact = Price.equals payment.total_item_price (some amount)
  payment' ← lift (settle exact now payment)
  saga' ← lift (Saga.advance_step (settle_step exact) none now saga)
  persist_payment payment'
  persist_saga saga'
  commit payment'.events
  pure (settle_result exact)

abbrev pub is_canceled : PaymentState → Bool
is_canceled PaymentState.opened = false
is_canceled PaymentState.paid = false
is_canceled PaymentState.failed = false
is_canceled PaymentState.canceled = true

-- the rest of CancelPaymentForCanceledOrderHandler, once there is a payment
unfoldable pub cancel_found : UniqueId → ℕ → Payment → Action (Unit {0})
unfolding find_saga persist_saga persist_payment Payment.cancel Saga.advance_step
cancel_found order_id now payment = do
  saga ← found_or_throw (← find_saga order_id) saga_not_found
  saga' ← lift (Saga.advance_step Saga.Step.payment_canceled none now saga)
  payment' ← lift (Payment.cancel payment)
  persist_payment payment'
  persist_saga saga'

-- its early returns: without a payment, or with one that is canceled, nothing is done
abbrev pub cancel_if_found : UniqueId → ℕ → Option Payment → Action (Unit {0})
cancel_if_found order_id now none = pure tt
cancel_if_found order_id now (some payment) =
    if is_canceled payment.state then pure tt else cancel_found order_id now payment

-- CancelPaymentForCanceledOrderHandler
unfoldable pub cancel_payment_for_canceled_order : UniqueId → ℕ → Action (Unit {0})
unfolding execute find_payment_by_order cancel_found
cancel_payment_for_canceled_order order_id now =
    execute do payment ← find_payment_by_order order_id; cancel_if_found order_id now payment

-- MarkAsPaidHandler, outside any transaction
unfoldable pub mark_as_paid : UniqueId → ℕ → Action (Unit {0})
unfolding find_payment persist_payment Payment.mark_as_paid
mark_as_paid payment_id now = do
  payment ← found_or_throw (← find_payment payment_id) payment_not_found
  payment' ← lift (Payment.mark_as_paid now payment)
  persist_payment payment'
  commit payment'.events

-- MarkAsFailedHandler
unfoldable pub mark_as_failed : UniqueId → ℕ → Action (Unit {0})
unfolding find_payment persist_payment Payment.mark_as_failed
mark_as_failed payment_id now = do
  payment ← found_or_throw (← find_payment payment_id) payment_not_found
  payment' ← lift (Payment.mark_as_failed now payment)
  persist_payment payment'
  commit payment'.events
