-- ===== src/Tests/Settling.antt =====
-- The end of an order that awaits its payment, at concrete worlds.
use shopping_cart.Prelude.{◌≡◌, refl, some, [], ◌∷◌, inl, inr}
use shopping_cart.Order.{completed, awaiting_payment, canceled}
use shopping_cart.Payment.{PaymentState}
use shopping_cart.Store.{World, calm}
use shopping_cart.Handlers.Orders.{cancel_order}
use shopping_cart.Handlers.Payments.{pay_for_order}
use shopping_cart.Orchestrator.Reserve.{IsReady}
use shopping_cart.Orchestrator.Settlement.{IsClosed, IsGivenBack, cancel-closes}
use shopping_cart.Orchestrator.Payoff.{pay-completes, pay-cancels}
use shopping_cart.Orchestrator
use shopping_cart.Tests.Data.{
  cups, plates, order_in, payment_in, saga, db_in, full_stock, dollars_of,
}

awaiting : World
awaiting = calm (db_in awaiting_payment PaymentState.opened) full_stock [] []

ready : IsReady 1 saga
ready = record { own = refl; type = refl; forward = refl }

cancel-closes_example :
    IsClosed 1
      (record (order_in awaiting_payment) { state = canceled; updated_at = 8 })
      (payment_in PaymentState.canceled)
      (Orchestrator.run 2 (λ i. i) 9 (cancel_order 1 8 awaiting).1)
    × IsGivenBack
        (cups ∷ plates ∷ [])
        []
        10
        5
        (Orchestrator.run 2 (λ i. i) 9 (cancel_order 1 8 awaiting).1)
unfolding awaiting
cancel-closes_example =
    cancel-closes 1 8 9 (λ i. i) (db_in awaiting_payment PaymentState.opened) full_stock []
      (order_in awaiting_payment) saga refl refl refl (inr refl) ready (inl (refl, refl))
      (payment_in PaymentState.opened) 10 5 (inl (refl, refl)) refl refl refl

pay-completes_example :
    let w = Orchestrator.run 1 (λ i. i) 9 (pay_for_order 41 (dollars_of 26) 8 awaiting).1 in
    IsClosed 1
      (record (order_in awaiting_payment) { state = completed; updated_at = 9 })
      (record (payment_in PaymentState.paid) { paid_at = some 8 })
      w
    × (w.stock ≡ full_stock)
    × (w.jobs ≡ [])
unfolding awaiting
pay-completes_example =
    pay-completes 1 8 9 (λ i. i) (db_in awaiting_payment PaymentState.opened) full_stock []
      (order_in awaiting_payment) (payment_in PaymentState.opened) saga refl refl refl refl
      (inl (refl, refl)) refl refl refl ready (inl (refl, refl)) (dollars_of 26) refl

pay-cancels_example :
    let w = Orchestrator.run 3 (λ i. i) 9 (pay_for_order 41 (dollars_of 25) 8 awaiting).1 in
    IsClosed 1
      (record (order_in awaiting_payment) { state = canceled; updated_at = 9 })
      (record (payment_in PaymentState.failed) { failed_at = some 8 })
      w
    × IsGivenBack (cups ∷ plates ∷ []) [] 10 5 w
unfolding awaiting
pay-cancels_example =
    pay-cancels 1 8 9 (λ i. i) (db_in awaiting_payment PaymentState.opened) full_stock []
      (order_in awaiting_payment) (payment_in PaymentState.opened) saga refl refl refl refl
      (inl (refl, refl)) refl refl refl ready (inl (refl, refl)) (dollars_of 25) 10 5 (λ e. cc) refl
