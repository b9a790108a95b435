-- ===== src/Handlers/PaymentsCalm.antt =====
-- What the payment handlers do where nothing of the outside world fails.
use shopping_cart.Prelude.{
  Bool-cases, if◌then◌else◌, ℕ, ◌≡◌, ◌≢◌, some, List, [], ◌∷◌, ◌++◌, false, true, lookup, insert,
  ok, err, arith, ◌==◌, inl, inr, payment_transition, is_ok,
}
use shopping_cart.Shared.UniqueId.{UniqueId}
use shopping_cart.Shared.Price.{Price, same_text}
use shopping_cart.Shared.Price.Laws.{same_text_refl, same_text-eq}
use shopping_cart.Shared.Price
use shopping_cart.Event.{Event, payment_initiated, payment_paid, payment_failed}
use shopping_cart.Cache.{Stock}
use shopping_cart.Order.{Order, get_total_price}
use shopping_cart.Payment.{Payment, PaymentState}
use shopping_cart.Payment
use shopping_cart.Saga.{Saga, Step}
use shopping_cart.Store.{Db, Job, calm, stored_payment, find_row}
use shopping_cart.Handlers.Payments.{
  initiate_payment, pay_for_order, settle_result, is_canceled, cancel_payment_for_canceled_order,
}

module _ (id fresh : UniqueId) (now : ℕ) (db : Db) (stock : Stock) (jobs : List Job)
    (bus : List Event) (order : Order) (total : Price) (saga : Saga)
    (found : lookup id db.orders ≡ some order)
    (tracked : find_row (λ s. s.correlation_id == id) db.sagas ≡ some saga) where
  pub initiate_payment_lem :
      get_total_price order ≡ ok total
      → saga.is_compensating ≡ false
      → initiate_payment id fresh now (calm db stock jobs bus) ≡ (
        ok tt,
        calm
            (record db {
              payments = insert fresh (stored_payment (Payment.create id total fresh)) db.payments;
              sagas =
                  insert saga.id
                    (record saga {
                      current_step = Step.payment_created;
                      payload = record (saga.payload) { payment_id = some fresh };
                      retries = 0;
                      updated_at = now;
                    })
                    db.sagas;
            })
            stock
            jobs
            (bus ++ payment_initiated id ∷ []),
      )
  unfolding initiate_payment Payment.create
  initiate_payment_lem priced forward = ground arith

-- Two prices are equal as values if and only if they are the same price.
equals_exact : (p q : Price) → p ≡ q → Price.equals p (some q) ≡ true
equals_exact p q h = rw h (ground (arith, same_text_refl q.currency))

equals_inexact : (p q : Price) → p ≢ q → Price.equals p (some q) ≡ false
equals_inexact p q ne = elim (Bool-cases (Price.equals p (some q))) [
  | inr differ ↦ differ
  | inl same ↦ absurd (ne (ground (arith, same_text-eq p.currency q.currency)))
]

module _ (id : UniqueId) (amount : Price) (now : ℕ) (db : Db) (stock : Stock) (jobs : List Job)
    (bus : List Event) (payment : Payment) (saga : Saga)
    (found : lookup id db.payments ≡ some payment)
    (tracked : find_row (λ s. s.correlation_id == payment.order_id) db.sagas ≡ some saga)
    (quiet : payment.events ≡ []) (forward : saga.is_compensating ≡ false) where
  -- Where nothing of the outside world fails, the payment and its order's saga are found, the
  -- payment has no event waiting and the saga is not compensating: paying exactly the price of an
  -- open payment stores it as paid, advances the saga, publishes that it was paid, and answers
  -- success.
  pub pay_for_order_exact :
      payment.state ≡ PaymentState.opened
      → payment.total_item_price ≡ amount
      → pay_for_order id amount now (calm db stock jobs bus) ≡ (
        ok (settle_result true),
        calm
            (record db {
              payments =
                  insert payment.id
                    (stored_payment
                      (record payment { state = PaymentState.paid; paid_at = some now }))
                    db.payments;
              sagas =
                  insert saga.id
                    (record saga {
                      current_step = Step.payment_succeeded;
                      retries = 0;
                      updated_at = now;
                    })
                    db.sagas;
            })
            stock
            jobs
            (bus ++ payment_paid payment.id payment.order_id ∷ []),
      )
  unfolding pay_for_order
  pay_for_order_exact st exact =
      let same = equals_exact payment.total_item_price amount exact in ground arith

  -- In the same setting, paying any other price, of another amount or in another currency, for an
  -- open payment stores it as failed, advances the saga, publishes that it failed, and answers
  -- failure.
  pub pay_for_order_inexact :
      payment.state ≡ PaymentState.opened
      → payment.total_item_price ≢ amount
      → pay_for_order id amount now (calm db stock jobs bus) ≡ (
        ok (settle_result false),
        calm
            (record db {
              payments =
                  insert payment.id
                    (stored_payment
                      (record payment { state = PaymentState.failed; failed_at = some now }))
                    db.payments;
              sagas =
                  insert saga.id
                    (record saga {
                      current_step = Step.payment_failed;
                      retries = 0;
                      updated_at = now;
                    })
                    db.sagas;
            })
            stock
            jobs
            (bus ++ payment_failed payment.id payment.order_id ∷ []),
      )
  unfolding pay_for_order
  pay_for_order_inexact st inexact =
      let other = equals_inexact payment.total_item_price amount inexact in ground arith

  -- Where nothing of the outside world fails, the payment and its order's saga are found, the
  -- payment has no event waiting and the saga is not compensating: a payment that is not open is
  -- never settled again, whatever is paid, for the handler throws and the world stays as it was.
  pub pay_for_order_settled :
      payment.state ≢ PaymentState.opened
      → ((pay_for_order id amount now (calm db stock jobs bus)).1 ≡ calm db stock jobs bus)
        × (is_ok (pay_for_order id amount now (calm db stock jobs bus)).0 ≡ false)
  unfolding pay_for_order
  pay_for_order_settled st = ground arith

module _ (id : UniqueId) (now : ℕ) (db : Db) (stock : Stock) (jobs : List Job) (bus : List Event)
    (payment : Payment) (saga : Saga)
    (found : find_row (λ p. p.order_id == id) db.payments ≡ some payment)
    (tracked : find_row (λ s. s.correlation_id == id) db.sagas ≡ some saga)
    (forward : saga.is_compensating ≡ false) where
  -- Where nothing of the outside world fails, a payment of the order and its saga are found and the
  -- saga is not compensating: the open payment of a canceled order is stored as canceled, and the
  -- saga says so.
  pub cancel_payment_opened :
      payment.state ≡ PaymentState.opened
      → cancel_payment_for_canceled_order id now (calm db stock jobs bus) ≡ (
        ok tt,
        calm
            (record db {
              payments =
                  insert payment.id
                    (stored_payment (record payment { state = PaymentState.canceled }))
                    db.payments;
              sagas =
                  insert saga.id
                    (record saga {
                      current_step = Step.payment_canceled;
                      retries = 0;
                      updated_at = now;
                    })
                    db.sagas;
            })
            stock
            jobs
            bus,
      )
  unfolding cancel_payment_for_canceled_order
  cancel_payment_opened st = ground arith

  -- In the same setting, a payment that is canceled is left as it is, and a paid or failed one is
  -- refused: either way the world stays as it was.
  pub cancel_payment_settled :
      payment.state ≢ PaymentState.opened
      → cancel_payment_for_canceled_order id now (calm db stock jobs bus) ≡ (
        (if is_canceled payment.state then ok tt else err payment_transition),
        calm db stock jobs bus,
      )
  unfolding cancel_payment_for_canceled_order
  cancel_payment_settled st = ground arith
