-- ===== src/Payment.antt =====
-- The payment aggregate with its states (server/src/core/domain/payment). A state object has no
-- data, so it is the enumerated state, and its methods are functions by clauses on it.
pub mod Graph
use shopping_cart.Prelude.{
  ℕ, Option, none, some, List, [], ◌∷◌, ◌++◌, Result, ok, err, payment_transition, payment_already,
  ◌>>=◌,
}
use shopping_cart.Shared.UniqueId.{UniqueId}
use shopping_cart.Shared.UniqueId
use shopping_cart.Shared.Price.{Price}
use shopping_cart.Event.{Event, payment_paid, payment_failed}

pub data PaymentState : Type 0 where
  opened paid failed canceled : PaymentState

pub record Payment : Type 0 where
  pub id : UniqueId
  pub order_id : UniqueId
  pub state : PaymentState
  pub total_item_price : Price
  pub failed_at : Option ℕ
  pub paid_at : Option ℕ
  pub events : List Event

unfoldable pub create : UniqueId → Price → UniqueId → Payment
create order_id total_item_price fresh = record {
  id = UniqueId.create none fresh;
  order_id = order_id;
  state = opened;
  total_item_price = total_item_price;
  failed_at = none;
  paid_at = none;
  events = [];
}

-- `setState`, `setPaidAt` and `setFailedAt`
abbrev pub set_state : PaymentState → Payment → Payment
set_state state payment = record payment { state = state }

abbrev pub set_paid_at : ℕ → Payment → Payment
set_paid_at date payment = record payment { paid_at = some date }

abbrev pub set_failed_at : ℕ → Payment → Payment
set_failed_at date payment = record payment { failed_at = some date }

-- `this.apply(event)` of the framework's AggregateRoot; `commit` publishes what waits
abbrev pub apply : Event → Payment → Payment
apply event payment = record payment { events = payment.events ++ event ∷ [] }

unfoldable pub state_pay : PaymentState → ℕ → Payment → Result Payment
state_pay opened now payment = ok (set_paid_at now (set_state paid payment))
state_pay paid now payment = err payment_already
state_pay failed now payment = err payment_transition
state_pay canceled now payment = err payment_transition

unfoldable pub state_fail : PaymentState → ℕ → Payment → Result Payment
state_fail opened now payment = ok (set_failed_at now (set_state failed payment))
state_fail paid now payment = err payment_transition
state_fail failed now payment = err payment_already
state_fail canceled now payment = err payment_transition

unfoldable pub state_cancel : PaymentState → Payment → Result Payment
state_cancel opened payment = ok (set_state canceled payment)
state_cancel paid payment = err payment_transition
state_cancel failed payment = err payment_transition
state_cancel canceled payment = err payment_already

-- `open()`, which no state allows
unfoldable pub state_open : PaymentState → Payment → Result Payment
state_open opened payment = err payment_already
state_open paid payment = err payment_transition
state_open failed payment = err payment_transition
state_open canceled payment = err payment_transition

unfoldable pub mark_as_paid : ℕ → Payment → Result Payment
unfolding state_pay
mark_as_paid now payment = do
  payment' ← state_pay payment.state now payment
  ok (apply (payment_paid payment'.id payment'.order_id) payment')

unfoldable pub mark_as_failed : ℕ → Payment → Result Payment
unfolding state_fail
mark_as_failed now payment = do
  payment' ← state_fail payment.state now payment
  ok (apply (payment_failed payment'.id payment'.order_id) payment')

unfoldable pub cancel : Payment → Result Payment
unfolding state_cancel
cancel payment = state_cancel payment.state payment
