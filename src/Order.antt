-- ===== src/Order.antt =====
-- The order aggregate with its states (server/src/core/domain/order). The events that `apply`
-- records wait in the order until `commit` publishes them. A state object has no data, so it is the
-- enumerated state, and its methods are functions by clauses on it.
pub mod Line
pub mod Graph
pub mod Total
use shopping_cart.Prelude.{
  ℕ, suc, ◌+◌, Bool, true, false, Option, none, some, List, [], ◌∷◌, ◌++◌, is_empty, if◌then◌else◌,
  pos, Result, ok, err, empty_order, order_transition, invoice_of_canceled, ◌>>=◌, ◌>>◌, throw_if,
}
use shopping_cart.Shared.UniqueId.{UniqueId}
use shopping_cart.Shared.UniqueId
use shopping_cart.Shared.Quantity.{Quantity, int}
use shopping_cart.Shared.Price.{Price, number, whole}
use shopping_cart.Shared.Price
use shopping_cart.Shared.Text.{Text}
use shopping_cart.Event.{Event, order_created, order_canceled}
use shopping_cart.Order.Line.{OrderLine}
use shopping_cart.Order.Line

pub data OrderState : Type 0 where
  pending awaiting_payment completed canceled failed : OrderState

pub record Order : Type 0 where
  pub id : UniqueId
  pub customer_id : UniqueId
  pub coupon_id : Option UniqueId
  pub order_lines : List OrderLine
  pub state : OrderState
  pub invoice_path : Option Text
  pub canceled_at : Option ℕ
  pub completed_at : Option ℕ
  pub created_at : ℕ
  pub updated_at : ℕ
  pub events : List Event

-- `SelectedProduct`: the fields that `create` reads
pub record SelectedProduct : Type 0 where
  pub product_id : UniqueId
  pub quantity : Quantity
  pub price_at_time_of_order : Price

-- the `reduce` of `getTotalPrice`
unfoldable pub sum_lines : Price → List OrderLine → Result Price
unfolding Price.add Price.multiply
sum_lines total [] = ok total
sum_lines total (line ∷ lines) = do
  part ← Price.multiply line.price_at_time_of_order (whole (pos line.quantity))
  total' ← Price.add total part
  sum_lines total' lines

unfoldable pub total_of : List OrderLine → Result Price
unfolding sum_lines Price.create_default
total_of lines = do zero_price ← Price.create_default (number (pos 0)); sum_lines zero_price lines

abbrev pub get_total_price : Order → Result Price
get_total_price order = total_of order.order_lines

-- the `map` of `create`; the line at place i takes the fresh id `fresh i`
unfoldable pub create_lines :
    UniqueId → List SelectedProduct → (ℕ → UniqueId) → ℕ → Result (List OrderLine)
unfolding Line.create
create_lines order_id [] fresh now = ok []
create_lines order_id (s ∷ ss) fresh now = do
  line ←
      Line.create order_id s.product_id s.product_id (int (pos s.quantity))
        (number (pos s.price_at_time_of_order.amount)) (fresh 0) now
  lines ← create_lines order_id ss (λ i. fresh (suc i)) now
  ok (line ∷ lines)

-- `this.apply(event)` of the framework's AggregateRoot, which nothing has merged yet
abbrev pub apply : Event → Order → Order
apply event order = record order { events = order.events ++ event ∷ [] }

unfoldable pub create :
    UniqueId → List SelectedProduct → Option UniqueId → UniqueId → (ℕ → UniqueId) → ℕ → Result Order
unfolding create_lines total_of
create customer_id data_lines coupon_id fresh fresh_lines now = do
  let order_id = UniqueId.create none fresh
  throw_if (is_empty data_lines) empty_order
  lines ← create_lines order_id data_lines fresh_lines now
  total ← total_of lines
  ok (
      apply (order_created order_id customer_id lines total) (record {
        id = order_id;
        customer_id = customer_id;
        coupon_id = coupon_id;
        order_lines = lines;
        state = pending;
        invoice_path = none;
        canceled_at = none;
        completed_at = none;
        created_at = now;
        updated_at = now;
        events = [];
      }))

-- `setCompletedAt`, `setCanceledAt` and `setState`
abbrev pub set_completed_at : ℕ → Order → Order
set_completed_at date order = record order { completed_at = some date }

abbrev pub set_canceled_at : ℕ → Order → Order
set_canceled_at date order = record order { canceled_at = some date }

abbrev pub set_state : OrderState → Order → Order
set_state state order = record order { state = state }

-- `IOrderState.complete`, by the class of the state
unfoldable pub state_complete : OrderState → ℕ → Order → Result Order
state_complete awaiting_payment now order = ok (set_state completed (set_completed_at now order))
state_complete pending now order = err order_transition
state_complete completed now order = err order_transition
state_complete canceled now order = err order_transition
state_complete failed now order = err order_transition

unfoldable pub state_cancel : OrderState → ℕ → Order → Result Order
state_cancel pending now order = ok (set_state canceled (set_canceled_at now order))
state_cancel awaiting_payment now order = ok (set_state canceled (set_canceled_at now order))
state_cancel completed now order = err order_transition
state_cancel canceled now order = err order_transition
state_cancel failed now order = err order_transition

unfoldable pub state_fail : OrderState → Order → Result Order
state_fail pending order = ok (set_state failed order)
state_fail awaiting_payment order = ok (set_state failed order)
state_fail completed order = err order_transition
state_fail canceled order = err order_transition
state_fail failed order = err order_transition

unfoldable pub state_mark_as_await_payment : OrderState → Order → Result Order
state_mark_as_await_payment pending order = ok (set_state awaiting_payment order)
state_mark_as_await_payment awaiting_payment order = err order_transition
state_mark_as_await_payment completed order = err order_transition
state_mark_as_await_payment canceled order = err order_transition
state_mark_as_await_payment failed order = err order_transition

unfoldable pub complete_order : ℕ → Order → Result Order
unfolding state_complete
complete_order now order = do
  order' ← state_complete order.state now order
  ok (record order' { updated_at = now })

unfoldable pub cancel_order : Option UniqueId → ℕ → Order → Result Order
unfolding state_cancel
cancel_order payment_id now order = do
  order' ← state_cancel order.state now order
  ok (
      apply (order_canceled order'.id order'.order_lines payment_id)
        (record order' { updated_at = now }))

unfoldable pub mark_as_fail : ℕ → Order → Result Order
unfolding state_fail
mark_as_fail now order = do
  order' ← state_fail order.state order
  ok (record order' { updated_at = now })

unfoldable pub mark_as_await_payment : ℕ → Order → Result Order
unfolding state_mark_as_await_payment
mark_as_await_payment now order = do
  order' ← state_mark_as_await_payment order.state order
  ok (record order' { updated_at = now })

abbrev pub is_canceled : OrderState → Bool
is_canceled canceled = true
is_canceled _ = false

unfoldable pub set_invoice_path : Text → ℕ → Order → Result Order
set_invoice_path path now order = do
  throw_if (is_canceled order.state) invoice_of_canceled
  ok (record order { invoice_path = some path; updated_at = now })
