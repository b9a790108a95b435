-- ===== src/Orchestrator.antt =====
-- The saga orchestrator (server/src/core/application/saga/orchestrator): which command follows
-- which event, and the event bus, which handles the published events in their order.
pub mod Lines
pub mod Reserve
pub mod Lineup
pub mod Release
pub mod Ending
pub mod Placement
pub mod Fault
pub mod Settlement
pub mod Payoff
pub mod Cancel
use shopping_cart.Prelude.{ℕ, zero, suc, Bool, Option, none, some, List, [], ◌∷◌, Result, ok, err}
use shopping_cart.Shared.UniqueId.{UniqueId}
use shopping_cart.Event
use shopping_cart.Event.{Event, ProductLine}
use shopping_cart.Order.Line.{OrderLine}
use shopping_cart.Handlers.Orders.{product_line}
use shopping_cart.Handlers.Orders
use shopping_cart.Handlers.Payments
use shopping_cart.Handlers.Stock
use shopping_cart.Store.{Action, World, pure, ◌>>=◌, ◌>>◌}

pub data Command : Type 0 where
  reserve_inventory_v2 : UniqueId → Option ProductLine → Command
  initiate_payment mark_order_awaiting_payment release_product_reservation : UniqueId → Command
  mark_order_fail cancel_payment_for_canceled_order cancel_order mark_order_as_complete :
      UniqueId → Command
  compensate_order_inventory : UniqueId → List ProductLine → Command

-- `event.orderLines[0]`
abbrev pub first_line : List OrderLine → Option ProductLine
first_line [] = none
first_line (l ∷ ls) = some (product_line l)

abbrev pub product_lines : List OrderLine → List ProductLine
product_lines [] = []
product_lines (l ∷ ls) = product_line l ∷ product_lines ls

-- The ten sagas: each listens to one class of events.
unfoldable pub react : Event → Command
react (Event.order_created id customer lines total) = reserve_inventory_v2 id (first_line lines)
react (Event.product_reserved id next) = reserve_inventory_v2 id (some next)
react (Event.inventory_reserved id) = initiate_payment id
react (Event.payment_initiated id) = mark_order_awaiting_payment id
react (Event.inventory_reservation_failed id) = release_product_reservation id
react (Event.reservation_released id) = mark_order_fail id
react (Event.order_canceled id lines payment) = compensate_order_inventory id (product_lines lines)
react (Event.inventory_compensated id) = cancel_payment_for_canceled_order id
react (Event.payment_failed payment id) = cancel_order id
react (Event.payment_paid payment id) = mark_order_as_complete id

-- The command bus; `fresh` is the id that a handler may make.
unfoldable pub dispatch : Command → UniqueId → ℕ → Action (Unit {0})
dispatch (reserve_inventory_v2 id line) fresh now = Stock.reserve_inventory_v2 id line now
dispatch (initiate_payment id) fresh now = Payments.initiate_payment id fresh now
dispatch (mark_order_awaiting_payment id) fresh now = Orders.mark_order_awaiting_payment id now
dispatch (release_product_reservation id) fresh now = Stock.release_product_reservation id now
dispatch (mark_order_fail id) fresh now = Orders.mark_order_fail id now
dispatch (cancel_payment_for_canceled_order id) fresh now =
    Payments.cancel_payment_for_canceled_order id now
dispatch (cancel_order id) fresh now = Orders.cancel_order id now
dispatch (mark_order_as_complete id) fresh now = Orders.mark_order_as_complete id now
dispatch (compensate_order_inventory id lines) fresh now =
    Stock.compensate_order_inventory id lines now

-- One event is taken from the bus, and its command is run. What the command throws is reported and
-- does not come back to the bus. Each command runs in a unit of work of its own.
unfoldable pub deliver : UniqueId → ℕ → World → World
unfolding dispatch react
deliver fresh now w = elim w.bus [
  | [] ↦ w
  | event ∷ rest ↦ (dispatch (react event) fresh now (record w { bus = rest })).1
]

-- `n` deliveries, the i-th with the fresh id `fresh i`
unfoldable pub run : ℕ → (ℕ → UniqueId) → ℕ → World → World
unfolding deliver
run zero fresh now w = w
run (suc n) fresh now w = run n (λ i. fresh (suc i)) now (deliver (fresh 0) now w)
