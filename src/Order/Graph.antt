-- ===== src/Order/Graph.antt =====
-- The transition diagram of an order, and what holds along every history of method calls.
use shopping_cart.Prelude.{
  ℕ, ◌≡◌, refl, Bool, true, false, Option, none, some, List, [], ◌∷◌, Result, ok, err,
  order_transition, arith, is_ok, ◌↔◌, inl, inr, Result-cases, throw_if, is_empty, empty_order,
  >>-eq-ok, >>=-eq-ok,
}
use shopping_cart.Shared.UniqueId.{UniqueId}
use shopping_cart.Order.{
  SelectedProduct, create, create_lines, total_of, OrderState, pending, awaiting_payment, completed,
  canceled, failed, Order, is_canceled, complete_order, cancel_order, mark_as_fail,
  mark_as_await_payment,
}

infix 40 ◌⟶◌
pub data ◌⟶◌ : OrderState → OrderState → Type 0 where
  await : pending ⟶ awaiting_payment
  complete : awaiting_payment ⟶ completed
  cancel_pending : pending ⟶ canceled
  cancel_awaiting : awaiting_payment ⟶ canceled
  fail_pending : pending ⟶ failed
  fail_awaiting : awaiting_payment ⟶ failed

pub ruleset edges = (await, complete, cancel_pending, cancel_awaiting, fail_pending, fail_awaiting)

-- A call of one of the methods that change the state.
pub data Call : Type 0 where
  completes fails awaits : ℕ → Call
  cancels : Option UniqueId → ℕ → Call

abbrev pub perform : Call → Order → Result Order
perform (completes now) order = complete_order now order
perform (fails now) order = mark_as_fail now order
perform (awaits now) order = mark_as_await_payment now order
perform (cancels payment_id now) order = cancel_order payment_id now order

-- the state that the method of the call aims at
abbrev pub target : Call → OrderState
target (completes now) = completed
target (fails now) = failed
target (awaits now) = awaiting_payment
target (cancels payment_id now) = canceled

-- A call that succeeds follows an edge to the state of the method.
pub perform-⟶ :
    (c : Call) (order order' : Order)
    → perform c order ≡ ok order'
    → (order.state ⟶ target c) × (order'.state ≡ target c)
unfolding complete_order cancel_order mark_as_fail mark_as_await_payment
perform-⟶ c order order' h = grind (arith, edges)

edge_ok :
    {s t : OrderState}
    → s ⟶ t
    → (c : Call) (order : Order) → s ≡ order.state
    → t ≡ target c
    → is_ok (perform c order) ≡ true
unfolding complete_order cancel_order mark_as_fail mark_as_await_payment
edge_ok await c order e f = ground arith
edge_ok complete c order e f = ground arith
edge_ok cancel_pending c order e f = ground arith
edge_ok cancel_awaiting c order e f = ground arith
edge_ok fail_pending c order e f = ground arith
edge_ok fail_awaiting c order e f = ground arith

-- A method succeeds exactly when the diagram has an edge from the order's state to the state that
-- the method aims at.
pub perform_iff :
    (c : Call) (order : Order) → (is_ok (perform c order) ≡ true) ↔ (order.state ⟶ target c)
perform_iff c order = (
  λ h. elim (Result-cases (perform c order)) [
    | inl (order', e) ↦ (perform-⟶ c order order' e).0
    | inr (_, e) ↦ absurd (ground arith)
  ],
  λ edge. edge_ok edge c order refl refl,
)

-- The order after a call: one that throws leaves it.
abbrev pub after : Call → Order → Order
after c order = elim (perform c order) [ ok order' ↦ order' | err e ↦ order ]

abbrev pub run : List Call → Order → Order
run [] order = order
run (c ∷ cs) order = run cs (after c order)

abbrev pub is_terminal : OrderState → Bool
is_terminal pending = false
is_terminal awaiting_payment = false
is_terminal completed = true
is_terminal canceled = true
is_terminal failed = true

perform_terminal :
    (c : Call) (order : Order)
    → is_terminal order.state ≡ true
    → perform c order ≡ err order_transition
unfolding complete_order cancel_order mark_as_fail mark_as_await_payment
perform_terminal c order h = ground arith

-- A completed, canceled or failed order is never changed again, whatever is called.
pub run_terminal :
    (cs : List Call) (order : Order) → is_terminal order.state ≡ true → run cs order ≡ order
run_terminal [] order h = refl
run_terminal (c ∷ cs) order h =
    let same : after c order ≡ order = rw (perform_terminal c order h, after) in
    rw same (run_terminal cs order h)

abbrev pub is_completed : OrderState → Bool
is_completed completed = true
is_completed _ = false

abbrev pub is_some {ℓ} : {A : Type ℓ} → Option A → Bool
is_some none = false
is_some (some _) = true

-- The dates are set exactly in the states that they belong to.
pub record IsDated (order : Order) : Type 0 where
  pub completion : is_some order.completed_at ≡ is_completed order.state
  pub cancelation : is_some order.canceled_at ≡ is_canceled order.state

after-IsDated : (c : Call) (order : Order) → IsDated order → IsDated (after c order)
unfolding complete_order cancel_order mark_as_fail mark_as_await_payment
after-IsDated (completes now) order h = ground arith
after-IsDated (fails now) order h = ground arith
after-IsDated (awaits now) order h = ground arith
after-IsDated (cancels payment_id now) order h = ground arith

run-IsDated : (cs : List Call) (order : Order) → IsDated order → IsDated (run cs order)
run-IsDated [] order h = h
run-IsDated (c ∷ cs) order h = run-IsDated cs (after c order) (after-IsDated c order h)

create-IsDated :
    (customer_id : UniqueId) (ss : List SelectedProduct) (coupon_id : Option UniqueId)
    (fresh : UniqueId) (fresh_lines : ℕ → UniqueId) (now : ℕ) (order : Order)
    → create customer_id ss coupon_id fresh fresh_lines now ≡ ok order
    → IsDated order
unfolding create
create-IsDated customer_id ss coupon_id fresh fresh_lines now order h =
    let (_, h') = >>-eq-ok (throw_if (is_empty ss) empty_order) _ h in
    let (lines, _, h'') = >>=-eq-ok _ (create_lines fresh ss fresh_lines now) h' in
    let (total, _, made) = >>=-eq-ok _ (total_of lines) h'' in
    record { completion = ground arith; cancelation = ground arith }

-- Along every history of calls from its creation on, an order has a completion date exactly when it
-- is completed, and a cancelation date exactly when it is canceled.
pub run-create-IsDated :
    (customer_id : UniqueId) (ss : List SelectedProduct) (coupon_id : Option UniqueId)
    (fresh : UniqueId) (fresh_lines : ℕ → UniqueId) (now : ℕ) (order : Order) (cs : List Call)
    → create customer_id ss coupon_id fresh fresh_lines now ≡ ok order
    → IsDated (run cs order)
run-create-IsDated customer_id ss coupon_id fresh fresh_lines now order cs h =
    run-IsDated cs order (create-IsDated customer_id ss coupon_id fresh fresh_lines now order h)
