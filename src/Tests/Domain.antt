-- ===== src/Tests/Domain.antt =====
-- The domain objects at concrete inputs.
use shopping_cart.Prelude.{
  ◌≡◌, ◌↔◌, refl, true, false, none, some, List, [], ◌∷◌, ok, inr, arith, is_ok,
  product_not_in_cart,
}
use shopping_cart.Event.{order_created}
use shopping_cart.Cart.{
  Cart, add_cart_item, remove_cart_item, update_item_quantity, initialize_cart, get_total_price,
  new_item,
}
use shopping_cart.Cart.View.{
  view, Leads, LeadsIf, IsValid, run, adds, removes, add_cart_item-view, remove_cart_item-view,
  update_item_quantity-view, run-initialize_cart-IsValid,
}
use shopping_cart.Cart.Total.{get_total_price-worth}
use shopping_cart.Order.{Order, SelectedProduct, pending, awaiting_payment, completed, total_of}
use shopping_cart.Order
use shopping_cart.Order.Line.{OrderLine}
use shopping_cart.Shared.Double
use shopping_cart.Shared.Text
use shopping_cart.Order.Graph as OrderGraph
use shopping_cart.Order.Total.{create-total, asked, dollars, cost, product_lines}
use shopping_cart.Saga.{Saga, SagaType, Step, advance_step, create}
use shopping_cart.Saga.Progress.{run-advance_step}
use shopping_cart.Saga.Progress
use shopping_cart.Handlers.Pricing.{price_lines}
use shopping_cart.Handlers.Pricing.Laws.{price_lines-once, at_price, zero_price}
use shopping_cart.Lock.{get, set_nx, Held}
use shopping_cart.Lock.Exclusion.{run_held, set_nx-release, acquires, releases}
use shopping_cart.Lock.Exclusion as Exclusion
use shopping_cart.Tests.Data.{cups, plates, line_of, order_line, order_in, saga, dollars_of}

price_lines-once_example :
    price_lines ((10, dollars_of 7) ∷ []) (line_of 10 2 ∷ line_of 11 1 ∷ line_of 10 3 ∷ [])
    ≡ ok (
        at_price (line_of 10 2) (dollars_of 7)
        ∷ at_price (line_of 11 1) zero_price
        ∷ at_price (line_of 10 3) zero_price
        ∷ [])
price_lines-once_example =
    price_lines-once ((10, dollars_of 7) ∷ []) (line_of 10 2 ∷ line_of 11 1 ∷ line_of 10 3 ∷ [])
      (refl, tt)

perform_iff_example :
    (is_ok (OrderGraph.perform (OrderGraph.completes 9) (order_in pending)) ≡ true)
    ↔ OrderGraph.◌⟶◌ pending completed
perform_iff_example = OrderGraph.perform_iff (OrderGraph.completes 9) (order_in pending)

abbrev selected : List SelectedProduct
selected = at_price cups (dollars_of 7) ∷ at_price plates (dollars_of 4) ∷ []

abbrev placed_lines : List OrderLine
placed_lines =
    record (order_line 0 cups 7) { description = some 10; created_at = 9; updated_at = 9 }
    ∷ record (order_line 1 plates 4) { description = some 11; created_at = 9; updated_at = 9 }
    ∷ []

abbrev placed : Order
placed = record (order_in pending) {
  order_lines = placed_lines;
  created_at = 9;
  updated_at = 9;
  events = order_created 1 2 placed_lines (dollars_of 26) ∷ [];
}

run-create-IsDated_example :
    OrderGraph.IsDated (OrderGraph.run (OrderGraph.awaits 8 ∷ OrderGraph.completes 9 ∷ []) placed)
unfolding Order.create Order.total_of Text.is_space Double.is_nan_product Double.infinity
    Double.plus Double.times
run-create-IsDated_example =
    OrderGraph.run-create-IsDated 2 selected none 1 (λ i. i) 9 placed
      (OrderGraph.awaits 8 ∷ OrderGraph.completes 9 ∷ []) refl

-- Three times 0.1, in units of 2 ^ -55, is not a double: it is rounded to 0.30000000000000004.
times-tenth : Double.times 3602879701896397 3 ≡ 10808639105689192
unfolding Double.times Double.infinity
times-tenth = refl

create-total_example :
    (order : Order) × (Order.create 2 selected none 1 (λ i. i) 9 ≡ ok order)
    × (order.state ≡ pending)
    × (product_lines order.order_lines ≡ asked selected)
    × (total_of order.order_lines ≡ ok (dollars (cost selected)))
    × (order.events ≡ order_created 1 2 order.order_lines (dollars (cost selected)) ∷ [])
create-total_example =
    create-total 0 2 selected none 1 (λ i. i) 9 (λ e. absurd (ground arith)) (omega arith)
      (((7, refl), omega arith), (((4, refl), omega arith), tt)) (omega arith)

abbrev cart : Cart
cart = record {
  id = 61;
  cart_items = new_item none 61 10 2 (dollars_of 7) 62 ∷ [];
  customer_id = 2;
  created_at = 5;
  updated_at = 5;
}

add_cart_item-view_example :
    Leads
      (add_cart_item 10 3 (dollars_of 9) 63 6 cart)
      cart
      (λ c. view c 10 ≡ some (5, dollars_of 7))
add_cart_item-view_example = add_cart_item-view 10 3 (dollars_of 9) 63 6 cart 10

remove_cart_item-view_example :
    LeadsIf none
      (product_not_in_cart 11)
      (remove_cart_item 11 6 cart)
      cart
      (λ c. view c 10 ≡ some (2, dollars_of 7))
remove_cart_item-view_example = remove_cart_item-view 11 6 cart 10

update_item_quantity-view_example :
    Leads (update_item_quantity 10 4 6 cart) cart (λ c. view c 10 ≡ some (4, dollars_of 7))
update_item_quantity-view_example = update_item_quantity-view 10 4 6 cart 10

run-initialize_cart-IsValid_example : IsValid (
    run
      (adds 10 2 (dollars_of 7) 62 6 ∷ adds 10 1 (dollars_of 7) 63 7 ∷ removes 11 8 ∷ [])
      (initialize_cart 2 61 5))
run-initialize_cart-IsValid_example =
    run-initialize_cart-IsValid
      (adds 10 2 (dollars_of 7) 62 6 ∷ adds 10 1 (dollars_of 7) 63 7 ∷ removes 11 8 ∷ []) 2 61 5

get_total_price-worth_example : get_total_price cart ≡ ok (dollars_of 14)
get_total_price-worth_example =
    get_total_price-worth 0 cart (omega arith) (refl, tt) (((7, refl), omega arith), tt)
      (omega arith)

abbrev twice : Saga
twice = record saga {
  payload = record (saga.payload) {
    order_lines = line_of 10 2 ∷ line_of 10 3 ∷ [];
    reserved_order_lines = line_of 10 2 ∷ [];
  };
}

run-advance_step_example :
    ((Progress.run
        (Progress.marks cups ∷ [])
        (create SagaType.place_order 1 saga.payload Step.initiated 31 5)).is_compensating
      ≡ false)
    × (is_ok (
          advance_step Step.inventory_reserved none 9 (
            Progress.run
              (Progress.marks cups ∷ [])
              (create SagaType.place_order 1 saga.payload Step.initiated 31 5)))
        ≡ true)
run-advance_step_example =
    run-advance_step SagaType.place_order 1 saga.payload Step.initiated Step.inventory_reserved 31 5
      9 (Progress.marks cups ∷ [])

abbrev held : Held
held = record { holder = 71; expires = 20 }

run_held_example :
    (get 3 12
        (Exclusion.run ((10, acquires 3 72 30) ∷ (11, releases 3 72) ∷ []) ((3, some held) ∷ []))
      ≡ some 71)
    × ((set_nx 3 73 5 12 (
          Exclusion.run
            ((10, acquires 3 72 30) ∷ (11, releases 3 72) ∷ [])
            ((3, some held) ∷ []))).0
        ≡ false)
run_held_example =
    run_held 3 held ((10, acquires 3 72 30) ∷ (11, releases 3 72) ∷ []) ((3, some held) ∷ []) 73 5
      12 refl (omega arith, tt, (omega arith, inr (λ e. absurd (ground arith)), tt)) (omega arith)
