-- ===== src/Tests/Data.antt =====
-- Test data: an order of two products and the world around it.
use shopping_cart.Prelude.{ℕ, false, none, List, [], ◌∷◌, Dict, ℤ, pos}
use shopping_cart.Shared.UniqueId.{UniqueId}
use shopping_cart.Shared.Price.{Price, usd}
use shopping_cart.Event.{ProductLine}
use shopping_cart.Order.{Order, OrderState}
use shopping_cart.Order.Line.{OrderLine}
use shopping_cart.Order
use shopping_cart.Payment.{Payment, PaymentState}
use shopping_cart.Saga.{Saga, SagaType, Step}
use shopping_cart.Inventory.{Inventory}
use shopping_cart.Store.{Db}

-- The price of n units, of which an amount counts.
abbrev pub dollars_of : ℕ → Price
dollars_of n = record { amount = n; currency = usd }

abbrev pub line_of : UniqueId → ℕ → ProductLine
line_of p q = record { product_id = p; quantity = q }

abbrev pub cups : ProductLine
cups = line_of 10 2

abbrev pub plates : ProductLine
plates = line_of 11 3

abbrev pub order_line : UniqueId → ProductLine → ℕ → OrderLine
order_line id line price = record {
  id = id;
  order_id = 1;
  product_id = line.product_id;
  quantity = line.quantity;
  description = none;
  created_at = 5;
  updated_at = 5;
  price_at_time_of_order = dollars_of price;
}

abbrev pub order_lines : List OrderLine
order_lines = order_line 21 cups 7 ∷ order_line 22 plates 4 ∷ []

abbrev pub order_in : OrderState → Order
order_in state = record {
  id = 1;
  customer_id = 2;
  coupon_id = none;
  order_lines = order_lines;
  state = state;
  invoice_path = none;
  canceled_at = none;
  completed_at = none;
  created_at = 5;
  updated_at = 5;
  events = [];
}

abbrev pub saga : Saga
saga = record {
  id = 31;
  saga_type = SagaType.place_order;
  correlation_id = 1;
  current_step = Step.initiated;
  payload = record {
    customer_id = 2;
    order_lines = cups ∷ plates ∷ [];
    reserved_order_lines = [];
    total_price = 26;
    order_id = 1;
    payment_id = none;
    failure_reason = none;
  };
  is_compensating = false;
  retries = 0;
  created_at = 5;
  updated_at = 5;
}

abbrev pub payment_in : PaymentState → Payment
payment_in state = record {
  id = 41;
  order_id = 1;
  state = state;
  total_item_price = dollars_of 26;
  failed_at = none;
  paid_at = none;
  events = [];
}

abbrev pub shelf : Inventory
shelf = record {
  id = 51;
  product_id = 10;
  quantity = 5;
  created_at = 3;
  updated_at = 3;
  version = 1;
}

abbrev pub db_in : OrderState → PaymentState → Db
db_in order_state payment_state = record {
  orders = (1, order_in order_state) ∷ [];
  payments = (41, payment_in payment_state) ∷ [];
  sagas = (31, saga) ∷ [];
  inventories = (51, shelf) ∷ [];
  products = [];
  carts = [];
}

abbrev pub unpaid_db : Db
unpaid_db = record {
  orders = (1, order_in Order.pending) ∷ [];
  payments = [];
  sagas = (31, saga) ∷ [];
  inventories = [];
  products = [];
  carts = [];
}

-- Five cups and four plates, or no plate but one.
abbrev pub full_stock : Dict ℤ
full_stock = (10, pos 5) ∷ (11, pos 4) ∷ []

abbrev pub short_stock : Dict ℤ
short_stock = (10, pos 5) ∷ (11, pos 1) ∷ []
