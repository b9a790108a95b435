-- ===== src/Store/State.antt =====
-- The records of the world, and what a table keeps of an aggregate.
use shopping_cart.Prelude.{ℕ, Bool, Option, none, List, [], ◌∷◌, Dict}
use shopping_cart.Shared.UniqueId.{UniqueId}
use shopping_cart.Shared.Price.{Price, usd}
use shopping_cart.Cache.{Stock}
use shopping_cart.Event.{Event, ProductLine}
use shopping_cart.Inventory.{Inventory}
use shopping_cart.Order.Line.{OrderLine}
use shopping_cart.Order.{Order}
use shopping_cart.Payment.{Payment}
use shopping_cart.Saga.{Saga}

-- `QueueJobName` with its data
pub data Job : Type 0 where
  reserve_job compensate_job : ProductLine → Job

-- `CartItemSchema` and `CartSchema` with its items
pub record CartItemRow : Type 0 where
  pub uuid : UniqueId
  pub product_id : UniqueId
  pub quantity : ℕ
  pub price : ℕ

pub record CartRow : Type 0 where
  pub uuid : UniqueId
  pub customer_id : UniqueId
  pub created_at : ℕ
  pub updated_at : ℕ
  pub cart_items : List CartItemRow

-- Products are only read, so a product is its price.
pub record Db : Type 0 where
  pub orders : Dict Order
  pub payments : Dict Payment
  pub sagas : Dict Saga
  pub inventories : Dict Inventory
  pub products : Dict Price
  pub carts : Dict CartRow

pub record World : Type 0 where
  pub db : Db
  -- the database as it was when the transaction began, while one is active
  pub transaction : Option Db
  pub stock : Stock
  pub jobs : List Job
  pub bus : List Event
  pub faults : List Bool

-- A world with no transaction in which nothing will fail.
abbrev pub calm : Db → Stock → List Job → List Event → World
calm db stock jobs bus = record {
  db = db;
  transaction = none;
  stock = stock;
  jobs = jobs;
  bus = bus;
  faults = [];
}

-- `toDomain` after `toPersistence` of PersistenceOrderMapper: a price comes back in the default
-- currency.
abbrev pub stored_line : OrderLine → OrderLine
stored_line line = record line {
  price_at_time_of_order = record { amount = line.price_at_time_of_order.amount; currency = usd };
}

abbrev pub stored_lines : List OrderLine → List OrderLine
stored_lines [] = []
stored_lines (l ∷ ls) = stored_line l ∷ stored_lines ls

abbrev pub stored_order : Order → Order
stored_order order = record order {
  coupon_id = none;
  order_lines = stored_lines order.order_lines;
  invoice_path = none;
  canceled_at = none;
  completed_at = none;
  events = [];
}

-- the same of PersistencePaymentMapper
abbrev pub stored_payment : Payment → Payment
stored_payment payment = record payment {
  total_item_price = record { amount = payment.total_item_price.amount; currency = usd };
  events = [];
}
