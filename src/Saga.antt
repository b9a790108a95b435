-- ===== src/Saga.antt =====
-- The saga instance, which records how far the processing of an order has come
-- (server/src/core/domain/saga).
pub mod Reservation
pub mod Progress
use shopping_cart.Prelude.{
  ℕ, ◌+◌, Bool, true, false, not, Option, none, some, List, [], ◌∷◌, ◌++◌, any, ◌==◌, if◌then◌else◌,
  or_else, Result, ok, err, saga_compensating, wrong_saga_type, ◌>>=◌, ◌>>◌, throw_if, pos,
}
use shopping_cart.Shared.UniqueId.{UniqueId}
use shopping_cart.Shared.UniqueId
use shopping_cart.Shared.Quantity.{Quantity, int}
use shopping_cart.Shared.Quantity
use shopping_cart.Event.{ProductLine}

-- `SagaType` has one member; a row may hold another text, which the mapper only casts.
pub data SagaType : Type 0 where
  place_order unknown : SagaType

-- `OrderProcessingSagaStep`
pub data Step : Type 0 where
  initiated inventory_reserving inventory_reserved inventory_compensating : Step
  inventory_compensated inventory_reserve_failed : Step
  payment_created payment_processing payment_succeeded payment_failed payment_canceled : Step
  order_creating order_created order_canceled order_completed order_failed : Step

-- The texts of failure reasons that the program writes: there is one, "Order failed".
pub data Reason : Type 0 where
  order_failed_reason : Reason

-- `OrderProcessingSagaPayload`
pub record Payload : Type 0 where
  pub customer_id : UniqueId
  pub order_lines : List ProductLine
  pub reserved_order_lines : List ProductLine
  pub total_price : ℕ
  pub order_id : UniqueId
  pub payment_id : Option UniqueId
  pub failure_reason : Option Reason

pub record Saga : Type 0 where
  pub id : UniqueId
  pub saga_type : SagaType
  pub correlation_id : UniqueId
  pub current_step : Step
  pub payload : Payload
  pub is_compensating : Bool
  pub retries : ℕ
  pub created_at : ℕ
  pub updated_at : ℕ

pub record SagaProps : Type 0 where
  pub id : UniqueId
  pub saga_type : SagaType
  pub correlation_id : UniqueId
  pub current_step : Step
  pub payload : Payload
  pub is_compensating : Option Bool
  pub retries : Option ℕ
  pub created_at : Option ℕ
  pub updated_at : Option ℕ

-- the constructor, which is also `reconstitute`; `??` is `or_else`
unfoldable pub reconstitute : SagaProps → ℕ → Saga
reconstitute props now = record {
  id = props.id;
  saga_type = props.saga_type;
  correlation_id = props.correlation_id;
  current_step = props.current_step;
  payload = props.payload;
  is_compensating = or_else props.is_compensating false;
  retries = or_else props.retries 0;
  created_at = or_else props.created_at now;
  updated_at = or_else props.updated_at now;
}

unfoldable pub create : SagaType → UniqueId → Payload → Step → UniqueId → ℕ → Saga
unfolding reconstitute
create saga_type correlation_id initial_payload initial_step fresh now =
    reconstitute
      (record {
        id = UniqueId.create none fresh;
        saga_type = saga_type;
        correlation_id = correlation_id;
        current_step = initial_step;
        payload = initial_payload;
        is_compensating = none;
        retries = none;
        created_at = none;
        updated_at = none;
      })
      now

-- `Partial<payload>`: a field that is given takes the place of the old one.
pub record Patch : Type 0 where
  pub customer_id : Option UniqueId
  pub order_lines : Option (List ProductLine)
  pub reserved_order_lines : Option (List ProductLine)
  pub total_price : Option ℕ
  pub order_id : Option UniqueId
  pub payment_id : Option (Option UniqueId)
  pub failure_reason : Option (Option Reason)

-- `{ ...this.payload, ...updatedPayload }`
abbrev pub merge : Payload → Patch → Payload
merge payload patch = record {
  customer_id = or_else patch.customer_id payload.customer_id;
  order_lines = or_else patch.order_lines payload.order_lines;
  reserved_order_lines = or_else patch.reserved_order_lines payload.reserved_order_lines;
  total_price = or_else patch.total_price payload.total_price;
  order_id = or_else patch.order_id payload.order_id;
  payment_id = or_else patch.payment_id payload.payment_id;
  failure_reason = or_else patch.failure_reason payload.failure_reason;
}

abbrev pub merge_if : Payload → Option Patch → Payload
merge_if payload none = payload
merge_if payload (some patch) = merge payload patch

unfoldable pub advance_step : Step → Option Patch → ℕ → Saga → Result Saga
advance_step next_step updated_payload now saga = do
  throw_if saga.is_compensating saga_compensating
  ok (record saga {
    current_step = next_step;
    payload = merge_if saga.payload updated_payload;
    retries = 0;
    updated_at = now;
  })

abbrev pub increment_retry : ℕ → Saga → Saga
increment_retry now saga = record saga { retries = saga.retries + 1; updated_at = now }

unfoldable pub complete : Step → ℕ → Saga → Saga
complete final_step now saga = record saga {
  current_step = final_step;
  is_compensating = false;
  updated_at = now;
}

unfoldable pub fail : Reason → Step → ℕ → Saga → Saga
fail reason final_step now saga =
    let payload = record (saga.payload) { failure_reason = some reason } in
    record saga {
      current_step = final_step;
      payload = payload;
      is_compensating = false;
      updated_at = now;
    }

unfoldable pub complete_rollback : Step → ℕ → Saga → Saga
complete_rollback final_step now saga = record saga {
  current_step = final_step;
  is_compensating = false;
  updated_at = now;
}

-- `this.sagaType !== SagaType.PLACE_ORDER`
abbrev pub is_wrong : SagaType → Bool
is_wrong place_order = false
is_wrong unknown = true

unfoldable pub mark_line_as_reserve : ProductLine → Saga → Result Saga
mark_line_as_reserve order_line saga = do
  throw_if (is_wrong saga.saga_type) wrong_saga_type
  let lines = saga.payload.reserved_order_lines ++ order_line ∷ []
  let payload = record (saga.payload) { reserved_order_lines = lines }
  ok (record saga { payload = payload })

-- `reservedProductIds.has(productId)`
abbrev pub has_product : UniqueId → List ProductLine → Bool
has_product p lines = any (λ l. l.product_id == p) lines

-- the loop of `getNextLineToReserve`
unfoldable pub first_unreserved : List ProductLine → List ProductLine → Result (Option ProductLine)
unfolding Quantity.create
first_unreserved reserved [] = ok none
first_unreserved reserved (line ∷ lines) =
    if has_product line.product_id reserved then first_unreserved reserved lines else (do
      q ← Quantity.create (int (pos line.quantity))
      ok (some (record { product_id = line.product_id; quantity = q })))

unfoldable pub get_next_line_to_reserve : Saga → Result (Option ProductLine)
unfolding first_unreserved
get_next_line_to_reserve saga = do
  throw_if (is_wrong saga.saga_type) wrong_saga_type
  first_unreserved saga.payload.reserved_order_lines saga.payload.order_lines

unfoldable pub get_successfully_reserved_order_lines : Saga → Result (List ProductLine)
get_successfully_reserved_order_lines saga = do
  throw_if (is_wrong saga.saga_type) wrong_saga_type
  ok saga.payload.reserved_order_lines
