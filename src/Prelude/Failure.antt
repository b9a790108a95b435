-- ===== src/Prelude/Failure.antt =====
-- What the code throws, a result that may be thrown, and its `do` notation.
-- A constructor stands for an exception class and the call that throws it; texts are left out.
use Prim.Native.Nat.{ℕ}
use mathlib.Core.Path.{◌≡◌, refl}
use mathlib.Core.Logic.{◌⊎◌, inl, inr}
use mathlib.Core.Bool.{Bool, true, false}
use mathlib.Core.Option.{Option, none, some}

pub data Exception : Type 0 where
  -- InvalidArgumentException, by the check that fails
  argument_missing argument_nan argument_fractional argument_negative : Exception
  currency_empty currency_format currency_mismatch : Exception
  negative_version : Exception
  coupon_empty coupon_length coupon_letters coupon_type : Exception
  reduction_not_positive percentage_too_high base_negative : Exception
  -- PasswordOperationException and PasswordTooShortException
  hash_empty password_empty password_too_short password_letters : Exception
  -- ProductNotInCartException
  product_not_in_cart : ℕ → Exception
  -- InsufficientInventoryAvailableException
  insufficient_inventory : ℕ → ℕ → ℕ → Exception
  -- OrderException and OrderStateTransitionException
  empty_order order_transition invoice_of_canceled : Exception
  -- PaymentStateTransitionException and PaymentAlreadyInStateException
  payment_transition payment_already : Exception
  -- `Error('Unknown order state')`, `Error('Unknown payment state')`
  unknown_state : Exception
  -- the errors of SagaInstance
  saga_compensating wrong_saga_type : Exception
  -- NotFoundException, or an `Error` that says so
  order_not_found saga_not_found payment_not_found inventory_not_found : Exception
  product_not_found cart_not_found : Exception
  -- ConflictException, and the `Error` of `persistManyWithVersion`
  inventory_conflict version_not_found : Exception
  -- the unit of work
  transaction_not_started : Exception
  -- the idempotency key
  key_race key_missing key_check_failed in_progress previous_failure : Exception
  -- `Error('Failed to place order: ...')`, with the error caught
  place_order_failed : Exception → Exception
  -- BadRequestException, and the error of a cursor that cannot be decoded
  bad_request invalid_cursor : Exception
  -- a property of undefined is read
  type_error : Exception
  -- an error of the outside world: the database, Redis or the queue
  outage : Exception

pub data Result {ℓ} (A : Type ℓ) : Type ℓ where
  ok : A → Result A
  err : Exception → Result A

module _ {ℓ κ} {A : Type ℓ} {B : Type κ} where
  infixl 5 ◌>>=◌
  -- what follows a value that may be thrown instead
  abbrev pub ◌>>=◌ : Result A → (A → Result B) → Result B
  ok value >>= next = next value
  err thrown >>= next = err thrown

  -- A bind returns only if both of its parts do.
  pub >>=-eq-ok :
      {b : B} (next : A → Result B) (first : Result A)
      → (first >>= next) ≡ ok b
      → (value : A) × (first ≡ ok value) × (next value ≡ ok b)
  >>=-eq-ok next (ok value) returned = (value, refl, returned)
  >>=-eq-ok next (err thrown) returned = cc

infixl 5 ◌>>◌
abbrev pub ◌>>◌ {κ} : {B : Type κ} → Result (Unit {0}) → Result B → Result B
ok _ >> next = next
err thrown >> next = err thrown

-- A sequence returns only if both of its parts do.
pub >>-eq-ok {κ} :
    {B : Type κ} {b : B} (first : Result (Unit {0})) (next : Result B)
    → (first >> next) ≡ ok b
    → (first ≡ ok tt) × (next ≡ ok b)
>>-eq-ok (ok _) next returned = (refl, returned)
>>-eq-ok (err thrown) next returned = cc

-- `if (test) throw e;`
abbrev pub throw_if : Bool → Exception → Result (Unit {0})
throw_if true e = err e
throw_if false e = ok tt

abbrev pub or_throw {ℓ} : {A : Type ℓ} → Option A → Exception → Result A
or_throw none e = err e
or_throw (some a) e = ok a

abbrev pub is_ok {ℓ} : {A : Type ℓ} → Result A → Bool
is_ok (ok a) = true
is_ok (err e) = false

pub Result-cases {ℓ} :
    {A : Type ℓ} (r : Result A) → ((a : A) × (r ≡ ok a)) ⊎ ((e : Exception) × (r ≡ err e))
Result-cases (ok a) = inl (a, refl)
Result-cases (err e) = inr (e, refl)
