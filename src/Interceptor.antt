-- ===== src/Interceptor.antt =====
-- IdempotencyInterceptor (server/src/infrastructure/idempotency/itempotency.interceptor.ts): what
-- it does around the handler of a request. The handler is that of a controller, and the keys are
-- behind the port server/src/core/application/port/idempotency.interface.ts.
pub mod Keys
pub mod Replay
use shopping_cart.Prelude.{
  ℕ, ◌*◌, Bool, true, false, Option, none, some, List, [], ◌∷◌, is_empty, or_else, ◌==◌,
  if◌then◌else◌,
}
use shopping_cart.Shared.Text.{Text}

-- The texts of the interceptor's own answers
pub data Notice : Type 0 where
  header_required previous_failed being_processed key_error : Notice

-- The body of an answer: what a controller returned, a notice, `{ message, name }`, or the details
-- that are stored of a failure.
pub data Body : Type 0 where
  returned : Text → Body
  notice : Notice → Body
  message : Text → Option Text → Body
  details : Body → Option Text → ℕ → Body

-- What is thrown: an HttpException, another Error, or a value that is none.
pub data Failure : Type 0 where
  http : Text → ℕ → Body → Failure
  error : Text → Text → Failure
  other : Text → Failure

pub data Attempt (A : Type 0) : Type 0 where
  done : A → Attempt A
  thrown : Failure → Attempt A

pub data Status : Type 0 where
  processing completed failed : Status

pub record StoredResponse : Type 0 where
  pub status : Status
  pub response_body : Option Body
  pub http_status_code : Option ℕ

-- `{ error, originalErrorName, httpStatusCode }`
pub record ErrorDetails : Type 0 where
  pub error : Body
  pub original_error_name : Option Text
  pub http_status_code : ℕ

-- IIdempotencyService, on the state of the world
pub record KeyService (W : Type 0) : Type 0 where
  pub check_and_set_processing : Text → ℕ → W → Attempt (Option StoredResponse) × W
  pub mark_as_completed : Text → StoredResponse → ℕ → W → Attempt (Unit {0}) × W
  pub mark_as_failed : Text → ErrorDetails → ℕ → W → Attempt (Unit {0}) × W

pub record IdempotencyOptions : Type 0 where
  pub retention_period : Option ℕ
  pub processing_timeout : Option ℕ

-- An answer, its status code and its body; a missing body is undefined.
pub record Answer : Type 0 where
  pub status_code : ℕ
  pub body : Option Body

abbrev pub exception_name : Text
exception_name =
    b'H' ∷ b't' ∷ b't' ∷ b'p' ∷ b'E' ∷ b'x' ∷ b'c' ∷ b'e' ∷ b'p' ∷ b't' ∷ b'i' ∷ b'o' ∷ b'n' ∷ []

abbrev pub http_exception : Body → ℕ → Failure
http_exception body status = http exception_name status body

-- `number || otherwise`
abbrev pub or_code : Option ℕ → ℕ → ℕ
or_code none otherwise = otherwise
or_code (some n) otherwise = if n == 0 then otherwise else n

abbrev pub day_ms : ℕ
day_ms = 24 * 60 * 60 * 1000

abbrev pub half_minute_ms : ℕ
half_minute_ms = 30 * 1000

-- The answer to a response that is stored under the key: the `switch`.
unfoldable pub replay : StoredResponse → Attempt Answer
replay stored = elim stored.status [
  | completed ↦
      done
        (record { status_code = or_code stored.http_status_code 200; body = stored.response_body })
  | failed ↦ thrown (
      http_exception (or_else stored.response_body (notice previous_failed))
        (or_code stored.http_status_code 500))
  | processing ↦ thrown (http_exception (notice being_processed) 409)
]

-- The `catch` around the check: what is no HttpException becomes one.
unfoldable pub check_failed : Failure → Failure
check_failed (http name status body) = http name status body
check_failed (error name text) = http_exception (notice key_error) 500
check_failed (other text) = http_exception (notice key_error) 500

-- What is stored of a failure of the handler.
unfoldable pub details_of : Failure → ErrorDetails
details_of (http name status body) = record {
  error = body;
  original_error_name = some name;
  http_status_code = status;
}
details_of (error name text) = record {
  error = message text (some name);
  original_error_name = some name;
  http_status_code = 500;
}
details_of (other text) = record {
  error = message text none;
  original_error_name = none;
  http_status_code = 500;
}

module _ {W : Type 0} (keys : KeyService W) (handle : W → Attempt Answer × W) where
  -- `tap`: the answer goes out whatever becomes of the mark.
  unfoldable pub after_success : Text → ℕ → Answer → W → Attempt Answer × W
  after_success key retention answer w =
      let response : StoredResponse = record {
        status = completed;
        response_body = answer.body;
        http_status_code = some (or_code (some answer.status_code) 200);
      } in
      (done answer, (keys.mark_as_completed key response retention w).1)

  -- What follows the mark of a failure: it is thrown on, or the error of the mark is.
  unfoldable pub rethrow : Failure → Attempt (Unit {0}) × W → Attempt Answer × W
  rethrow failure (done _, w) = (thrown failure, w)
  rethrow failure (thrown e, w) = (thrown e, w)

  -- `next.handle()` with its `tap` and `catchError`
  unfoldable pub after_handler : Text → ℕ → Attempt Answer × W → Attempt Answer × W
  unfolding after_success rethrow details_of
  after_handler key retention (done answer, w) = after_success key retention answer w
  after_handler key retention (thrown failure, w) =
      rethrow failure (keys.mark_as_failed key (details_of failure) retention w)

  -- What follows the check of the key.
  unfoldable pub checked : Text → ℕ → Attempt (Option StoredResponse) × W → Attempt Answer × W
  unfolding after_handler replay check_failed
  checked key retention (thrown e, w) = (thrown (check_failed e), w)
  checked key retention (done (some stored), w) = (replay stored, w)
  checked key retention (done none, w) = after_handler key retention (handle w)

  -- With a key in the header, or without one.
  unfoldable pub with_key : IdempotencyOptions → Option Text → W → Attempt Answer × W
  unfolding checked
  with_key options none w = (thrown (http_exception (notice header_required) 400), w)
  with_key options (some []) w = (thrown (http_exception (notice header_required) 400), w)
  with_key options (some (c ∷ key)) w =
      checked (c ∷ key) (or_code options.retention_period day_ms) (
        keys.check_and_set_processing (c ∷ key) (or_code options.processing_timeout half_minute_ms)
          w)

  -- `intercept`; a handler with no options is not idempotent.
  unfoldable pub intercept : Option IdempotencyOptions → Option Text → W → Attempt Answer × W
  unfolding with_key
  intercept none key w = handle w
  intercept (some options) key w = with_key options key w
