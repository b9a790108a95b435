-- ===== src/Interceptor/Keys.antt =====
-- What the interceptor relies on of the keys where Redis does not fail, and that
-- server/src/infrastructure/idempotency/redis-idempotency.service.ts gives it, for a request that
-- no other one comes between.
use shopping_cart.Prelude.{ℕ, ◌≡◌, refl, ap, ◌∙◌, Option, none, some, [], if◌then◌else◌}
use shopping_cart.Shared.Text.{Text}
use shopping_cart.Shared.Price.{same_text}
use shopping_cart.Shared.Price.Laws.{same_text_refl}
use shopping_cart.Interceptor.{
  details, Attempt, done, thrown, error, Status, processing, completed, failed, StoredResponse,
  ErrorDetails, KeyService,
}

-- What is stored of a failure: the details are the body, and no status code stands beside it.
abbrev pub failure_response : ErrorDetails → StoredResponse
failure_response e = record {
  status = failed;
  response_body = some (details e.error e.original_error_name e.http_status_code);
  http_status_code = none;
}

-- The laws, with what is stored under each key.
pub record IsCalm {W : Type 0} (keys : KeyService W) (stored : Text → W → Option StoredResponse)
    : Type 0 where
  pub found :
      (key : Text) (timeout : ℕ) (w : W) (response : StoredResponse)
      → stored key w ≡ some response
      → keys.check_and_set_processing key timeout w ≡ (done (some response), w)
  pub begun : Text → ℕ → W → W
  pub fresh :
      (key : Text) (timeout : ℕ) (w : W)
      → stored key w ≡ none
      → keys.check_and_set_processing key timeout w ≡ (done none, begun key timeout w)
  pub completes :
      (key : Text) (response : StoredResponse) (retention : ℕ) (w : W)
      → response.status ≡ completed
      → stored key (keys.mark_as_completed key response retention w).1 ≡ some response
  pub fails :
      (key : Text) (e : ErrorDetails) (retention : ℕ) (w : W)
      → (keys.mark_as_failed key e retention w).0 ≡ done tt
  pub failed_stored :
      (key : Text) (e : ErrorDetails) (retention : ℕ) (w : W)
      → stored key (keys.mark_as_failed key e retention w).1 ≡ some (failure_response e)

-- Redis, as what it holds under each key; the expiry of keys is left to time.
abbrev pub Redis : Type 0
Redis = Text → Option StoredResponse

abbrev pub set_key : Text → StoredResponse → Redis → Redis
set_key key response redis = λ k. if same_text key k then some response else redis k

abbrev pub marker : StoredResponse
marker = record { status = processing; response_body = none; http_status_code = none }

-- `checkAndSetProcessing`
abbrev pub checked_key :
    Text → Option StoredResponse → Redis → Attempt (Option StoredResponse) × Redis
checked_key key (some response) redis = (done (some response), redis)
checked_key key none redis = (done none, set_key key marker redis)

-- `markAsCompleted`, by the status of what is to be stored
abbrev pub mark_completed : Text → StoredResponse → Status → Redis → Attempt (Unit {0}) × Redis
mark_completed key response completed redis = (done tt, set_key key response redis)
mark_completed key response processing redis = (thrown (error [] []), redis)
mark_completed key response failed redis = (thrown (error [] []), redis)

abbrev pub redis_keys : KeyService Redis
redis_keys = record {
  check_and_set_processing = λ key timeout redis. checked_key key (redis key) redis;
  mark_as_completed =
      λ key response retention redis. mark_completed key response response.status redis;
  mark_as_failed = λ key e retention redis. (done tt, set_key key (failure_response e) redis);
}

-- The service keeps the laws.
pub redis_keys-IsCalm : IsCalm redis_keys (λ key redis. redis key)
redis_keys-IsCalm = record {
  found = λ key timeout redis response h. ap (λ o. checked_key key o redis) h;
  begun = λ key timeout redis. set_key key marker redis;
  fresh = λ key timeout redis h. ap (λ o. checked_key key o redis) h;
  completes = λ key response retention redis h.
      ap (λ s. (mark_completed key response s redis).1 key) h ∙ rw (same_text_refl key) refl;
  fails = λ key e retention redis. refl;
  failed_stored = λ key e retention redis. rw (same_text_refl key) refl;
}
