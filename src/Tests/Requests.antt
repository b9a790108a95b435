-- ===== src/Tests/Requests.antt =====
-- Requests with idempotency keys at a concrete Redis.
use shopping_cart.Prelude.{◌≡◌, refl, Option, none, some, [], ◌∷◌}
use shopping_cart.Shared.Text.{Text}
use shopping_cart.Interceptor.{
  returned, notice, being_processed, details, Failure, http, Attempt, done, thrown, StoredResponse,
  IdempotencyOptions, Answer, http_exception, details_of,
}
use shopping_cart.Interceptor.Keys.{Redis, marker, set_key, redis_keys, redis_keys-IsCalm}
use shopping_cart.Interceptor.Replay.{
  request, begun_at, request-replays, request-fails_again, request-busy,
}

abbrev plain_options : IdempotencyOptions
plain_options = record { retention_period = none; processing_timeout = none }

abbrev placed : Answer
placed = record { status_code = 201; body = some (returned (b'o' ∷ b'k' ∷ [])) }

abbrev places : Redis → Attempt Answer × Redis
places redis = (done placed, redis)

abbrev out_of_stock : Failure
out_of_stock = http (b'C' ∷ []) 409 (returned (b'n' ∷ b'o' ∷ []))

abbrev refuses : Redis → Attempt Answer × Redis
refuses redis = (thrown out_of_stock, redis)

abbrev nothing_stored : Redis
nothing_stored = λ key. none

abbrev stored_in : Text → Redis → Option StoredResponse
stored_in key redis = redis key

abbrev sends : (Redis → Attempt Answer × Redis) → Redis → Attempt Answer × Redis
sends handle redis =
    request redis_keys stored_in redis_keys-IsCalm handle plain_options b'k' (b'1' ∷ []) redis

request-replays_example :
    ((sends places nothing_stored).0 ≡ done placed)
    × (sends places (sends places nothing_stored).1
        ≡ (done (record placed { status_code = 201 }), (sends places nothing_stored).1))
request-replays_example =
    request-replays redis_keys stored_in redis_keys-IsCalm places plain_options b'k' (b'1' ∷ [])
      nothing_stored
      (begun_at redis_keys stored_in redis_keys-IsCalm places plain_options b'k' (b'1' ∷ [])
        nothing_stored)
      (sends places nothing_stored).1 placed refl refl refl

request-fails_again_example :
    ((sends refuses nothing_stored).0 ≡ thrown out_of_stock)
    × (sends refuses (sends refuses nothing_stored).1 ≡ (
      thrown (http_exception (details (returned (b'n' ∷ b'o' ∷ [])) (some (b'C' ∷ [])) 409) 500),
      (sends refuses nothing_stored).1,
    ))
unfolding details_of
request-fails_again_example =
    request-fails_again redis_keys stored_in redis_keys-IsCalm refuses plain_options b'k'
      (b'1' ∷ []) nothing_stored
      (begun_at redis_keys stored_in redis_keys-IsCalm refuses plain_options b'k' (b'1' ∷ [])
        nothing_stored)
      (sends refuses nothing_stored).1 out_of_stock refl refl refl

request-busy_example : sends places (set_key (b'k' ∷ b'1' ∷ []) marker nothing_stored) ≡ (
  thrown (http_exception (notice being_processed) 409),
  set_key (b'k' ∷ b'1' ∷ []) marker nothing_stored,
)
request-busy_example =
    request-busy redis_keys stored_in redis_keys-IsCalm places plain_options b'k' (b'1' ∷ [])
      (set_key (b'k' ∷ b'1' ∷ []) marker nothing_stored) marker refl refl
