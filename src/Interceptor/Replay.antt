-- ===== src/Interceptor/Replay.antt =====
-- A request that is sent twice with one key: the handler runs once.
use shopping_cart.Prelude.{ℕ, ◌≡◌, refl, ap, ◌∙◌, Option, none, some, ◌∷◌, arith}
use shopping_cart.Shared.Text.{Text}
use shopping_cart.Interceptor.{
  notice, being_processed, details, Failure, Attempt, done, thrown, processing, completed,
  StoredResponse, KeyService, IdempotencyOptions, Answer, or_code, day_ms, half_minute_ms,
  http_exception, replay, details_of, after_success, rethrow, after_handler, checked, intercept,
}
use shopping_cart.Interceptor.Keys.{IsCalm, failure_response}

or_code_again : (n : ℕ) → or_code (some (or_code (some n) 200)) 200 ≡ or_code (some n) 200
or_code_again n = ground arith

module _ {W : Type 0} (keys : KeyService W) (stored : Text → W → Option StoredResponse)
    (calm : IsCalm keys stored) (handle : W → Attempt Answer × W) (options : IdempotencyOptions)
    (c : ℕ) (rest : Text) where
  abbrev key : Text
  key = c ∷ rest

  abbrev pub request : W → Attempt Answer × W
  request w = intercept keys handle (some options) (some (c ∷ rest)) w

  abbrev pub begun_at : W → W
  begun_at w = calm.begun (c ∷ rest) (or_code options.processing_timeout half_minute_ms) w

  -- A response that is stored is the answer, and nothing changes.
  replayed :
      (w : W) (response : StoredResponse)
      → stored key w ≡ some response
      → request w ≡ (replay response, w)
  unfolding intercept checked
  replayed w response h =
      ap (checked keys handle key (or_code options.retention_period day_ms))
        (calm.found key (or_code options.processing_timeout half_minute_ms) w response h)

  -- A new key lets the handler run.
  started :
      (w w' : W) (result : Attempt Answer)
      → stored key w ≡ none
      → handle (begun_at w) ≡ (result, w')
      → request w
        ≡ after_handler keys handle key (or_code options.retention_period day_ms) (result, w')
  unfolding intercept checked
  started w w' result new ran =
      ap (checked keys handle key (or_code options.retention_period day_ms))
        (calm.fresh key (or_code options.processing_timeout half_minute_ms) w new)
      ∙ ap (after_handler keys handle key (or_code options.retention_period day_ms)) ran

  -- Where the keys do not fail and nothing is stored under the key: if the handler answers, so does
  -- the request; and a later request, in any world that holds the same under the key, is answered
  -- the same, with the status 200 for a missing one, and changes nothing, so the handler does not
  -- run again.
  pub request-replays :
      (w w' later : W) (answer : Answer)
      → stored (c ∷ rest) w ≡ none
      → handle (begun_at w) ≡ (done answer, w')
      → stored (c ∷ rest) later ≡ stored (c ∷ rest) (request w).1
      → ((request w).0 ≡ done answer)
        × (request later
            ≡ (done (record answer { status_code = or_code (some answer.status_code) 200 }), later))
  unfolding after_handler after_success replay
  request-replays w w' later answer new ran same =
      let first = started w w' (done answer) new ran in
      let response : StoredResponse = record {
        status = completed;
        response_body = answer.body;
        http_status_code = some (or_code (some answer.status_code) 200);
      } in
      let kept : stored key later ≡ some response =
        same
        ∙ ap (λ r. stored key r.1) first
        ∙ calm.completes key response (or_code options.retention_period day_ms) w' refl in
      (
        ap (λ r. r.0) first,
        replayed later response kept
            ∙ ap (λ (n : ℕ). (done (record answer { status_code = n }), later))
                (or_code_again answer.status_code),
      )

  -- In the same setting, if the handler throws, the request throws the same; a later request throws
  -- an HttpException that has the details of the first failure as its body, and always the status
  -- 500, whatever the status of the first failure was; it changes nothing.
  pub request-fails_again :
      (w w' later : W) (failure : Failure)
      → stored (c ∷ rest) w ≡ none
      → handle (begun_at w) ≡ (thrown failure, w')
      → stored (c ∷ rest) later ≡ stored (c ∷ rest) (request w).1
      → let e = details_of failure in
        ((request w).0 ≡ thrown failure)
        × (request later ≡ (
          thrown (http_exception (details e.error e.original_error_name e.http_status_code) 500),
          later,
        ))
  unfolding after_handler rethrow replay
  request-fails_again w w' later failure new ran same =
      let e = details_of failure in
      let retention = or_code options.retention_period day_ms in
      let first = started w w' (thrown failure) new ran in
      let marked : keys.mark_as_failed key e retention w'
          ≡ (done tt, (keys.mark_as_failed key e retention w').1) =
        ap (λ r. (r, (keys.mark_as_failed key e retention w').1)) (calm.fails key e retention w') in
      let whole = first ∙ ap (rethrow keys handle failure) marked in
      let kept : stored key later ≡ some (failure_response e) =
        same ∙ ap (λ r. stored key r.1) whole ∙ calm.failed_stored key e retention w' in
      (ap (λ r. r.0) whole, replayed later (failure_response e) kept)

  -- Where the keys do not fail and the key is that of a request that is being processed: the
  -- handler does not run, the answer is a conflict, and nothing changes.
  pub request-busy :
      (w : W) (response : StoredResponse)
      → stored (c ∷ rest) w ≡ some response
      → response.status ≡ processing
      → request w ≡ (thrown (http_exception (notice being_processed) 409), w)
  unfolding replay
  request-busy w response h busy = replayed w response h ∙ rw (busy, replay) refl
