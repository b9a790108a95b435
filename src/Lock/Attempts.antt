-- ===== src/Lock/Attempts.antt =====
-- The attempts of `acquire`, whatever other clients do between them.
use shopping_cart.Prelude.{
  ℕ, zero, suc, ◌+◌, ◌<◌, ◌≡◌, refl, Bool, true, false, ◌||◌, Option, none, some, arith,
  Option-cases, inl, inr, insert, lookup-insert_self,
}
use shopping_cart.Shared.UniqueId.{UniqueId}
use shopping_cart.Lock.{Locks, get, set_nx, next_delay, acquire_from, acquire}

abbrev pub is_free : Option UniqueId → Bool
is_free none = true
is_free (some other) = false

module _ (factor longest : ℕ) (with_jitter : ℕ → ℕ → ℕ) (others : ℕ → ℕ → Locks → Locks)
    (key id timeout : ℕ) where
  -- Whether the key is free at an attempt or at one of those after it, if this client writes
  -- nothing.
  abbrev pub free_from : ℕ → ℕ → ℕ → ℕ → Locks → Bool
  unfolding next_delay
  free_from zero attempt delay now locks = is_free (get key now locks)
  free_from (suc retries) attempt delay now locks =
      let delay' = next_delay factor longest delay in
      let later = now + with_jitter (suc attempt) delay' in
      is_free (get key now locks)
      || free_from retries (suc attempt) delay' later (others (suc attempt) later locks)

  -- The client holds the key at the time of the answer, or it was told that it does not.
  abbrev pub IsAnswered : Bool → Option UniqueId × ℕ × Locks → Type 0
  IsAnswered true (answer, now, locks) = (answer ≡ some id) × (get key now locks ≡ some id)
  IsAnswered false (answer, now, locks) = answer ≡ none

  granted :
      (now : ℕ) (locks : Locks)
      → 0 < timeout
      → get key now (insert key (some (record { holder = id; expires = now + timeout })) locks)
        ≡ some id
  granted now locks lasting =
      ground (
        arith,
        lookup-insert_self key (some (record { holder = id; expires = now + timeout })) locks,
      )

  acquire_from_lem :
      (retries attempt delay now : ℕ) (locks : Locks)
      → 0 < timeout
      → IsAnswered (free_from retries attempt delay now locks) (
          acquire_from factor longest with_jitter others key id timeout retries attempt delay now
            locks)
  unfolding acquire_from set_nx
  acquire_from_lem zero attempt delay now locks lasting = elim (Option-cases (get key now locks)) [
    | inl free ↦ rw (free, acquire_from, set_nx) (refl, granted now locks lasting)
    | inr (other, held) ↦ rw (held, acquire_from, set_nx) refl
  ]
  acquire_from_lem (suc retries) attempt delay now locks lasting =
      elim (Option-cases (get key now locks)) [
        | inl free ↦ rw (free, acquire_from, set_nx) (refl, granted now locks lasting)
        | inr (other, held) ↦
            let delay' = next_delay factor longest delay in
            let later = now + with_jitter (suc attempt) delay' in
            rw (held, acquire_from, set_nx)
              (acquire_from_lem retries (suc attempt) delay' later
                (others (suc attempt) later locks) lasting)
      ]

  -- Whatever the jitter is and whatever other clients do between the attempts, for a lock that
  -- lasts: if the key is free at one of the attempts, `acquire` answers with the client's id, and
  -- the client holds the key then; if it is free at none, `acquire` answers with none.
  pub acquire-IsAnswered :
      (retry_attempts retry_delay now : ℕ) (locks : Locks)
      → 0 < timeout
      → IsAnswered (free_from retry_attempts 0 retry_delay now locks) (
          acquire factor longest with_jitter others key id timeout retry_attempts retry_delay now
            locks)
  unfolding acquire
  acquire-IsAnswered retry_attempts retry_delay now locks lasting =
      acquire_from_lem retry_attempts 0 retry_delay now locks lasting
