-- ===== src/Lock.antt =====
-- The distributed lock
-- (server/src/infrastructure/distributed-lock/redis-distributed-lock.service.ts). Redis holds under
-- each lock's key the id of its holder until the time at which the key expires; time is counted in
-- milliseconds, and what is asked of Redis happens in one step.
pub mod Exclusion
pub mod Attempts
use shopping_cart.Prelude.{
  ℕ, zero, suc, ◌+◌, ◌*◌, ◌/◌, min, Bool, true, false, ◌&&◌, Option, none, some, List, [], ◌∷◌,
  Dict, lookup, insert, ◌==◌, ltb, if◌then◌else◌, length,
}
use shopping_cart.Shared.UniqueId.{UniqueId}

pub record Held : Type 0 where
  pub holder : UniqueId
  pub expires : ℕ

abbrev pub Locks : Type 0
Locks = Dict (Option Held)

-- `GET key`: a key that has expired is not there
abbrev pub live : ℕ → Option (Option Held) → Option UniqueId
live now none = none
live now (some none) = none
live now (some (some held)) = if ltb now held.expires then some held.holder else none

abbrev pub get : UniqueId → ℕ → Locks → Option UniqueId
get key now locks = live now (lookup key locks)

-- `SET key id PX timeout NX`: true for the answer `OK`
abbrev pub set_if_free : Option UniqueId → UniqueId → UniqueId → ℕ → ℕ → Locks → Bool × Locks
set_if_free none key id timeout now locks =
    (true, insert key (some (record { holder = id; expires = now + timeout })) locks)
set_if_free (some other) key id timeout now locks = (false, locks)

unfoldable pub set_nx : UniqueId → UniqueId → ℕ → ℕ → Locks → Bool × Locks
set_nx key id timeout now locks = set_if_free (get key now locks) key id timeout now locks

-- the Lua script of `release`: it deletes the key if it holds this id
abbrev pub is_holder : Option UniqueId → UniqueId → Bool
is_holder none id = false
is_holder (some other) id = other == id

unfoldable pub release : UniqueId → UniqueId → ℕ → Locks → Bool × Locks
release key id now locks =
    if is_holder (get key now locks) id then (true, insert key none locks) else (false, locks)

-- the loop of the script of `releaseMultiple`
unfoldable pub release_each : List (UniqueId × UniqueId) → ℕ → Locks → Locks
unfolding release
release_each [] now locks = locks
release_each ((key, id) ∷ rest) now locks = release_each rest now (release key id now locks).1

abbrev pub pairs : List UniqueId → List UniqueId → List (UniqueId × UniqueId)
pairs [] ids = []
pairs (key ∷ keys) [] = []
pairs (key ∷ keys) (id ∷ ids) = (key, id) ∷ pairs keys ids

-- `releaseMultiple`: as many ids as names, or nothing is released.
unfoldable pub release_multiple : List UniqueId → List UniqueId → ℕ → Locks → Bool × Locks
unfolding release_each
release_multiple keys ids now locks =
    if length keys == length ids
    then (true, release_each (pairs keys ids) now locks)
    else (false, locks)

-- the delay before the next attempt, without the jitter
unfoldable pub next_delay : ℕ → ℕ → ℕ → ℕ
next_delay factor longest delay = min (delay * factor) longest

-- The loop of `acquire`. Between two attempts time passes: the delay with its jitter, which is
-- random, and other clients ask for what they want; both are parameters, by the number of the
-- attempt.
module _ (factor longest : ℕ) (with_jitter : ℕ → ℕ → ℕ) (others : ℕ → ℕ → Locks → Locks)
    (key id timeout : ℕ) where
  -- From an attempt on: the retries that are left, its number, the delay so far, the time and the
  -- keys.
  unfoldable pub acquire_from : ℕ → ℕ → ℕ → ℕ → Locks → Option UniqueId × ℕ × Locks
  unfolding set_nx next_delay
  acquire_from zero attempt delay now locks =
      let (granted, locks') = set_nx key id timeout now locks in
      (if granted then some id else none, now, locks')
  acquire_from (suc retries) attempt delay now locks =
      let (granted, locks') = set_nx key id timeout now locks in
      let delay' = next_delay factor longest delay in
      let later = now + with_jitter (suc attempt) delay' in
      let rest =
        acquire_from retries (suc attempt) delay' later (others (suc attempt) later locks') in
      if granted then (some id, now, locks') else rest

  -- `acquire`
  unfoldable pub acquire : ℕ → ℕ → ℕ → Locks → Option UniqueId × ℕ × Locks
  unfolding acquire_from
  acquire retry_attempts retry_delay now locks = acquire_from retry_attempts 0 retry_delay now locks
