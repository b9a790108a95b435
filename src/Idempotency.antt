-- ===== src/Idempotency.antt =====
-- The idempotency keys (server/src/infrastructure/idempotency/redis-idempotency.service.ts), for
-- one key: what Redis holds under it, and how far each request with it has come. Each command of
-- Redis is one step, so the requests interleave between the commands. That the key expires or is
-- cleared is a step too. A text that cannot be parsed is left out: only this service writes under
-- the keys.
pub mod Exclusion
pub mod Replay
use shopping_cart.Prelude.{ℕ, Bool, Option, none, some, List, [], ◌∷◌, ◌==◌, if◌then◌else◌}
use shopping_cart.Shared.UniqueId.{UniqueId}

-- `StoredResponse`, by its status, with its body
pub data Stored : Type 0 where
  processing : Stored
  completed failed : ℕ → Stored

-- How far a request is: it has not asked, it has found nothing under the key, it was overtaken, it
-- was told to go on, it was given what is stored, it was refused, or it has ended.
pub data Phase : Type 0 where
  waiting checking overtaken working : Phase
  answered : Stored → Phase
  refused ended : Phase

pub record System : Type 0 where
  pub stored : Option Stored
  pub phase : UniqueId → Phase

abbrev pub set_phase : UniqueId → Phase → System → System
set_phase c p s = record s { phase = λ d. if c == d then p else s.phase d }

-- the first `get` of `checkAndSetProcessing`
abbrev pub first_get : Option Stored → Phase
first_get none = checking
first_get (some stored) = answered stored

-- its `set` with NX: the phase and what is stored after it
abbrev pub set_marker : Option Stored → Phase × Option Stored
set_marker none = (working, some processing)
set_marker (some stored) = (overtaken, some stored)

-- its second `get`
abbrev pub second_get : Option Stored → Phase
second_get none = refused
second_get (some stored) = answered stored

pub data Step : Type 0 where
  gets marks gets_again : UniqueId → Step
  completes fails : UniqueId → ℕ → Step
  expires : Step

-- A step of a request that is not at that step does nothing.
unfoldable pub check : UniqueId → Phase → System → System
check c waiting s = set_phase c (first_get s.stored) s
check c _ s = s

unfoldable pub mark : UniqueId → Phase → System → System
mark c checking s =
    let (p, stored) = set_marker s.stored in set_phase c p (record s { stored = stored })
mark c _ s = s

unfoldable pub check_again : UniqueId → Phase → System → System
check_again c overtaken s = set_phase c (second_get s.stored) s
check_again c _ s = s

-- `markAsCompleted` and `markAsFailed`
unfoldable pub store : UniqueId → Stored → Phase → System → System
store c response working s = set_phase c ended (record s { stored = some response })
store c response _ s = s

unfoldable pub act : Step → System → System
unfolding check mark check_again store
act (gets c) s = check c (s.phase c) s
act (marks c) s = mark c (s.phase c) s
act (gets_again c) s = check_again c (s.phase c) s
act (completes c body) s = store c (completed body) (s.phase c) s
act (fails c body) s = store c (failed body) (s.phase c) s
act expires s = record s { stored = none }

abbrev pub run : List Step → System → System
run [] s = s
run (step ∷ steps) s = run steps (act step s)

-- No request has asked yet, and nothing is stored.
abbrev pub start : System
start = record { stored = none; phase = λ c. waiting }
