-- ===== src/Idempotency/Exclusion.antt =====
-- One request at a time goes on under an idempotency key.
use shopping_cart.Prelude.{◌≡◌, ◌≢◌, refl, Option, none, some, List, [], ◌∷◌, arith, sym}
use shopping_cart.Shared.UniqueId.{UniqueId}
use shopping_cart.Idempotency.{
  Stored, Phase, waiting, checking, overtaken, working, answered, refused, ended, System, set_phase,
  first_get, set_marker, second_get, completed, failed, processing, Step, gets, marks, gets_again,
  completes, fails, expires, check, mark, check_again, store, act, run, start,
}

-- The steps are those of requests: the key neither expires nor is cleared.
abbrev pub IsKept : List Step → Type 0
IsKept [] = Unit
IsKept (expires ∷ steps) = ⊥
IsKept (_ ∷ steps) = IsKept steps

-- Who goes on is alone, and something is stored.
pub record IsAlone (s : System) : Type 0 where
  pub one : (c d : UniqueId) → s.phase c ≡ working → s.phase d ≡ working → c ≡ d
  pub held : (c : UniqueId) → s.phase c ≡ working → s.stored ≢ none

pub still :
    (c a : UniqueId) (p : Phase) (s : System)
    → p ≢ working
    → (set_phase c p s).phase a ≡ working
    → s.phase a ≡ working
still c a p s other h = ground arith

-- A request that comes to another phase than working leaves the others alone.
settles :
    (c : UniqueId) (p : Phase) (stored : Option Stored) (s : System)
    → p ≢ working
    → (s.stored ≢ none → stored ≢ none)
    → IsAlone s
    → IsAlone (set_phase c p (record s { stored = stored }))
settles c p stored s other kept alone = record {
  one = λ a b ha hb. alone.one a b (still c a p s other ha) (still c b p s other hb);
  held = λ a ha. kept (alone.held a (still c a p s other ha));
}

nobody : (s : System) → IsAlone s → s.stored ≡ none → (a : UniqueId) → s.phase a ≢ working
nobody s alone free a h = alone.held a h free

-- A request that goes on where nothing was stored.
starts :
    (c : UniqueId) (s : System)
    → IsAlone s
    → s.stored ≡ none
    → IsAlone (set_phase c working (record s { stored = some processing }))
starts c s alone free = record {
  one = λ a b ha hb. ground (arith, nobody s alone free a, nobody s alone free b);
  held = λ a ha e. absurd (ground arith);
}

first_get_other : (stored : Option Stored) → first_get stored ≢ working
first_get_other none = λ e. absurd (ground arith)
first_get_other (some r) = λ e. absurd (ground arith)

second_get_other : (stored : Option Stored) → second_get stored ≢ working
second_get_other none = λ e. absurd (ground arith)
second_get_other (some r) = λ e. absurd (ground arith)

check-IsAlone : (c : UniqueId) (p : Phase) (s : System) → IsAlone s → IsAlone (check c p s)
unfolding check
check-IsAlone c waiting s alone =
    settles c (first_get s.stored) s.stored s (first_get_other s.stored) (λ h. h) alone
check-IsAlone c checking s alone = alone
check-IsAlone c overtaken s alone = alone
check-IsAlone c working s alone = alone
check-IsAlone c (answered r) s alone = alone
check-IsAlone c refused s alone = alone
check-IsAlone c ended s alone = alone

marked :
    (c : UniqueId) (stored : Option Stored) (s : System)
    → stored ≡ s.stored
    → IsAlone s
    → IsAlone (let (p, after) = set_marker stored in set_phase c p (record s { stored = after }))
marked c none s same alone = starts c s alone (sym same)
marked c (some r) s same alone =
    settles c overtaken (some r) s (λ e. absurd (ground arith)) (λ h e. absurd (ground arith)) alone

mark-IsAlone : (c : UniqueId) (p : Phase) (s : System) → IsAlone s → IsAlone (mark c p s)
unfolding mark
mark-IsAlone c checking s alone = marked c s.stored s refl alone
mark-IsAlone c waiting s alone = alone
mark-IsAlone c overtaken s alone = alone
mark-IsAlone c working s alone = alone
mark-IsAlone c (answered r) s alone = alone
mark-IsAlone c refused s alone = alone
mark-IsAlone c ended s alone = alone

check_again-IsAlone :
    (c : UniqueId) (p : Phase) (s : System) → IsAlone s → IsAlone (check_again c p s)
unfolding check_again
check_again-IsAlone c overtaken s alone =
    settles c (second_get s.stored) s.stored s (second_get_other s.stored) (λ h. h) alone
check_again-IsAlone c waiting s alone = alone
check_again-IsAlone c checking s alone = alone
check_again-IsAlone c working s alone = alone
check_again-IsAlone c (answered r) s alone = alone
check_again-IsAlone c refused s alone = alone
check_again-IsAlone c ended s alone = alone

store-IsAlone :
    (c : UniqueId) (r : Stored) (p : Phase) (s : System) → IsAlone s → IsAlone (store c r p s)
unfolding store
store-IsAlone c r working s alone =
    settles c ended (some r) s (λ e. absurd (ground arith)) (λ h e. absurd (ground arith)) alone
store-IsAlone c r waiting s alone = alone
store-IsAlone c r checking s alone = alone
store-IsAlone c r overtaken s alone = alone
store-IsAlone c r (answered r') s alone = alone
store-IsAlone c r refused s alone = alone
store-IsAlone c r ended s alone = alone

pub run-IsAlone :
    (steps : List Step) (s : System) → IsKept steps → IsAlone s → IsAlone (run steps s)
unfolding act
run-IsAlone [] s kept alone = alone
run-IsAlone (gets c ∷ steps) s kept alone =
    run-IsAlone steps (act (gets c) s) kept (check-IsAlone c (s.phase c) s alone)
run-IsAlone (marks c ∷ steps) s kept alone =
    run-IsAlone steps (act (marks c) s) kept (mark-IsAlone c (s.phase c) s alone)
run-IsAlone (gets_again c ∷ steps) s kept alone =
    run-IsAlone steps (act (gets_again c) s) kept (check_again-IsAlone c (s.phase c) s alone)
run-IsAlone (completes c body ∷ steps) s kept alone =
    run-IsAlone steps (act (completes c body) s) kept
      (store-IsAlone c (completed body) (s.phase c) s alone)
run-IsAlone (fails c body ∷ steps) s kept alone =
    run-IsAlone steps (act (fails c body) s) kept
      (store-IsAlone c (failed body) (s.phase c) s alone)
run-IsAlone (expires ∷ steps) s kept alone = absurd kept

pub start-IsAlone : IsAlone start
start-IsAlone = record {
  one = λ a b ha hb. absurd (ground arith);
  held = λ a ha e. absurd (ground arith);
}

-- However the commands of requests with one idempotency key interleave, from a start at which
-- nothing is stored under it and nobody has asked: while the key neither expires nor is cleared, a
-- request that was told to go on and has not ended is the only one.
pub run-start_alone :
    (steps : List Step) (c d : UniqueId)
    → IsKept steps
    → c ≢ d
    → (run steps start).phase c ≡ working
    → (run steps start).phase d ≢ working
run-start_alone steps c d kept apart hc hd =
    let alone = run-IsAlone steps start kept start-IsAlone in apart (alone.one c d hc hd)
