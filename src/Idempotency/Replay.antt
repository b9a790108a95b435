-- ===== src/Idempotency/Replay.antt =====
-- What a finished request leaves under its idempotency key.
use shopping_cart.Prelude.{ℕ, ◌≡◌, ◌≢◌, refl, Option, none, some, List, [], ◌∷◌, arith}
use shopping_cart.Shared.UniqueId.{UniqueId}
use shopping_cart.Idempotency.{
  Stored, completed, failed, Phase, waiting, checking, overtaken, working, answered, refused, ended,
  System, set_phase, first_get, set_marker, second_get, Step, gets, marks, gets_again, completes,
  fails, expires, check, mark, check_again, store, act, run, start,
}
use shopping_cart.Idempotency.Exclusion.{IsKept, IsAlone, still, run-IsAlone, start-IsAlone}

-- A response is stored and nobody goes on.
record IsSettled (r : Stored) (s : System) : Type 0 where
  pub kept : s.stored ≡ some r
  pub idle : (d : UniqueId) → s.phase d ≢ working

moves :
    (r : Stored) (c : UniqueId) (p : Phase) (s : System)
    → p ≢ working
    → IsSettled r s
    → IsSettled r (set_phase c p s)
moves r c p s other settled = record {
  kept = settled.kept;
  idle = λ d h. settled.idle d (still c d p s other h);
}

check-IsSettled :
    (r : Stored) (c : UniqueId) (p : Phase) (s : System) → IsSettled r s → IsSettled r (check c p s)
unfolding check
check-IsSettled r c waiting s settled =
    let other : first_get s.stored ≢ working = rw (settled.kept) (λ e. absurd (ground arith)) in
    moves r c (first_get s.stored) s other settled
check-IsSettled r c checking s settled = settled
check-IsSettled r c overtaken s settled = settled
check-IsSettled r c working s settled = settled
check-IsSettled r c (answered r') s settled = settled
check-IsSettled r c refused s settled = settled
check-IsSettled r c ended s settled = settled

marked :
    (r : Stored) (c : UniqueId) (stored : Option Stored) (s : System)
    → stored ≡ some r
    → IsSettled r s
    → IsSettled r
        (let (p, after) = set_marker stored in set_phase c p (record s { stored = after }))
marked r c none s there settled = absurd (ground arith)
marked r c (some r') s there settled = record {
  kept = there;
  idle = λ d h. settled.idle d (still c d overtaken s (λ e. absurd (ground arith)) h);
}

mark-IsSettled :
    (r : Stored) (c : UniqueId) (p : Phase) (s : System) → IsSettled r s → IsSettled r (mark c p s)
unfolding mark
mark-IsSettled r c checking s settled = marked r c s.stored s settled.kept settled
mark-IsSettled r c waiting s settled = settled
mark-IsSettled r c overtaken s settled = settled
mark-IsSettled r c working s settled = settled
mark-IsSettled r c (answered r') s settled = settled
mark-IsSettled r c refused s settled = settled
mark-IsSettled r c ended s settled = settled

check_again-IsSettled :
    (r : Stored) (c : UniqueId) (p : Phase) (s : System)
    → IsSettled r s
    → IsSettled r (check_again c p s)
unfolding check_again
check_again-IsSettled r c overtaken s settled =
    let other : second_get s.stored ≢ working = rw (settled.kept) (λ e. absurd (ground arith)) in
    moves r c (second_get s.stored) s other settled
check_again-IsSettled r c waiting s settled = settled
check_again-IsSettled r c checking s settled = settled
check_again-IsSettled r c working s settled = settled
check_again-IsSettled r c (answered r') s settled = settled
check_again-IsSettled r c refused s settled = settled
check_again-IsSettled r c ended s settled = settled

store-IsSettled :
    (r response : Stored) (c : UniqueId) (p : Phase) (s : System)
    → p ≢ working
    → IsSettled r s
    → IsSettled r (store c response p s)
unfolding store
store-IsSettled r response c working s other settled = absurd (other refl)
store-IsSettled r response c waiting s other settled = settled
store-IsSettled r response c checking s other settled = settled
store-IsSettled r response c overtaken s other settled = settled
store-IsSettled r response c (answered r') s other settled = settled
store-IsSettled r response c refused s other settled = settled
store-IsSettled r response c ended s other settled = settled

run-IsSettled :
    (r : Stored) (steps : List Step) (s : System)
    → IsKept steps
    → IsSettled r s
    → IsSettled r (run steps s)
unfolding act
run-IsSettled r [] s kept settled = settled
run-IsSettled r (gets c ∷ steps) s kept settled =
    run-IsSettled r steps (act (gets c) s) kept (check-IsSettled r c (s.phase c) s settled)
run-IsSettled r (marks c ∷ steps) s kept settled =
    run-IsSettled r steps (act (marks c) s) kept (mark-IsSettled r c (s.phase c) s settled)
run-IsSettled r (gets_again c ∷ steps) s kept settled =
    run-IsSettled r steps (act (gets_again c) s) kept
      (check_again-IsSettled r c (s.phase c) s settled)
run-IsSettled r (completes c body ∷ steps) s kept settled =
    run-IsSettled r steps (act (completes c body) s) kept
      (store-IsSettled r (completed body) c (s.phase c) s (settled.idle c) settled)
run-IsSettled r (fails c body ∷ steps) s kept settled =
    run-IsSettled r steps (act (fails c body) s) kept
      (store-IsSettled r (failed body) c (s.phase c) s (settled.idle c) settled)
run-IsSettled r (expires ∷ steps) s kept settled = absurd kept

stored_by :
    (r : Stored) (c : UniqueId) (p : Phase) (s : System)
    → p ≡ working
    → s.phase c ≡ working
    → IsAlone s
    → IsSettled r (store c r p s)
unfolding store
stored_by r c working s at own alone = record {
  kept = refl;
  idle = λ d h. absurd (ground (arith, alone.one c d own));
}
stored_by r c waiting s at own alone = absurd (ground arith)
stored_by r c checking s at own alone = absurd (ground arith)
stored_by r c overtaken s at own alone = absurd (ground arith)
stored_by r c (answered r') s at own alone = absurd (ground arith)
stored_by r c refused s at own alone = absurd (ground arith)
stored_by r c ended s at own alone = absurd (ground arith)

-- Once the request that was told to go on has stored its response, from a start at which nothing
-- was stored and nobody had asked, and while the key neither expires nor is cleared: the response
-- stays, whatever the other requests do, and none of them is told to go on.
pub run-completes :
    (before after : List Step) (c d : UniqueId) (body : ℕ)
    → IsKept before
    → IsKept after
    → (run before start).phase c ≡ working
    → let s = run after (act (completes c body) (run before start)) in
      (s.stored ≡ some (completed body)) × (s.phase d ≢ working)
unfolding act
run-completes before after c d body kept_before kept_after own =
    let s = run before start in
    let alone = run-IsAlone before start kept_before start-IsAlone in
    let settled =
      run-IsSettled (completed body) after (act (completes c body) s) kept_after
        (stored_by (completed body) c (s.phase c) s own own alone) in
    (settled.kept, settled.idle d)
