-- ===== src/Tests/Keys.antt =====
-- The idempotency keys at concrete interleavings.
use shopping_cart.Prelude.{◌≡◌, ◌≢◌, refl, arith, some, List, [], ◌∷◌}
use shopping_cart.Idempotency.{
  working, completed, Step, gets, marks, gets_again, completes, act, check, mark, run, start,
}
use shopping_cart.Idempotency.Exclusion.{run-start_alone}
use shopping_cart.Idempotency.Replay.{run-completes}

-- Two requests both find nothing; the first is told to go on.
abbrev race : List Step
race = gets 1 ∷ gets 2 ∷ marks 1 ∷ marks 2 ∷ []

run-start_alone_example : (run race start).phase 2 ≢ working
unfolding act check mark
run-start_alone_example = run-start_alone race 1 2 tt (λ e. absurd (ground arith)) refl

run-completes_example :
    ((run (gets_again 2 ∷ gets 3 ∷ []) (act (completes 1 200) (run race start))).stored
      ≡ some (completed 200))
    × ((run (gets_again 2 ∷ gets 3 ∷ []) (act (completes 1 200) (run race start))).phase 2
        ≢ working)
unfolding act check mark
run-completes_example = run-completes race (gets_again 2 ∷ gets 3 ∷ []) 1 2 200 tt tt refl
