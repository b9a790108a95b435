-- ===== src/Saga/Progress.antt =====
-- No method puts a saga into compensation mode, so a saga that was created can always advance.
use shopping_cart.Prelude.{
  ℕ, ◌≡◌, refl, true, false, Option, none, List, [], ◌∷◌, Result, ok, err, is_ok, arith,
}
use shopping_cart.Shared.UniqueId.{UniqueId}
use shopping_cart.Event.{ProductLine}
use shopping_cart.Saga.{
  SagaType, Step, Reason, Payload, Patch, Saga, create, advance_step, increment_retry, complete,
  fail, complete_rollback, mark_line_as_reserve,
}

pub data Call : Type 0 where
  advances : Step → Option Patch → ℕ → Call
  retries : ℕ → Call
  completes rolls_back : Step → ℕ → Call
  fails : Reason → Step → ℕ → Call
  marks : ProductLine → Call

abbrev pub perform : Call → Saga → Result Saga
perform (advances step patch now) saga = advance_step step patch now saga
perform (retries now) saga = ok (increment_retry now saga)
perform (completes step now) saga = ok (complete step now saga)
perform (rolls_back step now) saga = ok (complete_rollback step now saga)
perform (fails reason step now) saga = ok (fail reason step now saga)
perform (marks line) saga = mark_line_as_reserve line saga

-- The saga after a call: one that throws leaves it.
abbrev pub after : Call → Saga → Saga
after c saga = elim (perform c saga) [ ok saga' ↦ saga' | err e ↦ saga ]

abbrev pub run : List Call → Saga → Saga
run [] saga = saga
run (c ∷ cs) saga = run cs (after c saga)

after_forward :
    (c : Call) (saga : Saga) → saga.is_compensating ≡ false → (after c saga).is_compensating ≡ false
unfolding advance_step complete fail complete_rollback mark_line_as_reserve
after_forward c saga h = ground arith

run_forward :
    (cs : List Call) (saga : Saga)
    → saga.is_compensating ≡ false
    → (run cs saga).is_compensating ≡ false
run_forward [] saga h = h
run_forward (c ∷ cs) saga h = run_forward cs (after c saga) (after_forward c saga h)

-- Whatever was called on a saga since it was created, it is not in compensation mode, and
-- `advanceStep` succeeds.
pub run-advance_step :
    (saga_type : SagaType) (order_id : UniqueId) (payload : Payload) (first next : Step)
    (fresh : UniqueId) (now later : ℕ) (cs : List Call)
    → let saga = run cs (create saga_type order_id payload first fresh now) in
      (saga.is_compensating ≡ false) × (is_ok (advance_step next none later saga) ≡ true)
unfolding create advance_step
run-advance_step saga_type order_id payload first next fresh now later cs =
    let forward = run_forward cs (create saga_type order_id payload first fresh now) refl in
    (forward, rw forward refl)
