-- ===== src/Payment/Graph.antt =====
-- A payment is settled once: from open it becomes paid, failed or canceled, and stays so.
use shopping_cart.Prelude.{
  ℕ, ◌≡◌, refl, Bool, true, false, Option, none, some, List, [], ◌∷◌, Result, ok, err, is_ok, arith,
  if◌then◌else◌,
}
use shopping_cart.Payment.{
  PaymentState, opened, paid, failed, canceled, Payment, mark_as_paid, mark_as_failed, cancel,
}

-- A call of one of the methods that settle the payment.
pub data Call : Type 0 where
  pays fails : ℕ → Call
  cancels : Call

abbrev pub perform : Call → Payment → Result Payment
perform (pays now) payment = mark_as_paid now payment
perform (fails now) payment = mark_as_failed now payment
perform cancels payment = cancel payment

abbrev pub target : Call → PaymentState
target (pays now) = paid
target (fails now) = failed
target cancels = canceled

abbrev pub is_open : PaymentState → Bool
is_open opened = true
is_open paid = false
is_open failed = false
is_open canceled = false

-- The payment after a call: one that throws leaves it.
abbrev pub after : Call → Payment → Payment
after c payment = elim (perform c payment) [ ok payment' ↦ payment' | err e ↦ payment ]

-- A method succeeds exactly on an open payment, which it takes to the state that it aims at; on any
-- other payment it throws and changes nothing.
pub perform-open :
    (c : Call) (payment : Payment)
    → (is_ok (perform c payment) ≡ is_open payment.state)
      × ((after c payment).state ≡ (if is_open payment.state then target c else payment.state))
unfolding mark_as_paid mark_as_failed cancel
perform-open c payment = (ground arith, ground arith)

abbrev pub run : List Call → Payment → Payment
run [] payment = payment
run (c ∷ cs) payment = run cs (after c payment)

abbrev is_some {ℓ} : {A : Type ℓ} → Option A → Bool
is_some none = false
is_some (some _) = true

abbrev is_paid : PaymentState → Bool
is_paid paid = true
is_paid _ = false

abbrev is_failed : PaymentState → Bool
is_failed failed = true
is_failed _ = false

-- The dates are set exactly in the states that they belong to.
pub record IsStamped (payment : Payment) : Type 0 where
  pub payment_date : is_some payment.paid_at ≡ is_paid payment.state
  pub failure_date : is_some payment.failed_at ≡ is_failed payment.state

settled_again :
    (c : Call) (payment : Payment) → is_open payment.state ≡ false → after c payment ≡ payment
unfolding mark_as_paid mark_as_failed cancel
settled_again c payment h = ground arith

settled_run :
    (cs : List Call) (payment : Payment) → is_open payment.state ≡ false → run cs payment ≡ payment
settled_run [] payment h = refl
settled_run (c ∷ cs) payment h = rw (settled_again c payment h) (settled_run cs payment h)

-- Of a history of calls on an open payment only the first one counts: it settles the payment, and
-- all that follow, also a second charge, change nothing.
pub run_first :
    (c : Call) (cs : List Call) (payment : Payment)
    → payment.state ≡ opened
    → (run (c ∷ cs) payment ≡ after c payment) × ((after c payment).state ≡ target c)
unfolding mark_as_paid mark_as_failed cancel
run_first c cs payment h =
    let settled : (after c payment).state ≡ target c = ground arith in
    let shut : is_open (after c payment).state ≡ false = ground arith in
    (settled_run cs (after c payment) shut, settled)

after-IsStamped : (c : Call) (payment : Payment) → IsStamped payment → IsStamped (after c payment)
unfolding mark_as_paid mark_as_failed cancel
after-IsStamped c payment h = ground arith

-- Along every history of calls a payment has a payment date exactly when it is paid, and a failure
-- date exactly when it has failed.
pub run-IsStamped :
    (cs : List Call) (payment : Payment) → IsStamped payment → IsStamped (run cs payment)
run-IsStamped [] payment h = h
run-IsStamped (c ∷ cs) payment h = run-IsStamped cs (after c payment) (after-IsStamped c payment h)
