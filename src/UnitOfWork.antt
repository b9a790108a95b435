-- ===== src/UnitOfWork.antt =====
-- The unit of work (server/src/infrastructure/persistence/typeorm/unit-of-work), whose transactions
-- cover the database, and neither Redis, the queue nor the event bus.
use shopping_cart.Prelude.{
  Option, none, some, Result, ok, err, transaction_not_started, ◌≡◌, refl, arith, Exception, ◌∙◌,
  ap, sym, subst,
}
use shopping_cart.Store.{Action, World, Db, call, ◌>>◌, modify}

-- `beginTransaction`: nothing if one is active
unfoldable pub begin_transaction : Action (Unit {0})
begin_transaction w = elim w.transaction [
  | some _ ↦ (ok tt, w)
  | none ↦ (call >> modify (λ v. record v { transaction = some v.db })) w
]

-- `queryRunner.commitTransaction()`: with no transaction under way it throws; a commit that fails
-- leaves the transaction open.
abbrev pub commit_in : Option Db → Action (Unit {0})
commit_in none w = (err transaction_not_started, w)
commit_in (some before) w =
    let (r, v) = call w in
    elim r [ ok _ ↦ (ok tt, record v { transaction = none }) | err e ↦ (err e, v) ]

unfoldable pub runner_commit : Action (Unit {0})
runner_commit w = commit_in w.transaction w

-- `queryRunner.rollbackTransaction()`: with no transaction under way it throws. The changes since
-- the start are undone by the ROLLBACK, or, where the call fails, by the database, since the
-- connection is lost.
abbrev pub roll_back_in : Option Db → Action (Unit {0})
roll_back_in none w = (err transaction_not_started, w)
roll_back_in (some before) w =
    let (r, v) = call w in (r, record v { transaction = none; db = before })

unfoldable pub runner_roll_back : Action (Unit {0})
runner_roll_back w = roll_back_in w.transaction w

-- `commitTransaction`; the `finally` ends the transaction also when the commit throws, and the
-- database then drops the changes
unfoldable pub commit_transaction : Action (Unit {0})
commit_transaction w = elim w.transaction [
  | none ↦ (err transaction_not_started, w)
  | some before ↦
      let (r, v) = call w in
      elim r [
        | ok _ ↦ (ok tt, record v { transaction = none })
        | err e ↦ (err e, record v { transaction = none; db = before })
      ]
]

-- `rollbackTransaction`
unfoldable pub rollback_transaction : Action (Unit {0})
unfolding runner_roll_back
rollback_transaction w = elim w.transaction [ none ↦ (ok tt, w) | some before ↦ runner_roll_back w ]

-- The `finally` of `execute`: the unit of work has no transaction any more. What is neither
-- committed nor rolled back stays as it is.
abbrev pub release {ℓ} : {A : Type ℓ} → Result A → World → Result A × World
release r w = (r, record w { transaction = none })

-- The `catch` of `execute`: the error is thrown on, or that of the rollback itself.
unfoldable pub roll_back {ℓ} :
    {A : Type ℓ} → Exception → Result (Unit {0}) × World → Result A × World
roll_back e (ok _, w) = release (err e) w
roll_back e (err f, w) = release (err f) w

-- What follows the commit: the `finally`, or the `catch`.
unfoldable pub committed {ℓ} : {A : Type ℓ} → A → Result (Unit {0}) × World → Result A × World
unfolding roll_back runner_roll_back
committed a (ok _, w) = release (ok a) w
committed a (err e, w) = roll_back e (runner_roll_back w)

-- What follows the work.
unfoldable pub finish {ℓ} : {A : Type ℓ} → Result A × World → Result A × World
unfolding committed roll_back runner_commit runner_roll_back
finish (err e, w) = roll_back e (runner_roll_back w)
finish (ok a, w) = committed a (runner_commit w)

-- What follows the connection and the start of the transaction.
unfoldable pub started {ℓ} : {A : Type ℓ} → Action A → Result (Unit {0}) × World → Result A × World
unfolding finish
started work (err e, w) = (err e, w)
started work (ok _, w) = finish (work (record w { transaction = some w.db }))

abbrev pub execute_in {ℓ} : {A : Type ℓ} → Option Db → Action A → Action A
execute_in (some _) work w = work w
execute_in none work w = started work (call w)

-- `execute(work)`: inside an active transaction it is the work alone.
unfoldable pub execute {ℓ} : {A : Type ℓ} → Action A → Action A
unfolding started
execute work w = execute_in w.transaction work w

-- After an error the database is the one before.
abbrev pub KeptOnError {ℓ} : {A : Type ℓ} → Db → Result A × World → Type 0
KeptOnError before (ok a, w) = Unit
KeptOnError before (err e, w) = w.db ≡ before

-- A work that leaves the transaction as it found it.
abbrev pub IsSteady {ℓ} : {A : Type ℓ} → Action A → Type 0
IsSteady work = (w : World) → (work w).1.transaction ≡ w.transaction

pub call_keeps : (w : World) → ((call w).1.db ≡ w.db) × ((call w).1.transaction ≡ w.transaction)
call_keeps w = ground arith

-- No transaction is open, and after an error the database is the one before.
abbrev pub IsEnded {ℓ} : {A : Type ℓ} → Db → Result A × World → Type 0
IsEnded before o = (o.1.transaction ≡ none) × KeptOnError before o

rolled_back-IsEnded {ℓ} :
    (A : Type ℓ) (e : Exception) (before : Db) (o : Result (Unit {0}) × World)
    → IsEnded before (roll_back {A = A} e (o.0, record (o.1) { transaction = none; db = before }))
unfolding roll_back
rolled_back-IsEnded A e before (ok _, w) = (refl, refl)
rolled_back-IsEnded A e before (err f, w) = (refl, refl)

roll_back-IsEnded {ℓ} :
    (A : Type ℓ) (e : Exception) (before : Db) (w : World)
    → w.transaction ≡ some before
    → IsEnded before (roll_back {A = A} e (runner_roll_back w))
unfolding runner_roll_back
roll_back-IsEnded A e before w h =
    subst (λ t. IsEnded before (roll_back {A = A} e (roll_back_in t w))) (sym h)
      (rolled_back-IsEnded A e before (call w))

-- After the answer to COMMIT.
answered-IsEnded {ℓ} :
    {A : Type ℓ} (a : A) (before : Db) (o : Result (Unit {0}) × World)
    → o.1.transaction ≡ some before
    → IsEnded before (
        committed a (elim o.0 as (λ r. Result (Unit {0}) × World) [
          | ok _ ↦ (ok tt, record (o.1) { transaction = none })
          | err e ↦ (err e, o.1)
        ]))
unfolding committed
answered-IsEnded {A} a before (ok _, w) h = (refl, tt)
answered-IsEnded {A} a before (err e, w) h = roll_back-IsEnded A e before w h

finish-IsEnded {ℓ} :
    {A : Type ℓ} (before : Db) (o : Result A × World)
    → o.1.transaction ≡ some before
    → IsEnded before (finish o)
unfolding finish runner_commit
finish-IsEnded {A} before (err e, w) h = roll_back-IsEnded A e before w h
finish-IsEnded {A} before (ok a, w) h =
    subst (λ t. IsEnded before (committed a (commit_in t w))) (sym h)
      (answered-IsEnded a before (call w) ((call_keeps w).1 ∙ h))

started-IsEnded {ℓ} :
    {A : Type ℓ} (work : Action A) (o : Result (Unit {0}) × World)
    → IsSteady work
    → o.1.transaction ≡ none
    → IsEnded o.1.db (started work o)
unfolding started
started-IsEnded work (err e, w) steady h = (h, refl)
started-IsEnded work (ok _, w) steady h =
    finish-IsEnded w.db (work (record w { transaction = some w.db }))
      (steady (record w { transaction = some w.db }))

-- Wherever the outside world fails, and whatever the work does that leaves the transaction as it
-- found it: outside a transaction `execute` leaves no transaction open, and when it throws the
-- database is as it was.
pub execute-atomic {ℓ} :
    {A : Type ℓ} (work : Action A) (w : World)
    → IsSteady work
    → w.transaction ≡ none
    → ((execute work w).1.transaction ≡ none) × KeptOnError w.db (execute work w)
unfolding execute
execute-atomic work w steady idle =
    let (same, still) = call_keeps w in
    subst (λ t. IsEnded w.db (execute_in t work w)) (sym idle)
      (subst (λ d. IsEnded d (started work (call w))) same
        (started-IsEnded work (call w) steady (still ∙ idle)))

-- Where the work itself commits and then throws, its changes stay: there is nothing left to roll
-- back, and the error is that of the rollback.
pub execute_committed {ℓ} :
    {A : Type ℓ} (work : Action A) (w v : World) (e : Exception)
    → w.transaction ≡ none
    → (call w).0 ≡ ok tt
    → work (record ((call w).1) { transaction = some w.db }) ≡ (err e, v)
    → v.transaction ≡ none
    → execute work w ≡ (err transaction_not_started, v)
unfolding execute finish roll_back runner_roll_back
execute_committed work w v e idle starts works ended =
    ground (arith, (call_keeps w).0, (call_keeps w).1)

-- Inside a transaction `execute` neither commits nor rolls back: it is the work.
pub execute_nested {ℓ} :
    {A : Type ℓ} (work : Action A) (w : World) (before : Db)
    → w.transaction ≡ some before
    → execute work w ≡ work w
unfolding execute
execute_nested work w before active = ap (λ t. execute_in t work w) active
