-- ===== src/Handlers/ReserveV1/Atomic.antt =====
-- The first version of the reservation under any faults: where it throws, the inventories are as
-- they were.
use shopping_cart.Prelude.{
  ℕ, ◌≡◌, refl, ap, ◌∙◌, Option, none, some, List, Dict, Result, ok, err, Exception, arith,
  Bool-cases, inl, inr,
}
use shopping_cart.Shared.UniqueId.{UniqueId}
use shopping_cart.Event.{ProductLine, inventory_reservation_failed}
use shopping_cart.Inventory.{Inventory}
use shopping_cart.Saga.{advance_step}
use shopping_cart.Store.{
  Action, World, Db, call, ◌>>=◌, ◌>>◌, publish, throw, find_saga, persist_saga,
}
use shopping_cart.UnitOfWork.{
  execute, execute_in, started, finish, committed, commit_in, roll_back, roll_back_in,
  runner_commit, runner_roll_back, execute-atomic, KeptOnError, IsSteady, call_keeps,
}
use shopping_cart.Handlers.ReserveV1.Steady.{reserve_work-IsSteady}
use shopping_cart.Handlers.ReserveV1.{
  reserve_work, note_failure, is_conflict, after_failure, reserve_inventory_v1,
}

-- The inventories after an action, whether it returned or threw.
abbrev stock_of : {A : Type 0} → Result A × World → Dict Inventory
stock_of o = o.1.db.inventories

abbrev pub KeptStockOnError : {A : Type 0} → Dict Inventory → Result A × World → Type 0
KeptStockOnError before (ok a, w) = Unit
KeptStockOnError before (err e, w) = w.db.inventories ≡ before

call-stock : (w : World) → (call w).1.db.inventories ≡ w.db.inventories
call-stock w = ground arith

rolled_back-stock :
    (A : Type 0) (e : Exception) (before : Db) (o : Result (Unit {0}) × World)
    → stock_of (roll_back {A = A} e (o.0, record (o.1) { transaction = none; db = before }))
      ≡ before.inventories
unfolding roll_back
rolled_back-stock A e before (ok _, w) = refl
rolled_back-stock A e before (err f, w) = refl

roll_back-stock :
    (A : Type 0) (e : Exception) (before : Db) (w : World)
    → w.transaction ≡ some before
    → stock_of (roll_back {A = A} e (runner_roll_back w)) ≡ before.inventories
unfolding runner_roll_back
roll_back-stock A e before w h =
    ap (λ t. stock_of (roll_back {A = A} e (roll_back_in t w))) h
    ∙ rolled_back-stock A e before (call w)

module _ {A : Type 0} where
  abbrev Keeps : Action A → Type 0
  Keeps work = (w : World) → stock_of (work w) ≡ w.db.inventories

  answered-stock :
      (a : A) (before : Db) (o : Result (Unit {0}) × World)
      → o.1.transaction ≡ some before
      → o.1.db.inventories ≡ before.inventories
      → stock_of (
          committed a (elim o.0 as (λ r. Result (Unit {0}) × World) [
            | ok _ ↦ (ok tt, record (o.1) { transaction = none })
            | err e ↦ (err e, o.1)
          ]))
        ≡ before.inventories
  unfolding committed
  answered-stock a before (ok _, w) active same = same
  answered-stock a before (err e, w) active same = roll_back-stock A e before w active

  finish-stock :
      (before : Db) (o : Result A × World)
      → o.1.transaction ≡ some before
      → stock_of o ≡ before.inventories
      → stock_of (finish o) ≡ before.inventories
  unfolding finish runner_commit
  finish-stock before (ok a, w) active same =
      ap (λ t. stock_of (committed a (commit_in t w))) active
      ∙ answered-stock a before (call w) ((call_keeps w).1 ∙ active) (call-stock w ∙ same)
  finish-stock before (err e, w) active same = roll_back-stock A e before w active

  started-stock :
      (work : Action A) (o : Result (Unit {0}) × World)
      → IsSteady work
      → Keeps work
      → stock_of (started work o) ≡ o.1.db.inventories
  unfolding started
  started-stock work (ok _, w) steady keeps =
      let inside : World = record w { transaction = some w.db } in
      finish-stock w.db (work inside) (steady inside) (keeps inside)
  started-stock work (err e, w) steady keeps = refl

  execute_in-stock :
      (t : Option Db) (work : Action A) → IsSteady work → Keeps work → Keeps (execute_in t work)
  execute_in-stock (some before) work steady keeps w = keeps w
  execute_in-stock none work steady keeps w =
      started-stock work (call w) steady keeps ∙ call-stock w

  -- A transaction whose work keeps the inventories keeps them.
  execute-stock : (work : Action A) → IsSteady work → Keeps work → Keeps (execute work)
  unfolding execute
  execute-stock work steady keeps w = execute_in-stock w.transaction work steady keeps w

  kept :
      (before : Dict Inventory) (o : Result A × World)
      → stock_of o ≡ before
      → KeptStockOnError before o
  kept before (ok a, w) h = tt
  kept before (err e, w) h = h

bind-stock :
    {A B : Type 0} (f : A → Action B) (before : Dict Inventory) (o : Result A × World)
    → ((a : A) → Keeps (f a))
    → stock_of o ≡ before
    → stock_of {A = B}
        (elim o.0 as (λ r. Result B × World) [ ok a ↦ f a o.1 | err e ↦ (err e, o.1) ])
      ≡ before
bind-stock f before (ok a, w) keeps h = keeps a w ∙ h
bind-stock f before (err e, w) keeps h = h

note_failure-stock :
    (id : UniqueId) (now : ℕ) → Keeps (find_saga id >>= λ saga. note_failure saga now)
unfolding find_saga note_failure persist_saga advance_step
note_failure-stock id now w = ground arith

note_failure-IsSteady :
    (id : UniqueId) (now : ℕ) → IsSteady (find_saga id >>= λ saga. note_failure saga now)
unfolding find_saga note_failure persist_saga advance_step
note_failure-IsSteady id now w = ground arith

after_failure-stock : (id : UniqueId) (now : ℕ) (e : Exception) → Keeps (after_failure id now e)
unfolding after_failure
after_failure-stock id now e w = elim (Bool-cases (is_conflict e)) [
  | inl conflict ↦ rw conflict refl
  | inr other ↦
      let work : Action (Unit {0}) = find_saga id >>= λ saga. note_failure saga now in
      let told : Action (Unit {0}) = execute work >> publish (inventory_reservation_failed id) in
      let noted : stock_of (told w) ≡ w.db.inventories =
        bind-stock (λ _. publish (inventory_reservation_failed id)) w.db.inventories
          (execute work w) (λ a w'. refl)
          (execute-stock work (note_failure-IsSteady id now) (note_failure-stock id now) w) in
      let ended : stock_of ((told >> throw {A = Unit {0}} e) w) ≡ w.db.inventories =
        bind-stock (λ _. throw {A = Unit {0}} e) w.db.inventories (told w) (λ a w'. refl) noted in
      rw other ended
]

caught :
    (id : UniqueId) (now : ℕ) (before : Db) (o : Result (Unit {0}) × World)
    → KeptOnError before o
    → KeptStockOnError {A = Unit {0}} before.inventories
        (elim o.0 as (λ r. Result (Unit {0}) × World) [
          | ok a ↦ (ok a, o.1)
          | err e ↦ after_failure id now e o.1
        ])
caught id now before (ok a, w) h = tt
caught id now before (err e, w) h =
    kept before.inventories (after_failure id now e w)
      (after_failure-stock id now e w ∙ ap (λ db. db.inventories) h)

-- Whatever the order lines, the tables and the faults of the outside world: where the first version
-- of the reservation, called outside a transaction, throws, every inventory is as it was.
pub reserve_inventory_v1-atomic :
    (id : UniqueId) (lines : List ProductLine) (now : ℕ) (w : World)
    → w.transaction ≡ none
    → KeptStockOnError w.db.inventories (reserve_inventory_v1 id lines now w)
unfolding reserve_inventory_v1
reserve_inventory_v1-atomic id lines now w idle =
    caught id now w.db (execute (reserve_work id lines now) w)
      (execute-atomic (reserve_work id lines now) w (reserve_work-IsSteady id lines now) idle).1
