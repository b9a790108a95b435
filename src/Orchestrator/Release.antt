-- ===== src/Orchestrator/Release.antt =====
-- The release of what an order had reserved, where nothing of the outside world fails.
use shopping_cart.Prelude.{
  ℕ, ◌+◌, ◌≡◌, refl, ◌∙◌, ap, false, none, some, List, [], ◌∷◌, ◌++◌, map, ok, arith, ◌==◌,
  if◌then◌else◌, lookup, insert, lookup-insert, pos,
}
use mathlib.Core.List.{append_assoc, append-nil}
use shopping_cart.Shared.UniqueId.{UniqueId}
use shopping_cart.Event.{Event, ProductLine, reservation_released}
use shopping_cart.Cache.{Stock, reserve_inventory, compensate_inventory}
use shopping_cart.Cache.Conservation.{reserve_fits, level, step-level, reserves, compensates}
use shopping_cart.Saga.{Saga, Step, advance_step, has_product}
use shopping_cart.Store.{
  lift, publish, persist_saga, ◌>>=◌, ◌>>◌, bind_ok, Db, Job, compensate_job, calm, find_row,
  Action, compensate_stock, add_job,
}
use shopping_cart.Handlers.Control.{promise_all, for_each}
use shopping_cart.Handlers.Stock.{
  compensation_tasks, give_back, release_lines, release_product_reservation,
}
use shopping_cart.Orchestrator.Lines.{IsDistinct}
use shopping_cart.Orchestrator.Reserve.{IsReady, with_sagas}
use shopping_cart.Orchestrator.Lineup.{Fits, Fits-reserve, take_all}

-- The stock after the lines were given back.
abbrev pub give_all : List ProductLine → Stock → Stock
give_all [] stock = stock
give_all (l ∷ ls) stock = give_all ls (compensate_inventory l.product_id l.quantity stock)

-- How much of a product the lines hold.
abbrev pub wanted : UniqueId → List ProductLine → ℕ
wanted j [] = 0
wanted j (l ∷ ls) = (if l.product_id == j then l.quantity else 0) + wanted j ls

pub take_level :
    (j : UniqueId) (ls : List ProductLine) (n : ℕ) (stock : Stock)
    → IsDistinct ls
    → Fits ls stock
    → level j stock ≡ pos n
    → (m : ℕ) × (level j (take_all ls stock) ≡ pos m) × (m + wanted j ls ≡ n)
take_level j [] n stock distinct fits h = (n, h, omega arith)
take_level j (l ∷ ls) n stock (new, distinct) ((k, there), fits) h =
    let (m, lower, took) = step-level (reserves l.product_id l.quantity) j n stock h in
    let (r, low, all) =
      take_level j ls m (reserve_inventory l.product_id l.quantity stock).1 distinct
        (Fits-reserve l ls stock new (k, there) fits) lower in
    (r, low, ground (arith, took, all, reserve_fits l.product_id l.quantity k stock there))

pub give_level :
    (j : UniqueId) (ls : List ProductLine) (n : ℕ) (stock : Stock)
    → level j stock ≡ pos n
    → level j (give_all ls stock) ≡ pos (n + wanted j ls)
give_level j [] n stock h = ground arith
give_level j (l ∷ ls) n stock h =
    let (m, higher, gave) = step-level (compensates l.product_id l.quantity) j n stock h in
    ground
      (arith, gave, give_level j ls m (compensate_inventory l.product_id l.quantity stock) higher)

-- Taking lines that fit and giving them back leaves every level as it was.
pub give-take :
    (j : UniqueId) (ls : List ProductLine) (n : ℕ) (stock : Stock)
    → IsDistinct ls
    → Fits ls stock
    → level j stock ≡ pos n
    → level j (give_all ls (take_all ls stock)) ≡ pos n
give-take j ls n stock distinct fits h =
    let (m, low, all) = take_level j ls n stock distinct fits h in
    ground (arith, all, give_level j ls m (take_all ls stock) low)

pub take_other :
    (p : UniqueId) (ls : List ProductLine) (stock : Stock)
    → IsDistinct ls
    → Fits ls stock
    → has_product p ls ≡ false
    → lookup p (take_all ls stock) ≡ lookup p stock
take_other p [] stock distinct fits h = refl
take_other p (l ∷ ls) stock (new, distinct) ((k, there), fits) h =
    take_other p ls (reserve_inventory l.product_id l.quantity stock).1 distinct
      (Fits-reserve l ls stock new (k, there) fits) (ground arith)
    ∙ rw (reserve_fits l.product_id l.quantity k stock there)
        (ground (arith, lookup-insert l.product_id p (pos k) stock))

module _ (db : Db) (bus : List Event) where
  pub promise_all_lem :
      (ls : List ProductLine) (stock : Stock) (jobs : List Job)
      → promise_all (compensation_tasks ls) (calm db stock jobs bus)
        ≡ (ok tt, calm db (give_all ls stock) jobs bus)
  unfolding promise_all compensate_stock
  promise_all_lem [] stock jobs = refl
  promise_all_lem (l ∷ ls) stock jobs =
      let all = promise_all_lem ls (compensate_inventory l.product_id l.quantity stock) jobs in
      rw all refl

  pub for_each_lem :
      (ls : List ProductLine) (stock : Stock) (jobs : List Job)
      → for_each (λ l. add_job (compensate_job l)) ls (calm db stock jobs bus)
        ≡ (ok tt, calm db stock (jobs ++ map compensate_job ls) bus)
  unfolding for_each add_job
  for_each_lem [] stock jobs = rw append-nil refl
  for_each_lem (l ∷ ls) stock jobs =
      for_each_lem ls stock (jobs ++ compensate_job l ∷ []) ∙ rw append_assoc refl

-- The saga after its reservations were released.
abbrev pub released_saga : Saga → ℕ → Saga
released_saga saga now = record saga {
  current_step = Step.inventory_compensated;
  retries = 0;
  updated_at = now;
}

give_back_lem :
    (ls : List ProductLine) (db : Db) (stock : Stock) (jobs : List Job) (bus : List Event)
    → give_back ls (calm db stock jobs bus) ≡ (ok tt, calm db (give_all ls stock) jobs bus)
unfolding give_back
give_back_lem [] db stock jobs bus = refl
give_back_lem (l ∷ ls) db stock jobs bus = promise_all_lem db bus (l ∷ ls) stock jobs

release_lines_lem :
    (id : UniqueId) (now : ℕ) (saga : Saga) (ls : List ProductLine) (db : Db) (stock : Stock)
    (jobs : List Job) (bus : List Event)
    → IsReady id saga
    → let saga' = released_saga saga now in
      release_lines id now saga ls (calm db stock jobs bus) ≡ (
        ok tt,
        calm
            (with_sagas db (insert saga'.id saga' db.sagas))
            (give_all ls stock)
            (jobs ++ map compensate_job ls)
            (bus ++ reservation_released id ∷ []),
      )
unfolding release_lines
release_lines_lem id now saga ls db stock jobs bus ready =
    let saga' = released_saga saga now in
    let db' = with_sagas db (insert saga'.id saga' db.sagas) in
    let rest : Unit {0} → Action (Unit {0}) = λ _. publish (reservation_released id) in
    let finish : (for_each (λ l. add_job (compensate_job l)) ls >>= rest)
          (calm db' (give_all ls stock) jobs bus)
        ≡ (
          ok tt,
          calm db' (give_all ls stock) (jobs ++ map compensate_job ls)
              (bus ++ reservation_released id ∷ []),
        ) =
      bind_ok (for_each (λ l. add_job (compensate_job l)) ls) rest
        (for_each_lem db' bus ls (give_all ls stock) jobs) in
    let persist : Saga → Action (Unit {0}) =
      λ s. persist_saga s >> (for_each (λ l. add_job (compensate_job l)) ls >>= rest) in
    let advanced : advance_step Step.inventory_compensated none now saga ≡ ok saga' =
      ground arith in
    bind_ok (give_back ls)
      (λ _. lift (advance_step Step.inventory_compensated none now saga) >>= persist)
      (give_back_lem ls db stock jobs bus)
    ∙ ap (λ r. (lift r >>= persist) (calm db (give_all ls stock) jobs bus)) advanced
    ∙ finish

pub release_product_reservation_lem :
    (id : UniqueId) (now : ℕ) (saga : Saga) (ls : List ProductLine) (db : Db) (stock : Stock)
    (jobs : List Job) (bus : List Event)
    → IsReady id saga
    → find_row (λ s. s.correlation_id == id) db.sagas ≡ some saga
    → saga.payload.reserved_order_lines ≡ ls
    → let saga' = released_saga saga now in
      release_product_reservation id now (calm db stock jobs bus) ≡ (
        ok tt,
        calm
            (with_sagas db (insert saga'.id saga' db.sagas))
            (give_all ls stock)
            (jobs ++ map compensate_job ls)
            (bus ++ reservation_released id ∷ []),
      )
unfolding release_product_reservation
release_product_reservation_lem id now saga ls db stock jobs bus ready found reserved =
    let read : release_product_reservation id now (calm db stock jobs bus)
        ≡ release_lines id now saga ls (calm db stock jobs bus) =
      ground arith in
    read ∙ release_lines_lem id now saga ls db stock jobs bus ready
