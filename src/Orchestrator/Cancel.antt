-- ===== src/Orchestrator/Cancel.antt =====
-- The compensation of a canceled order, where nothing of the outside world fails.
use shopping_cart.Prelude.{
  ℕ, ◌+◌, ◌≡◌, ◌∙◌, ap, false, none, some, List, [], ◌∷◌, ◌++◌, map, ok, arith, ◌==◌, insert, pos,
  saga_not_found,
}
use shopping_cart.Shared.UniqueId.{UniqueId}
use shopping_cart.Event.{Event, ProductLine, inventory_compensated}
use shopping_cart.Cache.{Stock}
use shopping_cart.Cache.Conservation.{level}
use shopping_cart.Saga.{Saga, Step, advance_step}
use shopping_cart.Store.{
  Db, Job, compensate_job, calm, find_row, find_saga, persist_saga, Action, lift, found_or_throw,
  publish, add_job, ◌>>=◌, ◌>>◌, bind_ok,
}
use shopping_cart.Handlers.Control.{promise_all, for_each}
use shopping_cart.Handlers.Stock.{compensation_tasks, compensate_found, compensate_order_inventory}
use shopping_cart.Orchestrator.Reserve.{with_sagas}
use shopping_cart.Orchestrator.Release.{
  give_all, give_level, wanted, promise_all_lem, for_each_lem, released_saga,
}

compensate_found_lem :
    (id : UniqueId) (now : ℕ) (saga : Saga) (ls : List ProductLine) (db : Db) (stock : Stock)
    (jobs : List Job) (bus : List Event)
    → saga.is_compensating ≡ false
    → let saga' = released_saga saga now in
      compensate_found id ls now saga (calm db stock jobs bus) ≡ (
        ok tt,
        calm
            (with_sagas db (insert saga'.id saga' db.sagas))
            stock
            (jobs ++ map compensate_job ls)
            (bus ++ inventory_compensated id ∷ []),
      )
unfolding compensate_found persist_saga
compensate_found_lem id now saga ls db stock jobs bus forward =
    let saga' = released_saga saga now in
    let db' = with_sagas db (insert saga'.id saga' db.sagas) in
    let rest : Unit {0} → Action (Unit {0}) = λ _. publish (inventory_compensated id) in
    let persist : Saga → Action (Unit {0}) =
      λ s. persist_saga s >> (for_each (λ l. add_job (compensate_job l)) ls >>= rest) in
    let advanced : advance_step Step.inventory_compensated none now saga ≡ ok saga' =
      ground arith in
    ap (λ r. (lift r >>= persist) (calm db stock jobs bus)) advanced
    ∙ bind_ok (for_each (λ l. add_job (compensate_job l)) ls) rest
        (for_each_lem db' bus ls stock jobs)

pub compensate_order_inventory_lem :
    (id : UniqueId) (now : ℕ) (saga : Saga) (ls : List ProductLine) (db : Db) (stock : Stock)
    (jobs : List Job) (bus : List Event)
    → find_row (λ s. s.correlation_id == id) db.sagas ≡ some saga
    → saga.is_compensating ≡ false
    → let saga' = released_saga saga now in
      compensate_order_inventory id ls now (calm db stock jobs bus) ≡ (
        ok tt,
        calm
            (with_sagas db (insert saga'.id saga' db.sagas))
            (give_all ls stock)
            (jobs ++ map compensate_job ls)
            (bus ++ inventory_compensated id ∷ []),
      )
unfolding compensate_order_inventory find_saga
compensate_order_inventory_lem id now saga ls db stock jobs bus found forward =
    let rest : Action (Unit {0}) =
      find_saga id >>= λ o. found_or_throw o saga_not_found >>= λ s. compensate_found id ls now s in
    let looked : rest (calm db (give_all ls stock) jobs bus)
        ≡ compensate_found id ls now saga (calm db (give_all ls stock) jobs bus) =
      ap
        (λ o.
          (found_or_throw o saga_not_found >>= λ s. compensate_found id ls now s)
            (calm db (give_all ls stock) jobs bus))
        found in
    bind_ok (promise_all (compensation_tasks ls)) (λ _. rest) (promise_all_lem db bus ls stock jobs)
    ∙ looked
    ∙ compensate_found_lem id now saga ls db (give_all ls stock) jobs bus forward

-- Where nothing of the outside world fails and the saga of the order is found and not compensating,
-- canceling gives every line of the order back, to the stock and by a job to the database, whatever
-- the saga says was reserved: each level rises by all that the lines want of the product, and one
-- event is published.
pub compensate_order_inventory-level :
    (id j : UniqueId) (k now : ℕ) (saga : Saga) (ls : List ProductLine) (db : Db) (stock : Stock)
    (jobs : List Job) (bus : List Event)
    → find_row (λ s. s.correlation_id == id) db.sagas ≡ some saga
    → saga.is_compensating ≡ false
    → level j stock ≡ pos k
    → let w = (compensate_order_inventory id ls now (calm db stock jobs bus)).1 in
      (level j w.stock ≡ pos (k + wanted j ls))
      × (w.jobs ≡ jobs ++ map compensate_job ls)
      × (w.bus ≡ bus ++ inventory_compensated id ∷ [])
compensate_order_inventory-level id j k now saga ls db stock jobs bus found forward at =
    let done = compensate_order_inventory_lem id now saga ls db stock jobs bus found forward in
    (
      ap (λ o. level j o.1.stock) done ∙ give_level j ls k stock at,
      ap (λ o. o.1.jobs) done,
      ap (λ o. o.1.bus) done,
    )
