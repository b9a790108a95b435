-- ===== src/Tests/Flow.antt =====
-- The placement, the compensations and the payment at concrete worlds.
use shopping_cart.Prelude.{ℕ, ◌+◌, ◌≡◌, refl, some, [], ◌∷◌, pos, inl, arith}
use shopping_cart.Event.{order_created, inventory_compensated}
use shopping_cart.Order.{pending, awaiting_payment, completed, failed, canceled}
use shopping_cart.Order
use shopping_cart.Shared.Double
use shopping_cart.Shared.Text
use shopping_cart.Saga.{Saga, Step}
use shopping_cart.Saga
use shopping_cart.Store.{calm, compensate_job}
use shopping_cart.Cache.Conservation.{level, run-level, reserves, compensates, run, total_taken}
use shopping_cart.Orchestrator.Reserve.{IsReady}
use shopping_cart.Orchestrator.Placement.{IsPlaced, IsUndone, place-succeeds, place-fails}
use shopping_cart.Orchestrator.Fault.{queue_fault-release, fourth_fails}
use shopping_cart.Orchestrator.Cancel.{compensate_order_inventory-level}
use shopping_cart.Orchestrator
use shopping_cart.Handlers.Stock.{
  compensate_order_inventory, reserve_inventory_v2, release_product_reservation,
}
use shopping_cart.Tests.Data.{
  cups, plates, order_lines, order_in, saga, unpaid_db, full_stock, short_stock, dollars_of,
}

ready : IsReady 1 saga
ready = record { own = refl; type = refl; forward = refl }

place-succeeds_example :
    IsPlaced 1 100 9 (order_in pending) (dollars_of 26) (cups ∷ plates ∷ []) [] 10 5 (
      Orchestrator.run 2
        (λ i. 100 + i)
        9
        (Orchestrator.run 2
          (λ i. i)
          9
          (calm unpaid_db full_stock [] (order_created 1 2 order_lines (dollars_of 26) ∷ []))))
unfolding Order.total_of Text.is_space Double.is_nan_product Double.infinity Double.plus
    Double.times
place-succeeds_example =
    place-succeeds 1 9 unpaid_db full_stock [] (order_in pending) saga (λ i. i) (λ i. 100 + i) 2
      order_lines (dollars_of 26) refl refl refl ready (inl (refl, refl)) refl refl cups
      (plates ∷ []) (dollars_of 26) 10 5 refl (refl, (refl, tt)) ((3, refl), ((1, refl), tt)) refl
      refl

place-fails_example : IsUndone 1 9 (order_in pending) (cups ∷ []) [] 10 5 (
    Orchestrator.run 3
      (λ i. 100 + i)
      9
      (Orchestrator.run 1
        (λ i. i)
        9
        (calm unpaid_db short_stock [] (order_created 1 2 order_lines (dollars_of 26) ∷ []))))
place-fails_example =
    place-fails 1 9 unpaid_db short_stock [] (order_in pending) saga (λ i. i) (λ i. 100 + i) 2
      order_lines (dollars_of 26) refl refl refl ready (inl (refl, refl)) refl refl (cups ∷ []) []
      plates 1 10 5 refl (refl, (refl, tt)) ((3, refl), tt) refl (omega arith) refl

run-level_example :
    (m : ℕ) × (level 10 (run (reserves 10 2 ∷ reserves 10 4 ∷ compensates 10 1 ∷ []) full_stock)
      ≡ pos m)
    × (m + total_taken (reserves 10 2 ∷ reserves 10 4 ∷ compensates 10 1 ∷ []) 10 full_stock
        ≡ 5 + 1)
run-level_example =
    run-level (reserves 10 2 ∷ reserves 10 4 ∷ compensates 10 1 ∷ []) 10 5 full_stock refl

queue_fault-release_example :
    level 10
      (release_product_reservation 1 9
        (reserve_inventory_v2 1
          (some cups)
          9
          (fourth_fails (calm unpaid_db full_stock [] []))).1).1.stock
    ≡ pos 7
unfolding Saga.first_unreserved
queue_fault-release_example =
    queue_fault-release 1 cups 9 unpaid_db full_stock [] saga (some plates) 3 refl ready
      (inl (refl, refl)) refl refl

compensate_order_inventory-level_example :
    (level 10
        (compensate_order_inventory 1
          (cups ∷ plates ∷ [])
          9
          (calm unpaid_db full_stock [] [])).1.stock
      ≡ pos 7)
    × ((compensate_order_inventory 1
          (cups ∷ plates ∷ [])
          9
          (calm unpaid_db full_stock [] [])).1.jobs
        ≡ compensate_job cups ∷ compensate_job plates ∷ [])
    × ((compensate_order_inventory 1 (cups ∷ plates ∷ []) 9 (calm unpaid_db full_stock [] [])).1.bus
        ≡ inventory_compensated 1 ∷ [])
compensate_order_inventory-level_example =
    compensate_order_inventory-level 1 10 5 9 saga (cups ∷ plates ∷ []) unpaid_db full_stock [] []
      refl refl refl
