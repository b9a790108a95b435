-- ===== src/Tests/Reserving.antt =====
-- The first version of the reservation at concrete worlds.
use shopping_cart.Prelude.{
  ◌≡◌, refl, some, [], ◌∷◌, ok, err, false, true, lookup, arith, argument_negative,
}
use shopping_cart.Event.{inventory_reserved, inventory_reservation_failed}
use shopping_cart.Inventory.{Inventory}
use shopping_cart.Order.{pending}
use shopping_cart.Payment.{PaymentState}
use shopping_cart.Saga.{Step}
use shopping_cart.Store.{Db, calm}
use shopping_cart.Handlers.Versions.{persist_many_with_version}
use shopping_cart.Handlers.ReserveV1.{reserve_inventory_v1}
use shopping_cart.Handlers.ReserveV1.Atomic.{KeptStockOnError, reserve_inventory_v1-atomic}
use shopping_cart.Handlers.ReserveV1.Calm.{
  persist_many_with_version-race, reserve_inventory_v1-no_inventory,
}
use shopping_cart.Handlers.ReserveV1.One.{reserve_inventory_v1-one, reserve_inventory_v1-short}
use shopping_cart.Tests.Data.{cups, plates, saga, db_in, shelf, line_of}

abbrev stocked : Db
stocked = db_in pending PaymentState.opened

-- The second call of the database fails.
reserve_inventory_v1-atomic_example : KeptStockOnError stocked.inventories (
    reserve_inventory_v1 1
      (cups ∷ [])
      9
      (record (calm stocked [] [] []) { faults = false ∷ true ∷ [] }))
reserve_inventory_v1-atomic_example =
    reserve_inventory_v1-atomic 1 (cups ∷ []) 9
      (record (calm stocked [] [] []) { faults = false ∷ true ∷ [] }) refl

abbrev three_left : Inventory
three_left = record shelf { quantity = 3; version = 2 }

abbrev four_left : Inventory
four_left = record shelf { quantity = 4; version = 2 }

persist_many_with_version-race_example :
    let (r, w) =
      persist_many_with_version (three_left ∷ []) ((51, 1) ∷ []) (calm stocked [] [] []) in
    (r ≡ ok 1)
    × (lookup 51 w.db.inventories ≡ some three_left)
    × (persist_many_with_version (four_left ∷ []) ((51, 1) ∷ []) w ≡ (ok 0, w))
persist_many_with_version-race_example =
    persist_many_with_version-race stocked [] [] [] three_left four_left shelf refl refl
      (λ e. absurd (ground arith))

reserve_inventory_v1-no_inventory_example :
    reserve_inventory_v1 1 (plates ∷ []) 9 (calm stocked [] [] []) ≡ (
      ok tt,
      calm
          (record stocked {
            sagas =
                (31, record saga { current_step = Step.inventory_reserved; updated_at = 9 }) ∷ [];
          })
          []
          []
          (inventory_reserved 1 ∷ []),
    )
reserve_inventory_v1-no_inventory_example =
    reserve_inventory_v1-no_inventory stocked [] [] [] 1 (plates ∷ []) 9 saga refl refl refl

reserve_inventory_v1-one_example : reserve_inventory_v1 1 (cups ∷ []) 9 (calm stocked [] [] []) ≡ (
  ok tt,
  calm
      (record stocked {
        sagas = (31, record saga { current_step = Step.inventory_reserved; updated_at = 9 }) ∷ [];
        inventories = (51, three_left) ∷ [];
      })
      []
      []
      (inventory_reserved 1 ∷ []),
)
reserve_inventory_v1-one_example =
    reserve_inventory_v1-one 1 (cups ∷ []) cups 9 stocked [] [] [] saga shelf refl refl refl refl
      refl (omega arith)

reserve_inventory_v1-short_example :
    reserve_inventory_v1 1 (line_of 10 7 ∷ []) 9 (calm stocked [] [] []) ≡ (
      err argument_negative,
      calm
          (record stocked {
            sagas =
                (31, record saga { current_step = Step.inventory_reserve_failed; updated_at = 9 })
                ∷ [];
          })
          []
          []
          (inventory_reservation_failed 1 ∷ []),
    )
reserve_inventory_v1-short_example =
    reserve_inventory_v1-short 1 (line_of 10 7 ∷ []) (line_of 10 7) 9 stocked [] [] [] saga shelf
      refl refl refl refl refl (omega arith)
