-- ===== src/Handlers/ReserveV1/Calm.antt =====
-- The first version of the reservation where nothing of the outside world fails: writes under stale
-- versions, and products without an inventory.
use shopping_cart.Prelude.{
  ℕ, ◌≡◌, ◌≢◌, refl, some, List, [], ◌∷◌, ◌++◌, map, Dict, lookup, insert, All, true, false, ok,
  arith, ◌==◌, lookup-insert_self,
}
use shopping_cart.Shared.UniqueId.{UniqueId}
use shopping_cart.Shared.Version.{Version}
use shopping_cart.Cache.{Stock}
use shopping_cart.Event.{Event, ProductLine, inventory_reserved}
use shopping_cart.Inventory.{Inventory}
use shopping_cart.Saga.{Saga, Step}
use shopping_cart.Store.{Db, Job, calm, find_row}
use shopping_cart.Handlers.Versions.{
  rows_in, update_with_version, updates, all_versioned, persist_many_with_version,
}
use shopping_cart.Handlers.ReserveV1.{reserve_inventory_v1}

-- The entity was read at a version that its row no longer has.
abbrev pub IsStale : Dict Inventory → Dict Version → Inventory → Type 0
IsStale table versions entity =
    (v : Version) × (row : Inventory) × (lookup entity.id versions ≡ some v)
    × (lookup entity.id table ≡ some row)
    × (row.version ≢ v)

module _ (db : Db) (stock : Stock) (jobs : List Job) (bus : List Event) where
  updates-stale :
      (versions : Dict Version) (entities : List Inventory)
      → All (IsStale db.inventories versions) entities
      → updates versions entities (calm db stock jobs bus) ≡ (ok 0, calm db stock jobs bus)
  unfolding updates update_with_version
  updates-stale versions [] h = refl
  updates-stale versions (entity ∷ rest) ((v, row, read, there, other), stale) =
      ground (arith, updates-stale versions rest stale)

  all_versioned-stale :
      (versions : Dict Version) (entities : List Inventory)
      → All (IsStale db.inventories versions) entities
      → all_versioned versions entities ≡ true
  all_versioned-stale versions [] h = refl
  all_versioned-stale versions (entity ∷ rest) ((v, row, read, there, other), stale) =
      ground (arith, all_versioned-stale versions rest stale)

  -- Where nothing of the outside world fails and the row of each entity no longer has the version
  -- that the map says: no row is written, and none is counted as written.
  pub persist_many_with_version-stale :
      (versions : Dict Version) (entities : List Inventory)
      → All (IsStale db.inventories versions) entities
      → persist_many_with_version entities versions (calm db stock jobs bus)
        ≡ (ok 0, calm db stock jobs bus)
  unfolding persist_many_with_version
  persist_many_with_version-stale versions entities stale =
      ground
        (arith, updates-stale versions entities stale, all_versioned-stale versions entities stale)

  -- Of two writers that read one row at the same version and raise the version, only the first one
  -- writes: where nothing of the outside world fails, the first counts one row, and the second
  -- counts none and changes nothing.
  pub persist_many_with_version-race :
      (a b row : Inventory)
      → b.id ≡ a.id
      → lookup a.id db.inventories ≡ some row
      → a.version ≢ row.version
      → let (r, w) =
          persist_many_with_version (a ∷ []) ((a.id, row.version) ∷ []) (calm db stock jobs bus) in
        (r ≡ ok 1)
        × (lookup a.id w.db.inventories
            ≡ some (record row { quantity = a.quantity; version = a.version }))
        × (persist_many_with_version (b ∷ []) ((b.id, row.version) ∷ []) w ≡ (ok 0, w))
  unfolding persist_many_with_version updates update_with_version
  persist_many_with_version-race a b row same there raised = ground (
    arith,
    lookup-insert_self a.id (record row { quantity = a.quantity; version = a.version })
        db.inventories,
  )

  -- Where nothing of the outside world fails, the saga of the order is found and not compensating,
  -- and no product of the lines has an inventory: the handler succeeds, the saga says that the
  -- inventory is reserved, and so does the event, though nothing was reserved.
  pub reserve_inventory_v1-no_inventory :
      (id : UniqueId) (lines : List ProductLine) (now : ℕ) (saga : Saga)
      → find_row (λ s. s.correlation_id == id) db.sagas ≡ some saga
      → saga.is_compensating ≡ false
      → rows_in (map (λ line. line.product_id) lines) db.inventories ≡ []
      → let saga' = record saga {
        current_step = Step.inventory_reserved;
        retries = 0;
        updated_at = now;
      } in
        reserve_inventory_v1 id lines now (calm db stock jobs bus) ≡ (
          ok tt,
          calm
              (record db { sagas = insert saga.id saga' db.sagas })
              stock
              jobs
              (bus ++ inventory_reserved id ∷ []),
        )
  unfolding reserve_inventory_v1
  reserve_inventory_v1-no_inventory id lines now saga found forward no_rows = ground arith
