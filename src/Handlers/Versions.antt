-- ===== src/Handlers/Versions.antt =====
-- The inventories that are read together and written under their versions: `findAllByProductId` and
-- `persistManyWithVersion`
-- (server/src/infrastructure/persistence/typeorm/repositories/inventory.repository.ts).
use shopping_cart.Prelude.{
  ℕ, ◌+◌, Bool, true, false, none, some, List, [], ◌∷◌, Dict, lookup, insert, any, ◌==◌,
  if◌then◌else◌, Result, ok, err, version_not_found,
}
use shopping_cart.Shared.UniqueId.{UniqueId}
use shopping_cart.Shared.Version.{Version}
use shopping_cart.Inventory.{Inventory}
use shopping_cart.Store.{Action, call, gets, ◌>>◌}

-- `In(productIds)`
abbrev pub rows_in : List UniqueId → Dict Inventory → List Inventory
rows_in product_ids [] = []
rows_in product_ids ((key, row) ∷ rows) =
    let rest = rows_in product_ids rows in
    if any (λ id. id == row.product_id) product_ids then row ∷ rest else rest

unfoldable pub find_all_by_product_id : List UniqueId → Action (List Inventory)
find_all_by_product_id product_ids = do call; gets (λ w. rows_in product_ids w.db.inventories)

-- `update({ uuid, version }, row)` on the table: the row with this id is written if it has this
-- version. The mapper writes the stock and the version.
abbrev pub update_row : Inventory → Version → Dict Inventory → Dict Inventory × ℕ
update_row entity origin table = elim (lookup entity.id table) [
  | none ↦ (table, 0)
  | some row ↦
      if row.version == origin
      then (
        insert entity.id (record row { quantity = entity.quantity; version = entity.version })
            table,
        1,
      )
      else (table, 0)
]

unfoldable pub update_with_version : Inventory → Version → Action ℕ
update_with_version entity origin = do
  call
  λ w.
      let (table, affected) = update_row entity origin w.db.inventories in
      (ok affected, record w { db = record (w.db) { inventories = table } })

-- The sum of the affected rows, or the first error
abbrev pub sum_results : Result ℕ → Result ℕ → Result ℕ
sum_results (ok n) (ok m) = ok (n + m)
sum_results (ok n) (err e) = err e
sum_results (err e) r = err e

-- The updates of the entities that come before one without a version; they are all started.
unfoldable pub updates : Dict Version → List Inventory → Action ℕ
unfolding update_with_version
updates versions [] w = (ok 0, w)
updates versions (entity ∷ rest) w = elim (lookup entity.id versions) [
  | none ↦ (ok 0, w)
  | some origin ↦
      let (r, w') = update_with_version entity origin w in
      let (rs, w'') = updates versions rest w' in (sum_results r rs, w'')
]

abbrev pub all_versioned : Dict Version → List Inventory → Bool
all_versioned versions [] = true
all_versioned versions (entity ∷ rest) =
    let others = all_versioned versions rest in
    elim (lookup entity.id versions) [ none ↦ false | some v ↦ others ]

-- An entity without a version throws while the updates before it are under way.
unfoldable pub persist_many_with_version : List Inventory → Dict Version → Action ℕ
unfolding updates
persist_many_with_version entities versions w =
    let (r, w') = updates versions entities w in
    if all_versioned versions entities then (r, w') else (err version_not_found, w')
