-- ===== src/Handlers/ReserveV1.antt =====
-- The first version of the reservation
-- (server/src/core/application/inventory/command/reserve-inventory-for-order/reserve-inventory-for-order.handler.ts).
pub mod Steady
pub mod Atomic
pub mod Calm
pub mod One
use shopping_cart.Prelude.{
  ℕ, Bool, true, false, not, Option, none, some, List, [], ◌∷◌, map, Dict, insert, find, length,
  ◌==◌, if◌then◌else◌, Result, ok, err, Exception, inventory_conflict, saga_not_found,
}
use shopping_cart.Prelude
use shopping_cart.Shared.UniqueId.{UniqueId}
use shopping_cart.Shared.Version.{Version}
use shopping_cart.Event.{ProductLine, inventory_reserved, inventory_reservation_failed}
use shopping_cart.Inventory.{Inventory, remove_quantity, next_version}
use shopping_cart.Saga.{Saga, Step}
use shopping_cart.Saga
use shopping_cart.Store.{
  Action, pure, throw, lift, found_or_throw, ◌>>=◌, ◌>>◌, publish, find_saga, persist_saga,
}
use shopping_cart.UnitOfWork.{execute}
use shopping_cart.Handlers.Control.{try_catch}
use shopping_cart.Handlers.Versions.{find_all_by_product_id, persist_many_with_version}

-- One inventory with the order line of its product: its new state. An inventory without a line is
-- left as it is and has no version in the map.
abbrev pub take_line : Inventory → Option ProductLine → Result Inventory
take_line inventory none = ok inventory
take_line inventory (some line) =
    Prelude.◌>>=◌ (remove_quantity inventory line.quantity) λ taken. ok (next_version taken)

abbrev pub line_of_product : List ProductLine → UniqueId → Option ProductLine
line_of_product lines product_id = find (λ line. line.product_id == product_id) lines

abbrev pub remember : Inventory → Option ProductLine → Dict Version → Dict Version
remember inventory none versions = versions
remember inventory (some line) versions = insert inventory.id inventory.version versions

-- The loop over the inventories, with the map of their versions.
unfoldable pub take_lines :
    List ProductLine → List Inventory → Dict Version → Result (List Inventory × Dict Version)
unfolding remove_quantity
take_lines lines [] versions = ok ([], versions)
take_lines lines (inventory ∷ rest) versions =
    let line = line_of_product lines inventory.product_id in
    Prelude.◌>>=◌ (take_line inventory line) λ taken.
      Prelude.◌>>=◌ (take_lines lines rest (remember inventory line versions))
        λ r. ok (taken ∷ r.0, r.1)

-- What follows the update.
unfoldable pub conclude : UniqueId → ℕ → Saga → ℕ → ℕ → Action (Unit {0})
unfolding persist_saga Saga.advance_step
conclude order_id now saga wanted updated =
    if not (updated == wanted)
    then throw inventory_conflict
    else (lift (Saga.advance_step Step.inventory_reserved none now saga) >>= λ saga'.
        persist_saga saga' >> publish (inventory_reserved order_id))

-- The work of the transaction
unfoldable pub reserve_work : UniqueId → List ProductLine → ℕ → Action (Unit {0})
unfolding find_saga find_all_by_product_id take_lines persist_many_with_version conclude
reserve_work order_id lines now = do
  saga ← found_or_throw (← find_saga order_id) saga_not_found
  inventories ← find_all_by_product_id (map (λ line. line.product_id) lines)
  taken ← lift (take_lines lines inventories [])
  updated_rows ← persist_many_with_version taken.0 taken.1
  conclude order_id now saga (length inventories) updated_rows

-- The second transaction: the saga says that the reservation failed.
unfoldable pub note_failure : Option Saga → ℕ → Action (Unit {0})
unfolding persist_saga Saga.advance_step
note_failure none now = pure tt
note_failure (some saga) now = do
  saga' ← lift (Saga.advance_step Step.inventory_reserve_failed none now saga)
  persist_saga saga'

abbrev pub is_conflict : Exception → Bool
is_conflict inventory_conflict = true
is_conflict _ = false

unfoldable pub after_failure : UniqueId → ℕ → Exception → Action (Unit {0})
unfolding execute find_saga note_failure
after_failure order_id now error =
    if is_conflict error
    then throw error
    else (execute (find_saga order_id >>= λ saga. note_failure saga now)
        >> publish (inventory_reservation_failed order_id)
        >> throw error)

-- The whole handler
unfoldable pub reserve_inventory_v1 : UniqueId → List ProductLine → ℕ → Action (Unit {0})
unfolding execute reserve_work after_failure
reserve_inventory_v1 order_id lines now =
    try_catch (execute (reserve_work order_id lines now)) (after_failure order_id now)
