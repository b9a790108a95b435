-- ===== src/Cache.antt =====
-- The stock in Redis (server/src/infrastructure/cache/redis-cache.service.ts). Only the keys
-- `inventory:product:<id>` are modelled; such a key is the product's id. Redis runs a script, and
-- each of its commands, as one step.
pub mod Conservation
use shopping_cart.Prelude.{
  ℕ, Bool, Option, none, some, List, [], ◌∷◌, Dict, lookup, insert, if◌then◌else◌, ℤ, pos, negsuc,
  ◌+ℤ◌, ◌-ℤ◌, leb_ℤ, or_else,
}
use shopping_cart.Shared.UniqueId.{UniqueId}
use shopping_cart.Shared.Quantity.{Quantity}

abbrev pub Stock : Type 0
Stock = Dict ℤ

-- the Lua script: `if stock and stock >= quantity then DECRBY else -1`
abbrev pub reserve_found : Option ℤ → UniqueId → Quantity → Stock → ℤ × Stock
reserve_found none key quantity stock = (negsuc 0, stock)
reserve_found (some n) key quantity stock =
    if leb_ℤ (pos quantity) n
    then (n -ℤ pos quantity, insert key (n -ℤ pos quantity) stock)
    else (negsuc 0, stock)

-- `reserveInventory`: the new level, or -1
unfoldable pub reserve_inventory : UniqueId → Quantity → Stock → ℤ × Stock
unfolding ◌-ℤ◌
reserve_inventory key quantity stock = reserve_found (lookup key stock) key quantity stock

-- `compensateInventory`: INCRBY, which counts a missing key as 0
unfoldable pub compensate_inventory : UniqueId → Quantity → Stock → Stock
unfolding ◌+ℤ◌
compensate_inventory key quantity stock =
    insert key (or_else (lookup key stock) (pos 0) +ℤ pos quantity) stock

-- `InventoryLoaderService`: `set` for every row of the inventory table
unfoldable pub load : List (UniqueId × Quantity) → Stock → Stock
load [] stock = stock
load ((product_id, quantity) ∷ rows) stock = load rows (insert product_id (pos quantity) stock)
