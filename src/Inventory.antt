-- ===== src/Inventory.antt =====
-- The inventory aggregate (server/src/core/domain/inventory/aggregate/inventory.aggregate.ts).
pub mod Laws
use shopping_cart.Prelude.{
  ℕ, Bool, Option, none, some, if◌then◌else◌, ℤ, pos, Result, ok, err, insufficient_inventory,
  ◌>>=◌, ◌>>◌, throw_if, or_else,
}
use shopping_cart.Shared.UniqueId.{UniqueId}
use shopping_cart.Shared.UniqueId
use shopping_cart.Shared.Quantity.{Quantity, Input, is_less_than}
use shopping_cart.Shared.Quantity
use shopping_cart.Shared.Version.{Version}
use shopping_cart.Shared.Version

pub record Inventory : Type 0 where
  pub id : UniqueId
  pub product_id : UniqueId
  pub quantity : Quantity
  pub created_at : ℕ
  pub updated_at : ℕ
  pub version : Version

-- `_available`, which nothing changes
abbrev pub available : Quantity
available = 0

pub record InventoryProps : Type 0 where
  pub id : UniqueId
  pub product_id : UniqueId
  pub quantity : Quantity
  pub created_at : Option ℕ
  pub updated_at : Option ℕ
  pub version : Option Version

-- the constructor, which is also `reconstitute`
unfoldable pub reconstitute : InventoryProps → ℕ → Inventory
reconstitute props now = record {
  id = props.id;
  product_id = props.product_id;
  quantity = props.quantity;
  created_at = or_else props.created_at now;
  updated_at = or_else props.updated_at now;
  version = or_else props.version 1;
}

unfoldable pub create : Option UniqueId → Input → UniqueId → UniqueId → ℕ → Result Inventory
unfolding reconstitute Quantity.create
create product_id quantity fresh fresh_product now = do
  q ← Quantity.create quantity
  ok (
      reconstitute
        (record {
          id = UniqueId.create none fresh;
          product_id = UniqueId.create product_id fresh_product;
          quantity = q;
          created_at = none;
          updated_at = none;
          version = none;
        })
        now)

abbrev pub next_version : Inventory → Inventory
next_version inventory = record inventory { version = Version.next inventory.version }

unfoldable pub check_availability : Inventory → Quantity → Result Bool
unfolding Quantity.subtract
check_availability inventory quantity = do
  left ← Quantity.subtract inventory.quantity quantity
  ok (is_less_than left available)

unfoldable pub add_quantity : Inventory → Quantity → Result Inventory
unfolding Quantity.add
add_quantity inventory quantity = do
  total ← Quantity.add inventory.quantity quantity
  ok (record inventory { quantity = total })

unfoldable pub remove_quantity : Inventory → Quantity → Result Inventory
unfolding Quantity.subtract
remove_quantity inventory quantity = do
  new_quantity ← Quantity.subtract inventory.quantity quantity
  throw_if (is_less_than new_quantity available)
      (insufficient_inventory inventory.product_id inventory.quantity quantity)
  ok (record inventory { quantity = new_quantity })
