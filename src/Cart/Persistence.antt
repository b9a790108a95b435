-- ===== src/Cart/Persistence.antt =====
-- Carts in the database: PersistenceCartMapper and CartRepository
-- (server/src/infrastructure/persistence/typeorm/mappers/persistence-cart.mapper.ts,
-- repositories/cart.repository.ts).
use shopping_cart.Prelude.{
  Bool, true, false, not, ◌||◌, Option, none, some, List, [], ◌∷◌, map, Dict, lookup, insert, ltb,
  is_empty, ◌==◌, if◌then◌else◌,
}
use shopping_cart.Shared.UniqueId.{UniqueId}
use shopping_cart.Shared.Price.{usd}
use shopping_cart.Cart.{Cart, CartItem}
use shopping_cart.Store.{
  Action, World, CartRow, CartItemRow, call, gets, modify, pure, find_row, ◌>>=◌, ◌>>◌,
}

-- `toDomain`: a price comes back in the default currency.
abbrev pub item_to_domain : UniqueId → CartItemRow → CartItem
item_to_domain cart_id row = record {
  cart_item_id = row.uuid;
  cart_id = cart_id;
  product_id = row.product_id;
  quantity = row.quantity;
  price_at_addition = record { amount = row.price; currency = usd };
}

abbrev pub to_domain : CartRow → Cart
to_domain row = record {
  id = row.uuid;
  cart_items = map (item_to_domain row.uuid) row.cart_items;
  customer_id = row.customer_id;
  created_at = row.created_at;
  updated_at = row.updated_at;
}

-- `toPersistence`
abbrev pub item_to_persistence : CartItem → CartItemRow
item_to_persistence item = record {
  uuid = item.cart_item_id;
  product_id = item.product_id;
  quantity = item.quantity;
  price = item.price_at_addition.amount;
}

abbrev pub to_persistence : Cart → CartRow
to_persistence cart = record {
  uuid = cart.id;
  customer_id = cart.customer_id;
  created_at = cart.created_at;
  updated_at = cart.updated_at;
  cart_items = map item_to_persistence cart.cart_items;
}

-- `findByUniqueId`, by the customer
unfoldable pub find_cart : UniqueId → Action (Option Cart)
find_cart customer_id = do
  call
  gets λ w. elim (find_row (λ row. row.customer_id == customer_id) w.db.carts) [
    | none ↦ none
    | some row ↦ some (to_domain row)
  ]

-- `existingCartItemMap`, by the product; of two items of one product the later one counts.
abbrev pub map_from : List CartItemRow → Dict CartItemRow → Dict CartItemRow
map_from [] items = items
map_from (row ∷ rows) items = map_from rows (insert row.product_id row items)

-- The existing item with the quantity and the price of the incoming one, if they differ.
abbrev pub changed : CartItemRow → CartItemRow → CartItemRow
changed existing incoming =
    if not (existing.quantity == incoming.quantity) || not (existing.price == incoming.price)
    then record existing { quantity = incoming.quantity; price = incoming.price }
    else existing

-- An entry of `updatedCartItems`: the object of an existing item, by its product, or a new item.
pub data Entry : Type 0 where
  kept : UniqueId → Entry
  created : CartItemRow → Entry

abbrev pub push_if : Bool → Entry → List Entry → List Entry
push_if true entry entries = entry ∷ entries
push_if false entry entries = entries

-- The loop over the incoming items: what becomes of the existing items, and `updatedCartItems`.
unfoldable pub merge : List CartItemRow → Dict CartItemRow → Dict CartItemRow × List Entry
merge [] items = (items, [])
merge (incoming ∷ rest) items = elim (lookup incoming.product_id items) [
  | none ↦
      let (items', entries) = merge rest items in
      (items', push_if (ltb 0 incoming.quantity) (created incoming) entries)
  | some existing ↦
      let existing' = changed existing incoming in
      let (items', entries) = merge rest (insert incoming.product_id existing' items) in
      (items', push_if (not (existing'.quantity == 0)) (kept incoming.product_id) entries)
]

-- The items behind the entries, as the objects are in the end.
abbrev pub resolve : Dict CartItemRow → List Entry → List CartItemRow
resolve items [] = []
resolve items (created row ∷ entries) = row ∷ resolve items entries
resolve items (kept product_id ∷ entries) =
    let rest = resolve items entries in
    elim (lookup product_id items) [ none ↦ rest | some row ↦ row ∷ rest ]

unfoldable pub merged : List CartItemRow → List CartItemRow → List CartItemRow
unfolding merge
merged existing incoming =
    let (items, entries) = merge incoming (map_from existing []) in resolve items entries

abbrev pub set_items : UniqueId → List CartItemRow → World → World
set_items id rows w = elim (lookup id w.db.carts) [
  | none ↦ w
  | some row ↦ record w {
    db = record (w.db) { carts = insert id (record row { cart_items = rows }) w.db.carts };
  }
]

-- `remove(itemsToRemove)` of all existing items, if there are any, and `save(cart)`: two
-- statements. That an object whose row was removed is saved again as it was is up to the database
-- library.
unfoldable pub replace_items : CartRow → List CartItemRow → Action (Unit {0})
replace_items row rows = do
  if is_empty row.cart_items then pure tt else (call >> modify (set_items row.uuid []))
  call
  modify (set_items row.uuid rows)

abbrev pub save_cart : CartRow → Action (Unit {0})
save_cart row = do
  call
  modify λ w. record w { db = record (w.db) { carts = insert row.uuid row w.db.carts } }

abbrev pub persist_over : CartRow → Option CartRow → Action (Unit {0})
unfolding replace_items merged
persist_over row none = save_cart row
persist_over row (some existing) =
    replace_items existing (merged existing.cart_items row.cart_items)

-- `persist`; its result is not used.
unfoldable pub persist_cart : Cart → Action (Unit {0})
unfolding replace_items merged
persist_cart cart = do
  existing ← do call; gets (λ w. lookup cart.id w.db.carts)
  persist_over (to_persistence cart) existing
