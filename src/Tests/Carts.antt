-- ===== src/Tests/Carts.antt =====
-- Carts in the database at concrete rows.
use shopping_cart.Prelude.{
  ℕ, ◌≡◌, refl, some, true, false, List, [], ◌∷◌, map, filter, lookup, ltb, ok, err, outage, arith,
}
use shopping_cart.Cart.{Cart, CartItem}
use shopping_cart.Store.{Db, CartRow, CartItemRow, calm}
use shopping_cart.Cart.Persistence.{item_to_persistence, persist_cart}
use shopping_cart.Cart.Handlers.{add_item_to_cart}
use shopping_cart.Cart.Adding.{row_entry, add_item_to_cart-row}
use shopping_cart.Cart.Keeping.{content, persist_cart-content, persist_cart-loses}
use shopping_cart.Tests.Data.{unpaid_db, dollars_of}

abbrev cart_row : CartRow
cart_row = record {
  uuid = 61;
  customer_id = 2;
  created_at = 5;
  updated_at = 5;
  cart_items =
      record { uuid = 71; product_id = 10; quantity = 2; price = 7 }
      ∷ record { uuid = 72; product_id = 11; quantity = 3; price = 4 }
      ∷ [];
}

abbrev carted : Db
carted = record unpaid_db { carts = (61, cart_row) ∷ [] }

abbrev item_of : ℕ → ℕ → ℕ → ℕ → CartItem
item_of id p q price = record {
  cart_item_id = id;
  cart_id = 61;
  product_id = p;
  quantity = q;
  price_at_addition = dollars_of price;
}

-- More cups, no plates, and new bowls.
abbrev cart : Cart
cart = record {
  id = 61;
  cart_items = item_of 71 10 5 7 ∷ item_of 72 11 0 4 ∷ item_of 73 12 1 9 ∷ [];
  customer_id = 2;
  created_at = 5;
  updated_at = 9;
}

persist_cart-content_example :
    let (r, w) = persist_cart cart (calm carted [] [] []) in
    (items : List CartItemRow) × (r ≡ ok tt)
    × (lookup 61 w.db.carts ≡ some (record cart_row { cart_items = items }))
    × (map content items
        ≡ map content (filter (λ r'. ltb 0 r'.quantity) (map item_to_persistence cart.cart_items)))
persist_cart-content_example = persist_cart-content carted [] [] [] cart cart_row refl refl (
  ((λ e. absurd (ground arith)), ((λ e. absurd (ground arith)), tt)),
  (((λ e. absurd (ground arith)), tt), (tt, tt)),
)

persist_cart-loses_example :
    let (r, w) =
      persist_cart cart (record (calm carted [] [] []) { faults = false ∷ false ∷ true ∷ [] }) in
    (r ≡ err outage) × (lookup 61 w.db.carts ≡ some (record cart_row { cart_items = [] }))
persist_cart-loses_example = persist_cart-loses carted [] [] [] cart cart_row refl refl refl

abbrev priced_carts : Db
priced_carts = record carted { products = (10, dollars_of 8) ∷ [] }

-- Two more cups at the old price.
add_item_to_cart-row_example :
    let (r, w) = add_item_to_cart 2 10 2 90 91 9 (calm priced_carts [] [] []) in
    (items : List CartItemRow) × (r ≡ ok tt)
    × (lookup 61 w.db.carts ≡ some (record cart_row { cart_items = items }))
    × (row_entry 10 items ≡ some (4, 7))
add_item_to_cart-row_example =
    add_item_to_cart-row priced_carts [] [] [] 2 10 2 90 91 9 (dollars_of 8) cart_row refl refl refl
      (refl, (refl, tt)) 10
