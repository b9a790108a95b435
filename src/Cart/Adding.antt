-- ===== src/Cart/Adding.antt =====
-- AddItemToCartHandler from its command to the row of the cart, where nothing of the outside world
-- fails.
use shopping_cart.Prelude.{
  ℕ, ◌≡◌, ◌≢◌, refl, sym, ap, ◌∙◌, subst, false, Option, none, some, List, [], ◌∷◌, map, filter,
  lookup, ltb, All, Result, ok, err, arith, ◌==◌, if◌then◌else◌, product_not_found,
}
use shopping_cart.Shared.UniqueId.{UniqueId}
use shopping_cart.Shared.Quantity.{Quantity}
use shopping_cart.Shared.Price.{Price}
use shopping_cart.Cache.{Stock}
use shopping_cart.Event.{Event}
use shopping_cart.Cart.{Cart, CartItem, add_cart_item}
use shopping_cart.Cart.Items.{entry_of, is_in}
use shopping_cart.Cart.Items
use shopping_cart.Cart.View.{
  view, added, Leads, add_cart_item-view, IsValid, apply-IsValid, adds, after,
}
use shopping_cart.Store.{Db, Job, CartRow, CartItemRow, calm, find_row, found_or_throw, lift, ◌>>=◌}
use shopping_cart.Cart.Persistence.{to_domain, item_to_persistence, find_cart, persist_cart}
use shopping_cart.Cart.Keeping.{content, IsDistinct, persist_cart-content}
use shopping_cart.Cart.Handlers.{find_product, cart_or_new, add_item_to_cart}

-- The quantity and the price that the rows have for a product.
abbrev pub row_entry : UniqueId → List CartItemRow → Option (ℕ × ℕ)
row_entry p [] = none
row_entry p (row ∷ rows) =
    if row.product_id == p then some (row.quantity, row.price) else row_entry p rows

-- What is kept of an entry of a cart: none of quantity zero.
abbrev pub kept_entry : Option (Quantity × Price) → Option (ℕ × ℕ)
kept_entry none = none
kept_entry (some (q, price)) = if ltb 0 q then some (q, price.amount) else none

abbrev content_entry : UniqueId → List (UniqueId × ℕ × ℕ) → Option (ℕ × ℕ)
content_entry p [] = none
content_entry p ((product, q, price) ∷ rest) =
    if product == p then some (q, price) else content_entry p rest

row_entry-content :
    (p : UniqueId) (rows : List CartItemRow) → row_entry p rows ≡ content_entry p (map content rows)
row_entry-content p [] = refl
row_entry-content p (row ∷ rows) = ground (arith, row_entry-content p rows)

-- No item of a product, so no row of it that is kept.
content_entry-none :
    (p : UniqueId) (items : List CartItem)
    → is_in p items ≡ false
    → content_entry p (map content (filter (λ r. ltb 0 r.quantity) (map item_to_persistence items)))
      ≡ none
content_entry-none p [] h = refl
content_entry-none p (item ∷ items) h = ground (arith, content_entry-none p items)

content_entry-kept :
    (p : UniqueId) (items : List CartItem)
    → Items.IsDistinct items
    → content_entry p (map content (filter (λ r. ltb 0 r.quantity) (map item_to_persistence items)))
      ≡ kept_entry (entry_of p items)
content_entry-kept p [] h = refl
content_entry-kept p (item ∷ items) (new, h) =
    ground (arith, content_entry-kept p items h, content_entry-none p items)

apart :
    (p : UniqueId) (items : List CartItem)
    → is_in p items ≡ false
    → All (λ r. r.product_id ≢ p) (map item_to_persistence items)
apart p [] h = tt
apart p (item ∷ items) h = ((λ e. absurd (ground arith)), apart p items (ground arith))

IsDistinct-rows :
    (items : List CartItem) → Items.IsDistinct items → IsDistinct (map item_to_persistence items)
IsDistinct-rows [] h = tt
IsDistinct-rows (item ∷ items) (new, h) = (apart item.product_id items new, IsDistinct-rows items h)

led :
    (P : Cart → Type 0) (cart : Cart) (r : Result Cart)
    → Leads r cart P
    → (cart' : Cart) × (r ≡ ok cart') × (cart'.id ≡ cart.id) × P cart'
led P cart (ok cart') (same, customer, holds) = (cart', refl, same, holds)
led P cart (err e) h = absurd h

module _ (db : Db) (stock : Stock) (jobs : List Job) (bus : List Event) (customer p : UniqueId)
    (q : Quantity) (fresh fresh_item : UniqueId) (now : ℕ) (price : Price) (row : CartRow)
    (priced : lookup p db.products ≡ some price)
    (found : find_row (λ r. r.customer_id == customer) db.carts ≡ some row)
    (there : lookup row.uuid db.carts ≡ some row)
    (distinct : Items.IsDistinct (to_domain row).cart_items) where
  handled :
      (cart' : Cart)
      → add_cart_item p q price fresh_item now (to_domain row) ≡ ok cart'
      → add_item_to_cart customer p q fresh fresh_item now (calm db stock jobs bus)
        ≡ persist_cart cart' (calm db stock jobs bus)
  unfolding add_item_to_cart find_product find_cart
  handled cart' done =
      ap
        (λ o.
          (found_or_throw o product_not_found >>= λ cost. find_cart customer >>= λ old.
          lift (add_cart_item p q cost fresh_item now (cart_or_new old customer fresh now))
          >>= persist_cart)
            (calm db stock jobs bus))
        priced
      ∙ ap
          (λ o.
            (lift (
                  add_cart_item p q price fresh_item now (
                    cart_or_new
                      (elim o as (λ x. Option Cart) [ none ↦ none | some r ↦ some (to_domain r) ])
                      customer fresh now))
                >>= persist_cart)
              (calm db stock jobs bus))
          found
      ∙ ap (λ r. (lift r >>= persist_cart) (calm db stock jobs bus)) done

  -- Where nothing of the outside world fails, the product has a price, and the customer's first
  -- cart has a row under its id in which no product stands twice: the handler succeeds; afterwards
  -- the row's entry for the product is the old one with the quantity added, or a new one at the
  -- price, every other entry is as it was, and entries of quantity zero are gone; the rest of the
  -- row is as it was.
  pub add_item_to_cart-row :
      (j : UniqueId)
      → let (r, w) = add_item_to_cart customer p q fresh fresh_item now (calm db stock jobs bus) in
        (items : List CartItemRow) × (r ≡ ok tt)
        × (lookup row.uuid w.db.carts ≡ some (record row { cart_items = items }))
        × (row_entry j items
            ≡ kept_entry
                (if p == j then added q price (view (to_domain row) j) else view (to_domain row) j))
  add_item_to_cart-row j =
      let cart = to_domain row in
      let (cart', done, same, seen) =
        led (λ c. view c j ≡ (if p == j then added q price (view cart j) else view cart j)) cart
          (add_cart_item p q price fresh_item now cart)
          (add_cart_item-view p q price fresh_item now cart j) in
      let valid : IsValid cart' =
        subst (λ r. IsValid (after r cart)) done
          (apply-IsValid (adds p q price fresh_item now) cart distinct) in
      let here : lookup cart'.id db.carts ≡ some row =
        subst (λ (i : UniqueId). lookup i db.carts ≡ some row) (sym same) there in
      let (items, fine, stored, contents) =
        persist_cart-content db stock jobs bus cart' row here (sym same)
          (IsDistinct-rows cart'.cart_items valid) in
      let ran = handled cart' done in
      (
        items,
        ap (λ o. o.0) ran ∙ fine,
        ap (λ o. lookup row.uuid o.1.db.carts) ran
            ∙ subst
                (λ (i : UniqueId).
                  lookup i (persist_cart cart' (calm db stock jobs bus)).1.db.carts
                  ≡ some (record row { cart_items = items }))
                same stored,
        row_entry-content j items
            ∙ ap (content_entry j) contents
            ∙ content_entry-kept j cart'.cart_items valid
            ∙ ap kept_entry seen,
      )
