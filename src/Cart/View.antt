-- ===== src/Cart/View.antt =====
-- The cart as a finite map from products to quantities and prices, which each operation changes at
-- one product.
use shopping_cart.Prelude.{
  ℕ, ◌+◌, ◌≡◌, refl, false, Option, none, some, List, [], ◌∷◌, ◌==◌, if◌then◌else◌, Result, ok, err,
  product_not_in_cart, arith, Bool-cases, Option-cases, Exception, length, find, inl, inr,
}
use shopping_cart.Shared.UniqueId.{UniqueId}
use shopping_cart.Shared.Quantity.{Quantity}
use shopping_cart.Shared.Price.{Price}
use shopping_cart.Cart.{
  Cart, initialize_cart, new_item, holds, add_cart_item, remove_cart_item, update_item_quantity,
}
use shopping_cart.Cart.Items.{
  entry_of, is_in, keep, reset, length-keep_eq, entry_of-keep, entry_of-append, increase_first-ok,
  entry_of-raise_first, entry_of-is_in, entry_of-change_first, find-is_in, IsDistinct,
  keep-IsDistinct, raise_first-IsDistinct, change_first-IsDistinct, append-IsDistinct,
}

-- The abstract cart.
abbrev pub view : Cart → UniqueId → Option (Quantity × Price)
view cart p = entry_of p cart.cart_items

-- The entry after an addition: the old price is kept, and a new product takes the price given.
abbrev pub added : Quantity → Price → Option (Quantity × Price) → Option (Quantity × Price)
added q price none = some (q, price)
added q price (some (n, old)) = some (n + q, old)

-- What an operation may have done: thrown, or led to a cart with the same identity that satisfies
-- P.
abbrev pub Leads : Result Cart → Cart → (Cart → Type 0) → Type 0
Leads (err e) cart P = ⊥
Leads (ok cart') cart P = (cart'.id ≡ cart.id) × (cart'.customer_id ≡ cart.customer_id) × P cart'

-- It leads there if the product has an entry, and throws the exception if it has none.
abbrev pub LeadsIf :
    Option (Quantity × Price) → Exception → Result Cart → Cart → (Cart → Type 0) → Type 0
LeadsIf none e r cart P = r ≡ err e
LeadsIf (some _) e r cart P = Leads r cart P

-- `addCartItem` never throws. It adds to the entry of the product, or makes one with the price
-- given, and leaves every other entry, the id and the customer as they were.
pub add_cart_item-view :
    (p : UniqueId) (q : Quantity) (price : Price) (fresh : UniqueId) (now : ℕ) (cart : Cart)
    (j : UniqueId)
    → Leads
        (add_cart_item p q price fresh now cart)
        cart
        (λ cart'. view cart' j ≡ (if p == j then added q price (view cart j) else view cart j))
unfolding add_cart_item
add_cart_item-view p q price fresh now cart j =
    let old = cart.cart_items in
    elim (Bool-cases (is_in p old)) [
      | inl there ↦ rw there (
          rw (increase_first-ok p q old)
            (refl, refl, ground (arith, entry_of-raise_first p j q old, entry_of-is_in p old)))
      | inr new ↦ rw new (
        refl,
        refl,
        ground (arith, entry_of-append p j q price cart.id fresh old, entry_of-is_in p old),
      )
    ]

-- `removeCartItem` throws exactly when the product has no entry; else it clears that entry alone.
pub remove_cart_item-view :
    (p : UniqueId) (now : ℕ) (cart : Cart) (j : UniqueId)
    → LeadsIf
        (view cart p)
        (product_not_in_cart p)
        (remove_cart_item p now cart)
        cart
        (λ cart'. view cart' j ≡ (if p == j then none else view cart j))
unfolding remove_cart_item
remove_cart_item-view p now cart j =
    let old = cart.cart_items in
    elim (Option-cases (view cart p)) [
      | inl e ↦ rw e (ground (arith, length-keep_eq p old, entry_of-is_in p old))
      | inr (_, e) ↦
          let shorter : (length (keep p old) == length old) ≡ false =
            ground (arith, length-keep_eq p old, entry_of-is_in p old) in
          rw (e, shorter) (refl, refl, entry_of-keep p j old)
    ]

-- `updateItemQuantity` throws exactly when the product has no entry; else it sets the quantity of
-- that entry alone and keeps its price.
pub update_item_quantity-view :
    (p : UniqueId) (q : Quantity) (now : ℕ) (cart : Cart) (j : UniqueId)
    → LeadsIf
        (view cart p)
        (product_not_in_cart p)
        (update_item_quantity p q now cart)
        cart
        (λ cart'. view cart' j ≡ (if p == j then reset q (view cart j) else view cart j))
unfolding update_item_quantity
update_item_quantity-view p q now cart j =
    let old = cart.cart_items in
    elim (Option-cases (view cart p)) [
      | inl e ↦ rw e (ground (arith, find-is_in p old, entry_of-is_in p old))
      | inr (_, e) ↦ elim (Option-cases (find (holds p) old)) [
        | inl f ↦ absurd (ground (arith, find-is_in p old, entry_of-is_in p old))
        | inr (_, f) ↦ rw (e, f) (refl, refl, entry_of-change_first p j q old)
      ]
    ]

abbrev pub IsValid : Cart → Type 0
IsValid cart = IsDistinct cart.cart_items

pub initialize_cart-IsValid :
    (customer fresh : UniqueId) (now : ℕ) → IsValid (initialize_cart customer fresh now)
unfolding initialize_cart
initialize_cart-IsValid customer fresh now = tt

pub data Operation : Type 0 where
  adds : UniqueId → Quantity → Price → UniqueId → ℕ → Operation
  removes : UniqueId → ℕ → Operation
  updates : UniqueId → Quantity → ℕ → Operation

abbrev pub apply : Operation → Cart → Result Cart
apply (adds p q price fresh now) cart = add_cart_item p q price fresh now cart
apply (removes p now) cart = remove_cart_item p now cart
apply (updates p q now) cart = update_item_quantity p q now cart

-- The cart after a request: a request that throws leaves the stored cart.
abbrev pub after : Result Cart → Cart → Cart
after (ok cart') cart = cart'
after (err e) cart = cart

pub apply-IsValid :
    (op : Operation) (cart : Cart) → IsValid cart → IsValid (after (apply op cart) cart)
unfolding add_cart_item remove_cart_item update_item_quantity
apply-IsValid (adds p q price fresh now) cart h =
    let old = cart.cart_items in
    ground (
      arith,
      increase_first-ok p q old,
      raise_first-IsDistinct p q old h,
      append-IsDistinct old (new_item none cart.id p q price fresh) h,
    )
apply-IsValid (removes p now) cart h = ground (arith, keep-IsDistinct p cart.cart_items h)
apply-IsValid (updates p q now) cart h =
    ground (arith, change_first-IsDistinct p q cart.cart_items h)

abbrev pub run : List Operation → Cart → Cart
run [] cart = cart
run (op ∷ ops) cart = run ops (after (apply op cart) cart)

-- No sequence of operations, some of which may throw, puts a product twice into a cart that began
-- empty.
pub run-IsValid : (ops : List Operation) (cart : Cart) → IsValid cart → IsValid (run ops cart)
run-IsValid [] cart h = h
run-IsValid (op ∷ ops) cart h =
    run-IsValid ops (after (apply op cart) cart) (apply-IsValid op cart h)

-- From an empty cart on, whatever is added, removed and updated, no product stands in it twice.
pub run-initialize_cart-IsValid :
    (ops : List Operation) (customer fresh : UniqueId) (now : ℕ)
    → IsValid (run ops (initialize_cart customer fresh now))
run-initialize_cart-IsValid ops customer fresh now =
    run-IsValid ops _ (initialize_cart-IsValid customer fresh now)
