-- ===== src/Cart/Items.antt =====
-- The loops over the items of a cart: what they find, keep and change.
use shopping_cart.Prelude.{
  ◌+◌, ◌≤◌, ◌≡◌, refl, Bool, true, false, not, ◌||◌, Option, none, some, List, [], ◌∷◌, ◌++◌,
  length, filter, find, any, ◌==◌, if◌then◌else◌, ok, arith,
}
use shopping_cart.Shared.UniqueId.{UniqueId}
use shopping_cart.Shared.Quantity.{Quantity}
use shopping_cart.Shared.Quantity.Laws.{add-subtract_quantity}
use shopping_cart.Shared.Price.{Price}
use shopping_cart.Cart.{CartItem, holds, new_item, increase_first, change_first}

-- What a list of items records for a product: its quantity and the price at addition.
abbrev pub entry : CartItem → Quantity × Price
entry item = (item.quantity, item.price_at_addition)

abbrev pub entry_of : UniqueId → List CartItem → Option (Quantity × Price)
entry_of p [] = none
entry_of p (item ∷ items) = if holds p item then some (entry item) else entry_of p items

abbrev pub is_in : UniqueId → List CartItem → Bool
is_in p items = any (holds p) items

abbrev pub keep : UniqueId → List CartItem → List CartItem
keep p items = filter (λ item. not (holds p item)) items

pub length-keep_le : (p : UniqueId) (items : List CartItem) → length (keep p items) ≤ length items
length-keep_le p [] = omega arith
length-keep_le p (x ∷ xs) = ground (arith, length-keep_le p xs)

-- The filter shortens the list exactly when the product is there.
pub length-keep_eq :
    (p : UniqueId) (items : List CartItem)
    → (length (keep p items) == length items) ≡ not (is_in p items)
length-keep_eq p [] = refl
length-keep_eq p (x ∷ xs) = ground (arith, length-keep_eq p xs, length-keep_le p xs)

pub entry_of-keep :
    (p j : UniqueId) (items : List CartItem)
    → entry_of j (keep p items) ≡ (if p == j then none else entry_of j items)
entry_of-keep p j [] = ground arith
entry_of-keep p j (x ∷ xs) = ground (arith, entry_of-keep p j xs)

pub entry_of-append :
    (p j : UniqueId) (q : Quantity) (price : Price) (c fresh : UniqueId) (items : List CartItem)
    → is_in p items ≡ false
    → entry_of j (items ++ new_item none c p q price fresh ∷ [])
      ≡ (if p == j then some (q, price) else entry_of j items)
entry_of-append p j q price c fresh [] h = ground arith
entry_of-append p j q price c fresh (x ∷ xs) h =
    ground (arith, entry_of-append p j q price c fresh xs)

-- Adding to the entry that is there.
abbrev pub raised : Quantity → Option (Quantity × Price) → Option (Quantity × Price)
raised q none = none
raised q (some (n, price)) = some (n + q, price)

-- Setting the quantity of the entry that is there.
abbrev pub reset : Quantity → Option (Quantity × Price) → Option (Quantity × Price)
reset q none = none
reset q (some (n, price)) = some (q, price)

-- What `increase_first` gives: it never throws.
abbrev pub raise_first : UniqueId → Quantity → List CartItem → List CartItem
raise_first p q [] = []
raise_first p q (x ∷ xs) =
    if holds p x then record x { quantity = x.quantity + q } ∷ xs else x ∷ raise_first p q xs

pub increase_first-ok :
    (p : UniqueId) (q : Quantity) (items : List CartItem)
    → increase_first p q items ≡ ok (raise_first p q items)
unfolding increase_first
increase_first-ok p q [] = refl
increase_first-ok p q (x ∷ xs) =
    ground (arith, increase_first-ok p q xs, (add-subtract_quantity x.quantity q).0)

pub entry_of-raise_first :
    (p j : UniqueId) (q : Quantity) (items : List CartItem)
    → entry_of j (raise_first p q items)
      ≡ (if p == j then raised q (entry_of j items) else entry_of j items)
entry_of-raise_first p j q [] = ground arith
entry_of-raise_first p j q (x ∷ xs) = ground (arith, entry_of-raise_first p j q xs)

-- The product is in the list exactly when it has an entry.
pub entry_of-is_in :
    (p : UniqueId) (items : List CartItem)
    → is_in p items ≡ elim (entry_of p items) [ none ↦ false | some _ ↦ true ]
entry_of-is_in p [] = refl
entry_of-is_in p (x ∷ xs) = ground (arith, entry_of-is_in p xs)

pub entry_of-change_first :
    (p j : UniqueId) (q : Quantity) (items : List CartItem)
    → entry_of j (change_first p q items)
      ≡ (if p == j then reset q (entry_of j items) else entry_of j items)
unfolding change_first
entry_of-change_first p j q [] = ground arith
entry_of-change_first p j q (x ∷ xs) = ground (arith, entry_of-change_first p j q xs)

pub find-is_in :
    (p : UniqueId) (items : List CartItem)
    → is_in p items ≡ elim (find (holds p) items) [ none ↦ false | some _ ↦ true ]
find-is_in p [] = refl
find-is_in p (x ∷ xs) = ground (arith, find-is_in p xs)

-- No product stands in the list twice.
abbrev pub IsDistinct : List CartItem → Type 0
IsDistinct [] = Unit
IsDistinct (x ∷ xs) = (is_in x.product_id xs ≡ false) × IsDistinct xs

pub is_in-keep :
    (p j : UniqueId) (items : List CartItem)
    → is_in j items ≡ false
    → is_in j (keep p items) ≡ false
is_in-keep p j [] h = refl
is_in-keep p j (x ∷ xs) h = ground (arith, is_in-keep p j xs)

pub keep-IsDistinct :
    (p : UniqueId) (items : List CartItem) → IsDistinct items → IsDistinct (keep p items)
keep-IsDistinct p [] h = tt
keep-IsDistinct p (x ∷ xs) h =
    ground (arith, keep-IsDistinct p xs h.1, is_in-keep p x.product_id xs h.0)

is_in-raise_first :
    (p j : UniqueId) (q : Quantity) (items : List CartItem)
    → is_in j (raise_first p q items) ≡ is_in j items
is_in-raise_first p j q [] = refl
is_in-raise_first p j q (x ∷ xs) = ground (arith, is_in-raise_first p j q xs)

pub raise_first-IsDistinct :
    (p : UniqueId) (q : Quantity) (items : List CartItem)
    → IsDistinct items
    → IsDistinct (raise_first p q items)
raise_first-IsDistinct p q [] h = tt
raise_first-IsDistinct p q (x ∷ xs) h =
    ground (arith, raise_first-IsDistinct p q xs h.1, is_in-raise_first p x.product_id q xs)

is_in-change_first :
    (p j : UniqueId) (q : Quantity) (items : List CartItem)
    → is_in j (change_first p q items) ≡ is_in j items
unfolding change_first
is_in-change_first p j q [] = refl
is_in-change_first p j q (x ∷ xs) = ground (arith, is_in-change_first p j q xs)

pub change_first-IsDistinct :
    (p : UniqueId) (q : Quantity) (items : List CartItem)
    → IsDistinct items
    → IsDistinct (change_first p q items)
unfolding change_first
change_first-IsDistinct p q [] h = tt
change_first-IsDistinct p q (x ∷ xs) h =
    ground (arith, change_first-IsDistinct p q xs h.1, is_in-change_first p x.product_id q xs)

is_in-append :
    (j : UniqueId) (items : List CartItem) (x : CartItem)
    → is_in j (items ++ x ∷ []) ≡ (is_in j items || holds j x)
is_in-append j [] x = ground arith
is_in-append j (y ∷ ys) x = ground (arith, is_in-append j ys x)

pub append-IsDistinct :
    (items : List CartItem) (x : CartItem)
    → IsDistinct items
    → is_in x.product_id items ≡ false
    → IsDistinct (items ++ x ∷ [])
append-IsDistinct [] x h new = (refl, tt)
append-IsDistinct (y ∷ ys) x h new =
    ground (arith, append-IsDistinct ys x h.1, is_in-append y.product_id ys x)
