-- ===== src/Cart/Total.antt =====
-- The total price of a cart.
use native.Mathlib.Nat.{zero-mul}
use shopping_cart.Prelude.{
  ℕ, ◌+◌, ◌*◌, ◌≤◌, ◌≡◌, refl, sym, true, false, Option, none, some, List, [], ◌∷◌, ◌++◌, All, ok,
  arith, Option-cases, inl, inr,
}
use shopping_cart.Shared.UniqueId.{UniqueId}
use shopping_cart.Shared.Quantity.{Quantity}
use shopping_cart.Shared.Price.{Price}
use shopping_cart.Shared.Double.{exponents, power}
use shopping_cart.Shared.Double.Exact.{IsUnits, IsBelow, plus-IsUnits, times-IsUnits}
use shopping_cart.Shared.Price.Laws.{scale_units, IsNormal, create_of_normal, is_normal_code}
use shopping_cart.Cart.{
  CartItem, Cart, add_cart_item, sum_subtotals, cart_currency, get_total_price, new_item,
}
use shopping_cart.Cart.Items.{entry_of, is_in, increase_first-ok, raise_first, entry_of-is_in}
use shopping_cart.Cart.View.{view, Leads}

abbrev pub worth : List CartItem → ℕ
worth [] = 0
worth (x ∷ xs) = x.price_at_addition.amount * x.quantity + worth xs

abbrev pub IsPriced : List CartItem → Type 0
IsPriced items = All (λ x. IsNormal x.price_at_addition) items

-- Every recorded price is a whole number of 2 ^ e units, below 2 ^ 53 of them.
abbrev pub IsWhole : ℕ → List CartItem → Type 0
IsWhole e items =
    All (λ x. IsUnits e x.price_at_addition.amount × IsBelow e x.price_at_addition.amount) items

sum_subtotals-worth :
    (e total : ℕ) (items : List CartItem)
    → e ≤ exponents
    → IsPriced items
    → IsWhole e items
    → IsUnits e total
    → IsBelow e (total + worth items)
    → sum_subtotals total items ≡ ok (total + worth items)
unfolding sum_subtotals
sum_subtotals-worth e total [] h priced whole units less = ground arith
sum_subtotals-worth e total (x ∷ xs) h (priced, more) ((price_units, finite), rest) units less =
    let price = x.price_at_addition in
    let worth' = price.amount * x.quantity in
    let low : IsBelow e worth' = omega (arith, less) in
    let (worth_units, _, _) = times-IsUnits e price.amount x.quantity h price_units finite low in
    let (sum_units, exact) =
      plus-IsUnits e total worth' h units worth_units (omega (arith, less)) in
    rw (scale_units e price.amount x.quantity h price_units finite low) (
      rw (create_of_normal worth' price.currency priced) (
        rw exact (
          rw (sum_subtotals-worth e (total + worth') xs h more rest sum_units (omega (arith, less)))
            (ground arith))))

cart_currency-normal :
    (items : List CartItem) → IsPriced items → is_normal_code (cart_currency items) ≡ true
cart_currency-normal [] h = refl
cart_currency-normal (x ∷ xs) h = h.0

-- With prices that were created by the value object and are whole numbers of 2 ^ e units (e is at
-- most 2045, and 1074 makes a whole amount of the currency), where each price and the exact sum of
-- quantity times price at addition stay below 2 ^ 53 of them: the total exists and is that sum,
-- without any rounding, in the currency of the first item.
pub get_total_price-worth :
    (e : ℕ) (cart : Cart)
    → e ≤ exponents
    → IsPriced cart.cart_items
    → IsWhole e cart.cart_items
    → IsBelow e (worth cart.cart_items)
    → get_total_price cart
      ≡ ok (record { amount = worth cart.cart_items; currency = cart_currency cart.cart_items })
unfolding get_total_price
get_total_price-worth e cart h priced whole less =
    rw
      (sum_subtotals-worth e 0 cart.cart_items h priced whole (0, sym (zero-mul (power e)))
        (omega (arith, less)))
      (rw
        (create_of_normal (0 + worth cart.cart_items) _
          (cart_currency-normal cart.cart_items priced))
        (ground arith))

worth-raise_first :
    (p : UniqueId) (q n : Quantity) (price : Price) (items : List CartItem)
    → entry_of p items ≡ some (n, price)
    → worth (raise_first p q items) ≡ worth items + price.amount * q
worth-raise_first p q n price [] h = cc
worth-raise_first p q n price (x ∷ xs) h = grind (arith, worth-raise_first p q n price xs)

worth-append :
    (items : List CartItem) (x : CartItem)
    → worth (items ++ x ∷ []) ≡ worth items + x.price_at_addition.amount * x.quantity
worth-append [] x = omega arith
worth-append (y ∷ ys) x = omega (arith, worth-append ys x)

-- The unit price that an addition counts at: the one recorded, or the one given if there is none.
abbrev pub unit_price : Option (Quantity × Price) → Price → ℕ
unit_price none price = price.amount
unit_price (some (n, old)) price = old.amount

-- An addition raises the worth of the cart by the quantity at the recorded unit price: a later
-- price of a product already in the cart is not taken.
pub worth-add_cart_item :
    (p : UniqueId) (q : Quantity) (price : Price) (fresh : UniqueId) (now : ℕ) (cart : Cart)
    → Leads (add_cart_item p q price fresh now cart) cart (λ cart'.
      worth cart'.cart_items ≡ worth cart.cart_items + unit_price (view cart p) price * q)
unfolding add_cart_item
worth-add_cart_item p q price fresh now cart =
    let old = cart.cart_items in
    elim (Option-cases (view cart p)) [
      | inl e ↦
          let new : is_in p old ≡ false = ground (arith, entry_of-is_in p old) in
          rw (e, new) (refl, refl, worth-append old (new_item none cart.id p q price fresh))
      | inr ((n, unit), e) ↦
          let there : is_in p old ≡ true = ground (arith, entry_of-is_in p old) in
          rw (e, there)
            (rw (increase_first-ok p q old) (refl, refl, worth-raise_first p q n unit old e))
    ]
