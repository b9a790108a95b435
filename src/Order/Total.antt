-- ===== src/Order/Total.antt =====
-- Creating an order: its lines, its total and its event.
use native.Mathlib.Nat.{zero-mul}
use shopping_cart.Prelude.{
  ℕ, suc, ◌+◌, ◌*◌, ◌≡◌, ◌≢◌, ◌≤◌, sym, subst, refl, Option, none, some, List, [], ◌∷◌, pos, ok,
  err, empty_order, arith, ap, ◌∙◌, All,
}
use shopping_cart.Shared.UniqueId.{UniqueId}
use shopping_cart.Shared.Price.{Price, usd, number, whole}
use shopping_cart.Shared.Price
use shopping_cart.Shared.Price.Laws.{create_of_normal, scale_units}
use shopping_cart.Shared.Double.{exponents, power, plus}
use shopping_cart.Shared.Double.Exact.{IsUnits, IsBelow, plus-IsUnits, times-IsUnits}
use shopping_cart.Event.{ProductLine, order_created}
use shopping_cart.Order.Line.{OrderLine}
use shopping_cart.Order.{
  SelectedProduct, Order, OrderState, pending, sum_lines, total_of, create_lines, create,
}
use shopping_cart.Order

abbrev pub dollars : ℕ → Price
dollars n = record { amount = n; currency = usd }

-- What the selection costs if every amount is read as dollars.
abbrev pub cost : List SelectedProduct → ℕ
cost [] = 0
cost (s ∷ ss) = s.price_at_time_of_order.amount * s.quantity + cost ss

-- The lines of an order, as the products and quantities that were asked for.
abbrev pub asked : List SelectedProduct → List ProductLine
asked [] = []
asked (s ∷ ss) = record { product_id = s.product_id; quantity = s.quantity } ∷ asked ss

abbrev pub product_lines : List OrderLine → List ProductLine
product_lines [] = []
product_lines (l ∷ ls) =
    record { product_id = l.product_id; quantity = l.quantity } ∷ product_lines ls

-- The line that `OrderLine.create` makes of a selected product.
abbrev line_of : UniqueId → SelectedProduct → UniqueId → ℕ → OrderLine
line_of order_id s fresh now = record {
  id = fresh;
  order_id = order_id;
  product_id = s.product_id;
  quantity = s.quantity;
  description = some s.product_id;
  created_at = now;
  updated_at = now;
  price_at_time_of_order = dollars s.price_at_time_of_order.amount;
}

abbrev lines_of : UniqueId → List SelectedProduct → (ℕ → UniqueId) → ℕ → List OrderLine
lines_of order_id [] fresh now = []
lines_of order_id (s ∷ ss) fresh now =
    line_of order_id s (fresh 0) now ∷ lines_of order_id ss (λ i. fresh (suc i)) now

create_lines-ok :
    (order_id : UniqueId) (ss : List SelectedProduct) (fresh : ℕ → UniqueId) (now : ℕ)
    → create_lines order_id ss fresh now ≡ ok (lines_of order_id ss fresh now)
unfolding create_lines
create_lines-ok order_id [] fresh now = refl
create_lines-ok order_id (s ∷ ss) fresh now =
    rw (create_of_normal s.price_at_time_of_order.amount usd refl)
      (rw (create_lines-ok order_id ss (λ i. fresh (suc i)) now))

multiply-dollars :
    (e a q : ℕ)
    → e ≤ exponents
    → IsUnits e a
    → IsBelow e a
    → IsBelow e (a * q)
    → Price.multiply (dollars a) (whole (pos q)) ≡ ok (dollars (a * q))
unfolding Price.multiply
multiply-dollars e a q h units finite less =
    ap (λ amount. Price.create amount (some usd)) (scale_units e a q h units finite less)
    ∙ create_of_normal (a * q) usd refl

add-dollars : (a b : ℕ) → Price.add (dollars a) (dollars b) ≡ ok (dollars (plus a b))
unfolding Price.add
add-dollars a b = create_of_normal (plus a b) usd refl

create_default-dollars : (a : ℕ) → Price.create_default (number (pos a)) ≡ ok (dollars a)
unfolding Price.create_default
create_default-dollars a = create_of_normal a usd refl

-- Lines whose prices are in dollars.
abbrev pub InDollars : List OrderLine → Type 0
InDollars lines = All (λ l. l.price_at_time_of_order.currency ≡ usd) lines

abbrev pub lines_cost : List OrderLine → ℕ
lines_cost [] = 0
lines_cost (l ∷ ls) = l.price_at_time_of_order.amount * l.quantity + lines_cost ls

-- The amount is a whole number of 2 ^ e units, below 2 ^ 53 of them.
abbrev pub IsWhole : ℕ → ℕ → Type 0
IsWhole e a = IsUnits e a × IsBelow e a

sum_lines-dollars :
    (e t : ℕ) (ls : List OrderLine)
    → e ≤ exponents
    → InDollars ls
    → All (λ l. IsWhole e l.price_at_time_of_order.amount) ls
    → IsUnits e t
    → IsBelow e (t + lines_cost ls)
    → sum_lines (dollars t) ls ≡ ok (dollars (t + lines_cost ls))
unfolding sum_lines
sum_lines-dollars e t [] h in_dollars units' units less = ground arith
sum_lines-dollars e t (l ∷ ls) h (first, others) ((price_units, finite), rest) units less =
    let a = l.price_at_time_of_order.amount in
    let q = l.quantity in
    let same : l.price_at_time_of_order ≡ dollars a = ground arith in
    let low : IsBelow e (a * q) = omega (arith, less) in
    let (product_units, _, _) = times-IsUnits e a q h price_units finite low in
    let (sum_units, exact) = plus-IsUnits e t (a * q) h units product_units (omega (arith, less)) in
    rw (same) (
      rw (multiply-dollars e a q h price_units finite low) (
        rw (add-dollars t (a * q)) (
          rw exact (
            rw (sum_lines-dollars e (t + a * q) ls h others rest sum_units (omega (arith, less)))
              (ground arith)))))

total_of-dollars :
    (e : ℕ) (ls : List OrderLine)
    → e ≤ exponents
    → InDollars ls
    → All (λ l. IsWhole e l.price_at_time_of_order.amount) ls
    → IsBelow e (lines_cost ls)
    → total_of ls ≡ ok (dollars (lines_cost ls))
unfolding total_of
total_of-dollars e ls h in_dollars units' less = rw (create_default-dollars 0) (
    rw
      (sum_lines-dollars e 0 ls h in_dollars units' (0, sym (zero-mul (power e)))
        (omega (arith, less)))
      (ground arith))

lines_of-IsWhole :
    (e : ℕ) (order_id : UniqueId) (ss : List SelectedProduct) (fresh : ℕ → UniqueId) (now : ℕ)
    → All (λ s. IsWhole e s.price_at_time_of_order.amount) ss
    → All (λ l. IsWhole e l.price_at_time_of_order.amount) (lines_of order_id ss fresh now)
lines_of-IsWhole e order_id [] fresh now units' = tt
lines_of-IsWhole e order_id (s ∷ ss) fresh now (first, rest) =
    (first, lines_of-IsWhole e order_id ss (λ i. fresh (suc i)) now rest)

lines_of-InDollars :
    (order_id : UniqueId) (ss : List SelectedProduct) (fresh : ℕ → UniqueId) (now : ℕ)
    → InDollars (lines_of order_id ss fresh now)
lines_of-InDollars order_id [] fresh now = tt
lines_of-InDollars order_id (s ∷ ss) fresh now =
    (refl, lines_of-InDollars order_id ss (λ i. fresh (suc i)) now)

lines_cost-lines_of :
    (order_id : UniqueId) (ss : List SelectedProduct) (fresh : ℕ → UniqueId) (now : ℕ)
    → lines_cost (lines_of order_id ss fresh now) ≡ cost ss
lines_cost-lines_of order_id [] fresh now = refl
lines_cost-lines_of order_id (s ∷ ss) fresh now =
    omega (arith, lines_cost-lines_of order_id ss (λ i. fresh (suc i)) now)

product_lines-lines_of :
    (order_id : UniqueId) (ss : List SelectedProduct) (fresh : ℕ → UniqueId) (now : ℕ)
    → product_lines (lines_of order_id ss fresh now) ≡ asked ss
product_lines-lines_of order_id [] fresh now = refl
product_lines-lines_of order_id (s ∷ ss) fresh now =
    rw (product_lines-lines_of order_id ss (λ i. fresh (suc i)) now)

-- Where every selected price is a whole number of 2 ^ e units (e is at most 2045, and 1074 makes a
-- whole amount), and each price and the exact sum of amount times quantity stay below 2 ^ 53 of
-- them: from a selection that is not empty an order is made, pending, with a line for each selected
-- product in its order, with the event of its creation, and with that sum, without any rounding, as
-- its total, read as dollars whatever the currencies of the selected prices were.
pub create-total :
    (e : ℕ) (customer_id : UniqueId) (ss : List SelectedProduct) (coupon_id : Option UniqueId)
    (fresh : UniqueId) (fresh_lines : ℕ → UniqueId) (now : ℕ)
    → ss ≢ []
    → e ≤ exponents
    → All (λ s. IsWhole e s.price_at_time_of_order.amount) ss
    → IsBelow e (cost ss)
    → (order : Order) × (Order.create customer_id ss coupon_id fresh fresh_lines now ≡ ok order)
      × (order.state ≡ pending)
      × (product_lines order.order_lines ≡ asked ss)
      × (total_of order.order_lines ≡ ok (dollars (cost ss)))
      × (order.events ≡ order_created fresh customer_id order.order_lines (dollars (cost ss)) ∷ [])
unfolding Order.create
create-total e customer_id [] coupon_id fresh fresh_lines now some' h units' less =
    absurd (some' refl)
create-total e customer_id (s ∷ ss) coupon_id fresh fresh_lines now some' h units' less =
    let lines = lines_of fresh (s ∷ ss) fresh_lines now in
    let same = lines_cost-lines_of fresh (s ∷ ss) fresh_lines now in
    let total : total_of lines ≡ ok (dollars (cost (s ∷ ss))) =
      total_of-dollars e lines h (lines_of-InDollars fresh (s ∷ ss) fresh_lines now)
        (lines_of-IsWhole e fresh (s ∷ ss) fresh_lines now units')
        (subst (IsBelow e) (sym same) less)
      ∙ ap (λ n. ok (dollars n)) same in
    (
      record {
        id = fresh;
        customer_id = customer_id;
        coupon_id = coupon_id;
        order_lines = lines;
        state = pending;
        invoice_path = none;
        canceled_at = none;
        completed_at = none;
        created_at = now;
        updated_at = now;
        events = order_created fresh customer_id lines (dollars (cost (s ∷ ss))) ∷ [];
      },
      rw (create_lines-ok fresh (s ∷ ss) fresh_lines now) (rw total refl),
      refl,
      product_lines-lines_of fresh (s ∷ ss) fresh_lines now,
      total,
      refl,
    )

-- An empty selection makes no order.
pub create_empty :
    (customer_id : UniqueId) (coupon_id : Option UniqueId) (fresh : UniqueId)
    (fresh_lines : ℕ → UniqueId) (now : ℕ)
    → Order.create customer_id [] coupon_id fresh fresh_lines now ≡ err empty_order
unfolding Order.create
create_empty customer_id coupon_id fresh fresh_lines now = refl
