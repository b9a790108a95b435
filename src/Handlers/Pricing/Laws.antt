-- ===== src/Handlers/Pricing/Laws.antt =====
-- At which price the lines of a placed order are.
use shopping_cart.Prelude.{
  Bool-cases, inl, inr, any, if◌then◌else◌, ◌==◌, ◌≡◌, ◌≢◌, refl, false, Option, none, some, List,
  [], ◌∷◌, Dict, lookup, ok, or_else, arith,
}
use shopping_cart.Shared.UniqueId.{UniqueId}
use shopping_cart.Shared.Text.{is_space}
use shopping_cart.Shared.Price.{Price, usd}
use shopping_cart.Shared.Price
use shopping_cart.Event.{ProductLine}
use shopping_cart.Order.{SelectedProduct}
use shopping_cart.Saga.{has_product}
use shopping_cart.Orchestrator.Lines.{IsDistinct}
use shopping_cart.Handlers.Pricing.{take_price, price_or_zero, price_lines}

abbrev pub zero_price : Price
zero_price = record { amount = 0; currency = usd }

-- The listed price of a product; an unknown product is free.
abbrev pub listed : Dict Price → UniqueId → Price
listed products id = or_else (lookup id products) zero_price

abbrev pub at_price : ProductLine → Price → SelectedProduct
at_price line price = record {
  product_id = line.product_id;
  quantity = line.quantity;
  price_at_time_of_order = price;
}

abbrev pub listed_lines : Dict Price → List ProductLine → List SelectedProduct
listed_lines products [] = []
listed_lines products (line ∷ lines) =
    at_price line (listed products line.product_id) ∷ listed_lines products lines

-- The rows of a table have distinct keys.
abbrev pub IsKeyed : Dict Price → Type 0
IsKeyed [] = Unit
IsKeyed ((k, price) ∷ rows) = (lookup k rows ≡ none) × IsKeyed rows

take_price-found :
    (id : UniqueId) (products : Dict Price) → (take_price id products).0 ≡ lookup id products
unfolding take_price
take_price-found id [] = refl
take_price-found id ((k, price) ∷ rows) = ground (arith, take_price-found id rows)

take_price-other :
    (id j : UniqueId) (products : Dict Price)
    → id ≢ j
    → lookup j (take_price id products).1 ≡ lookup j products
unfolding take_price
take_price-other id j [] ne = refl
take_price-other id j ((k, price) ∷ rows) ne = ground (arith, take_price-other id j rows ne)

take_price-gone :
    (id : UniqueId) (products : Dict Price)
    → IsKeyed products
    → lookup id (take_price id products).1 ≡ none
unfolding take_price
take_price-gone id [] keyed = refl
take_price-gone id ((k, price) ∷ rows) (new, keyed) = ground (arith, take_price-gone id rows keyed)

listed_lines-other :
    (id : UniqueId) (products : Dict Price) (lines : List ProductLine)
    → has_product id lines ≡ false
    → listed_lines (take_price id products).1 lines ≡ listed_lines products lines
listed_lines-other id products [] h = refl
listed_lines-other id products (line ∷ lines) h =
    let apart : id ≢ line.product_id = ground arith in
    rw (take_price-other id line.product_id products apart)
      (ground (arith, listed_lines-other id products lines))

price_or_zero_lem : (found : Option Price) → price_or_zero found ≡ ok (or_else found zero_price)
unfolding Price.create_default is_space
price_or_zero_lem none = refl
price_or_zero_lem (some price) = refl

-- When no product is selected twice, every line of the order is at the listed price of its product,
-- and a product that is not listed is free.
pub price_lines-distinct :
    (products : Dict Price) (lines : List ProductLine)
    → IsDistinct lines
    → price_lines products lines ≡ ok (listed_lines products lines)
unfolding price_lines
price_lines-distinct products [] distinct = refl
price_lines-distinct products (line ∷ lines) (new, distinct) =
    let id = line.product_id in
    ground (
      arith,
      price_or_zero_lem (take_price id products).0,
      take_price-found id products,
      listed_lines-other id products lines new,
      price_lines-distinct (take_price id products).1 lines distinct,
    )

take_price-none :
    (id j : UniqueId) (products : Dict Price)
    → lookup j products ≡ none
    → lookup j (take_price id products).1 ≡ none
unfolding take_price
take_price-none id j [] h = refl
take_price-none id j ((k, price) ∷ rows) h = ground (arith, take_price-none id j rows)

take_price-IsKeyed :
    (id : UniqueId) (products : Dict Price) → IsKeyed products → IsKeyed (take_price id products).1
unfolding take_price
take_price-IsKeyed id [] keyed = tt
take_price-IsKeyed id ((k, price) ∷ rows) (new, keyed) = elim (Bool-cases (k == id)) [
  | inl same ↦ rw same keyed
  | inr other ↦ rw other (take_price-none id k rows new, take_price-IsKeyed id rows keyed)
]

-- The price at which a line is, after lines of some products: the listed one for the first line of
-- its product, and nothing for a later one.
abbrev pub once : Dict Price → List UniqueId → UniqueId → Price
once products seen id = if any (λ k. k == id) seen then zero_price else listed products id

abbrev pub once_lines : Dict Price → List UniqueId → List ProductLine → List SelectedProduct
once_lines products seen [] = []
once_lines products seen (line ∷ lines) =
    at_price line (once products seen line.product_id)
    ∷ once_lines products (line.product_id ∷ seen) lines

once-take_price :
    (products left : Dict Price) (seen : List UniqueId) (id j : UniqueId)
    → IsKeyed left
    → listed left j ≡ once products seen j
    → listed (take_price id left).1 j ≡ once products (id ∷ seen) j
once-take_price products left seen id j keyed h = elim (Bool-cases (id == j)) [
  | inl same ↦
      let e : id ≡ j = ground arith in rw same (ground (arith, take_price-gone id left keyed))
  | inr other ↦ let apart : id ≢ j = ground arith in rw (other, take_price-other id j left apart) h
]

price_lines-from :
    (products left : Dict Price) (seen : List UniqueId) (lines : List ProductLine)
    → IsKeyed left
    → ((j : UniqueId) → listed left j ≡ once products seen j)
    → price_lines left lines ≡ ok (once_lines products seen lines)
unfolding price_lines
price_lines-from products left seen [] keyed h = refl
price_lines-from products left seen (line ∷ lines) keyed h =
    let id = line.product_id in
    let rest =
      price_lines-from products (take_price id left).1 (id ∷ seen) lines
        (take_price-IsKeyed id left keyed)
        (λ j. once-take_price products left seen id j keyed (h j)) in
    rw (price_or_zero_lem (take_price id left).0, take_price-found id left, h id, rest) refl

-- In a table of products with distinct keys, whatever products are selected and how often: the
-- first line of each product is at its listed price, and every further line of a product is free,
-- since its price is taken out of the list with the first; a product that is not listed is free.
pub price_lines-once :
    (products : Dict Price) (lines : List ProductLine)
    → IsKeyed products
    → price_lines products lines ≡ ok (once_lines products [] lines)
price_lines-once products lines keyed =
    price_lines-from products products [] lines keyed (λ j. refl)
