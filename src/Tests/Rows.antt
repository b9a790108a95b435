-- ===== src/Tests/Rows.antt =====
-- Test data: a database of three rows.
use mathlib.Core.List.{reverse}
use shopping_cart.Prelude.{
  ℕ, ◌≡◌, refl, ap, ◌∙◌, Bool, Option, none, some, List, [], ◌∷◌, ◌++◌, map, pos, Result, ok,
  length, take, drop, filter, ltb, ◌==◌, arith,
}
use shopping_cart.Shared.Text.{Text}
use shopping_cart.Query.Types.{
  Number, whole, asc, desc, SortParams, QueryCriteria, Builder, Condition, never, test, test_with,
  beyond, ParamName, ParamValue, Comparison,
}
use shopping_cart.Query.Pages.{QueryOptions}
use shopping_cart.Query.Cursor.{Json, value_of, number, object, empty, member}
use shopping_cart.Query.Seek.{flip}
use shopping_cart.Query.Beyond.{holds_any}
use shopping_cart.Query.Following.{IsOrdered}
use shopping_cart.Query.Backward.{filter-reverse}

abbrev pub price_field : Text
price_field = b'p' ∷ []

abbrev pub priced : ℕ → Json
priced n = object (member price_field (number (pos n)) empty)

abbrev pub by_price : List SortParams
by_price = record { field = price_field; direction = asc } ∷ []

abbrev pub rows : List Json
rows = priced 3 ∷ priced 5 ∷ priced 8 ∷ []

abbrev pub cheapest_first : QueryCriteria
cheapest_first = record { filter = []; sort = by_price }

abbrev pub open_options : QueryOptions
open_options = record {
  allowed_filters = none;
  allowed_sorts = none;
  default_sort = none;
  default_limit = none;
  default_page = none;
}

abbrev pub rank : Json → ℕ
rank (number (pos n)) = n
rank _ = 0

abbrev pub same : Json → Json → Bool
same v w = rank v == rank w

abbrev pub less : Json → Json → Bool
less v w = ltb (rank v) (rank w)

pub same_comm : (v w : Json) → same v w ≡ same w v
same_comm v w = ground arith

-- The rows in a direction, and those that fit the conditions.
abbrev pub arrange : List SortParams → List Json
arrange [] = rows
arrange (s ∷ rest) = elim s.direction [ asc ↦ rows | desc ↦ reverse rows ]

unfoldable pub narrow : List (Condition Json) → List Json → List Json
narrow [] xs = xs
narrow (beyond ds ∷ cs) xs = narrow cs (filter (λ row. holds_any same less row ds) xs)
narrow (never ∷ cs) xs = narrow cs []
narrow (test field operator ∷ cs) xs = narrow cs xs
narrow (test_with field operator name ∷ cs) xs = narrow cs xs

unfoldable pub matching :
    List (Condition Json) → List (ParamName × ParamValue) → List SortParams → List Json
unfolding narrow
matching cs ps order = narrow cs (arrange order)

abbrev pub taken : Option Number → List Json → List Json
taken none xs = xs
taken (some (whole n)) xs = take n xs
taken (some _) xs = []

abbrev pub skipped : Option Number → List Json → List Json
skipped none xs = xs
skipped (some (whole n)) xs = drop n xs
skipped (some _) xs = []

unfoldable pub get_many : Builder Json → Result (List Json)
unfolding matching
get_many qb = ok (taken qb.take (matching qb.conditions qb.parameters qb.order))

unfoldable pub get_many_and_count : Builder Json → Result (List Json × ℕ)
unfolding matching
get_many_and_count qb =
    let found = matching qb.conditions qb.parameters qb.order in
    ok (taken qb.take (skipped qb.skip found), length found)

pub answers :
    (qb : Builder Json) (n : ℕ)
    → qb.take ≡ some (whole n)
    → get_many qb ≡ ok (take n (matching qb.conditions qb.parameters qb.order))
unfolding get_many
answers qb n h = ap (λ o. ok (taken o (matching qb.conditions qb.parameters qb.order))) h

pub pages :
    (qb : Builder Json) (skip take' : ℕ)
    → qb.skip ≡ some (whole skip)
    → qb.take ≡ some (whole take')
    → get_many_and_count qb
      ≡ ok (
        take take' (drop skip (matching qb.conditions qb.parameters qb.order)),
        length (matching qb.conditions qb.parameters qb.order),
      )
unfolding get_many_and_count
pages qb skip take' h k =
    let found = matching qb.conditions qb.parameters qb.order in
    ap (λ o. ok (taken qb.take (skipped o found), length found)) h
    ∙ ap (λ o. ok (taken o (drop skip found), length found)) k

narrow-append :
    (cs : List (Condition Json)) (ds : List (List (Comparison Json))) (xs : List Json)
    → narrow (cs ++ beyond ds ∷ []) xs ≡ filter (λ row. holds_any same less row ds) (narrow cs xs)
unfolding narrow
narrow-append [] ds xs = refl
narrow-append (beyond es ∷ cs) ds xs =
    narrow-append cs ds (filter (λ row. holds_any same less row es) xs)
narrow-append (never ∷ cs) ds xs = narrow-append cs ds []
narrow-append (test field operator ∷ cs) ds xs = narrow-append cs ds xs
narrow-append (test_with field operator name ∷ cs) ds xs = narrow-append cs ds xs

pub refines :
    (cs : List (Condition Json)) (ds : List (List (Comparison Json)))
    (ps : List (ParamName × ParamValue)) (order : List SortParams)
    → matching (cs ++ beyond ds ∷ []) ps order
      ≡ filter (λ row. holds_any same less row ds) (matching cs ps order)
unfolding matching
refines cs ds ps order = narrow-append cs ds (arrange order)

narrow-reverse :
    (cs : List (Condition Json)) (xs : List Json) → narrow cs (reverse xs) ≡ reverse (narrow cs xs)
unfolding narrow
narrow-reverse [] xs = refl
narrow-reverse (beyond ds ∷ cs) xs =
    ap (narrow cs) (filter-reverse (λ row. holds_any same less row ds) xs)
    ∙ narrow-reverse cs (filter (λ row. holds_any same less row ds) xs)
narrow-reverse (never ∷ cs) xs = narrow-reverse cs []
narrow-reverse (test field operator ∷ cs) xs = narrow-reverse cs xs
narrow-reverse (test_with field operator name ∷ cs) xs = narrow-reverse cs xs

pub reverses :
    (cs : List (Condition Json)) (ps : List (ParamName × ParamValue))
    → matching cs ps (map flip by_price) ≡ reverse (matching cs ps by_price)
unfolding matching
reverses cs ps = narrow-reverse cs rows

pub ordered : IsOrdered same less by_price rows
unfolding value_of
ordered = (refl, ((refl, refl), ((refl, refl), tt)), (refl, ((refl, refl), tt), (refl, tt, tt)))
