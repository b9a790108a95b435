-- ===== src/Saga/Reservation.antt =====
-- Which order line a saga reserves next.
use shopping_cart.Prelude.{
  ℕ, suc, ◌≤◌, ◌<◌, ◌≡◌, refl, false, none, some, List, [], ◌∷◌, ◌++◌, ok, arith, ◌||◌, ◌==◌,
  if◌then◌else◌, Bool-cases, inl, inr, ◌↔◌,
}
use shopping_cart.Shared.UniqueId.{UniqueId}
use shopping_cart.Event.{ProductLine}
use shopping_cart.Saga.{
  has_product, first_unreserved, get_next_line_to_reserve, Saga, mark_line_as_reserve, place_order,
}

-- The lines whose product has no reservation yet.
abbrev pub open_lines : List ProductLine → List ProductLine → ℕ
open_lines reserved [] = 0
open_lines reserved (l ∷ ls) =
    if has_product l.product_id reserved
    then open_lines reserved ls
    else suc (open_lines reserved ls)

pub has_product-append :
    (p : UniqueId) (ls : List ProductLine) (l : ProductLine)
    → has_product p (ls ++ l ∷ []) ≡ (has_product p ls || l.product_id == p)
has_product-append p [] l = ground arith
has_product-append p (x ∷ xs) l = ground (arith, has_product-append p xs l)

open_lines-append_le :
    (reserved ls : List ProductLine) (l : ProductLine)
    → open_lines (reserved ++ l ∷ []) ls ≤ open_lines reserved ls
open_lines-append_le reserved [] l = omega arith
open_lines-append_le reserved (x ∷ xs) l =
    ground (arith, open_lines-append_le reserved xs l, has_product-append x.product_id reserved l)

-- What the search finds is a line of the order whose product is not reserved, and reserving it
-- leaves fewer lines open.
first_unreserved-some :
    (reserved ls : List ProductLine) (l : ProductLine)
    → first_unreserved reserved ls ≡ ok (some l)
    → (has_product l.product_id reserved ≡ false)
      × (open_lines (reserved ++ l ∷ []) ls < open_lines reserved ls)
unfolding first_unreserved
first_unreserved-some reserved [] l h = absurd (ground arith)
first_unreserved-some reserved (x ∷ xs) l h =
    elim (Bool-cases (has_product x.product_id reserved)) [
      | inl old ↦
          let (a, b) = first_unreserved-some reserved xs l (ground arith) in
          (a, ground (arith, has_product-append x.product_id reserved l))
      | inr new ↦ (
        ground arith,
        ground
            (arith, has_product-append x.product_id reserved l, open_lines-append_le reserved xs l),
      )
    ]

pub first_unreserved-none :
    (reserved ls : List ProductLine)
    → (first_unreserved reserved ls ≡ ok none) ↔ (open_lines reserved ls ≡ 0)
unfolding first_unreserved
first_unreserved-none reserved [] = ground arith
first_unreserved-none reserved (x ∷ xs) = elim (Bool-cases (has_product x.product_id reserved)) [
  | inl old ↦ rw old (first_unreserved-none reserved xs)
  | inr new ↦ rw new ((λ h. absurd (ground arith)), (λ h. absurd (omega arith)))
]

-- The line that a saga asks for next is one whose product has no reservation, and marking it as
-- reserved leaves strictly fewer lines open: the reservation of an order ends.
pub get_next-mark_decreases :
    (saga : Saga) (l : ProductLine)
    → saga.saga_type ≡ place_order
    → get_next_line_to_reserve saga ≡ ok (some l)
    → (saga' : Saga) × (mark_line_as_reserve l saga ≡ ok saga')
      × (has_product l.product_id saga.payload.reserved_order_lines ≡ false)
      × (open_lines saga'.payload.reserved_order_lines saga'.payload.order_lines
          < open_lines saga.payload.reserved_order_lines saga.payload.order_lines)
unfolding get_next_line_to_reserve mark_line_as_reserve
get_next-mark_decreases saga l type h =
    let reserved = saga.payload.reserved_order_lines in
    let found : first_unreserved reserved saga.payload.order_lines ≡ ok (some l) = ground arith in
    let (free, fewer) = first_unreserved-some reserved saga.payload.order_lines l found in
    (
      record saga { payload = record (saga.payload) { reserved_order_lines = reserved ++ l ∷ [] } },
      rw type refl,
      free,
      fewer,
    )

-- A product that has a reservation is never asked for again, so of two lines for one product the
-- second is not reserved: the search ends although the reserved quantity is short.
pub second_line_unreserved :
    (p : UniqueId) (n m : ℕ) (rest : List ProductLine) (saga : Saga)
    → saga.saga_type ≡ place_order
    → saga.payload.order_lines
      ≡ record { product_id = p; quantity = n } ∷ record { product_id = p; quantity = m } ∷ []
    → saga.payload.reserved_order_lines ≡ record { product_id = p; quantity = n } ∷ rest
    → get_next_line_to_reserve saga ≡ ok none
unfolding get_next_line_to_reserve first_unreserved
second_line_unreserved p n m rest saga type lines reserved = ground arith
