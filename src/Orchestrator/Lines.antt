-- ===== src/Orchestrator/Lines.antt =====
-- The order lines of a saga as the reservation goes through them.
use shopping_cart.Prelude.{
  ◌≡◌, refl, ◌∙◌, true, false, Option, none, some, List, [], ◌∷◌, ◌++◌, ok, arith, ◌==◌, All,
}
use shopping_cart.Shared.UniqueId.{UniqueId}
use shopping_cart.Event.{ProductLine}
use shopping_cart.Saga.{has_product, first_unreserved}
use shopping_cart.Saga.Reservation.{has_product-append}
use mathlib.Core.List.{append_assoc}

-- No product has two lines.
abbrev pub IsDistinct : List ProductLine → Type 0
IsDistinct [] = Unit
IsDistinct (l ∷ ls) = (has_product l.product_id ls ≡ false) × IsDistinct ls

abbrev pub first {ℓ} : {A : Type ℓ} → List A → Option A
first [] = none
first (a ∷ rest) = some a

-- The search passes over lines that are reserved.
skips :
    (reserved ls rest : List ProductLine)
    → All (λ l. has_product l.product_id reserved ≡ true) ls
    → first_unreserved reserved (ls ++ rest) ≡ first_unreserved reserved rest
unfolding first_unreserved
skips reserved [] rest h = refl
skips reserved (l ∷ ls) rest (h, hs) = rw h (skips reserved ls rest hs)

covers_more :
    (l : ProductLine) (reserved ls : List ProductLine)
    → All (λ x. has_product x.product_id reserved ≡ true) ls
    → All (λ x. has_product x.product_id (l ∷ reserved) ≡ true) ls
covers_more l reserved [] h = tt
covers_more l reserved (x ∷ xs) (h, hs) = (ground arith, covers_more l reserved xs hs)

covers_self :
    (ls rest : List ProductLine) → All (λ x. has_product x.product_id (ls ++ rest) ≡ true) ls
covers_self [] rest = tt
covers_self (l ∷ ls) rest = (ground arith, covers_more l (ls ++ rest) ls (covers_self ls rest))

has_product-middle :
    (p : UniqueId) (ls rest : List ProductLine) (l : ProductLine)
    → has_product p (ls ++ l ∷ rest) ≡ false
    → (l.product_id == p) ≡ false
has_product-middle p [] rest l h = ground arith
has_product-middle p (x ∷ xs) rest l h = has_product-middle p xs rest l (ground arith)

-- A line after a part of distinct lines is not among them.
pub new_after :
    (ls rest : List ProductLine) (l : ProductLine)
    → IsDistinct (ls ++ l ∷ rest)
    → has_product l.product_id ls ≡ false
new_after [] rest l h = refl
new_after (x ∷ xs) rest l (h, hs) =
    ground (arith, new_after xs rest l hs, has_product-middle x.product_id xs rest l)

next_of :
    (reserved rest : List ProductLine)
    → IsDistinct (reserved ++ rest)
    → first_unreserved reserved rest ≡ ok (first rest)
unfolding first_unreserved
next_of reserved [] h = refl
next_of reserved (x ∷ xs) h = rw (new_after reserved xs x h)

-- After the lines `done` and one more, the search finds the line after it.
pub next_after :
    (done rest : List ProductLine) (l : ProductLine)
    → IsDistinct (done ++ l ∷ rest)
    → first_unreserved (done ++ l ∷ []) (done ++ l ∷ rest) ≡ ok (first rest)
unfolding first_unreserved
next_after done rest l h =
    let reserved = done ++ l ∷ [] in
    let self : has_product l.product_id reserved ≡ true =
      ground (arith, has_product-append l.product_id done l) in
    skips reserved done (l ∷ rest) (covers_self done (l ∷ []))
    ∙ rw self (next_of reserved rest (rw append_assoc h))
