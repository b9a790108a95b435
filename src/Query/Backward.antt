-- ===== src/Query/Backward.antt =====
-- Lists read from their ends, and the order of the sorts in the other direction.
use mathlib.Core.List.{append-nil, reverse, reverse-append, reverse-cons, reverse-reverse}
use shopping_cart.Prelude.{
  ℕ, zero, suc, ◌≡◌, refl, sym, ap, ◌∙◌, Bool, true, false, Option, List, [], ◌∷◌, ◌++◌, map, All,
  ◌||◌, ◌&&◌, length, min, length-append, take, drop, take-append-drop, filter, filter-append,
  Bool-cases, inl, inr, arith,
}
use shopping_cart.Shared.Text.{Text}
use shopping_cart.Query.Types.{Direction, asc, desc, SortParams, is_allowed}
use shopping_cart.Query.Cursor.{Json, value_of}
use shopping_cart.Query.Seek.{flip}
use shopping_cart.Query.Beyond.{past, after}
use shopping_cart.Query.Following.{IsOrdered, All-middle}

pub filter-reverse :
    {A : Type 0} (keep : A → Bool) (xs : List A)
    → filter keep (reverse xs) ≡ reverse (filter keep xs)
filter-reverse keep [] = refl
filter-reverse keep (x ∷ xs) =
    ap (filter keep) (reverse-cons x xs)
    ∙ filter-append keep (reverse xs) (x ∷ [])
    ∙ ap (λ ys. ys ++ filter keep (x ∷ [])) (filter-reverse keep xs)
    ∙ elim (Bool-cases (keep x)) [
      | inl kept ↦ rw kept (sym (reverse-cons x (filter keep xs)))
      | inr left ↦ rw left (append-nil (reverse (filter keep xs)))
    ]

pub flip-allowed :
    (allowed : Option (List Text)) (sorts : List SortParams)
    → All (λ s. is_allowed allowed s.field ≡ true) sorts
    → All (λ s. is_allowed allowed s.field ≡ true) (map flip sorts)
flip-allowed allowed [] h = tt
flip-allowed allowed (s ∷ rest) (h, others) = (h, flip-allowed allowed rest others)

module _ (same less : Json → Json → Bool) (symmetric : (v w : Json) → same v w ≡ same w v) where
  past-flip :
      (d : Direction) (field : Text) (v w : Json)
      → past same less (flip (record { field = field; direction = d })).direction v w
        ≡ past same less d w v
  past-flip asc field v w = refl
  past-flip desc field v w = refl

  -- Behind in the other direction is before.
  pub after-flip :
      (sorts : List SortParams) (item row : Json)
      → after same less (map flip sorts) item row ≡ after same less sorts row item
  after-flip [] item row = refl
  after-flip (s ∷ rest) item row =
      let v = value_of item s.field in
      let w = value_of row s.field in
      ap (λ b. b || (same w v && after same less (map flip rest) item row))
        (past-flip s.direction s.field v w)
      ∙ ap (λ b. past same less s.direction w v || (b && after same less (map flip rest) item row))
          (symmetric w v)
      ∙ ap (λ b. past same less s.direction w v || (same v w && b)) (after-flip rest item row)

  filter-none :
      (sorts : List SortParams) (c : Json) (ys : List Json)
      → All (λ y. (after same less sorts c y ≡ true) × (after same less sorts y c ≡ false)) ys
      → filter (λ row. after same less sorts row c) ys ≡ []
  filter-none sorts c [] h = refl
  filter-none sorts c (y ∷ ys) ((h, k), others) = rw k (filter-none sorts c ys others)

  -- Of ordered rows, the ones before a row are those that it comes after.
  pub filter-before :
      (sorts : List SortParams) (xs : List Json) (c : Json) (ys : List Json)
      → IsOrdered same less sorts (xs ++ c ∷ ys)
      → filter (λ row. after same less sorts row c) (xs ++ c ∷ ys) ≡ xs
  filter-before sorts [] c ys (self, others, rest) = rw self (filter-none sorts c ys others)
  filter-before sorts (x ∷ xs) c ys (self, others, rest) =
      rw (All-middle same less sorts _ xs c ys others).0
        (ap (◌∷◌ x) (filter-before sorts xs c ys rest))

-- The last rows, and what is left before them.
pub reverse-take :
    {A : Type 0} (l : ℕ) (xs : List A)
    → reverse (drop l (reverse xs)) ++ reverse (take l (reverse xs)) ≡ xs
reverse-take l xs =
    sym (reverse-append (take l (reverse xs)) (drop l (reverse xs)))
    ∙ ap reverse (take-append-drop l (reverse xs))
    ∙ reverse-reverse xs

pub length-reverse : {A : Type 0} (xs : List A) → length (reverse xs) ≡ length xs
length-reverse [] = refl
length-reverse (x ∷ xs) =
    ap length (reverse-cons x xs)
    ∙ omega (arith, length-append (reverse xs) (x ∷ []), length-reverse xs)

pub length-take_min : {A : Type 0} (l : ℕ) (xs : List A) → length (take l xs) ≡ min l (length xs)
length-take_min zero xs = omega arith
length-take_min (suc l) [] = omega arith
length-take_min (suc l) (x ∷ xs) = omega (arith, length-take_min l xs)
