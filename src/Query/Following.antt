-- ===== src/Query/Following.antt =====
-- Following the next cursors: each page has the rows behind the last row of the page before it, and
-- together they are all rows.
use mathlib.Core.List.{append-nil, append_assoc}
use shopping_cart.Prelude.{
  ℕ, zero, suc, ◌<◌, ◌≡◌, refl, sym, ap, ◌∙◌, Bool, true, false, Option, some, List, [], ◌∷◌, ◌++◌,
  All, ok, length, take, take-all, filter, ltb, Bool-cases, inl, inr, arith, if◌then◌else◌, ◌==◌,
}
use shopping_cart.Shared.Text.{Text}
use shopping_cart.Query.Types.{SortParams, is_allowed, sort_from}
use shopping_cart.Query.Cursor.{Json}
use shopping_cart.Query.Seek.{CursorPaginationParams, pop, last_of, page_from, seek_answer}
use shopping_cart.Query.Beyond.{after}

-- One row too many is asked for, and taken away again.
take-one_more :
    {A : Type 0} (l : ℕ) (xs : List A) → ltb l (length (take (suc l) xs)) ≡ ltb l (length xs)
take-one_more l [] = refl
take-one_more zero (x ∷ xs) = ground arith
take-one_more (suc l) (x ∷ xs) = ground (arith, take-one_more l xs)

pop-take : {A : Type 0} (l : ℕ) (xs : List A) → l < length xs → pop (take (suc l) xs) ≡ take l xs
unfolding pop
pop-take l [] h = absurd (omega arith)
pop-take zero (x ∷ xs) h = refl
pop-take (suc l) (x ∷ []) h = absurd (omega arith)
pop-take (suc l) (x ∷ y ∷ xs) h = ap (◌∷◌ x) (pop-take l (y ∷ xs) (omega arith))

pub one_more_taken :
    {A : Type 0} (l : ℕ) (xs : List A)
    → (if ltb l (length xs) then pop (take (suc l) xs) else take (suc l) xs) ≡ take l xs
one_more_taken l xs = elim (Bool-cases (ltb l (length xs))) [
  | inl more ↦ rw more (pop-take l xs (ground arith))
  | inr fits ↦ rw fits (take-all (suc l) xs (ground arith) ∙ sym (take-all l xs (ground arith)))
]

abbrev pub params_of : ℕ → Option Text → Option Text → CursorPaginationParams
params_of l next previous = record {
  limit = some l;
  next_cursor = next;
  previous_cursor = previous;
}

pub seek_answer_lem :
    (pack : Json → Text) (unpack : Text → Option Json) (next previous : Option Text)
    (sorts : List SortParams) (l : ℕ) (rows : List Json)
    → seek_answer pack unpack (params_of l next previous) sorts (ok (take (suc l) rows))
      ≡ ok (
          page_from pack unpack
            (ltb l (length rows))
            (params_of l next previous)
            sorts
            (take l rows))
unfolding seek_answer
seek_answer_lem pack unpack next previous sorts l rows =
    let params = params_of l next previous in
    let kept = take (suc l) rows in
    ap (λ b. ok (page_from pack unpack b params sorts (if b then pop kept else kept)))
      (take-one_more l rows)
    ∙ ap (λ zs. ok (page_from pack unpack (ltb l (length rows)) params sorts zs))
        (one_more_taken l rows)

-- The beginning of a list by its last element.
pub split_last :
    {A : Type 0} (l : ℕ) (xs : List A)
    → l < length xs
    → (front : List A) × (c : A) × (back : List A) × (xs ≡ front ++ c ∷ back)
      × (take (suc l) xs ≡ front ++ c ∷ [])
      × (last_of (take (suc l) xs) ≡ some c)
unfolding last_of
split_last l [] h = absurd (omega arith)
split_last zero (x ∷ xs) h = ([], x, xs, refl, refl, refl)
split_last (suc l) (x ∷ []) h = absurd (omega arith)
split_last (suc l) (x ∷ y ∷ xs) h =
    let (front, c, back, whole, begins, last) = split_last l (y ∷ xs) (omega arith) in
    (x ∷ front, c, back, ap (◌∷◌ x) whole, ap (◌∷◌ x) begins, last)

pub sort_from-All :
    (allowed : Option (List Text)) (index : ℕ) (sorts order : List SortParams)
    → All (λ s. is_allowed allowed s.field ≡ true) sorts
    → sort_from allowed (suc index) sorts order ≡ order ++ sorts
unfolding sort_from
sort_from-All allowed index [] order h = sym (append-nil order)
sort_from-All allowed index (s ∷ rest) order (h, others) =
    let later : (suc index == 0) ≡ false = ground arith in
    rw (h, later)
      (sort_from-All allowed (suc index) rest (order ++ s ∷ []) others
        ∙ append_assoc order (s ∷ []) rest)

pub sorts-All :
    (allowed : Option (List Text)) (sorts : List SortParams)
    → All (λ s. is_allowed allowed s.field ≡ true) sorts
    → sort_from allowed 0 sorts [] ≡ sorts
unfolding sort_from
sorts-All allowed [] h = refl
sorts-All allowed (s ∷ rest) (h, others) = rw h (sort_from-All allowed 0 rest (s ∷ []) others)

module _ (same less : Json → Json → Bool) (sorts : List SortParams) where
  -- Each row comes after those before it, and not the other way round.
  abbrev pub IsOrdered : List Json → Type 0
  IsOrdered [] = Unit
  IsOrdered (x ∷ xs) =
      (after same less sorts x x ≡ false)
      × All (λ y. (after same less sorts x y ≡ true) × (after same less sorts y x ≡ false)) xs
      × IsOrdered xs

  filter-All :
      (x : Json) (xs : List Json)
      → All (λ y. (after same less sorts x y ≡ true) × (after same less sorts y x ≡ false)) xs
      → filter (after same less sorts x) xs ≡ xs
  filter-All x [] h = refl
  filter-All x (y ∷ ys) ((h, k), others) = rw h (ap (◌∷◌ y) (filter-All x ys others))

  pub All-middle :
      (P : Json → Type 0) (xs : List Json) (c : Json) (ys : List Json) → All P (xs ++ c ∷ ys) → P c
  All-middle P [] c ys (h, others) = h
  All-middle P (x ∷ xs) c ys (h, others) = All-middle P xs c ys others

  pub filter-after :
      (xs : List Json) (c : Json) (ys : List Json)
      → IsOrdered (xs ++ c ∷ ys)
      → filter (after same less sorts c) (xs ++ c ∷ ys) ≡ ys
  filter-after [] c ys (self, others, rest) = rw self (filter-All c ys others)
  filter-after (x ∷ xs) c ys (self, others, rest) =
      rw (All-middle _ xs c ys others).1 (filter-after xs c ys rest)

  pub IsOrdered-end : (xs ys : List Json) → IsOrdered (xs ++ ys) → IsOrdered ys
  IsOrdered-end [] ys h = h
  IsOrdered-end (x ∷ xs) ys (self, others, rest) = IsOrdered-end xs ys rest
