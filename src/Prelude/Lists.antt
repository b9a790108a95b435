-- ===== src/Prelude/Lists.antt =====
-- Lists measured by native numbers, searched by Boolean tests, and dictionaries keyed by numbers.
use Prim.Native.Nat.{ℕ, zero, suc, ◌+◌, ◌≤◌}
use native.Mathlib.Nat.{zero-add, suc-add}
use mathlib.Core.Path.{◌≡◌, refl, ap, sym, ◌∙◌}
use mathlib.Core.Logic.{◌≢◌}
use mathlib.Core.Bool.{Bool, true, false, ◌||◌}
use mathlib.Core.List.{List, [], ◌∷◌, ◌++◌}
use mathlib.Core.Option.{Option, none, some}
use native.Mathlib.Omega.{arith}
use shopping_cart.Prelude.Tests.{◌==◌, if◌then◌else◌}

module _ {ℓ} {A : Type ℓ} where
  abbrev pub length : List A → ℕ
  length [] = 0
  length (x ∷ xs) = suc (length xs)

  pub length-append : (xs ys : List A) → length (xs ++ ys) ≡ length xs + length ys
  length-append [] ys = omega arith
  length-append (x ∷ xs) ys = omega (arith, length-append xs ys)

  abbrev pub is_empty : List A → Bool
  is_empty [] = true
  is_empty (x ∷ xs) = false

  -- `xs.filter(keep)`
  abbrev pub filter : (A → Bool) → List A → List A
  filter keep [] = []
  filter keep (x ∷ xs) = if keep x then x ∷ filter keep xs else filter keep xs

  -- `xs.find(test)`
  abbrev pub find : (A → Bool) → List A → Option A
  find test [] = none
  find test (x ∷ xs) = if test x then some x else find test xs

  abbrev pub any : (A → Bool) → List A → Bool
  any test [] = false
  any test (x ∷ xs) = test x || any test xs

  abbrev pub All {κ} : (P : A → Type κ) (xs : List A) → Type κ
  All P [] = Unit
  All P (a ∷ rest) = P a × All P rest

module _ {ℓ} {A : Type ℓ} where
  abbrev pub take : ℕ → List A → List A
  take zero xs = []
  take (suc n) [] = []
  take (suc n) (x ∷ xs) = x ∷ take n xs

  abbrev pub drop : ℕ → List A → List A
  drop zero xs = xs
  drop (suc n) [] = []
  drop (suc n) (x ∷ xs) = drop n xs

  pub length-take_le : (n : ℕ) (xs : List A) → length (take n xs) ≤ n
  length-take_le zero xs = omega arith
  length-take_le (suc n) [] = omega arith
  length-take_le (suc n) (x ∷ xs) = omega (arith, length-take_le n xs)

  pub take-append-drop : (n : ℕ) (xs : List A) → take n xs ++ drop n xs ≡ xs
  take-append-drop zero xs = refl
  take-append-drop (suc n) [] = refl
  take-append-drop (suc n) (x ∷ xs) = ap (◌∷◌ x) (take-append-drop n xs)

  pub filter-append :
      (keep : A → Bool) (xs ys : List A) → filter keep (xs ++ ys) ≡ filter keep xs ++ filter keep ys
  filter-append keep [] ys = refl
  filter-append keep (x ∷ xs) ys = ground (arith, filter-append keep xs ys)

  take_nil : (n : ℕ) → take n [] ≡ []
  take_nil zero = refl
  take_nil (suc n) = refl

  pub take-all : (n : ℕ) (xs : List A) → length xs ≤ n → take n xs ≡ xs
  take-all zero [] h = refl
  take-all zero (x ∷ xs) h = absurd (omega arith)
  take-all (suc n) [] h = refl
  take-all (suc n) (x ∷ xs) h = ap (◌∷◌ x) (take-all n xs (omega arith))

  -- A longer beginning is a shorter one and what is taken behind it.
  pub take-add : (n m : ℕ) (xs : List A) → take (n + m) xs ≡ take n xs ++ take m (drop n xs)
  take-add zero m xs = rw zero-add
  take-add (suc n) m [] = take_nil (suc n + m) ∙ sym (take_nil m)
  take-add (suc n) m (x ∷ xs) = rw suc-add (ap (◌∷◌ x) (take-add n m xs))

-- A table keyed by ids: a database table by its primary key, or the keys of a store.
abbrev pub Dict {ℓ} : Type ℓ → Type ℓ
Dict Row = List (ℕ × Row)

module _ {ℓ} {Row : Type ℓ} where
  abbrev pub lookup : ℕ → Dict Row → Option Row
  lookup id [] = none
  lookup id ((key, row) ∷ table) = if key == id then some row else lookup id table

  abbrev pub insert : ℕ → Row → Dict Row → Dict Row
  insert id new [] = (id, new) ∷ []
  insert id new ((key, row) ∷ table) =
      if key == id then (id, new) ∷ table else (key, row) ∷ insert id new table

  -- What is found after an insertion.
  pub lookup-insert :
      (id j : ℕ) (new : Row) (table : Dict Row)
      → lookup j (insert id new table) ≡ (if id == j then some new else lookup j table)
  lookup-insert id j new [] = refl
  lookup-insert id j new ((key, row) ∷ table) = ground (arith, lookup-insert id j new table)

  pub lookup-insert_self :
      (id : ℕ) (new : Row) (table : Dict Row) → lookup id (insert id new table) ≡ some new
  lookup-insert_self id new table = ground (arith, lookup-insert id id new table)

  pub lookup-insert_ne :
      (id j : ℕ) (new : Row) (table : Dict Row)
      → id ≢ j
      → lookup j (insert id new table) ≡ lookup j table
  lookup-insert_ne id j new table apart = ground (arith, lookup-insert id j new table)
