-- ===== src/Query/Types.antt =====
-- The parameters of list queries (server/src/core/domain/shared/types/pagination.type.ts), and the
-- query that is built for the database.
use shopping_cart.Prelude.{
  ℕ, suc, Bool, true, Option, none, some, List, [], ◌∷◌, ◌++◌, ℤ, any, ◌==◌, if◌then◌else◌,
}
use shopping_cart.Shared.Text.{Text}
use shopping_cart.Shared.Price.{same_text}

pub data Direction : Type 0 where
  asc desc : Direction

pub record SortParams : Type 0 where
  pub field : Text
  pub direction : Direction

-- A page or a limit as it is given, a number or the text of a query string: a whole one; a fraction
-- above or below zero, in the unit of Shared.Double and infinity among them; what counts as false
-- (NaN, or the empty text); or a text that is no number.
pub data PageParam : Type 0 where
  number text : ℤ → PageParam
  fraction negative_fraction : ℕ → PageParam
  falsy no_number : PageParam

-- A missing value is undefined.
pub record PaginationParams : Type 0 where
  pub page : Option PageParam
  pub limit : Option PageParam

-- A number that is not negative: whole, in the unit of Shared.Double, or NaN.
pub data Number : Type 0 where
  whole : ℕ → Number
  units : ℕ → Number
  nan : Number

-- `string | number | boolean | string[] | number[]`
pub data FilterValue : Type 0 where
  text : Text → FilterValue
  number : ℤ → FilterValue
  boolean : Bool → FilterValue
  texts : List Text → FilterValue
  numbers : List ℤ → FilterValue

-- The keys of OPERATOR_MAP, and a key that it does not have.
pub data Operator : Type 0 where
  eq neq gt gte lt lte like ilike in_list is_null is_not_null : Operator
  unsupported : Text → Operator

-- The filter's conditions, field by field.
abbrev pub FilterParams : Type 0
FilterParams = List (Text × List (Operator × FilterValue))

pub record QueryCriteria : Type 0 where
  pub filter : FilterParams
  pub sort : List SortParams

-- The name of a parameter: `field_operator_index`, or the index alone.
pub data ParamName : Type 0 where
  named : Text → Operator → ℕ → ParamName
  numbered : ℕ → ParamName

-- The value of a parameter: as it is, or with a percent sign before and behind it.
pub data ParamValue : Type 0 where
  plain : FilterValue → ParamValue
  wrapped : Text → ParamValue

-- One comparison of the condition behind a cursor: the field equals the cursor's value, or lies
-- beyond it. A value that the cursor does not have is undefined.
pub data Comparison (V : Type 0) : Type 0 where
  equals : Text → Option V → Comparison V
  above below : Text → Option V → Comparison V

-- A condition after WHERE; the conditions are joined by AND. The one behind a cursor is a
-- disjunction of conjunctions.
pub data Condition (V : Type 0) : Type 0 where
  never : Condition V
  test : Text → Operator → Condition V
  test_with : Text → Operator → ParamName → Condition V
  beyond : List (List (Comparison V)) → Condition V

-- `SelectQueryBuilder`
pub record Builder (V : Type 0) : Type 0 where
  pub conditions : List (Condition V)
  pub parameters : List (ParamName × ParamValue)
  pub order : List SortParams
  pub skip : Option Number
  pub take : Option Number

abbrev pub new_builder : (V : Type 0) → Builder V
new_builder V = record { conditions = []; parameters = []; order = []; skip = none; take = none }

-- `allowed && !allowed.includes(field)` is false: every field is allowed if no list is given.
abbrev pub is_allowed : Option (List Text) → Text → Bool
is_allowed none field = true
is_allowed (some fields) field = any (λ f. same_text f field) fields

-- `applySorts`, from an index on: the first sort replaces the order, the others are added to it.
unfoldable pub sort_from :
    Option (List Text) → ℕ → List SortParams → List SortParams → List SortParams
sort_from allowed index [] order = order
sort_from allowed index (s ∷ rest) order =
    sort_from allowed (suc index) rest (
      if is_allowed allowed s.field
      then (if index == 0 then s ∷ [] else order ++ s ∷ [])
      else order)

unfoldable pub apply_sorts :
    {V : Type 0} → Option (List Text) → List SortParams → Builder V → Builder V
unfolding sort_from
apply_sorts allowed sorts qb = record qb { order = sort_from allowed 0 sorts qb.order }
