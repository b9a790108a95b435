-- ===== src/Query/Seek.antt =====
-- `buildQueryWithCursor`: the rows behind or before a cursor.
use mathlib.Core.List.{reverse}
use shopping_cart.Prelude.{
  ℕ, suc, Bool, false, ◌||◌, not, Option, none, some, List, [], ◌∷◌, map, Result, ok, err, ◌>>=◌,
  bad_request, length, ltb, is_empty, or_else, if◌then◌else◌,
}
use shopping_cart.Shared.Text.{Text}
use shopping_cart.Query.Types.{
  whole, asc, desc, SortParams, QueryCriteria, Builder, new_builder, apply_sorts,
}
use shopping_cart.Query.Filters.{apply_filters}
use shopping_cart.Query.Pages.{QueryOptions, sorts_of}
use shopping_cart.Query.Cursor.{Json, encode_cursor, decode_cursor, apply_cursor_condition}

-- The limit is a number, as its type in the source says.
pub record CursorPaginationParams : Type 0 where
  pub limit : Option ℕ
  pub next_cursor : Option Text
  pub previous_cursor : Option Text

pub record CursorPaginatedResult : Type 0 where
  pub items : List Json
  pub limit : ℕ
  pub next_cursor : Option Text
  pub previous_cursor : Option Text
  pub has_next_page : Bool
  pub has_previous_page : Bool

-- A cursor is given: the text is there and not empty.
abbrev pub given : Option Text → Bool
given none = false
given (some cursor) = not (is_empty cursor)

-- `previousCursor || nextCursor`, as far as it is given
abbrev pub cursor_to_decode : CursorPaginationParams → Option Text
cursor_to_decode params =
    if given params.previous_cursor
    then params.previous_cursor
    else if given params.next_cursor
    then params.next_cursor
    else none

abbrev pub flip : SortParams → SortParams
flip sort = record sort { direction = elim sort.direction [ asc ↦ desc | desc ↦ asc ] }

-- `actualSorts`
unfoldable pub actual_sorts : CursorPaginationParams → List SortParams → List SortParams
actual_sorts params sorts = if given params.previous_cursor then map flip sorts else sorts

-- `items.pop()`
unfoldable pub pop : {A : Type 0} → List A → List A
pop [] = []
pop (x ∷ []) = []
pop (x ∷ y ∷ rest) = x ∷ pop (y ∷ rest)

unfoldable pub last_of : {A : Type 0} → List A → Option A
last_of [] = none
last_of (x ∷ []) = some x
last_of (x ∷ y ∷ rest) = last_of (y ∷ rest)

abbrev pub first_of : {A : Type 0} → List A → Option A
first_of [] = none
first_of (x ∷ rest) = some x

abbrev pub limit_of : CursorPaginationParams → ℕ
limit_of params = or_else params.limit 20

module _ (pack : Json → Text) (unpack : Text → Option Json) where
  -- What throws here is answered as a bad request.
  unfoldable pub behind_cursor :
      Option Text → List SortParams → Builder Json → Result (Builder Json)
  unfolding decode_cursor apply_cursor_condition
  behind_cursor none sorts qb = ok qb
  behind_cursor (some cursor) sorts qb =
      elim (decode_cursor pack unpack cursor >>= λ decoded.
      apply_cursor_condition decoded sorts qb) [ ok qb' ↦ ok qb' | err e ↦ err bad_request ]

  -- The query that is sent.
  unfoldable pub seek_query :
      QueryCriteria → CursorPaginationParams → QueryOptions → Result (Builder Json)
  unfolding behind_cursor actual_sorts apply_sorts apply_filters sorts_of
  seek_query criteria params options =
      let sorts = actual_sorts params (sorts_of criteria.sort options.default_sort) in
      behind_cursor (cursor_to_decode params) sorts (
        apply_sorts options.allowed_sorts sorts
          (apply_filters options.allowed_filters criteria.filter (new_builder Json)))
      >>= λ qb. ok (record qb { take = some (whole (suc (limit_of params))) })

  -- The cursor of a row, if there is a page behind it.
  unfoldable pub cursor_of : Bool → List SortParams → Option Json → Option Text
  cursor_of wanted sorts none = none
  cursor_of wanted sorts (some item) =
      if wanted then some (encode_cursor pack unpack item sorts) else none

  -- The answer from the rows without the one too many.
  unfoldable pub page_from :
      Bool → CursorPaginationParams → List SortParams → List Json → CursorPaginatedResult
  unfolding last_of cursor_of
  page_from has_more params sorts rows =
      let seeking_previous = given params.previous_cursor in
      let items = if seeking_previous then reverse rows else rows in
      let has_next = if seeking_previous then given params.next_cursor || has_more else has_more in
      let has_previous = if seeking_previous then has_more else given params.next_cursor in
      record {
        items = items;
        limit = limit_of params;
        next_cursor = cursor_of has_next sorts (last_of items);
        previous_cursor = cursor_of has_previous sorts (first_of items);
        has_next_page = has_next;
        has_previous_page = has_previous;
      }

  unfoldable pub seek_answer :
      CursorPaginationParams → List SortParams → Result (List Json) → Result CursorPaginatedResult
  unfolding pop page_from
  seek_answer params sorts (ok rows) =
      let has_more = ltb (limit_of params) (length rows) in
      ok (page_from has_more params sorts (if has_more then pop rows else rows))
  seek_answer params sorts (err e) = err bad_request

  -- The database library runs the query: `getMany`.
  module _ (get_many : Builder Json → Result (List Json)) where
    unfoldable pub build_query_with_cursor :
        QueryCriteria → CursorPaginationParams → QueryOptions → Result CursorPaginatedResult
    unfolding seek_query seek_answer sorts_of
    build_query_with_cursor criteria params options = seek_query criteria params options >>= λ qb.
        seek_answer params (sorts_of criteria.sort options.default_sort) (get_many qb)
