-- ===== src/Query/Walk.antt =====
-- A walk through all pages by their next cursors.
use mathlib.Core.List.{append-nil, append_assoc}
use mathlib.Core.Path.{fun_ext}
use shopping_cart.Prelude.{
  ℕ, zero, suc, ◌<◌, ◌≡◌, refl, sym, ap, subst, ◌∙◌, Bool, true, false, Option, none, some, List,
  [], ◌∷◌, ◌++◌, All, Result, ok, length, take, filter, ltb, is_empty, not, ◌>>=◌, arith,
  if◌then◌else◌,
}
use shopping_cart.Shared.Text.{Text}
use shopping_cart.Query.Types.{
  whole, SortParams, QueryCriteria, Builder, new_builder, Condition, ParamName, ParamValue, beyond,
  Comparison, is_allowed, sort_from, apply_sorts,
}
use shopping_cart.Query.Filters.{apply_filters}
use shopping_cart.Query.Pages.{QueryOptions, sorts_of}
use shopping_cart.Query.Cursor.{Json, encode_cursor}
use shopping_cart.Query.Seek.{
  CursorPaginatedResult, page_from, seek_answer, seek_query, behind_cursor, build_query_with_cursor,
}
use shopping_cart.Query.Payload.{NoDots}
use shopping_cart.Query.Beyond.{holds_any, after, cursor_rows, behind_cursor-after}
use shopping_cart.Query.Filtering.{apply_filters-IsFiltered}
use shopping_cart.Query.Joining.{pages_rest, page_then}
use shopping_cart.Query.Following.{params_of, seek_answer_lem, sorts-All, IsOrdered, filter-after}

-- The libraries. Cursors are read back and are not empty; the database returns the first rows of
-- those that fit the conditions, in their order, and a condition more keeps the rows of which it
-- holds.
module _ (same less : Json → Json → Bool) (pack : Json → Text) (unpack : Text → Option Json)
    (reads : (v : Json) → unpack (pack v) ≡ some v) (packs : (v : Json) → is_empty (pack v) ≡ false)
    (get_many : Builder Json → Result (List Json))
    (matching : List (Condition Json) → List (ParamName × ParamValue) → List SortParams → List Json)
    (answers : (qb : Builder Json) (n : ℕ)
      → qb.take ≡ some (whole n)
      → get_many qb ≡ ok (take n (matching qb.conditions qb.parameters qb.order)))
    (refines : (conditions : List (Condition Json)) (rows : List (List (Comparison Json)))
        (parameters : List (ParamName × ParamValue)) (order : List SortParams)
      → matching (conditions ++ beyond rows ∷ []) parameters order
        ≡ filter (λ row. holds_any same less row rows) (matching conditions parameters order))
    (criteria : QueryCriteria) (options : QueryOptions) where
  abbrev pub sorts : List SortParams
  sorts = sorts_of criteria.sort options.default_sort

  abbrev pub filtered : Builder Json
  filtered = apply_filters options.allowed_filters criteria.filter (new_builder Json)

  -- All rows of the list, in the order of the sorts.
  abbrev pub all_rows : List Json
  all_rows = matching filtered.conditions filtered.parameters sorts

  abbrev pub page_behind : ℕ → Option Text → Result CursorPaginatedResult
  page_behind l cursor =
      build_query_with_cursor pack unpack get_many criteria (params_of l cursor none) options

  -- The rows of the pages from a cursor on, each page behind the next cursor of the one before.
  abbrev pub items_from : ℕ → ℕ → Option Text → List Json
  items_from l zero cursor = []
  items_from l (suc n) cursor =
      pages_rest (λ next. items_from l n (some next)) (page_behind l cursor)

  module _ (plain : NoDots sorts)
      (allowed : All (λ s. is_allowed options.allowed_sorts s.field ≡ true) sorts) where
    filtered_order : sort_from options.allowed_sorts 0 sorts filtered.order ≡ sorts
    filtered_order =
        ap (sort_from options.allowed_sorts 0 sorts)
          (apply_filters-IsFiltered Json options.allowed_filters criteria.filter).2
        ∙ sorts-All options.allowed_sorts sorts allowed

    -- What is answered to the rows that fit some conditions.
    answer_lem :
        (l : ℕ) (next : Option Text) (conditions : List (Condition Json))
        (parameters : List (ParamName × ParamValue))
        → let rows = matching conditions parameters sorts in
          seek_answer pack unpack (params_of l next none) sorts (
            get_many (record filtered {
              conditions = conditions;
              parameters = parameters;
              order = sort_from options.allowed_sorts 0 sorts filtered.order;
              take = some (whole (suc l));
            }))
          ≡ ok (
              page_from pack unpack
                (ltb l (length rows))
                (params_of l next none)
                sorts
                (take l rows))
    answer_lem l next conditions parameters =
        let qb = record filtered {
          conditions = conditions;
          parameters = parameters;
          order = sort_from options.allowed_sorts 0 sorts filtered.order;
          take = some (whole (suc l));
        } in
        ap (seek_answer pack unpack (params_of l next none) sorts) (
          answers qb (suc l) refl
          ∙ ap (λ o. ok (take (suc l) (matching conditions parameters o))) filtered_order)
        ∙ seek_answer_lem pack unpack next none sorts l (matching conditions parameters sorts)

    pub first_page :
        (l : ℕ)
        → page_behind l none
          ≡ ok (
              page_from pack unpack
                (ltb l (length all_rows))
                (params_of l none none)
                sorts
                (take l all_rows))
    unfolding build_query_with_cursor seek_query behind_cursor apply_sorts
    first_page l = answer_lem l none filtered.conditions filtered.parameters

    -- The rows that fit the condition behind a row.
    rows_behind :
        (xs : List Json) (c : Json) (ys : List Json)
        → all_rows ≡ xs ++ c ∷ ys
        → IsOrdered same less sorts all_rows
        → matching
            (filtered.conditions ++ beyond (cursor_rows c sorts sorts) ∷ [])
            (filtered.parameters ++ [])
            sorts
          ≡ ys
    rows_behind xs c ys split ordered =
        refines filtered.conditions (cursor_rows c sorts sorts) (filtered.parameters ++ []) sorts
        ∙ ap
            (λ ps.
              filter (λ row. holds_any same less row (cursor_rows c sorts sorts))
                (matching filtered.conditions ps sorts))
            (append-nil filtered.parameters)
        ∙ ap (λ keep. filter keep all_rows)
            (fun_ext (λ row.
              (behind_cursor-after same less pack unpack reads c row false sorts filtered plain).1))
        ∙ ap (filter (after same less sorts c)) split
        ∙ filter-after same less sorts xs c ys (subst (IsOrdered same less sorts) split ordered)

    pub page_behind_row :
        (l : ℕ) (xs : List Json) (c : Json) (ys : List Json)
        → all_rows ≡ xs ++ c ∷ ys
        → IsOrdered same less sorts all_rows
        → let cursor = encode_cursor pack unpack c sorts in
          page_behind l (some cursor)
          ≡ ok (
              page_from pack unpack
                (ltb l (length ys))
                (params_of l (some cursor) none)
                sorts
                (take l ys))
    unfolding build_query_with_cursor seek_query apply_sorts encode_cursor
    page_behind_row l xs c ys split ordered =
        let cursor = encode_cursor pack unpack c sorts in
        let qb : Builder Json = apply_sorts options.allowed_sorts sorts filtered in
        let next : Builder Json → Result CursorPaginatedResult = λ qb'.
          seek_answer pack unpack (params_of l (some cursor) none) sorts
            (get_many (record qb' { take = some (whole (suc l)) })) in
        let then' : Result (Builder Json) → Result CursorPaginatedResult = λ r.
          r >>= (λ qb'. ok (record qb' { take = some (whole (suc l)) })) >>= λ qb'.
          seek_answer pack unpack (params_of l (some cursor) none) sorts (get_many qb') in
        ap (λ b. then' (behind_cursor pack unpack (if not b then some cursor else none) sorts qb))
          (packs _)
        ∙ ap then' (behind_cursor-after same less pack unpack reads c c false sorts qb plain).0
        ∙ answer_lem l (some cursor)
            (filtered.conditions ++ beyond (cursor_rows c sorts sorts) ∷ [])
            (filtered.parameters ++ [])
        ∙ ap
            (λ rows. ok (
              page_from pack unpack (ltb l (length rows)) (params_of l (some cursor) none) sorts
                (take l rows)))
            (rows_behind xs c ys split ordered)

    -- From the last row of a page on: fewer rows are left than there is fuel for.
    items_behind :
        (l n : ℕ) (xs : List Json) (c : Json) (ys : List Json)
        → all_rows ≡ xs ++ c ∷ ys
        → IsOrdered same less sorts all_rows
        → length ys < n
        → items_from (suc l) n (some (encode_cursor pack unpack c sorts)) ≡ ys
    items_behind l zero xs c ys split ordered fuel = absurd (omega arith)
    items_behind l (suc n) xs c ys split ordered fuel =
        let f : Text → List Json = λ next. items_from (suc l) n (some next) in
        ap (pages_rest f) (page_behind_row (suc l) xs c ys split ordered)
        ∙ page_then pack unpack sorts f l (some (encode_cursor pack unpack c sorts)) ys
            (λ front c' back parts shorter.
              items_behind l n (xs ++ c ∷ front) c' back
                (split
                  ∙ ap (λ zs. xs ++ c ∷ zs) parts
                  ∙ sym (append_assoc xs (c ∷ front) (c' ∷ back)))
                ordered (omega arith))

    -- Where each row comes after those before it and not the other way round, every page has at
    -- least one row, no sort field has a dot or is disallowed, and there is fuel for one page more
    -- than there are rows: following the next cursors from the first page on gives all rows of the
    -- list, each once and in their order.
    pub items_from-all :
        (l n : ℕ)
        → IsOrdered same less sorts all_rows
        → length all_rows < n
        → items_from (suc l) n none ≡ all_rows
    items_from-all l zero ordered fuel = absurd (omega arith)
    items_from-all l (suc n) ordered fuel =
        let f : Text → List Json = λ next. items_from (suc l) n (some next) in
        ap (pages_rest f) (first_page (suc l))
        ∙ page_then pack unpack sorts f l none all_rows (λ front c back parts shorter.
          items_behind l n front c back parts ordered (omega arith))
