-- ===== src/Tests/Queries.antt =====
-- The queries by pages and cursors, with a database of three rows.
use shopping_cart.Prelude.{
  ◌≤◌, ◌≡◌, refl, false, none, some, List, [], ◌∷◌, ◌++◌, pos, negsuc, ok, length, arith, min,
}
use shopping_cart.Query.Types.{
  asc, desc, SortParams, PaginationParams, QueryCriteria, new_builder, Condition, never, test,
  test_with, beyond, ParamName, ParamValue, Comparison, Operator, like, in_list, gte, FilterParams,
}
use shopping_cart.Query.Types
use shopping_cart.Query.Filters.{apply_filters}
use shopping_cart.Query.Filtering.{IsFiltered, apply_filters-IsFiltered}
use shopping_cart.Query.Pages.{sorts_of, PaginatedResult, build_query}
use shopping_cart.Query.Paging.{
  number_of_pages, page_at, first_pages, first_pages-all, build_query-not_positive, all_rows,
}
use shopping_cart.Query.Cursor.{Json, encode_cursor}
use shopping_cart.Query.Seek.{CursorPaginatedResult, behind_cursor, build_query_with_cursor}
use shopping_cart.Query.Beyond.{holds_any, after, cursor_rows, behind_cursor-after}
use shopping_cart.Query.Following.{params_of}
use shopping_cart.Query.Walk.{items_from, items_from-all}
use shopping_cart.Query.Preceding.{page_before-last}
use shopping_cart.Query.Filters.{and_where}
use shopping_cart.Tests.Codec.{pack, unpack, unpack-pack, pack-is_empty}
use shopping_cart.Tests.Rows.{
  price_field, priced, by_price, rows, cheapest_first, open_options, same, less, same_comm, narrow,
  matching, get_many, get_many_and_count, answers, pages, refines, reverses, ordered,
}

first_pages-all_example :
    (result : PaginatedResult Json) × (build_query get_many_and_count cheapest_first
        (page_at 1 2)
        open_options
      ≡ ok result)
    × (length result.items ≤ 2)
    × (first_pages get_many_and_count matching pages cheapest_first open_options 2
          (number_of_pages result.total_pages)
        ≡ all_rows get_many_and_count matching pages cheapest_first open_options)
first_pages-all_example =
    first_pages-all get_many_and_count matching pages cheapest_first open_options 1 2 (omega arith)
      (omega arith)

build_query-not_positive_example :
    (first : PaginatedResult Json) × (build_query get_many_and_count cheapest_first
        (page_at 0 2)
        open_options
      ≡ ok first)
    × (build_query get_many_and_count cheapest_first
          (record {
            page = some (Types.PageParam.number (negsuc 3));
            limit = some (Types.PageParam.number (pos 2));
          })
          open_options
        ≡ ok (record first { page = Types.PageParam.number (negsuc 3) }))
build_query-not_positive_example =
    build_query-not_positive get_many_and_count matching pages cheapest_first open_options 3 2
      (omega arith) (omega arith)

abbrev named_filters : FilterParams
named_filters =
    (price_field, (in_list, Types.numbers (pos 3 ∷ [])) ∷ (gte, Types.number (pos 4)) ∷ []) ∷ []

apply_filters-IsFiltered_example :
    IsFiltered Json
      (some (price_field ∷ []))
      (apply_filters (some (price_field ∷ [])) named_filters (new_builder Json))
apply_filters-IsFiltered_example =
    apply_filters-IsFiltered Json (some (price_field ∷ [])) named_filters

behind_cursor-after_example :
    (behind_cursor pack unpack
        (some (encode_cursor pack unpack (priced 5) by_price))
        by_price
        (new_builder Json)
      ≡ ok (and_where (beyond (cursor_rows (priced 5) by_price by_price)) [] (new_builder Json)))
    × (holds_any same less (priced 8) (cursor_rows (priced 5) by_price by_price)
        ≡ after same less by_price (priced 5) (priced 8))
behind_cursor-after_example =
    behind_cursor-after same less pack unpack unpack-pack (priced 5) (priced 8) false by_price
      (new_builder Json) (refl, tt)

items_from-all_example :
    items_from same less pack unpack unpack-pack pack-is_empty get_many matching answers refines
      cheapest_first open_options 1 4 none
    ≡ rows
unfolding matching narrow apply_filters sorts_of
items_from-all_example =
    items_from-all same less pack unpack unpack-pack pack-is_empty get_many matching answers refines
      cheapest_first open_options (refl, tt) (refl, tt) 0 4 ordered (omega arith)

page_before-last_example :
    (page : CursorPaginatedResult) × (build_query_with_cursor pack unpack get_many cheapest_first
        (params_of 2 none (some (encode_cursor pack unpack (priced 8) by_price)))
        open_options
      ≡ ok page)
    × (front : List Json) × (front ++ page.items ≡ priced 3 ∷ priced 5 ∷ [])
    × (length page.items ≡ min 2 2)
    × (page.has_previous_page ≡ false)
    × (page.has_next_page ≡ false)
unfolding matching narrow apply_filters sorts_of
page_before-last_example =
    page_before-last same less same_comm pack unpack unpack-pack pack-is_empty get_many matching
      answers refines cheapest_first open_options reverses 2 (priced 3 ∷ priced 5 ∷ []) (priced 8)
      [] (refl, tt) (refl, tt) refl ordered
