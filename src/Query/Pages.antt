-- ===== src/Query/Pages.antt =====
-- `buildQuery` and `applyPagination`: a page by its number.
use shopping_cart.Prelude.{
  ℕ, ◌+◌, ◌-◌, ◌*◌, ◌/◌, min, max, Option, some, List, [], ◌∷◌, pos, negsuc, Result, ok, err,
  bad_request, is_empty, ltb, leb, or_else, if◌then◌else◌, ◌==◌,
}
use shopping_cart.Shared.Text.{Text}
use shopping_cart.Shared.Double.{one, minus, times, product, quotient}
use shopping_cart.Query.Types.{
  SortParams, asc, PageParam, fraction, negative_fraction, falsy, no_number, Number, whole, units,
  nan, PaginationParams, QueryCriteria, Builder, new_builder, apply_sorts,
}
use shopping_cart.Query.Filters.{apply_filters}

-- The options of the service; a missing default sort is that by the column `id`.
pub record QueryOptions : Type 0 where
  pub allowed_filters : Option (List Text)
  pub allowed_sorts : Option (List Text)
  pub default_sort : Option (List SortParams)
  pub default_limit : Option PageParam
  pub default_page : Option PageParam

pub record PaginatedResult (Row : Type 0) : Type 0 where
  pub items : List Row
  pub total : ℕ
  pub page : PageParam
  pub limit : Number
  pub total_pages : Number

abbrev pub id_column : Text
id_column = b'i' ∷ b'd' ∷ []

-- `criteria.sort?.length ? criteria.sort : options?.defaultSort ?? ...`
unfoldable pub sorts_of : List SortParams → Option (List SortParams) → List SortParams
sorts_of sort default_sort =
    if is_empty sort
    then or_else default_sort (record { field = id_column; direction = asc } ∷ [])
    else sort

-- `Math.max(1, page || 1)`
abbrev pub page_number : PageParam → Number
page_number (PageParam.number (pos n)) = whole (max 1 n)
page_number (PageParam.number (negsuc n)) = whole 1
page_number (PageParam.text (pos n)) = whole (max 1 n)
page_number (PageParam.text (negsuc n)) = whole 1
page_number (fraction k) = if ltb k one then whole 1 else units k
page_number (negative_fraction k) = whole 1
page_number falsy = whole 1
page_number no_number = nan

-- `Math.max(1, Math.min(100, limit || 10))`; of a zero, only the number counts as false
abbrev pub limit_number : PageParam → Number
limit_number (PageParam.number (pos n)) = if n == 0 then whole 10 else whole (max 1 (min 100 n))
limit_number (PageParam.number (negsuc n)) = whole 1
limit_number (PageParam.text (pos n)) = whole (max 1 (min 100 n))
limit_number (PageParam.text (negsuc n)) = whole 1
limit_number (fraction k) =
    if ltb k one then whole 1 else if leb (100 * one) k then whole 100 else units k
limit_number (negative_fraction k) = whole 1
limit_number falsy = whole 10
limit_number no_number = nan

-- `(page - 1) * limit`, of numbers that are at least one
abbrev pub minus_one : Number → Number
minus_one (whole n) = whole (n - 1)
minus_one (units k) = units (minus k one)
minus_one nan = nan

abbrev pub multiplied : Number → Number → Number
multiplied (whole a) (whole b) = whole (a * b)
multiplied (whole a) (units k) = units (times k a)
multiplied (units k) (whole b) = units (times k b)
multiplied (units j) (units k) = units (product j k)
multiplied nan _ = nan
multiplied _ nan = nan

-- `Math.ceil(total / take)`
abbrev pub page_count : ℕ → Number → Number
page_count total (whole take) = whole ((total + take - 1) / take)
page_count total (units k) = whole ((quotient (total * one) k + one - 1) / one)
page_count total nan = nan

-- `skip` and `take` of `applyPagination`
unfoldable pub window : PageParam → PageParam → Number × Number
window page limit =
    let take = limit_number limit in (multiplied (minus_one (page_number page)) take, take)

unfoldable pub apply_pagination : {V : Type 0} → PageParam → PageParam → Builder V → Builder V
unfolding window
apply_pagination page limit qb =
    let (skip, take) = window page limit in record qb { skip = some skip; take = some take }

-- The page and the limit that are asked for.
abbrev pub page_of : PaginationParams → QueryOptions → PageParam
page_of pagination options =
    or_else pagination.page (or_else options.default_page (PageParam.number (pos 1)))

abbrev pub limit_of : PaginationParams → QueryOptions → PageParam
limit_of pagination options =
    or_else pagination.limit (or_else options.default_limit (PageParam.number (pos 10)))

-- The query of `buildQuery` before a page is chosen, and the one that it sends.
unfoldable pub list_query : {V : Type 0} → QueryCriteria → QueryOptions → Builder V
unfolding apply_sorts apply_filters sorts_of
list_query {V} criteria options =
    apply_sorts options.allowed_sorts (sorts_of criteria.sort options.default_sort)
      (apply_filters options.allowed_filters criteria.filter (new_builder V))

unfoldable pub page_query :
    {V : Type 0} → QueryCriteria → PaginationParams → QueryOptions → Builder V
unfolding apply_pagination list_query
page_query criteria pagination options =
    apply_pagination (page_of pagination options) (limit_of pagination options)
      (list_query criteria options)

-- The answer of `buildQuery` to what the database returns or throws.
unfoldable pub page_answer :
    {Row : Type 0} → PageParam → Number → Result (List Row × ℕ) → Result (PaginatedResult Row)
page_answer page take (ok (rows, total)) = ok (record {
  items = rows;
  total = total;
  page = page;
  limit = take;
  total_pages = page_count total take;
})
page_answer page take (err e) = err bad_request

-- The database library runs the query: `getManyAndCount`.
module _ {V Row : Type 0} (get_many_and_count : Builder V → Result (List Row × ℕ)) where
  unfoldable pub build_query :
      QueryCriteria → PaginationParams → QueryOptions → Result (PaginatedResult Row)
  unfolding page_query page_answer window
  build_query criteria pagination options =
      page_answer (page_of pagination options)
        (window (page_of pagination options) (limit_of pagination options)).1
        (get_many_and_count (page_query criteria pagination options))
