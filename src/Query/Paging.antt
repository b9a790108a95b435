-- ===== src/Query/Paging.antt =====
-- Pages by their numbers: the bounds of a page, and what all pages give together.
use native.Mathlib.Nat.{suc-mul, zero-mul, lt-div-mul-add}
use shopping_cart.Prelude.{
  Bool, true, false, max, ℕ, zero, suc, ◌+◌, ◌-◌, ◌*◌, ◌/◌, ◌≤◌, ◌≡◌, refl, sym, ap, ◌∙◌, some,
  List, [], ◌++◌, pos, negsuc, Result, ok, err, length, take, drop, length-take_le, take-all,
  take-add, arith,
}
use shopping_cart.Query.Types.{
  SortParams, Condition, ParamName, ParamValue, PaginationParams, QueryCriteria, Builder, PageParam,
  fraction, no_number, Number, whole,
}
use shopping_cart.Query.Pages.{
  QueryOptions, PaginatedResult, window, limit_number, multiplied, apply_pagination, list_query,
  page_query, page_answer, build_query,
}

-- Neither a fraction above zero nor a text that is no number
abbrev pub is_counted : PageParam → Bool
is_counted (fraction k) = false
is_counted no_number = false
is_counted _ = true

limit-in_range : (l : ℕ) → 1 ≤ l → l ≤ 100 → limit_number (PageParam.number (pos l)) ≡ whole l
limit-in_range l b c = ground arith

window-in_range :
    (p l : ℕ)
    → 1 ≤ l
    → l ≤ 100
    → window (PageParam.number (pos (suc p))) (PageParam.number (pos l)) ≡ (whole (p * l), whole l)
unfolding window
window-in_range p l b c =
    ap (λ w. (multiplied (whole (max 1 (suc p) - 1)) w, w)) (limit-in_range l b c)
    ∙ ap (λ (n : ℕ). (whole (n * l), whole l)) (omega arith)

-- The last page reaches the last row.
ceil-covers : (total l : ℕ) → 1 ≤ l → total ≤ (total + l - 1) / l * l
ceil-covers total l b = omega (arith, lt-div-mul-add {a = total + l - 1} {b = l} b)

abbrev pub page_at : ℕ → ℕ → PaginationParams
page_at p l = record {
  page = some (PageParam.number (pos (suc p)));
  limit = some (PageParam.number (pos l));
}

abbrev pub items_of : {Row : Type 0} → Result (PaginatedResult Row) → List Row
items_of (ok result) = result.items
items_of (err e) = []

abbrev pub number_of_pages : Number → ℕ
number_of_pages (whole n) = n
number_of_pages _ = 0

-- The database library: the rows that fit the conditions, in their order, and of these the ones in
-- the window and the number of all.
module _ {V Row : Type 0} (get_many_and_count : Builder V → Result (List Row × ℕ))
    (matching : List (Condition V) → List (ParamName × ParamValue) → List SortParams → List Row)
    (answers : (qb : Builder V) (skip take' : ℕ)
      → qb.skip ≡ some (whole skip)
      → qb.take ≡ some (whole take')
      → get_many_and_count qb
        ≡ ok (
          take take' (drop skip (matching qb.conditions qb.parameters qb.order)),
          length (matching qb.conditions qb.parameters qb.order),
        ))
    (criteria : QueryCriteria) (options : QueryOptions) where
  -- All rows of the list.
  abbrev pub all_rows : List Row
  unfolding list_query
  all_rows =
      let qb : Builder V = list_query criteria options in
      matching qb.conditions qb.parameters qb.order

  -- The rows of the first pages, one page after the other.
  abbrev pub first_pages : ℕ → ℕ → List Row
  first_pages l zero = []
  first_pages l (suc n) =
      first_pages l n ++ items_of (build_query get_many_and_count criteria (page_at n l) options)

  build_query_lem :
      (p l : ℕ)
      → 1 ≤ l
      → l ≤ 100
      → build_query get_many_and_count criteria (page_at p l) options
        ≡ ok (record {
          items = take l (drop (p * l) all_rows);
          total = length all_rows;
          page = PageParam.number (pos (suc p));
          limit = whole l;
          total_pages = whole ((length all_rows + l - 1) / l);
        })
  unfolding build_query page_query apply_pagination list_query page_answer
  build_query_lem p l b c =
      let at = window-in_range p l b c in
      let asked =
        answers (page_query criteria (page_at p l) options) (p * l) l (ap (λ w. some w.0) at)
          (ap (λ w. some w.1) at) in
      ap
        (page_answer (PageParam.number (pos (suc p)))
          (window (PageParam.number (pos (suc p))) (PageParam.number (pos l))).1)
        asked
      ∙ ap
          (λ t.
            page_answer (PageParam.number (pos (suc p))) t
              (ok (take l (drop (p * l) all_rows), length all_rows)))
          (ap (λ w. w.1) at)

  first_pages_lem : (l n : ℕ) → 1 ≤ l → l ≤ 100 → first_pages l n ≡ take (n * l) all_rows
  first_pages_lem l zero b c = rw zero-mul refl
  first_pages_lem l (suc n) b c =
      ap (λ xs. xs ++ items_of (build_query get_many_and_count criteria (page_at n l) options))
        (first_pages_lem l n b c)
      ∙ ap (λ r. take (n * l) all_rows ++ items_of r) (build_query_lem n l b c)
      ∙ sym (take-add (n * l) l all_rows)
      ∙ ap (λ m. take m all_rows) (sym (suc-mul n l))

  -- Where the database answers a query with the rows in its window and the number of all: for a
  -- limit between one and a hundred, every page that is asked for has at most so many rows, and the
  -- pages up to the number of pages that the answer says are together all rows of the list, each
  -- once and in their order.
  pub first_pages-all :
      (p l : ℕ)
      → 1 ≤ l
      → l ≤ 100
      → (result : PaginatedResult Row) × (build_query get_many_and_count criteria
            (page_at p l)
            options
          ≡ ok result)
        × (length result.items ≤ l)
        × (first_pages l (number_of_pages result.total_pages) ≡ all_rows)
  first_pages-all p l b c = (
    record {
      items = take l (drop (p * l) all_rows);
      total = length all_rows;
      page = PageParam.number (pos (suc p));
      limit = whole l;
      total_pages = whole ((length all_rows + l - 1) / l);
    },
    build_query_lem p l b c,
    length-take_le l (drop (p * l) all_rows),
    first_pages_lem l ((length all_rows + l - 1) / l) b c
        ∙ take-all _ all_rows (ceil-covers (length all_rows) l b),
  )

  -- A page that is not positive has the rows of the first page, and is answered under the number
  -- that was asked for.
  pub build_query-not_positive :
      (n l : ℕ)
      → 1 ≤ l
      → l ≤ 100
      → let asked : PaginationParams = record {
        page = some (PageParam.number (negsuc n));
        limit = some (PageParam.number (pos l));
      } in
        (first : PaginatedResult Row) × (build_query get_many_and_count criteria
            (page_at 0 l)
            options
          ≡ ok first)
        × (build_query get_many_and_count criteria asked options
            ≡ ok (record first { page = PageParam.number (negsuc n) }))
  unfolding build_query page_query apply_pagination list_query page_answer window
  build_query-not_positive n l b c =
      let asked : PaginationParams = record {
        page = some (PageParam.number (negsuc n));
        limit = some (PageParam.number (pos l));
      } in
      let at = window-in_range 0 l b c in
      let answered =
        answers (page_query criteria asked options) (0 * l) l (ap (λ w. some w.0) at)
          (ap (λ w. some w.1) at) in
      (
        _,
        build_query_lem 0 l b c,
        ap
              (page_answer (PageParam.number (negsuc n))
                (window (PageParam.number (pos 1)) (PageParam.number (pos l))).1)
              answered
            ∙ ap
                (λ t.
                  page_answer (PageParam.number (negsuc n)) t
                    (ok (take l (drop (0 * l) all_rows), length all_rows)))
                (ap (λ w. w.1) at),
      )
