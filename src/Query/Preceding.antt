-- ===== src/Query/Preceding.antt =====
-- The page before a row, by its previous cursor.
use mathlib.Core.List.{append-nil, reverse}
use mathlib.Core.Path.{fun_ext}
use shopping_cart.Prelude.{
  ℕ, suc, ◌≡◌, refl, ap, subst, ◌∙◌, Bool, true, false, not, Option, none, some, List, [], ◌∷◌,
  ◌++◌, map, All, Result, ok, ◌>>=◌, ◌||◌, length, min, take, drop, filter, ltb, is_empty,
  if◌then◌else◌,
}
use shopping_cart.Shared.Text.{Text}
use shopping_cart.Query.Types.{
  whole, SortParams, QueryCriteria, Builder, new_builder, Condition, ParamName, ParamValue, beyond,
  Comparison, is_allowed, sort_from, apply_sorts,
}
use shopping_cart.Query.Filtering.{apply_filters-IsFiltered}
use shopping_cart.Query.Pages.{QueryOptions, sorts_of}
use shopping_cart.Query.Cursor.{Json, encode_cursor}
use shopping_cart.Query.Seek.{
  flip, actual_sorts, CursorPaginatedResult, page_from, seek_answer, seek_query, behind_cursor,
  build_query_with_cursor,
}
use shopping_cart.Query.Payload.{NoDots}
use shopping_cart.Query.Beyond.{holds_any, after, cursor_rows, behind_cursor-after}
use shopping_cart.Query.Following.{params_of, seek_answer_lem, sorts-All, IsOrdered}
use shopping_cart.Query.Filters.{apply_filters}
use shopping_cart.Query.Backward.{
  filter-reverse, flip-allowed, after-flip, filter-before, reverse-take, length-reverse,
  length-take_min,
}

-- The libraries, as for the walk; the database also gives the rows in the opposite order if all
-- directions are the opposite.
module _ (same less : Json → Json → Bool) (symmetric : (v w : Json) → same v w ≡ same w v)
    (pack : Json → Text) (unpack : Text → Option Json)
    (reads : (v : Json) → unpack (pack v) ≡ some v) (packs : (v : Json) → is_empty (pack v) ≡ false)
    (get_many : Builder Json → Result (List Json))
    (matching : List (Condition Json) → List (ParamName × ParamValue) → List SortParams → List Json)
    (answers : (qb : Builder Json) (n : ℕ)
      → qb.take ≡ some (whole n)
      → get_many qb ≡ ok (take n (matching qb.conditions qb.parameters qb.order)))
    (refines : (conditions : List (Condition Json)) (rows : List (List (Comparison Json)))
        (parameters : List (ParamName × ParamValue)) (order : List SortParams)
      → matching (conditions ++ beyond rows ∷ []) parameters order
        ≡ filter (λ row. holds_any same less row rows) (matching conditions parameters order))
    (criteria : QueryCriteria) (options : QueryOptions)
    (reverses : (conditions : List (Condition Json)) (parameters : List (ParamName × ParamValue))
      → matching conditions parameters (map flip (sorts_of criteria.sort options.default_sort))
        ≡ reverse
            (matching conditions parameters (sorts_of criteria.sort options.default_sort))) where
  abbrev pub ordering : List SortParams
  ordering = sorts_of criteria.sort options.default_sort

  abbrev pub shown : Builder Json
  shown = apply_filters options.allowed_filters criteria.filter (new_builder Json)

  abbrev pub every_row : List Json
  every_row = matching shown.conditions shown.parameters ordering

  rows_before :
      (xs : List Json) (c : Json) (ys : List Json)
      → NoDots ordering
      → every_row ≡ xs ++ c ∷ ys
      → IsOrdered same less ordering every_row
      → matching
          (shown.conditions ++ beyond (cursor_rows c ordering (map flip ordering)) ∷ [])
          (shown.parameters ++ [])
          (map flip ordering)
        ≡ reverse xs
  rows_before xs c ys plain split ordered =
      let rows = cursor_rows c ordering (map flip ordering) in
      refines shown.conditions rows (shown.parameters ++ []) (map flip ordering)
      ∙ ap
          (λ ps.
            filter (λ row. holds_any same less row rows)
              (matching shown.conditions ps (map flip ordering)))
          (append-nil shown.parameters)
      ∙ ap (filter (λ row. holds_any same less row rows))
          (reverses shown.conditions shown.parameters)
      ∙ filter-reverse (λ row. holds_any same less row rows) every_row
      ∙ ap (λ keep. reverse (filter keep every_row))
          (fun_ext (λ row.
            (behind_cursor-after same less pack unpack reads c row true ordering shown plain).1
            ∙ after-flip same less symmetric ordering c row))
      ∙ ap (λ zs. reverse (filter (λ row. after same less ordering row c) zs)) split
      ∙ ap reverse (
          filter-before same less symmetric ordering xs c ys
            (subst (IsOrdered same less ordering) split ordered))

  page_before :
      (l : ℕ) (xs : List Json) (c : Json) (ys : List Json)
      → NoDots ordering
      → All (λ s. is_allowed options.allowed_sorts s.field ≡ true) ordering
      → every_row ≡ xs ++ c ∷ ys
      → IsOrdered same less ordering every_row
      → let cursor = encode_cursor pack unpack c ordering in
        build_query_with_cursor pack unpack get_many criteria
          (params_of l none (some cursor))
          options
        ≡ ok (
            page_from pack unpack
              (ltb l (length (reverse xs)))
              (params_of l none (some cursor))
              ordering
              (take l (reverse xs)))
  unfolding build_query_with_cursor seek_query apply_sorts encode_cursor actual_sorts
  page_before l xs c ys plain allowed split ordered =
      let cursor = encode_cursor pack unpack c ordering in
      let actual = map flip ordering in
      let params = params_of l none (some cursor) in
      let qb : Builder Json = apply_sorts options.allowed_sorts actual shown in
      let then' : Result (Builder Json) → Result CursorPaginatedResult = λ r.
        r >>= (λ qb'. ok (record qb' { take = some (whole (suc l)) })) >>= λ qb'.
        seek_answer pack unpack params ordering (get_many qb') in
      let sent = record qb {
        conditions = shown.conditions ++ beyond (cursor_rows c ordering actual) ∷ [];
        parameters = shown.parameters ++ [];
        take = some (whole (suc l));
      } in
      let order : qb.order ≡ actual =
        ap (sort_from options.allowed_sorts 0 actual)
          (apply_filters-IsFiltered Json options.allowed_filters criteria.filter).2
        ∙ sorts-All options.allowed_sorts actual
            (flip-allowed options.allowed_sorts ordering allowed) in
      ap
        (λ b. then' (
          behind_cursor pack unpack (if not b then some cursor else none)
            (if not b then actual else ordering)
            (apply_sorts options.allowed_sorts (if not b then actual else ordering) shown)))
        (packs _)
      ∙ ap then' (behind_cursor-after same less pack unpack reads c c true ordering qb plain).0
      ∙ ap (seek_answer pack unpack params ordering) (
          answers sent (suc l) refl
          ∙ ap (λ o. ok (take (suc l) (matching sent.conditions sent.parameters o))) order
          ∙ ap (λ zs. ok (take (suc l) zs)) (rows_before xs c ys plain split ordered))
      ∙ seek_answer_lem pack unpack none (some cursor) ordering l (reverse xs)

  page_from_before :
      (l : ℕ) (more : Bool) (c : Json) (zs : List Json)
      → let page =
          page_from pack unpack more
            (params_of l none (some (encode_cursor pack unpack c ordering)))
            ordering
            zs in
        (page.items ≡ reverse zs) × (page.has_previous_page ≡ more) × (page.has_next_page ≡ more)
  unfolding page_from encode_cursor
  page_from_before l more c zs = (
    ap (λ b. if not b then reverse zs else zs) (packs _),
    ap (λ b. if not b then more else false) (packs _),
    ap (λ b. if not b then false || more else more) (packs _),
  )

  -- Where each row comes after those before it and not the other way round, and no sort field has a
  -- dot or is disallowed: behind the previous cursor of a row, with no next cursor, the answer has
  -- the last rows before that row in their order, as many as the limit allows. It says that there
  -- is a previous page exactly if rows are left before these, and it says the same of a next page,
  -- though the row itself and those behind it follow.
  pub page_before-last :
      (l : ℕ) (xs : List Json) (c : Json) (ys : List Json)
      → NoDots ordering
      → All (λ s. is_allowed options.allowed_sorts s.field ≡ true) ordering
      → every_row ≡ xs ++ c ∷ ys
      → IsOrdered same less ordering every_row
      → let cursor = encode_cursor pack unpack c ordering in
        (page : CursorPaginatedResult) × (build_query_with_cursor pack unpack get_many criteria
            (params_of l none (some cursor))
            options
          ≡ ok page)
        × (front : List Json) × (front ++ page.items ≡ xs)
        × (length page.items ≡ min l (length xs))
        × (page.has_previous_page ≡ ltb l (length xs))
        × (page.has_next_page ≡ ltb l (length xs))
  page_before-last l xs c ys plain allowed split ordered =
      let kept = take l (reverse xs) in
      let more = ltb l (length (reverse xs)) in
      let (items, previous, next) = page_from_before l more c kept in
      (
        page_from pack unpack more (params_of l none (some (encode_cursor pack unpack c ordering)))
            ordering kept,
        page_before l xs c ys plain allowed split ordered,
        reverse (drop l (reverse xs)),
        ap (λ zs. reverse (drop l (reverse xs)) ++ zs) items ∙ reverse-take l xs,
        ap length items
            ∙ length-reverse kept
            ∙ length-take_min l (reverse xs)
            ∙ ap (min l) (length-reverse xs),
        previous ∙ ap (ltb l) (length-reverse xs),
        next ∙ ap (ltb l) (length-reverse xs),
      )
