-- ===== src/Query/Beyond.antt =====
-- The condition behind a cursor: its disjuncts say that a row comes after the cursor's in the order
-- of the sorts.
use shopping_cart.Prelude.{
  ◌≡◌, refl, Bool, true, false, ◌&&◌, ◌||◌, Option, none, some, List, [], ◌∷◌, ◌++◌, map, ok,
  if◌then◌else◌, arith,
}
use shopping_cart.Shared.Text.{Text}
use shopping_cart.Query.Types.{
  Direction, asc, desc, SortParams, Comparison, equals, above, below, beyond, Builder,
}
use shopping_cart.Query.Filters.{and_where}
use shopping_cart.Query.Cursor.{
  Json, object, empty, property, value_of, payload_from, encode_cursor, decode_cursor,
  same_as_cursor, past_cursor, disjuncts, apply_cursor_condition,
}
use shopping_cart.Query.Seek.{flip, behind_cursor}
use shopping_cart.Query.Payload.{NoDots, Knows, payload-All, actual_Knows}

-- The condition behind the cursor of an item that was made for some sorts.
abbrev pub cursor_rows : Json → List SortParams → List SortParams → List (List (Comparison Json))
unfolding disjuncts payload_from
cursor_rows item sorts actual = disjuncts (object (payload_from item sorts empty)) [] actual

-- The comparisons of the database, as tests on the values of the columns. A comparison with a
-- missing value holds of no row.
module _ (same less : Json → Json → Bool) where
  abbrev pub holds_one : Json → Comparison Json → Bool
  holds_one row (equals field none) = false
  holds_one row (equals field (some v)) = same (value_of row field) v
  holds_one row (above field none) = false
  holds_one row (above field (some v)) = less v (value_of row field)
  holds_one row (below field none) = false
  holds_one row (below field (some v)) = less (value_of row field) v

  abbrev pub holds_all : Json → List (Comparison Json) → Bool
  holds_all row [] = true
  holds_all row (c ∷ cs) = holds_one row c && holds_all row cs

  abbrev pub holds_any : Json → List (List (Comparison Json)) → Bool
  holds_any row [] = false
  holds_any row (cs ∷ rows) = holds_all row cs || holds_any row rows

  -- The row comes after the item in the order of the sorts: the first sort in which they differ
  -- says so.
  abbrev pub past : Direction → Json → Json → Bool
  past asc v w = less v w
  past desc v w = less w v

  abbrev pub after : List SortParams → Json → Json → Bool
  after [] item row = false
  after (s ∷ rest) item row =
      past s.direction (value_of item s.field) (value_of row s.field)
      || (same (value_of row s.field) (value_of item s.field) && after rest item row)

  module _ (item cursor row : Json) where
    abbrev same_in : List SortParams → Bool
    same_in [] = true
    same_in (s ∷ rest) = same (value_of row s.field) (value_of item s.field) && same_in rest

    past_direction :
        (field : Text) (d : Direction)
        → property field cursor ≡ some (value_of item field)
        → holds_one row (past_cursor cursor (record { field = field; direction = d }))
          ≡ past d (value_of item field) (value_of row field)
    unfolding past_cursor
    past_direction field asc h = rw h refl
    past_direction field desc h = rw h refl

    same_lem :
        (s : SortParams)
        → property s.field cursor ≡ some (value_of item s.field)
        → holds_one row (same_as_cursor cursor s)
          ≡ same (value_of row s.field) (value_of item s.field)
    unfolding same_as_cursor
    same_lem s h = rw h refl

    conjunct_lem :
        (before : List SortParams) (s : SortParams)
        → Knows cursor item before
        → property s.field cursor ≡ some (value_of item s.field)
        → holds_all row (map (same_as_cursor cursor) before ++ past_cursor cursor s ∷ [])
          ≡ (same_in before && past s.direction (value_of item s.field) (value_of row s.field))
    conjunct_lem [] s known h = ground (arith, past_direction s.field s.direction h)
    conjunct_lem (t ∷ before) s (k, known) h =
        ground (arith, same_lem t k, conjunct_lem before s known h)

    same_in-append :
        (before : List SortParams) (s : SortParams)
        → same_in (before ++ s ∷ [])
          ≡ (same_in before && same (value_of row s.field) (value_of item s.field))
    same_in-append [] s = ground arith
    same_in-append (t ∷ before) s = ground (arith, same_in-append before s)

    Knows-append :
        (before : List SortParams) (s : SortParams)
        → Knows cursor item before
        → property s.field cursor ≡ some (value_of item s.field)
        → Knows cursor item (before ++ s ∷ [])
    Knows-append [] s known h = (h, tt)
    Knows-append (t ∷ before) s (k, known) h = (k, Knows-append before s known h)

    disjuncts_lem :
        (before rest : List SortParams)
        → Knows cursor item before
        → Knows cursor item rest
        → holds_any row (disjuncts cursor before rest) ≡ (same_in before && after rest item row)
    unfolding disjuncts
    disjuncts_lem before [] known h = ground arith
    disjuncts_lem before (s ∷ rest) known (h, others) = ground (
      arith,
      conjunct_lem before s known h,
      same_in-append before s,
      disjuncts_lem (before ++ s ∷ []) rest (Knows-append before s known h) others,
    )

    -- Where the cursor is an object with the item's value of each sort field, the condition behind
    -- it holds of a row exactly if the row comes after the item in the order of the sorts.
    cursor_condition-after :
        (sorts : List SortParams)
        → Knows cursor item sorts
        → holds_any row (disjuncts cursor [] sorts) ≡ after sorts item row
    cursor_condition-after sorts known = disjuncts_lem [] sorts tt known

  module _ (pack : Json → Text) (unpack : Text → Option Json)
      (reads : (v : Json) → unpack (pack v) ≡ some v) where
    -- Where the libraries read back what they wrote and no sort field has a dot: behind the cursor
    -- that was made of an item for some sorts, the query for these sorts, or for these in the other
    -- direction, has one more condition, which holds of a row exactly if the row comes after the
    -- item.
    pub behind_cursor-after :
        (item row : Json) (backward : Bool) (sorts : List SortParams) (qb : Builder Json)
        → NoDots sorts
        → let actual = if backward then map flip sorts else sorts in
          (behind_cursor pack unpack (some (encode_cursor pack unpack item sorts)) actual qb
            ≡ ok (and_where (beyond (cursor_rows item sorts actual)) [] qb))
          × (holds_any row (cursor_rows item sorts actual) ≡ after actual item row)
    unfolding behind_cursor decode_cursor encode_cursor apply_cursor_condition
    behind_cursor-after item row backward sorts qb plain =
        let cursor = object (payload_from item sorts empty) in
        let actual : List SortParams = if backward then map flip sorts else sorts in
        let known : Knows cursor item actual =
          actual_Knows item cursor backward sorts (payload-All item sorts empty plain) in
        (
          rw (reads cursor, behind_cursor, decode_cursor, encode_cursor) refl,
          cursor_condition-after item cursor row actual known,
        )
