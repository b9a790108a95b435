-- ===== src/Query/Cursor.antt =====
-- The cursors: `encodeCursor`, `decodeCursor` and `applyCursorCondition`. Rows and cursors are JSON
-- values; the text of one, `JSON.stringify` and base64, is made by the libraries.
use shopping_cart.Prelude.{
  ℕ, Option, none, some, List, [], ◌∷◌, ◌++◌, map, ℤ, Result, ok, err, or_throw, type_error,
  invalid_cursor, ◌==◌, if◌then◌else◌,
}
use shopping_cart.Shared.Text.{Text}
use shopping_cart.Shared.Price.{same_text}
use shopping_cart.Query.Types.{
  asc, desc, SortParams, Comparison, equals, above, below, beyond, Builder,
}
use shopping_cart.Query.Filters.{and_where}

mutual
  pub data Json : Type 0 where
    null : Json
    number : ℤ → Json
    text : Text → Json
    object : Members → Json

  -- the properties of an object
  pub data Members : Type 0 where
    empty : Members
    member : Text → Json → Members → Members

abbrev pub get_member : Text → Members → Option Json
get_member key empty = none
get_member key (member k value rest) = if same_text k key then some value else get_member key rest

-- `object[key] = value`
abbrev pub set_member : Text → Json → Members → Members
set_member key new empty = member key new empty
set_member key new (member k value rest) =
    let after = set_member key new rest in
    if same_text k key then member key new rest else member k value after

-- `value[key]`; undefined where there is none
abbrev pub property : Text → Json → Option Json
property key (object members) = get_member key members
property key _ = none

-- `field.split('.')`
abbrev pub onto_first : ℕ → List Text → List Text
onto_first c [] = (c ∷ []) ∷ []
onto_first c (part ∷ parts) = (c ∷ part) ∷ parts

unfoldable pub split_dots : Text → List Text
split_dots [] = [] ∷ []
split_dots (c ∷ s) =
    let parts = split_dots s in if c == b'.' then [] ∷ parts else onto_first c parts

-- The value at the parts of a field, and null where a part is missing.
unfoldable pub walk : Json → List Text → Json
walk value [] = value
walk value (part ∷ parts) = elim (property part value) [
  | none ↦ null
  | some inner ↦ walk inner parts
]

unfoldable pub value_of : Json → Text → Json
unfolding walk split_dots
value_of item field = walk item (split_dots field)

-- `field.replace(/\./g, '_')`
unfoldable pub payload_key : Text → Text
payload_key field = map (λ c. if c == b'.' then b'_' else c) field

unfoldable pub payload_from : Json → List SortParams → Members → Members
unfolding value_of payload_key
payload_from item [] payload = payload
payload_from item (sort ∷ rest) payload =
    payload_from item rest (set_member (payload_key sort.field) (value_of item sort.field) payload)

module _ (pack : Json → Text) (unpack : Text → Option Json) where
  unfoldable pub encode_cursor : Json → List SortParams → Text
  unfolding payload_from
  encode_cursor item sorts = pack (object (payload_from item sorts empty))

  unfoldable pub decode_cursor : Text → Result Json
  decode_cursor cursor = or_throw (unpack cursor) invalid_cursor

-- The two comparisons of a sort field with the cursor's value.
unfoldable pub same_as_cursor : Json → SortParams → Comparison Json
same_as_cursor cursor sort = equals sort.field (property sort.field cursor)

unfoldable pub past_cursor : Json → SortParams → Comparison Json
past_cursor cursor sort = elim sort.direction [
  | asc ↦ above sort.field (property sort.field cursor)
  | desc ↦ below sort.field (property sort.field cursor)
]

-- The disjuncts from a sort on: the sorts before it are equal, and it is past the cursor.
unfoldable pub disjuncts : Json → List SortParams → List SortParams → List (List (Comparison Json))
unfolding same_as_cursor past_cursor
disjuncts cursor before [] = []
disjuncts cursor before (sort ∷ rest) =
    (map (same_as_cursor cursor) before ++ past_cursor cursor sort ∷ [])
    ∷ disjuncts cursor (before ++ sort ∷ []) rest

-- A property of null is not read without an error.
unfoldable pub apply_cursor_condition :
    Json → List SortParams → Builder Json → Result (Builder Json)
unfolding disjuncts
apply_cursor_condition null [] qb = ok (and_where (beyond []) [] qb)
apply_cursor_condition null (sort ∷ rest) qb = err type_error
apply_cursor_condition cursor sorts qb = ok (and_where (beyond (disjuncts cursor [] sorts)) [] qb)
