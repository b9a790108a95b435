-- ===== src/Cart/Keeping.antt =====
-- What persisting a cart keeps, and what a failure between its statements loses.
use shopping_cart.Prelude.{
  ℕ, ◌≡◌, ◌≢◌, refl, ap, ◌∙◌, subst, Bool, true, false, not, none, some, List, [], ◌∷◌, map, filter,
  Dict, lookup, insert, lookup-insert, lookup-insert_self, lookup-insert_ne, All, ltb, is_empty,
  Option-cases, inl, inr, arith, ◌==◌, if◌then◌else◌, ok, err, outage,
}
use shopping_cart.Shared.UniqueId.{UniqueId}
use shopping_cart.Cache.{Stock}
use shopping_cart.Event.{Event}
use shopping_cart.Cart.{Cart}
use shopping_cart.Store.{Db, Job, CartRow, CartItemRow, calm}
use shopping_cart.Cart.Persistence.{
  to_persistence, item_to_persistence, map_from, changed, Entry, kept, created, push_if, merge,
  resolve, merged, replace_items, persist_over, persist_cart,
}

-- An item without its id: the product, its quantity and its price.
abbrev pub content : CartItemRow → UniqueId × ℕ × ℕ
content row = (row.product_id, row.quantity, row.price)

-- No product stands on two rows.
abbrev pub IsDistinct : List CartItemRow → Type 0
IsDistinct [] = Unit
IsDistinct (row ∷ rows) = All (λ r. r.product_id ≢ row.product_id) rows × IsDistinct rows

abbrev IsKeyed : Dict CartItemRow → Type 0
IsKeyed items =
    (p : UniqueId) → (row : CartItemRow) → lookup p items ≡ some row → row.product_id ≡ p

insert-IsKeyed :
    (row : CartItemRow) (items : Dict CartItemRow)
    → IsKeyed items
    → IsKeyed (insert row.product_id row items)
insert-IsKeyed row items keyed p r h =
    ground (arith, lookup-insert row.product_id p row items, keyed p r)

map_from-IsKeyed :
    (rows : List CartItemRow) (items : Dict CartItemRow)
    → IsKeyed items
    → IsKeyed (map_from rows items)
map_from-IsKeyed [] items keyed = keyed
map_from-IsKeyed (row ∷ rows) items keyed =
    map_from-IsKeyed rows (insert row.product_id row items) (insert-IsKeyed row items keyed)

changed-content :
    (existing incoming : CartItemRow)
    → ((changed existing incoming).quantity ≡ incoming.quantity)
      × ((changed existing incoming).price ≡ incoming.price)
      × ((changed existing incoming).product_id ≡ existing.product_id)
changed-content existing incoming = ground arith

merge-other :
    (incoming : List CartItemRow) (items : Dict CartItemRow) (p : UniqueId)
    → All (λ r. r.product_id ≢ p) incoming
    → lookup p (merge incoming items).0 ≡ lookup p items
unfolding merge
merge-other [] items p h = refl
merge-other (i ∷ rest) items p (other, others) = elim (Option-cases (lookup i.product_id items)) [
  | inl missing ↦ rw (missing, merge) (merge-other rest items p others)
  | inr (e, there) ↦
      rw (there, merge)
        (merge-other rest (insert i.product_id (changed e i) items) p others
          ∙ lookup-insert_ne i.product_id p (changed e i) items other)
]

merge_new :
    (i : CartItemRow) (rest : List CartItemRow) (items : Dict CartItemRow)
    → lookup i.product_id items ≡ none
    → merge (i ∷ rest) items
      ≡ ((merge rest items).0, push_if (ltb 0 i.quantity) (created i) (merge rest items).1)
unfolding merge
merge_new i rest items h = rw (h, merge) refl

merge_kept :
    (i e : CartItemRow) (rest : List CartItemRow) (items : Dict CartItemRow)
    → lookup i.product_id items ≡ some e
    → let next = merge rest (insert i.product_id (changed e i) items) in
      merge (i ∷ rest) items
      ≡ (next.0, push_if (not ((changed e i).quantity == 0)) (kept i.product_id) next.1)
unfolding merge
merge_kept i e rest items h = rw (h, merge) refl

push_created :
    (b : Bool) (i : CartItemRow) (items : Dict CartItemRow) (entries : List Entry)
    (rows : List CartItemRow)
    → map content (resolve items entries) ≡ map content rows
    → map content (resolve items (push_if b (created i) entries))
      ≡ map content (if b then i ∷ rows else rows)
push_created true i items entries rows h = ap (◌∷◌ (content i)) h
push_created false i items entries rows h = h

push_kept :
    (b : Bool) (i e : CartItemRow) (items : Dict CartItemRow) (entries : List Entry)
    (rows : List CartItemRow)
    → lookup i.product_id items ≡ some e
    → content e ≡ content i
    → map content (resolve items entries) ≡ map content rows
    → map content (resolve items (push_if b (kept i.product_id) entries))
      ≡ map content (if b then i ∷ rows else rows)
push_kept true i e items entries rows there same h =
    ap
      (λ o. map content (elim o as (λ x. List CartItemRow) [
        | none ↦ resolve items entries
        | some row ↦ row ∷ resolve items entries
      ]))
      there
    ∙ ap (λ c. c ∷ map content (resolve items entries)) same
    ∙ ap (◌∷◌ (content i)) h
push_kept false i e items entries rows there same h = h

changed_test : (e i : CartItemRow) → not ((changed e i).quantity == 0) ≡ ltb 0 i.quantity
changed_test e i = ground arith

merge-content :
    (incoming : List CartItemRow) (items : Dict CartItemRow)
    → IsKeyed items
    → IsDistinct incoming
    → map content (resolve (merge incoming items).0 (merge incoming items).1)
      ≡ map content (filter (λ r. ltb 0 r.quantity) incoming)
unfolding merge
merge-content [] items keyed distinct = refl
merge-content (i ∷ rest) items keyed (new, distinct) =
    elim (Option-cases (lookup i.product_id items)) [
      | inl missing ↦
          ap (λ m. map content (resolve m.0 m.1)) (merge_new i rest items missing)
          ∙ push_created (ltb 0 i.quantity) i (merge rest items).0 (merge rest items).1
              (filter (λ r. ltb 0 r.quantity) rest) (merge-content rest items keyed distinct)
      | inr (e, there) ↦
          let e' = changed e i in
          let own : e.product_id ≡ i.product_id = keyed i.product_id e there in
          let items' = insert i.product_id e' items in
          let next = merge rest items' in
          let keyed' : IsKeyed items' =
            subst (λ (p : UniqueId). IsKeyed (insert p e' items)) ((changed-content e i).2 ∙ own)
              (insert-IsKeyed e' items keyed) in
          let same : content e' ≡ content i = ground (arith, changed-content e i) in
          ap (λ m. map content (resolve m.0 m.1)) (merge_kept i e rest items there)
          ∙ ap (λ b. map content (resolve next.0 (push_if b (kept i.product_id) next.1)))
              (changed_test e i)
          ∙ push_kept (ltb 0 i.quantity) i e' next.0 next.1 (filter (λ r. ltb 0 r.quantity) rest)
              (merge-other rest items' i.product_id new ∙ lookup-insert_self i.product_id e' items)
              same (merge-content rest items' keyed' distinct)
    ]

-- The items that are saved are the incoming ones with a quantity, in their order.
merged-content :
    (existing incoming : List CartItemRow)
    → IsDistinct incoming
    → map content (merged existing incoming) ≡ map content (filter (λ r. ltb 0 r.quantity) incoming)
unfolding merged
merged-content existing incoming distinct =
    merge-content incoming (map_from existing []) (map_from-IsKeyed existing [] (λ p row h. cc))
      distinct

module _ (db : Db) (stock : Stock) (jobs : List Job) (bus : List Event) (cart : Cart)
    (row : CartRow) (there : lookup cart.id db.carts ≡ some row) (own : row.uuid ≡ cart.id) where
  stored :
      (items : List CartItemRow)
      → let (r, w) = replace_items row items (calm db stock jobs bus) in
        (r ≡ ok tt) × (lookup cart.id w.db.carts ≡ some (record row { cart_items = items }))
  unfolding replace_items
  stored items =
      let emptied = record row { cart_items = [] } in
      let full = record row { cart_items = items } in
      ground (
        arith,
        lookup-insert_self cart.id emptied db.carts,
        lookup-insert_self cart.id full db.carts,
        lookup-insert_self cart.id full (insert cart.id emptied db.carts),
      )

  -- Where nothing of the outside world fails, the cart has a row under its id, and no product
  -- stands on two of its items: persisting it succeeds, and the row has the products, quantities
  -- and prices of the cart's items, in their order, without those of quantity zero; the rest of the
  -- row is as it was.
  pub persist_cart-content :
      IsDistinct (map item_to_persistence cart.cart_items)
      → let (r, w) = persist_cart cart (calm db stock jobs bus) in
        (items : List CartItemRow) × (r ≡ ok tt)
        × (lookup cart.id w.db.carts ≡ some (record row { cart_items = items }))
        × (map content items
            ≡ map content
                (filter (λ r'. ltb 0 r'.quantity) (map item_to_persistence cart.cart_items)))
  unfolding persist_cart replace_items
  persist_cart-content distinct =
      let items = merged row.cart_items (map item_to_persistence cart.cart_items) in
      let reached : persist_cart cart (calm db stock jobs bus)
          ≡ replace_items row items (calm db stock jobs bus) =
        ap (λ o. persist_over (to_persistence cart) o (calm db stock jobs bus)) there in
      let (r, found) = stored items in
      (
        items,
        ap (λ o. o.0) reached ∙ r,
        ap (λ o. lookup cart.id o.1.db.carts) reached ∙ found,
        merged-content row.cart_items (map item_to_persistence cart.cart_items) distinct,
      )

  -- In the same setting, if the last of the three statements fails, the handler throws and the row
  -- has lost all its items.
  pub persist_cart-loses :
      is_empty row.cart_items ≡ false
      → let (r, w) =
          persist_cart cart
            (record (calm db stock jobs bus) { faults = false ∷ false ∷ true ∷ [] }) in
        (r ≡ err outage) × (lookup cart.id w.db.carts ≡ some (record row { cart_items = [] }))
  unfolding persist_cart replace_items
  persist_cart-loses full =
      ground (arith, lookup-insert_self cart.id (record row { cart_items = [] }) db.carts)
