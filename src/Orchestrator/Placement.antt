-- ===== src/Orchestrator/Placement.antt =====
-- What becomes of a placed order, from the event of its creation on, where nothing of the outside
-- world fails: either every line is reserved, or none stays reserved.
use shopping_cart.Prelude.{
  ℕ, ◌+◌, ◌<◌, ◌≡◌, refl, ◌∙◌, ap, sym, subst, some, List, [], ◌∷◌, ◌++◌, map, ok, lookup, insert,
  lookup-insert_self, Dict, pos, length,
}
use mathlib.Core.List.{append-nil}
use shopping_cart.Shared.UniqueId.{UniqueId}
use shopping_cart.Shared.Price.{Price}
use shopping_cart.Event.{ProductLine, order_created}
use shopping_cart.Cache.{Stock}
use shopping_cart.Cache.Conservation.{level}
use shopping_cart.Order.{Order, pending, get_total_price}
use shopping_cart.Order.Line.{OrderLine}
use shopping_cart.Payment.{Payment}
use shopping_cart.Payment
use shopping_cart.Inventory.{Inventory}
use shopping_cart.Saga.{Saga}
use shopping_cart.Store.{CartRow, World, Db, Job, reserve_job, compensate_job, calm, stored_payment}
use shopping_cart.Store.Tracking.{IsTracked}
use shopping_cart.Handlers.Stock.{reserved_event}
use shopping_cart.Orchestrator.Lines.{IsDistinct, new_after}
use shopping_cart.Orchestrator.Reserve.{IsReady, with_sagas}
use shopping_cart.Orchestrator.Lineup.{Fits, IsDistinct-front, take_all, reserve_lines}
use shopping_cart.Orchestrator.Release.{give_all, wanted, take_level, give-take, take_other}
use shopping_cart.Orchestrator.{product_lines, react, run}
use shopping_cart.Orchestrator.Ending.{
  failed_order, awaiting_order, fail_line, open_payment, reacts-first,
}

-- The end of a placement whose lines all fit: the order awaits the payment, which is open and of
-- the order's price, and the lines are taken.
abbrev pub IsPlaced :
    UniqueId
    → UniqueId
    → ℕ
    → Order
    → Price
    → List ProductLine
    → List Job
    → UniqueId
    → ℕ
    → World
    → Type 0
IsPlaced id payment_id now order price ls jobs j k w =
    (lookup id w.db.orders ≡ some (awaiting_order order now))
    × (lookup payment_id w.db.payments ≡ some (stored_payment (Payment.create id price payment_id)))
    × ((m : ℕ) × (level j w.stock ≡ pos m) × (m + wanted j ls ≡ k))
    × (w.jobs ≡ jobs ++ map reserve_job ls)
    × (w.bus ≡ [])

-- The end of a failed placement: the order is failed, the product is at its level, no event is
-- left, and for every line that was taken a job gives it back.
abbrev pub IsUndone :
    UniqueId → ℕ → Order → List ProductLine → List Job → UniqueId → ℕ → World → Type 0
IsUndone id now order good jobs j k w =
    (lookup id w.db.orders ≡ some (failed_order order now))
    × (level j w.stock ≡ pos k)
    × (w.jobs ≡ (jobs ++ map reserve_job good) ++ map compensate_job good)
    × (w.bus ≡ [])

undone :
    (id : UniqueId) (now : ℕ) (order : Order) (good : List ProductLine) (stock : Stock)
    (jobs : List Job) (j : UniqueId) (k : ℕ) (orders : Dict Order) {payments : Dict Payment}
    {sagas : Dict Saga} {inventories : Dict Inventory} {products : Dict Price}
    {carts : Dict CartRow} {w : World}
    → order.id ≡ id
    → IsDistinct good
    → Fits good stock
    → level j stock ≡ pos k
    → w
      ≡ calm
          (record {
            orders = insert order.id (failed_order order now) orders;
            payments = payments;
            sagas = sagas;
            inventories = inventories;
            products = products;
            carts = carts;
          })
          (give_all good (take_all good stock))
          ((jobs ++ map reserve_job good) ++ map compensate_job good)
          []
    → IsUndone id now order good jobs j k w
undone id now order good stock jobs j k orders own distinct fits at h =
    subst (IsUndone id now order good jobs j k) (sym h) (
      subst
          (λ i.
            lookup i (insert order.id (failed_order order now) orders)
            ≡ some (failed_order order now))
          own (lookup-insert_self order.id (failed_order order now) orders),
      give-take j good k stock distinct fits at,
      refl,
      refl,
    )

module _ (id : UniqueId) (now : ℕ) (db : Db) (stock : Stock) (jobs : List Job) (order : Order)
    (saga : Saga) (fresh later : ℕ → UniqueId) (customer : UniqueId) (lines : List OrderLine)
    (total : Price) (found : lookup id db.orders ≡ some order) (own : order.id ≡ id)
    (st : order.state ≡ pending) (ready : IsReady id saga) (tracked : IsTracked id saga db.sagas)
    (asked : saga.payload.order_lines ≡ product_lines lines)
    (untouched : saga.payload.reserved_order_lines ≡ []) where
  -- All or nothing, the failure. The setting is that of a stored, pending order whose tracked saga
  -- has reserved nothing, where nothing of the outside world fails; the order's lines are distinct
  -- in their products, the first ones fit their stock levels and the next one does not. Once the
  -- events that follow from the order's creation are delivered (one for each line that fits, and
  -- three more), the order is stored as failed, no event is left, every level is what it was, and
  -- for each line that was taken one job takes it from the database and one gives it back.
  pub place-fails :
      (good rest : List ProductLine) (bad : ProductLine) (n : ℕ) (j : UniqueId) (k : ℕ)
      → product_lines lines ≡ good ++ bad ∷ rest
      → IsDistinct (good ++ bad ∷ rest)
      → Fits good stock
      → lookup bad.product_id stock ≡ some (pos n)
      → n < bad.quantity
      → level j stock ≡ pos k
      → IsUndone id now order good jobs j k (
          run 3 later now (
            run
              (length good)
              fresh
              now
              (calm db stock jobs (order_created id customer lines total ∷ []))))
  unfolding run react
  place-fails [] rest bad n j k split distinct fits there short at =
      let event = order_created id customer lines total in
      let padded : jobs ≡ jobs ++ [] = rw append-nil refl in
      let done =
        fail_line id now db stock (jobs ++ []) order saga [] found own st ready tracked untouched
          later event bad n (reacts-first id customer lines (bad ∷ rest) bad total split refl) there
          short in
      undone id now order [] stock jobs j k db.orders own tt fits at
        (ap (λ js. run 3 later now (calm db stock js (event ∷ []))) padded ∙ done)
  place-fails (l ∷ good) rest bad n j k split distinct fits there short at =
      let event = order_created id customer lines total in
      let (sagas', saga', known, eq) =
        reserve_lines id now good (bad ∷ rest) [] l event fresh saga db stock jobs
          (reacts-first id customer lines (l ∷ (good ++ bad ∷ rest)) l total split refl) ready
          tracked (asked ∙ split) untouched distinct fits in
      let level_kept =
        take_other bad.product_id (l ∷ good) stock
          (IsDistinct-front (l ∷ good) (bad ∷ rest) distinct) fits
          (new_after (l ∷ good) rest bad distinct) in
      let done =
        fail_line id now (with_sagas db sagas') (take_all (l ∷ good) stock)
          (jobs ++ map reserve_job (l ∷ good)) order saga' (l ∷ good) found own st known.ready
          known.tracked (rw known.payload refl) later (reserved_event id (some bad)) bad n refl
          (level_kept ∙ there) short in
      undone id now order (l ∷ good) stock jobs j k db.orders own
        (IsDistinct-front (l ∷ good) (bad ∷ rest) distinct) fits at (ap (run 3 later now) eq ∙ done)

  -- All or nothing, the success. Nothing of the outside world fails and no transaction is open; the
  -- order is stored, pending and with a total price; its saga is tracked, can go on, asks for the
  -- lines of the order and has reserved nothing; the lines are distinct in their products, there is
  -- at least one, and each fits the stock level of its product. Once the events that follow from
  -- the order's creation are delivered (one for each line, and two more), the order awaits its
  -- payment, an open payment of the order's price is stored, no event is left, each product's level
  -- is lower by exactly what the order wants of it, and one job for each line is queued.
  pub place-succeeds :
      (l : ProductLine) (ls : List ProductLine) (price : Price) (j : UniqueId) (k : ℕ)
      → product_lines lines ≡ l ∷ ls
      → IsDistinct (l ∷ ls)
      → Fits (l ∷ ls) stock
      → get_total_price order ≡ ok price
      → level j stock ≡ pos k
      → IsPlaced id (later 0) now order price (l ∷ ls) jobs j k (
          run 2 later now (
            run
              (length (l ∷ ls))
              fresh
              now
              (calm db stock jobs (order_created id customer lines total ∷ []))))
  place-succeeds l ls price j k split distinct fits priced at =
      let event = order_created id customer lines total in
      let whole : l ∷ (ls ++ []) ≡ l ∷ ls = rw append-nil refl in
      let (sagas', saga', known, eq) =
        reserve_lines id now ls [] [] l event fresh saga db stock jobs
          (reacts-first id customer lines (l ∷ ls) l total split refl) ready tracked
          (asked ∙ split ∙ sym whole) untouched (subst IsDistinct (sym whole) distinct) fits in
      let done =
        open_payment id now (with_sagas db sagas') (take_all (l ∷ ls) stock)
          (jobs ++ map reserve_job (l ∷ ls)) order saga' price found st known.ready known.tracked
          priced later in
      subst (IsPlaced id (later 0) now order price (l ∷ ls) jobs j k)
        (sym (ap (run 2 later now) eq ∙ done))
        (
          subst
              (λ i.
                lookup i (insert order.id (awaiting_order order now) db.orders)
                ≡ some (awaiting_order order now))
              own (lookup-insert_self order.id (awaiting_order order now) db.orders),
          lookup-insert_self (later 0) (stored_payment (Payment.create id price (later 0)))
              db.payments,
          take_level j (l ∷ ls) k stock distinct fits at,
          refl,
          refl,
        )
