-- ===== src/Orchestrator/Lineup.antt =====
-- The reservation of several lines of an order, one event after the other.
use shopping_cart.Prelude.{
  ℕ, suc, ◌+◌, ◌≡◌, refl, ◌∙◌, ap, sym, false, Option, some, List, [], ◌∷◌, ◌++◌, map, ok, arith,
  lookup, insert, lookup-insert, Dict, length, ℤ, pos,
}
use mathlib.Core.List.{append_assoc}
use shopping_cart.Shared.UniqueId.{UniqueId}
use shopping_cart.Event.{Event, ProductLine}
use shopping_cart.Cache.{Stock, reserve_inventory}
use shopping_cart.Cache.Conservation.{reserve_fits}
use shopping_cart.Saga.{Saga, has_product, first_unreserved}
use shopping_cart.Store.{Db, Job, reserve_job, calm}
use shopping_cart.Store.Tracking.{IsTracked, IsTracked-found, insert-IsTracked}
use shopping_cart.Handlers.Stock.{reserved_event, reserved_step}
use shopping_cart.Orchestrator.Lines.{IsDistinct, first, next_after}
use shopping_cart.Orchestrator.Reserve.{IsReady, with_line, with_sagas, reserve_line_fits}
use shopping_cart.Orchestrator.{reserve_inventory_v2, react, dispatch, deliver, run}

-- Each line fits the level of its product.
abbrev pub Fits : List ProductLine → Stock → Type 0
Fits [] stock = Unit
Fits (l ∷ ls) stock =
    ((n : ℕ) × (lookup l.product_id stock ≡ some (pos (n + l.quantity)))) × Fits ls stock

-- The stock after the lines were reserved.
abbrev pub take_all : List ProductLine → Stock → Stock
take_all [] stock = stock
take_all (l ∷ ls) stock = take_all ls (reserve_inventory l.product_id l.quantity stock).1

Fits-insert :
    (p : UniqueId) (v : ℤ) (ls : List ProductLine) (stock : Stock)
    → has_product p ls ≡ false
    → Fits ls stock
    → Fits ls (insert p v stock)
Fits-insert p v [] stock new fits = tt
Fits-insert p v (l ∷ ls) stock new ((n, there), fits) = (
  (n, ground (arith, lookup-insert p l.product_id v stock)),
  Fits-insert p v ls stock (ground arith) fits,
)

pub Fits-reserve :
    (l : ProductLine) (ls : List ProductLine) (stock : Stock)
    → has_product l.product_id ls ≡ false
    → (n : ℕ) × (lookup l.product_id stock ≡ some (pos (n + l.quantity)))
    → Fits ls stock
    → Fits ls (reserve_inventory l.product_id l.quantity stock).1
Fits-reserve l ls stock new (n, there) fits =
    rw (reserve_fits l.product_id l.quantity n stock there)
      (Fits-insert l.product_id (pos n) ls stock new fits)

has_product-after :
    (ls rest : List ProductLine) (l : ProductLine)
    → IsDistinct (ls ++ l ∷ rest)
    → has_product l.product_id rest ≡ false
has_product-after [] rest l h = h.0
has_product-after (x ∷ xs) rest l h = has_product-after xs rest l h.1

has_product-front :
    (p : UniqueId) (ls rest : List ProductLine)
    → has_product p (ls ++ rest) ≡ false
    → has_product p ls ≡ false
has_product-front p [] rest h = refl
has_product-front p (x ∷ xs) rest h = ground (arith, has_product-front p xs rest)

pub IsDistinct-front : (ls rest : List ProductLine) → IsDistinct (ls ++ rest) → IsDistinct ls
IsDistinct-front [] rest h = tt
IsDistinct-front (l ∷ ls) rest (h, hs) =
    (has_product-front l.product_id ls rest h, IsDistinct-front ls rest hs)

pub deliver_reserve :
    (id : UniqueId) (l : ProductLine) (event : Event) (fresh : UniqueId) (now : ℕ) (db : Db)
    (stock : Stock) (jobs : List Job)
    → react event ≡ reserve_inventory_v2 id (some l)
    → deliver fresh now (calm db stock jobs (event ∷ []))
      ≡ (dispatch (reserve_inventory_v2 id (some l)) fresh now (calm db stock jobs [])).1
unfolding deliver
deliver_reserve id l event fresh now db stock jobs h =
    ap (λ c. (dispatch c fresh now (calm db stock jobs [])).1) h

-- What is left after `todo` was reserved: the saga knows the lines, and one event says what comes
-- next.
pub record IsReservedUpTo (id : UniqueId) (done : List ProductLine) (next : Option ProductLine)
    (saga : Saga) (sagas : Dict Saga) (saga' : Saga) : Type 0 where
  pub ready : IsReady id saga'
  pub tracked : IsTracked id saga' sagas
  pub key : saga'.id ≡ saga.id
  pub payload : saga'.payload ≡ record (saga.payload) { reserved_order_lines = done }
  pub at_step : saga'.current_step ≡ reserved_step next

module _ (id : UniqueId) (now : ℕ) where
  -- One line: the level is lowered, and the next event is published.
  deliver_line :
      (done rest : List ProductLine) (l : ProductLine) (event : Event) (fresh : UniqueId)
      (saga : Saga) (db : Db) (stock : Stock) (jobs : List Job)
      → react event ≡ reserve_inventory_v2 id (some l)
      → IsReady id saga
      → IsTracked id saga db.sagas
      → saga.payload.order_lines ≡ done ++ l ∷ rest
      → saga.payload.reserved_order_lines ≡ done
      → IsDistinct (done ++ l ∷ rest)
      → Fits (l ∷ []) stock
      → let saga' = with_line saga l (reserved_step (first rest)) now in
        deliver fresh now (calm db stock jobs (event ∷ []))
        ≡ calm
            (with_sagas db (insert saga'.id saga' db.sagas))
            (reserve_inventory l.product_id l.quantity stock).1
            (jobs ++ reserve_job l ∷ [])
            (reserved_event id (first rest) ∷ [])
  unfolding dispatch
  deliver_line done rest l event fresh saga db stock jobs reacts ready tracked lines reserved
        distinct ((n, there), _) =
      let found = IsTracked-found id saga db.sagas ready.own tracked in
      let search : first_unreserved (saga.payload.reserved_order_lines ++ l ∷ [])
            saga.payload.order_lines
          ≡ ok (first rest) =
        rw lines (rw reserved (next_after done rest l distinct)) in
      deliver_reserve id l event fresh now db stock jobs reacts
      ∙ ap (λ o. o.1)
          (reserve_line_fits id l now db stock jobs [] saga n (first rest) there ready found search)
      ∙ rw (reserve_fits l.product_id l.quantity n stock there) refl

  -- Several lines, from an event that asks for the first of them.
  pub reserve_lines :
      (todo rest done : List ProductLine) (l : ProductLine) (event : Event) (fresh : ℕ → UniqueId)
      (saga : Saga) (db : Db) (stock : Stock) (jobs : List Job)
      → react event ≡ reserve_inventory_v2 id (some l)
      → IsReady id saga
      → IsTracked id saga db.sagas
      → saga.payload.order_lines ≡ done ++ l ∷ (todo ++ rest)
      → saga.payload.reserved_order_lines ≡ done
      → IsDistinct (done ++ l ∷ (todo ++ rest))
      → Fits (l ∷ todo) stock
      → (sagas' : Dict Saga) × (saga' : Saga) × IsReservedUpTo id
          (done ++ l ∷ todo)
          (first rest)
          saga
          sagas'
          saga'
        × (run (suc (length todo)) fresh now (calm db stock jobs (event ∷ []))
            ≡ calm
                (with_sagas db sagas')
                (take_all (l ∷ todo) stock)
                (jobs ++ map reserve_job (l ∷ todo))
                (reserved_event id (first rest) ∷ []))
  unfolding run react
  reserve_lines [] rest done l event fresh saga db stock jobs reacts ready tracked lines reserved
        distinct fits =
      let saga' = with_line saga l (reserved_step (first rest)) now in
      (
        insert saga'.id saga' db.sagas,
        saga',
        record {
          ready = record { own = ready.own; type = ready.type; forward = ready.forward };
          tracked = insert-IsTracked id saga saga' db.sagas refl tracked;
          key = refl;
          payload = rw reserved refl;
          at_step = refl;
        },
        deliver_line done rest l event (fresh 0) saga db stock jobs reacts ready tracked lines
            reserved distinct fits,
      )
  reserve_lines (m ∷ todo) rest done l event fresh saga db stock jobs reacts ready tracked lines
        reserved distinct (fit, fits) =
      let saga' = with_line saga l (reserved_step (some m)) now in
      let db' = with_sagas db (insert saga'.id saga' db.sagas) in
      let stock' = (reserve_inventory l.product_id l.quantity stock).1 in
      let after = done ++ l ∷ [] in
      let moved : after ++ m ∷ (todo ++ rest) ≡ done ++ l ∷ m ∷ (todo ++ rest) =
        rw append_assoc refl in
      let new : has_product l.product_id (m ∷ todo) ≡ false =
        has_product-front l.product_id (m ∷ todo) rest
          (has_product-after done (m ∷ (todo ++ rest)) l distinct) in
      let (sagas'', saga'', known, eq) =
        reserve_lines todo rest after m (reserved_event id (some m)) (λ i. fresh (suc i)) saga' db'
          stock' (jobs ++ reserve_job l ∷ []) refl
          (record { own = ready.own; type = ready.type; forward = ready.forward })
          (insert-IsTracked id saga saga' db.sagas refl tracked) (lines ∙ sym moved)
          (rw reserved refl) (rw moved distinct) (Fits-reserve l (m ∷ todo) stock new fit fits) in
      (
        sagas'',
        saga'',
        record {
          ready = known.ready;
          tracked = known.tracked;
          key = known.key;
          payload = known.payload ∙ rw append_assoc refl;
          at_step = known.at_step;
        },
        ap (run (suc (length todo)) (λ i. fresh (suc i)) now) (
              deliver_line done (m ∷ (todo ++ rest)) l event (fresh 0) saga db stock jobs reacts
                ready tracked lines reserved distinct (fit, tt))
            ∙ eq
            ∙ ap
                (λ js.
                  calm (with_sagas db sagas'') (take_all (l ∷ m ∷ todo) stock) js
                    (reserved_event id (first rest) ∷ []))
                (append_assoc jobs (reserve_job l ∷ []) (map reserve_job (m ∷ todo))),
      )
