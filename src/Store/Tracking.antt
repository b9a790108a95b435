-- ===== src/Store/Tracking.antt =====
-- A row in its table: found by its owner, and found again after it was persisted. A saga and a
-- payment belong to an order.
use shopping_cart.Prelude.{
  ◌≡◌, ◌≢◌, refl, ◌∙◌, ◌⊎◌, inl, inr, some, [], ◌∷◌, Dict, insert, arith, ◌==◌, true, false, lookup,
}
use shopping_cart.Shared.UniqueId.{UniqueId}
use shopping_cart.Payment.{Payment}
use shopping_cart.Saga.{Saga}
use shopping_cart.Store.{find_row}

module _ {V : Type 0} (key owner : V → UniqueId) where
  -- The row stands under its own key, and no row before it has this owner.
  abbrev pub IsOwned : UniqueId → V → Dict V → Type 0
  IsOwned id v [] = ⊥
  IsOwned id v ((k, w) ∷ rows) =
      ((k ≡ key v) × (w ≡ v)) ⊎ ((k ≢ key v) × (owner w ≢ id) × IsOwned id v rows)

  pub IsOwned-found :
      (id : UniqueId) (v : V) (rows : Dict V)
      → owner v ≡ id
      → IsOwned id v rows
      → find_row (λ w. owner w == id) rows ≡ some v
  IsOwned-found id v [] own h = absurd h
  IsOwned-found id v ((k, w) ∷ rows) own h = ground (arith, IsOwned-found id v rows own)

  pub IsOwned-lookup :
      (id : UniqueId) (v : V) (rows : Dict V) → IsOwned id v rows → lookup (key v) rows ≡ some v
  IsOwned-lookup id v [] h = absurd h
  IsOwned-lookup id v ((k, w) ∷ rows) h = ground (arith, IsOwned-lookup id v rows)

  pub insert-IsOwned :
      (id : UniqueId) (v v' : V) (rows : Dict V)
      → key v' ≡ key v
      → IsOwned id v rows
      → IsOwned id v' (insert (key v') v' rows)
  insert-IsOwned id v v' [] same h = absurd h
  insert-IsOwned id v v' ((k, w) ∷ rows) same (inl (at, row)) =
      let found : (k == key v') ≡ true = ground arith in rw found (inl (refl, refl))
  insert-IsOwned id v v' ((k, w) ∷ rows) same (inr (at, other, rest)) =
      let passed : (k == key v') ≡ false = ground arith in
      rw passed (inr ((λ e. at (e ∙ same)), other, insert-IsOwned id v v' rows same rest))

-- The saga of an order, and its payment.
abbrev pub IsTracked : UniqueId → Saga → Dict Saga → Type 0
IsTracked id saga rows = IsOwned (λ s. s.id) (λ s. s.correlation_id) id saga rows

abbrev pub IsPayment : UniqueId → Payment → Dict Payment → Type 0
IsPayment id payment rows = IsOwned (λ p. p.id) (λ p. p.order_id) id payment rows

pub IsTracked-found :
    (id : UniqueId) (saga : Saga) (rows : Dict Saga)
    → saga.correlation_id ≡ id
    → IsTracked id saga rows
    → find_row (λ s. s.correlation_id == id) rows ≡ some saga
IsTracked-found id saga rows own h =
    IsOwned-found (λ s. s.id) (λ s. s.correlation_id) id saga rows own h

pub insert-IsTracked :
    (id : UniqueId) (saga saga' : Saga) (rows : Dict Saga)
    → saga'.id ≡ saga.id
    → IsTracked id saga rows
    → IsTracked id saga' (insert saga'.id saga' rows)
insert-IsTracked id saga saga' rows same h =
    insert-IsOwned (λ s. s.id) (λ s. s.correlation_id) id saga saga' rows same h
