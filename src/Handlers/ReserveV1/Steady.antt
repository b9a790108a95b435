-- ===== src/Handlers/ReserveV1/Steady.antt =====
-- The work of the first version of the reservation leaves its transaction open.
use shopping_cart.Prelude.{
  ℕ, ◌≡◌, refl, ◌∙◌, Option, none, some, [], ◌∷◌, List, map, Dict, lookup, Bool-cases, inl, inr,
  Result, ok, err, arith, length, saga_not_found,
}
use shopping_cart.Shared.UniqueId.{UniqueId}
use shopping_cart.Shared.Version.{Version}
use shopping_cart.Event.{ProductLine}
use shopping_cart.Inventory.{Inventory}
use shopping_cart.Saga.{Saga, advance_step}
use shopping_cart.Store.{Action, World, ◌>>=◌, find_saga, persist_saga, found_or_throw, lift}
use shopping_cart.UnitOfWork.{IsSteady}
use shopping_cart.Handlers.Versions.{
  sum_results, find_all_by_product_id, update_with_version, updates, persist_many_with_version,
  all_versioned,
}
use shopping_cart.Handlers.ReserveV1.{conclude, reserve_work, take_lines}

bind-IsSteady :
    {A B : Type 0} (m : Action A) (f : A → Action B)
    → IsSteady m
    → ((a : A) → IsSteady (f a))
    → IsSteady (m >>= f)
bind-IsSteady {A} {B} m f steady next w = after (m w) (steady w)
  where
    after :
        (o : Result A × World)
        → o.1.transaction ≡ w.transaction
        → (elim o.0 as (λ r. Result B × World) [
          | ok a ↦ f a o.1
          | err e ↦ (err e, o.1)
        ]).1.transaction
          ≡ w.transaction
    after (ok a, v) h = next a v ∙ h
    after (err e, v) h = h

found_or_throw-IsSteady : (found : Option Saga) → IsSteady (found_or_throw found saga_not_found)
found_or_throw-IsSteady none w = refl
found_or_throw-IsSteady (some saga) w = refl

find_saga-IsSteady : (id : UniqueId) → IsSteady (find_saga id)
unfolding find_saga
find_saga-IsSteady id w = ground arith

find_all-IsSteady : (ids : List UniqueId) → IsSteady (find_all_by_product_id ids)
unfolding find_all_by_product_id
find_all-IsSteady ids w = ground arith

update-IsSteady :
    (entity : Inventory) (origin : Version) → IsSteady (update_with_version entity origin)
unfolding update_with_version
update-IsSteady entity origin w = ground arith

updates-IsSteady :
    (versions : Dict Version) (entities : List Inventory) → IsSteady (updates versions entities)
unfolding updates
updates-IsSteady versions [] w = refl
updates-IsSteady versions (entity ∷ rest) w =
    after (lookup entity.id versions) (updates-IsSteady versions rest)
  where
    after :
        (o : Option Version)
        → IsSteady (updates versions rest)
        → (elim o as (λ o. Result ℕ × World) [
          | none ↦ (ok 0, w)
          | some origin ↦
              let (r, w') = update_with_version entity origin w in
              let (rs, w'') = updates versions rest w' in (sum_results r rs, w'')
        ]).1.transaction
          ≡ w.transaction
    after none steady = refl
    after (some origin) steady =
        steady (update_with_version entity origin w).1 ∙ update-IsSteady entity origin w

persist_many-IsSteady :
    (entities : List Inventory) (versions : Dict Version)
    → IsSteady (persist_many_with_version entities versions)
unfolding persist_many_with_version
persist_many-IsSteady entities versions w = elim (Bool-cases (all_versioned versions entities)) [
  | inl all ↦ rw all (updates-IsSteady versions entities w)
  | inr some' ↦ rw some' (updates-IsSteady versions entities w)
]

conclude-IsSteady :
    (id : UniqueId) (now : ℕ) (saga : Saga) (wanted updated : ℕ)
    → IsSteady (conclude id now saga wanted updated)
unfolding conclude persist_saga advance_step
conclude-IsSteady id now saga wanted updated w = ground arith

pub reserve_work-IsSteady :
    (id : UniqueId) (lines : List ProductLine) (now : ℕ) → IsSteady (reserve_work id lines now)
unfolding reserve_work
reserve_work-IsSteady id lines now =
    let last : Saga → List Inventory → ℕ → Action (Unit {0}) =
      λ saga inventories updated. conclude id now saga (length inventories) updated in
    let write : Saga → List Inventory → List Inventory × Dict Version → Action (Unit {0}) =
      λ saga inventories taken.
        persist_many_with_version taken.0 taken.1 >>= last saga inventories in
    let take : Saga → List Inventory → Action (Unit {0}) =
      λ saga inventories. lift (take_lines lines inventories []) >>= write saga inventories in
    let read : Saga → Action (Unit {0}) =
      λ saga. find_all_by_product_id (map (λ line. line.product_id) lines) >>= take saga in
    let check : Option Saga → Action (Unit {0}) =
      λ found. found_or_throw found saga_not_found >>= read in
    bind-IsSteady (find_saga id) check (find_saga-IsSteady id) (λ found.
      bind-IsSteady (found_or_throw found saga_not_found) read (found_or_throw-IsSteady found)
        (λ saga.
          bind-IsSteady (find_all_by_product_id (map (λ line. line.product_id) lines)) (take saga)
            (find_all-IsSteady _)
            (λ inventories.
              bind-IsSteady (lift (take_lines lines inventories [])) (write saga inventories)
                (λ w. refl)
                (λ taken.
                  bind-IsSteady (persist_many_with_version taken.0 taken.1) (last saga inventories)
                    (persist_many-IsSteady taken.0 taken.1)
                    (λ updated. conclude-IsSteady id now saga (length inventories) updated)))))
