-- ===== src/Cache/Conservation.antt =====
-- No overselling: whatever reservations and compensations arrive, in whatever order.
use shopping_cart.Prelude.{
  ℕ, ◌+◌, ◌≡◌, ◌≢◌, refl, none, some, List, [], ◌∷◌, lookup, insert, lookup-insert, if◌then◌else◌,
  ◌==◌, ℤ, pos, negsuc, ◌+ℤ◌, ◌-ℤ◌, ltb_ℤ, int_laws, arith, or_else, Option-cases, ℕ_discrete,
  dec_lt, subst, ◌-◌, ◌<◌, ap, ◌∙◌, lookup-insert_self, inl, inr,
}
use shopping_cart.Shared.UniqueId.{UniqueId}
use shopping_cart.Shared.Quantity.{Quantity}
use shopping_cart.Cache.{Stock, reserve_found, reserve_inventory, compensate_inventory}

pub data Request : Type 0 where
  reserves compensates : UniqueId → Quantity → Request

-- The level of a key; a missing key counts as 0.
abbrev pub level : UniqueId → Stock → ℤ
level p stock = or_else (lookup p stock) (pos 0)

abbrev pub step : Request → Stock → Stock
step (reserves p q) stock = (reserve_inventory p q stock).1
step (compensates p q) stock = compensate_inventory p q stock

-- What a request takes from the stock of a product: a reservation that answers below 0 takes
-- nothing.
abbrev pub taken : Request → UniqueId → Stock → ℕ
taken (reserves p q) j stock =
    if p == j then (if ltb_ℤ (reserve_inventory p q stock).0 (pos 0) then 0 else q) else 0
taken (compensates p q) j stock = 0

abbrev pub returned : Request → UniqueId → ℕ
returned (reserves p q) j = 0
returned (compensates p q) j = if p == j then q else 0

abbrev pub run : List Request → Stock → Stock
run [] stock = stock
run (r ∷ rs) stock = run rs (step r stock)

abbrev pub total_taken : List Request → UniqueId → Stock → ℕ
total_taken [] j stock = 0
total_taken (r ∷ rs) j stock = taken r j stock + total_taken rs j (step r stock)

abbrev pub total_returned : List Request → UniqueId → ℕ
total_returned [] j = 0
total_returned (r ∷ rs) j = returned r j + total_returned rs j

-- A reservation that fits lowers the level of its key; any other leaves the stock.
pub reserve_fits :
    (p : UniqueId) (q n : ℕ) (stock : Stock)
    → lookup p stock ≡ some (pos (n + q))
    → reserve_inventory p q stock ≡ (pos n, insert p (pos n) stock)
unfolding reserve_inventory
reserve_fits p q n stock h =
    let left : pos (n + q) -ℤ pos q ≡ pos n = omega int_laws in
    rw (h, reserve_found) (rw left (ground arith))

pub reserve_short :
    (p : UniqueId) (q n : ℕ) (stock : Stock)
    → lookup p stock ≡ some (pos n)
    → n < q
    → reserve_inventory p q stock ≡ (negsuc 0, stock)
unfolding reserve_inventory
reserve_short p q n stock h short = rw (h, reserve_found) (ground arith)

pub reserve_missing :
    (p : UniqueId) (q : ℕ) (stock : Stock)
    → lookup p stock ≡ none
    → reserve_inventory p q stock ≡ (negsuc 0, stock)
unfolding reserve_inventory
reserve_missing p q stock h = rw (h, reserve_found)

pub compensate-insert :
    (p : UniqueId) (q n : ℕ) (stock : Stock)
    → level p stock ≡ pos n
    → compensate_inventory p q stock ≡ insert p (pos (n + q)) stock
unfolding compensate_inventory
compensate-insert p q n stock h =
    let raised : level p stock +ℤ pos q ≡ pos (n + q) = rw h (omega int_laws) in rw raised

reserve_other :
    (p j : UniqueId) (q : ℕ) (stock : Stock)
    → p ≢ j
    → level j (reserve_inventory p q stock).1 ≡ level j stock
unfolding reserve_inventory
reserve_other p j q stock ne = elim (Option-cases (lookup p stock)) [
  | inl e ↦ rw (e, reserve_found)
  | inr (n, e) ↦ rw (e, reserve_found) (ground (arith, lookup-insert p j (n -ℤ pos q) stock))
]

compensate_other :
    (p j : UniqueId) (q : ℕ) (stock : Stock)
    → p ≢ j
    → level j (compensate_inventory p q stock) ≡ level j stock
unfolding compensate_inventory
compensate_other p j q stock ne = ground (arith, lookup-insert p j (level p stock +ℤ pos q) stock)

reserve_level :
    (p : UniqueId) (q n : ℕ) (stock : Stock)
    → level p stock ≡ pos n
    → (m : ℕ) × (level p (reserve_inventory p q stock).1 ≡ pos m)
      × (m + taken (reserves p q) p stock ≡ n)
reserve_level p q n stock h = elim (Option-cases (lookup p stock)) [
  | inl e ↦ let r = reserve_missing p q stock e in (n, rw r h, rw r (ground arith))
  | inr (k, e) ↦
      let e' : lookup p stock ≡ some (pos n) = ground arith in
      elim (dec_lt n q) [
        | yes short ↦ let r = reserve_short p q n stock e' short in (n, rw r h, rw r (ground arith))
        | no fits ↦
            let split : n ≡ n - q + q = omega arith in
            let r = reserve_fits p q (n - q) stock (e' ∙ ap (λ x. some (pos x)) split) in
            (n - q, rw r (rw (lookup-insert_self p (pos (n - q)) stock)), rw r (ground arith))
      ]
]

-- One request: the level stays at or above 0, and moves by what is taken or returned.
pub step-level :
    (r : Request) (j : UniqueId) (n : ℕ) (stock : Stock)
    → level j stock ≡ pos n
    → (m : ℕ) × (level j (step r stock) ≡ pos m) × (m + taken r j stock ≡ n + returned r j)
step-level (reserves p q) j n stock h = elim (ℕ_discrete p j) [
  | yes same ↦
      subst
        (λ k.
          (m : ℕ) × (level k (step (reserves p q) stock) ≡ pos m)
          × (m + taken (reserves p q) k stock ≡ n + 0))
        same (let (m, l, t) = reserve_level p q n stock (rw same h) in (m, l, omega (arith, t)))
  | no other ↦ (n, reserve_other p j q stock other ∙ h, ground arith)
]
step-level (compensates p q) j n stock h = elim (ℕ_discrete p j) [
  | yes same ↦ (
    n + q,
    rw (compensate-insert p q n stock (rw same h))
        (ground (arith, lookup-insert p j (pos (n + q)) stock)),
    ground arith,
  )
  | no other ↦ (n, compensate_other p j q stock other ∙ h, ground arith)
]

-- Whatever reservations and compensations arrive, in whatever order, and whoever sent them: the
-- level of a product never falls below 0, and it is the initial level less what the successful
-- reservations took, plus what was returned. So no more is ever reserved than was there or came
-- back.
pub run-level :
    (rs : List Request) (j : UniqueId) (n : ℕ) (stock : Stock)
    → level j stock ≡ pos n
    → (m : ℕ) × (level j (run rs stock) ≡ pos m)
      × (m + total_taken rs j stock ≡ n + total_returned rs j)
run-level [] j n stock h = (n, h, refl)
run-level (r ∷ rs) j n stock h =
    let (k, l, t) = step-level r j n stock h in
    let (m, l', t') = run-level rs j k (step r stock) l in (m, l', omega (arith, t, t'))
