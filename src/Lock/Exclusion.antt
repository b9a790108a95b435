-- ===== src/Lock/Exclusion.antt =====
-- A lock has one holder at a time.
use shopping_cart.Prelude.{
  ℕ, ◌+◌, ◌<◌, ◌≡◌, ◌≢◌, refl, Bool, true, false, none, some, List, [], ◌∷◌, lookup, insert,
  lookup-insert_self, lookup-insert_ne, ℕ_discrete, Bool-cases, ◌⊎◌, ◌==◌, arith, Option-cases, inl,
  inr, if◌then◌else◌, ap, ◌∙◌,
}
use shopping_cart.Shared.UniqueId.{UniqueId}
use shopping_cart.Lock.{Held, Locks, get, set_if_free, set_nx, release, is_holder}

-- What a client asks of the lock service, and when.
pub data Request : Type 0 where
  acquires : UniqueId → UniqueId → ℕ → Request
  releases : UniqueId → UniqueId → Request

abbrev pub step : Request → ℕ → Locks → Locks
step (acquires key id timeout) now locks = (set_nx key id timeout now locks).1
step (releases key id) now locks = (release key id now locks).1

abbrev pub run : List (ℕ × Request) → Locks → Locks
run [] locks = locks
run ((now, r) ∷ rest) locks = run rest (step r now locks)

-- The request is not a release by the holder of the key.
abbrev pub IsForeign : UniqueId → UniqueId → Request → Type 0
IsForeign key id (acquires k j timeout) = Unit
IsForeign key id (releases k j) = (k ≢ key) ⊎ (j ≢ id)

-- Every request comes before the time, and none is a release by the holder.
abbrev pub AllForeign : UniqueId → UniqueId → ℕ → List (ℕ × Request) → Type 0
AllForeign key id until [] = Unit
AllForeign key id until ((now, r) ∷ rest) =
    (now < until) × IsForeign key id r × AllForeign key id until rest

held-get :
    (key now : ℕ) (held : Held) (locks : Locks)
    → lookup key locks ≡ some (some held)
    → now < held.expires
    → get key now locks ≡ some held.holder
held-get key now held locks there soon = rw there (ground arith)

step_held :
    (key now : ℕ) (held : Held) (r : Request) (locks : Locks)
    → lookup key locks ≡ some (some held)
    → now < held.expires
    → IsForeign key held.holder r
    → lookup key (step r now locks) ≡ some (some held)
unfolding set_nx release
step_held key now held (acquires k j timeout) locks there soon foreign = elim (ℕ_discrete k key) [
  | yes same ↦
      let got : get k now locks ≡ some held.holder =
        rw same (held-get key now held locks there soon) in
      ap (λ o. lookup key (set_if_free o k j timeout now locks).1) got ∙ there
  | no apart ↦ elim (Option-cases (get k now locks)) [
    | inl free ↦
        ap (λ o. lookup key (set_if_free o k j timeout now locks).1) free
        ∙ lookup-insert_ne k key (some (record { holder = j; expires = now + timeout })) locks apart
        ∙ there
    | inr (i, taken) ↦ ap (λ o. lookup key (set_if_free o k j timeout now locks).1) taken ∙ there
  ]
]
step_held key now held (releases k j) locks there soon foreign =
    let got = held-get key now held locks there soon in
    elim (ℕ_discrete k key) [
      | yes same ↦
          let got' : get k now locks ≡ some held.holder = rw same got in
          let differs : (held.holder == j) ≡ false = ground arith in
          ap
            (λ o.
              lookup key
                (if◌then◌else◌ {A = Bool × Locks} o (true, insert k none locks) (false, locks)).1)
            (ap (λ o. is_holder o j) got' ∙ differs)
          ∙ there
      | no apart ↦ elim (Bool-cases (is_holder (get k now locks) j)) [
        | inl mine ↦
            ap
              (λ o.
                lookup key
                  (if◌then◌else◌ {A = Bool × Locks} o (true, insert k none locks) (false, locks)).1)
              mine
            ∙ lookup-insert_ne k key none locks apart
            ∙ there
        | inr not_mine ↦
            ap
              (λ o.
                lookup key
                  (if◌then◌else◌ {A = Bool × Locks} o (true, insert k none locks) (false, locks)).1)
              not_mine
            ∙ there
      ]
    ]

-- A lock that is held stays with its holder until it expires or the holder releases it, whatever
-- other clients ask in between; and until then nobody else gets it.
pub run_held :
    (key : UniqueId) (held : Held) (requests : List (ℕ × Request)) (locks : Locks)
    (other timeout now : ℕ)
    → lookup key locks ≡ some (some held)
    → AllForeign key held.holder held.expires requests
    → now < held.expires
    → (get key now (run requests locks) ≡ some held.holder)
      × ((set_nx key other timeout now (run requests locks)).0 ≡ false)
unfolding set_nx
run_held key held [] locks other timeout now there foreign soon =
    let got = held-get key now held locks there soon in (got, rw got refl)
run_held key held ((at, r) ∷ rest) locks other timeout now there (early, apart, foreign) soon =
    run_held key held rest (step r at locks) other timeout now
      (step_held key at held r locks there early apart) foreign soon

-- A free lock is granted, to its new holder for the time asked; and only the holder's release frees
-- it.
pub set_nx-release :
    (key id other timeout now later : ℕ) (locks : Locks)
    → get key now locks ≡ none
    → later < now + timeout
    → let (granted, locks') = set_nx key id timeout now locks in
      (granted ≡ true)
      × (get key later locks' ≡ some id)
      × (release key other later locks'
          ≡ (if id == other then (true, insert key none locks') else (false, locks')))
unfolding set_nx release
set_nx-release key id other timeout now later locks free soon =
    let held : Held = record { holder = id; expires = now + timeout } in
    let there = lookup-insert_self key (some held) locks in
    rw free (
      refl,
      held-get key later held (insert key (some held) locks) there soon,
      rw (held-get key later held (insert key (some held) locks) there soon) refl,
    )
