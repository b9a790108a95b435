-- ===== src/Store/Monad.antt =====
-- A step of a handler: it returns or throws, and either way the world goes on.
use shopping_cart.Prelude.{
  ◌≡◌, ap, Option, none, some, List, [], ◌∷◌, ◌++◌, Exception, Result, ok, err, outage,
  if◌then◌else◌,
}
use shopping_cart.Event.{Event}
use shopping_cart.Store.State.{World}

abbrev pub Action {ℓ} : Type ℓ → Type ℓ
Action A = World → Result A × World

module _ {ℓ} {A : Type ℓ} where
  abbrev pub pure : A → Action A
  pure a w = (ok a, w)

  abbrev pub throw : Exception → Action A
  throw e w = (err e, w)

  -- an aggregate's method, which returns or throws
  abbrev pub lift : Result A → Action A
  lift r w = (r, w)

  abbrev pub gets : (World → A) → Action A
  gets f w = (ok (f w), w)

  -- `if (!found) throw e;`
  abbrev pub found_or_throw : Option A → Exception → Action A
  found_or_throw none e = throw e
  found_or_throw (some a) e = pure a

module _ {ℓ κ} {A : Type ℓ} {B : Type κ} where
  infixl 5 ◌>>=◌
  -- a step, and what its value leads to unless it threw
  abbrev pub ◌>>=◌ : Action A → (A → Action B) → Action B
  ◌>>=◌ step next w = let (r, w') = step w in elim r [ ok a ↦ next a w' | err e ↦ (err e, w') ]

infixl 5 ◌>>◌
abbrev pub ◌>>◌ {κ} : {B : Type κ} → Action (Unit {0}) → Action B → Action B
step >> next = step >>= λ _. next

abbrev pub modify : (World → World) → Action (Unit {0})
modify f w = (ok tt, f w)

-- One call of the outside world: it takes an entry of the faults, and throws if that says so.
abbrev pub call : Action (Unit {0})
call w = elim w.faults [
  | [] ↦ (ok tt, w)
  | fault ∷ rest ↦ (if fault then err outage else ok tt, record w { faults = rest })
]

-- `eventBus.publish(event)`
abbrev pub publish : Event → Action (Unit {0})
publish event = modify λ w. record w { bus = w.bus ++ event ∷ [] }

-- `aggregate.commit()`: its events are published
abbrev pub commit : List Event → Action (Unit {0})
commit events = modify λ w. record w { bus = w.bus ++ events }

-- What follows a step that returned.
pub bind_ok {ℓ κ} :
    {A : Type ℓ} {B : Type κ} (m : Action A) (f : A → Action B) {a : A} {w w' : World}
    → m w ≡ (ok a, w')
    → (m >>= f) w ≡ f a w'
bind_ok m f h = ap (λ o. elim o.0 [ ok a ↦ f a o.1 | err e ↦ (err e, o.1) ]) h
