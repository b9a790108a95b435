-- ===== src/Handlers/Control.antt =====
-- `try`/`catch` and `Promise.all` over actions.
use shopping_cart.Prelude.{List, [], ◌∷◌, Exception, Result, ok, err}
use shopping_cart.Store.{Action, pure, ◌>>◌}

-- `try { body } catch (error) { handler(error) }`
abbrev pub try_catch {ℓ} : {A : Type ℓ} → Action A → (Exception → Action A) → Action A
try_catch body handler w =
    let (r, w') = body w in elim r [ ok a ↦ (ok a, w') | err e ↦ handler e w' ]

-- The first error of two.
abbrev pub first_error : Result (Unit {0}) → Result (Unit {0}) → Result (Unit {0})
first_error (ok _) r = r
first_error (err e) r = err e

-- `Promise.all(tasks)`: all tasks are started, also when one of them fails.
unfoldable pub promise_all : List (Action (Unit {0})) → Action (Unit {0})
promise_all [] w = (ok tt, w)
promise_all (task ∷ tasks) w =
    let (r, w') = task w in let (rs, w'') = promise_all tasks w' in (first_error r rs, w'')

-- `for (const a of items) await body(a)`: an error ends the loop.
unfoldable pub for_each {ℓ} : {A : Type ℓ} → (A → Action (Unit {0})) → List A → Action (Unit {0})
for_each body [] = pure tt
for_each body (a ∷ items) = body a >> for_each body items
