-- ===== src/Tests/Locks.antt =====
-- The attempts for a lock at a concrete store.
use shopping_cart.Prelude.{ℕ, some, [], ◌∷◌, arith}
use shopping_cart.Lock.{Locks, acquire}
use shopping_cart.Lock.Attempts.{IsAnswered, free_from, acquire-IsAnswered}

-- Another client holds the key for a while.
abbrev held_by_other : Locks
held_by_other = (7, some (record { holder = 2; expires = 150 })) ∷ []

abbrev exactly : ℕ → ℕ → ℕ
exactly attempt delay = delay

abbrev nobody_else : ℕ → ℕ → Locks → Locks
nobody_else attempt now locks = locks

acquire-IsAnswered_example :
    IsAnswered 2 5000 exactly nobody_else 7 1 1000
      (free_from 2 5000 exactly nobody_else 7 1 1000 3 0 100 0 held_by_other)
      (acquire 2 5000 exactly nobody_else 7 1 1000 3 100 0 held_by_other)
acquire-IsAnswered_example =
    acquire-IsAnswered 2 5000 exactly nobody_else 7 1 1000 3 100 0 held_by_other (omega arith)
