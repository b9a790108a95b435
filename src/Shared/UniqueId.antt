-- ===== src/Shared/UniqueId.antt =====
-- unique-entity-id.vo.ts. Ids are only compared, printed and used as keys, so they are numbers.
-- `v7()` is the caller's argument.
use shopping_cart.Prelude.{ℕ, Bool, Option, none, some, ◌==◌, false}

abbrev pub UniqueId : Type 0
UniqueId = ℕ

-- `id || v7()`
abbrev pub create : Option UniqueId → ℕ → UniqueId
create none v7 = v7
create (some id) v7 = id

abbrev pub equals : UniqueId → Option UniqueId → Bool
equals a none = false
equals a (some b) = b == a
