-- ===== src/Shared/Version.antt =====
-- version.vo.ts
use shopping_cart.Prelude.{
  ℕ, ◌+◌, Bool, false, Option, none, some, ltb, ◌==◌, ℤ, pos, negsuc, Result, ok, err,
  negative_version,
}

abbrev pub Version : Type 0
Version = ℕ

abbrev pub create : ℤ → Result Version
create (negsuc n) = err negative_version
create (pos n) = ok n

abbrev pub initial : Version
initial = 1

abbrev pub next : Version → Version
next v = v + 1

abbrev pub equals : Version → Option Version → Bool
equals v none = false
equals v (some w) = v == w

abbrev pub is_greater_than : Version → Version → Bool
is_greater_than v w = ltb w v

abbrev pub is_less_than : Version → Version → Bool
is_less_than v w = ltb v w
