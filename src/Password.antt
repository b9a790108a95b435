-- ===== src/Password.antt =====
-- The password of a user (server/src/core/domain/user/value-object/password.vo.ts).
pub mod Comparing
use shopping_cart.Prelude.{
  ℕ, ◌≡◌, Bool, Option, none, some, true, false, not, ◌&&◌, ◌||◌, [], ◌∷◌, length, is_empty, leb,
  ltb, ◌==◌, if◌then◌else◌, Result, ok, err, ◌>>=◌, ◌>>◌, throw_if, hash_empty, password_empty,
  password_too_short, password_letters,
}
use shopping_cart.Shared.Text.{Text, is_upper, is_lower}
use shopping_cart.Shared.Price.{same_text}

-- `Password`, which is its hashed value
pub record Password : Type 0 where
  pub hashed_value : Text

abbrev pub any_of : (ℕ → Bool) → Text → Bool
any_of test [] = false
any_of test (c ∷ s) = test c || any_of test s

-- what `\d` and, when not, `.` stand for
abbrev pub is_decimal : ℕ → Bool
is_decimal c = leb b'0' c && leb c b'9'

abbrev pub ends_line : ℕ → Bool
ends_line c = c == 10 || c == 13 || c == 0x2028 || c == 0x2029

-- `/^(?=.*[a-z])(?=.*[A-Z])(?=.*\d).+$/`: with no line end in the text, each `.*` may reach any
-- place of it.
unfoldable pub is_strong : Text → Bool
is_strong s =
    not (is_empty s)
    && not (any_of ends_line s)
    && any_of is_lower s
    && any_of is_upper s
    && any_of is_decimal s

abbrev pub min_length : ℕ
min_length = 8

abbrev pub salt_rounds : ℕ
salt_rounds = 10

unfoldable pub validate : Text → Result (Unit {0})
unfolding is_strong
validate candidate = do
  throw_if (is_empty candidate) password_empty
  throw_if (ltb (length candidate) min_length) password_too_short
  throw_if (not (is_strong candidate)) password_letters
  ok tt

unfoldable pub create_from_hash : Text → Result Password
create_from_hash hash = do throw_if (is_empty hash) hash_empty; ok (record { hashed_value = hash })

unfoldable pub equals : Password → Option Password → Bool
equals p none = false
equals p (some other) = same_text p.hashed_value other.hashed_value

-- `bcrypt.hash` and `bcrypt.compare` are arguments.
unfoldable pub create : (Text → ℕ → Result Text) → Text → Result Password
unfolding validate
create hash candidate = do
  validate candidate
  hashed ← hash candidate salt_rounds
  ok (record { hashed_value = hashed })

unfoldable pub compare : (Text → Text → Result Bool) → Password → Text → Result Bool
compare compare_hash p candidate =
    if is_empty candidate then ok false else compare_hash candidate p.hashed_value
