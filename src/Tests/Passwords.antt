-- ===== src/Tests/Passwords.antt =====
-- Passwords at concrete texts.
use shopping_cart.Prelude.{◌≡◌, refl, ok, err, [], ◌∷◌, password_letters, password_too_short}
use shopping_cart.Shared.Text.{Text}
use shopping_cart.Password.{validate}

abbrev harvest : Text
harvest = b'H' ∷ b'a' ∷ b'r' ∷ b'v' ∷ b'e' ∷ b's' ∷ b't' ∷ b'7' ∷ []

accepted : validate harvest ≡ ok tt
unfolding validate
accepted = refl

-- A line end is refused with the exception for missing letters.
with_line_end : validate (10 ∷ harvest) ≡ err password_letters
unfolding validate
with_line_end = refl

too_short : validate (b'H' ∷ b'a' ∷ b'7' ∷ []) ≡ err password_too_short
unfolding validate
too_short = refl
