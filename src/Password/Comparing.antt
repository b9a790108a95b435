-- ===== src/Password/Comparing.antt =====
-- A new password against the text that it is made of.
use shopping_cart.Prelude.{
  ℕ, ◌≡◌, ap, ◌∙◌, Bool, true, false, ◌≤◌, length, is_empty, Result, ok, arith, >>=-eq-ok, >>-eq-ok,
  if◌then◌else◌,
}
use shopping_cart.Shared.Text.{Text}
use shopping_cart.Password.{Password, is_strong, validate, create, compare}

-- A text that is accepted has eight code units at least, one of them a small letter, one a capital
-- letter and one a digit, and no line ends in it.
pub validate-IsStrong :
    (candidate : Text)
    → validate candidate ≡ ok tt
    → (is_empty candidate ≡ false) × (8 ≤ length candidate) × (is_strong candidate ≡ true)
unfolding validate
validate-IsStrong candidate accepted = ground arith

-- Where bcrypt recognises the text that a hash is made of: the password that is made of a text
-- compares equal to the text.
pub create-compare :
    (hash : Text → ℕ → Result Text) (compare_hash : Text → Text → Result Bool)
    → ((s h : Text) (rounds : ℕ) → hash s rounds ≡ ok h → compare_hash s h ≡ ok true)
    → (candidate : Text) (p : Password) → create hash candidate ≡ ok p
    → compare compare_hash p candidate ≡ ok true
unfolding create compare
create-compare hash compare_hash recognises candidate p created =
    let (accepted, hashed) = >>-eq-ok (validate candidate) _ created in
    let (h, hashes, made) = >>=-eq-ok _ (hash candidate 10) hashed in
    let (given, _, _) = validate-IsStrong candidate accepted in
    ap (λ b. if b then ok false else compare_hash candidate p.hashed_value) given
    ∙ recognises candidate p.hashed_value 10 (hashes ∙ cc)
