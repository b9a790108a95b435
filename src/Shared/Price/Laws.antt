-- ===== src/Shared/Price/Laws.antt =====
-- A price that was created has a normal currency, so creating, adding and subtracting agree.
use shopping_cart.Prelude.{
  if◌then◌else◌, ap, ◌∙◌, ◌*◌, ◌≤◌, ℕ, ◌≡◌, refl, Bool, true, false, ◌&&◌, Option, none, some, [],
  ◌∷◌, map, pos, ok, err, currency_mismatch, ◌≢◌, arith, >>=-eq-ok,
}
use shopping_cart.Shared.Double.{exponents, plus, times}
use shopping_cart.Shared.Double.Exact.{IsUnits, IsBelow, times-IsUnits}
use shopping_cart.Shared.Text.{Text, is_upper, upper, space_of_upper, upper_of_upper}
use shopping_cart.Shared.Price.{
  Input, scale, number, Price, is_code, validate_amount, validate_currency, create, same_text, add,
  subtract,
}

-- Three capital letters.
abbrev pub is_normal_code : Text → Bool
is_normal_code (a ∷ b ∷ c ∷ []) = is_upper a && is_upper b && is_upper c
is_normal_code _ = false

abbrev pub IsNormal : Price → Type 0
IsNormal p = is_normal_code p.currency ≡ true

upper_code : (c : Text) → is_code c ≡ true → is_normal_code (map upper c) ≡ true
upper_code (a ∷ b ∷ c ∷ []) h = ground arith
upper_code [] h = cc
upper_code (a ∷ []) h = cc
upper_code (a ∷ b ∷ []) h = cc
upper_code (a ∷ b ∷ c ∷ d ∷ s) h = cc

-- A normal code is a code, and neither trimming nor upper case changes it.
pub validate_currency_of_normal :
    (c : Text) → is_normal_code c ≡ true → (validate_currency (some c) ≡ ok c) × (map upper c ≡ c)
unfolding validate_currency
validate_currency_of_normal (a ∷ b ∷ c ∷ []) h = (
  ground (arith, space_of_upper a, space_of_upper b, space_of_upper c),
  ground (arith, upper_of_upper a, upper_of_upper b, upper_of_upper c),
)
validate_currency_of_normal [] h = cc
validate_currency_of_normal (a ∷ []) h = cc
validate_currency_of_normal (a ∷ b ∷ []) h = cc
validate_currency_of_normal (a ∷ b ∷ c ∷ d ∷ s) h = cc

pub same_text_refl : (s : Text) → same_text s s ≡ true
same_text_refl [] = refl
same_text_refl (c ∷ s) = ground (arith, same_text_refl s)

pub create_of_normal :
    (n : ℕ) (c : Text)
    → is_normal_code c ≡ true
    → create (number (pos n)) (some c) ≡ ok (record { amount = n; currency = c })
unfolding create
create_of_normal n c h = ground (arith, validate_currency_of_normal c h)

code_of_validated : (c : Option Text) {t : Text} → validate_currency c ≡ ok t → is_code t ≡ true
unfolding validate_currency
code_of_validated none h = cc
code_of_validated (some c) h = ground arith

-- Whatever `create` accepts has a code of three capital letters, and is created again unchanged
-- from its own amount and currency.
pub create-IsNormal :
    (amount : Input) (currency : Option Text) (p : Price)
    → create amount currency ≡ ok p
    → IsNormal p × (create (number (pos p.amount)) (some p.currency) ≡ ok p)
unfolding create
create-IsNormal amount currency p h =
    let (n, _, h') = >>=-eq-ok _ (validate_amount amount) h in
    let (c, e, made) = >>=-eq-ok _ (validate_currency currency) h' in
    let code = upper_code c (code_of_validated currency e) in
    let normal : IsNormal p = ground arith in (normal, create_of_normal p.amount p.currency normal)

-- Two prices in one normal currency have a sum.
pub add-same :
    (p q : Price)
    → IsNormal p
    → p.currency ≡ q.currency
    → add p q ≡ ok (record p { amount = plus p.amount q.amount })
unfolding add
add-same p q h same = rw (← same) (
    ground
      (arith, same_text_refl p.currency, create_of_normal (plus p.amount q.amount) p.currency h))

pub same_text-eq : (s t : Text) → same_text s t ≡ true → s ≡ t
same_text-eq [] [] h = refl
same_text-eq [] (b ∷ t) h = cc
same_text-eq (a ∷ s) [] h = cc
same_text-eq (a ∷ s) (b ∷ t) h = ground (arith, same_text-eq s t)

-- Prices in two currencies are neither added nor subtracted.
pub add_mismatch :
    (p q : Price)
    → p.currency ≢ q.currency
    → (add p q ≡ err currency_mismatch) × (subtract p q ≡ err currency_mismatch)
unfolding add subtract
add_mismatch p q h =
    let differ : same_text p.currency q.currency ≡ false =
      ground (arith, same_text-eq p.currency q.currency) in
    (rw differ, rw differ)

-- A price of whole units, with a multiple that stays below the range in which they are exact, is
-- multiplied exactly.
pub scale_units :
    (e a q : ℕ)
    → e ≤ exponents
    → IsUnits e a
    → IsBelow e a
    → IsBelow e (a * q)
    → scale a (pos q) ≡ number (pos (a * q))
unfolding scale
scale_units e a q h units finite less =
    let (_, exact, finite') = times-IsUnits e a q h units finite less in
    ap (λ b. if b then Input.nan else number (pos (times a q))) finite'
    ∙ ap (λ n. number (pos n)) exact
