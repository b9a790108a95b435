-- ===== src/Tests/Codec.antt =====
-- A text for each JSON value, as test data: tokens in postfix order that a stack reads back.
use shopping_cart.Prelude.{
  ℕ, ◌+◌, ◌*◌, ◌/◌, ◌%◌, ◌≡◌, refl, ap, ◌∙◌, false, Option, none, some, List, [], ◌∷◌, ◌++◌, pos,
  negsuc, is_empty, arith, ◌==◌, if◌then◌else◌,
}
use shopping_cart.Shared.Text.{Text}
use shopping_cart.Query.Cursor.{Json, null, number, text, object, Members, empty, member}

add_letter : ℕ → List Json → List Json
add_letter c (text t ∷ stack) = text (c ∷ t) ∷ stack
add_letter c stack = stack

add_member : List Json → List Json
add_member (v ∷ text key ∷ object members ∷ stack) = object (member key v members) ∷ stack
add_member stack = stack

push : ℕ → List Json → List Json
unfolding add_letter add_member
push t stack =
    if t % 8 == 0
    then null ∷ stack
    else if t % 8 == 1
    then number (pos (t / 8)) ∷ stack
    else if t % 8 == 2
    then number (negsuc (t / 8)) ∷ stack
    else if t % 8 == 3
    then text [] ∷ stack
    else if t % 8 == 4
    then add_letter (t / 8) stack
    else if t % 8 == 5
    then object empty ∷ stack
    else add_member stack

read : Text → List Json → List Json
unfolding push
read [] stack = stack
read (t ∷ ts) stack = read ts (push t stack)

write_text : Text → Text
write_text [] = 3 ∷ []
write_text (c ∷ t) = write_text t ++ (8 * c + 4) ∷ []

mutual
  unfolding write_text

  write : Json → Text
  write null = 0 ∷ []
  write (number (pos n)) = (8 * n + 1) ∷ []
  write (number (negsuc n)) = (8 * n + 2) ∷ []
  write (text t) = write_text t
  write (object members) = write_members members

  write_members : Members → Text
  write_members empty = 5 ∷ []
  write_members (member key v rest) = write_members rest ++ (write_text key ++ (write v ++ 6 ∷ []))

-- The text of a value, and the value of a text.
unfoldable pub pack : Json → Text
unfolding write
pack v = 7 ∷ write v

unfoldable pub unpack : Text → Option Json
unfolding read
unpack [] = none
unpack (t ∷ ts) = elim (read ts []) [ [] ↦ none | v ∷ rest ↦ some v ]

read-append : (xs ys : Text) (stack : List Json) → read (xs ++ ys) stack ≡ read ys (read xs stack)
unfolding read
read-append [] ys stack = refl
read-append (x ∷ xs) ys stack = read-append xs ys (push x stack)

read_text : (t : Text) (stack : List Json) → read (write_text t) stack ≡ text t ∷ stack
unfolding read write_text push
read_text [] stack = refl
read_text (c ∷ t) stack =
    let tag : (8 * c + 4) % 8 ≡ 4 = omega arith in
    let value : (8 * c + 4) / 8 ≡ c = omega arith in
    read-append (write_text t) ((8 * c + 4) ∷ []) stack
    ∙ ap (push (8 * c + 4)) (read_text t stack)
    ∙ rw (tag, value) refl

mutual
  unfolding read write push

  read_value : (v : Json) (stack : List Json) → read (write v) stack ≡ v ∷ stack
  read_value null stack = refl
  read_value (number (pos n)) stack =
      let tag : (8 * n + 1) % 8 ≡ 1 = omega arith in
      let value : (8 * n + 1) / 8 ≡ n = omega arith in rw (tag, value) refl
  read_value (number (negsuc n)) stack =
      let tag : (8 * n + 2) % 8 ≡ 2 = omega arith in
      let value : (8 * n + 2) / 8 ≡ n = omega arith in rw (tag, value) refl
  read_value (text t) stack = read_text t stack
  read_value (object members) stack = read_members members stack

  read_members :
      (members : Members) (stack : List Json)
      → read (write_members members) stack ≡ object members ∷ stack
  read_members empty stack = refl
  read_members (member key v rest) stack =
      read-append (write_members rest) (write_text key ++ (write v ++ 6 ∷ [])) stack
      ∙ ap (read (write_text key ++ (write v ++ 6 ∷ []))) (read_members rest stack)
      ∙ read-append (write_text key) (write v ++ 6 ∷ []) (object rest ∷ stack)
      ∙ ap (read (write v ++ 6 ∷ [])) (read_text key (object rest ∷ stack))
      ∙ read-append (write v) (6 ∷ []) (text key ∷ object rest ∷ stack)
      ∙ ap (push 6) (read_value v (text key ∷ object rest ∷ stack))

pub unpack-pack : (v : Json) → unpack (pack v) ≡ some v
unfolding unpack pack
unpack-pack v =
    ap (λ stack. elim stack as (λ x. Option Json) [ [] ↦ none | u ∷ rest ↦ some u ])
      (read_value v [])

pub pack-is_empty : (v : Json) → is_empty (pack v) ≡ false
unfolding pack
pack-is_empty v = refl
