-- ===== src/Query/Payload.antt =====
-- What a cursor knows of the row it was made of.
use shopping_cart.Prelude.{
  ◌≡◌, refl, sym, ap, subst, ◌∙◌, Bool, true, false, some, List, [], ◌∷◌, map, All, any, ◌==◌,
  if◌then◌else◌, arith, Bool-cases, inl, inr,
}
use shopping_cart.Shared.Text.{Text}
use shopping_cart.Shared.Price.{same_text}
use shopping_cart.Shared.Price.Laws.{same_text_refl, same_text-eq}
use shopping_cart.Query.Types.{SortParams}
use shopping_cart.Query.Cursor.{
  Json, Members, empty, member, get_member, set_member, property, value_of, payload_key,
  payload_from,
}
use shopping_cart.Query.Seek.{flip}

abbrev pub has_dot : Text → Bool
has_dot field = any (λ c. c == b'.') field

abbrev pub NoDots : List SortParams → Type 0
NoDots sorts = All (λ s. has_dot s.field ≡ false) sorts

-- The cursor has the row's value of each sort field.
abbrev pub Knows : Json → Json → List SortParams → Type 0
Knows cursor item sorts = All (λ s. property s.field cursor ≡ some (value_of item s.field)) sorts

payload_key-NoDots : (field : Text) → has_dot field ≡ false → payload_key field ≡ field
unfolding payload_key
payload_key-NoDots [] h = refl
payload_key-NoDots (c ∷ field) h = ground (arith, payload_key-NoDots field)

same_text_left : (a b c : Text) → same_text a b ≡ true → same_text a c ≡ same_text b c
same_text_left a b c h = ap (λ t. same_text t c) (same_text-eq a b h)

same_text_join : (a b c : Text) → same_text a c ≡ true → same_text b c ≡ true → same_text b a ≡ true
same_text_join a b c h k = ap (λ t. same_text b t) (same_text-eq a c h) ∙ k

get-set_member :
    (key k : Text) (new : Json) (members : Members)
    → get_member k (set_member key new members)
      ≡ (if same_text key k then some new else get_member k members)
get-set_member key k new empty = refl
get-set_member key k new (member key' value rest) =
    ground
      (arith, get-set_member key k new rest, same_text_left key' key k, same_text_join key key' k)

module _ (item : Json) where
  abbrev Holds : Members → SortParams → Type 0
  Holds payload s = get_member s.field payload ≡ some (value_of item s.field)

  set-Holds :
      (s t : SortParams) (payload : Members)
      → Holds payload t
      → Holds (set_member s.field (value_of item s.field) payload) t
  set-Holds s t payload h = elim (Bool-cases (same_text s.field t.field)) [
    | inl same ↦
        get-set_member s.field t.field (value_of item s.field) payload
        ∙ rw same (ap (λ f. some (value_of item f)) (same_text-eq s.field t.field same))
    | inr other ↦ get-set_member s.field t.field (value_of item s.field) payload ∙ rw other h
  ]

  payload-keeps :
      (t : SortParams) (sorts : List SortParams) (payload : Members)
      → NoDots sorts
      → Holds payload t
      → Holds (payload_from item sorts payload) t
  unfolding payload_from
  payload-keeps t [] payload plain h = h
  payload-keeps t (s ∷ rest) payload (plain, others) h = rw (payload_key-NoDots s.field plain) (
      payload-keeps t rest (set_member s.field (value_of item s.field) payload) others
        (set-Holds s t payload h))

  pub payload-All :
      (sorts : List SortParams) (payload : Members)
      → NoDots sorts
      → All (Holds (payload_from item sorts payload)) sorts
  unfolding payload_from
  payload-All [] payload plain = tt
  payload-All (s ∷ rest) payload (plain, others) =
      let payload' = set_member s.field (value_of item s.field) payload in
      let here : Holds payload' s =
        get-set_member s.field s.field (value_of item s.field) payload
        ∙ rw (same_text_refl s.field) refl in
      let same : payload_from item (s ∷ rest) payload ≡ payload_from item rest payload' =
        ap (λ key. payload_from item rest (set_member key (value_of item s.field) payload))
          (payload_key-NoDots s.field plain) in
      subst (λ p. All (Holds p) (s ∷ rest)) (sym same)
        (payload-keeps s rest payload' others here, payload-All rest payload' others)

  flip-Knows :
      (cursor : Json) (sorts : List SortParams)
      → Knows cursor item sorts
      → Knows cursor item (map flip sorts)
  flip-Knows cursor [] h = tt
  flip-Knows cursor (s ∷ rest) (h, others) = (h, flip-Knows cursor rest others)

pub actual_Knows :
    (item cursor : Json) (backward : Bool) (sorts : List SortParams)
    → Knows cursor item sorts
    → Knows cursor item (if backward then map flip sorts else sorts)
actual_Knows item cursor true sorts h = flip-Knows item cursor sorts h
actual_Knows item cursor false sorts h = h
