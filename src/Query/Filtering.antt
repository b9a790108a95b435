-- ===== src/Query/Filtering.antt =====
-- What the filters of a query become: the fields they test, and the parameters that are given.
use mathlib.Core.List.{append-nil}
use shopping_cart.Prelude.{
  ℕ, ◌≡◌, refl, sym, ap, subst, ◌∙◌, ◌⊎◌, inl, inr, true, Option, List, [], ◌∷◌, ◌++◌, All,
  Bool-cases,
}
use shopping_cart.Shared.Text.{Text}
use shopping_cart.Query.Types.{
  FilterValue, text, number, boolean, texts, numbers, Operator, eq, neq, gt, gte, lt, lte, like,
  ilike, in_list, is_null, is_not_null, unsupported, FilterParams, ParamName, named, numbered,
  ParamValue, Condition, never, test, test_with, beyond, Builder, new_builder, is_allowed,
}
use shopping_cart.Query.Filters.{
  and_where, apply_in, apply_like, apply_operator, apply_field, filter_from, apply_filters,
}

-- A parameter of this name is given.
abbrev pub Given : ParamName → List (ParamName × ParamValue) → Type 0
Given name [] = ⊥
Given name ((n, value) ∷ rest) = (n ≡ name) ⊎ Given name rest

-- The name is not that of an `in` condition.
abbrev pub NotIn : ParamName × ParamValue → Type 0
NotIn (named field in_list index, value) = ⊥
NotIn (named field _ index, value) = Unit
NotIn (numbered index, value) = Unit

-- The condition tests an allowed field, and its parameter, if it has one, is given, unless it is an
-- `in` condition.
abbrev pub IsBacked :
    {V : Type 0} → (Text → Type 0) → List (ParamName × ParamValue) → Condition V → Type 0
IsBacked Allows parameters never = Unit
IsBacked Allows parameters (test field operator) = Allows field
IsBacked Allows parameters (test_with field operator name) =
    Allows field × ((operator ≡ in_list) ⊎ Given name parameters)
IsBacked Allows parameters (beyond rows) = Unit

module _ {ℓ κ} {A : Type ℓ} where
  All-append : (P : A → Type κ) (xs ys : List A) → All P xs → All P ys → All P (xs ++ ys)
  All-append P [] ys _ b = b
  All-append P (x ∷ xs) ys (a, all) b = (a, All-append P xs ys all b)

  All-map : (P Q : A → Type κ) (xs : List A) → ((x : A) → P x → Q x) → All P xs → All Q xs
  All-map P Q [] f all = tt
  All-map P Q (x ∷ xs) f (a, all) = (f x a, All-map P Q xs f all)

Given-left :
    (name : ParamName) (xs ys : List (ParamName × ParamValue))
    → Given name xs
    → Given name (xs ++ ys)
Given-left name [] ys h = absurd h
Given-left name ((n, v) ∷ xs) ys (inl e) = inl e
Given-left name ((n, v) ∷ xs) ys (inr h) = inr (Given-left name xs ys h)

Given-right :
    (name : ParamName) (xs ys : List (ParamName × ParamValue))
    → Given name ys
    → Given name (xs ++ ys)
Given-right name [] ys h = h
Given-right name ((n, v) ∷ xs) ys h = inr (Given-right name xs ys h)

module _ {V : Type 0} where
  backed :
      (Allows Allows' : Text → Type 0) (ps ps' : List (ParamName × ParamValue))
      → ((field : Text) → Allows field → Allows' field)
      → ((name : ParamName) → Given name ps → Given name ps')
      → (c : Condition V) → IsBacked Allows ps c
      → IsBacked Allows' ps' c
  backed Allows Allows' ps ps' f g never h = tt
  backed Allows Allows' ps ps' f g (test field operator) h = f field h
  backed Allows Allows' ps ps' f g (test_with field operator name) (a, inl e) = (f field a, inl e)
  backed Allows Allows' ps ps' f g (test_with field operator name) (a, inr h) =
      (f field a, inr (g name h))
  backed Allows Allows' ps ps' f g (beyond rows) h = tt

  -- What one operator of a field adds to the query.
  abbrev Adds : Text → Builder V → Builder V → Type 0
  Adds field qb qb' =
      (cs : List (Condition V)) × (ps : List (ParamName × ParamValue)) × (qb'.conditions
        ≡ qb.conditions ++ cs)
      × (qb'.parameters ≡ qb.parameters ++ ps)
      × (qb'.order ≡ qb.order)
      × All (IsBacked (λ f. f ≡ field) ps) cs
      × All NotIn ps

  Adds-one :
      (field : Text) (c : Condition V) (ps : List (ParamName × ParamValue)) (qb : Builder V)
      → IsBacked (λ f. f ≡ field) ps c
      → All NotIn ps
      → Adds field qb (and_where c ps qb)
  Adds-one field c ps qb h all = (c ∷ [], ps, refl, refl, refl, (h, tt), all)

  Adds-none : (field : Text) (qb : Builder V) → Adds field qb qb
  Adds-none field qb =
      ([], [], sym (append-nil qb.conditions), sym (append-nil qb.parameters), refl, tt, tt)

  apply_in-Adds :
      (field : Text) (value : FilterValue) (index : ℕ) (qb : Builder V)
      → Adds field qb (apply_in field value index qb)
  unfolding apply_in
  apply_in-Adds field (text t) index qb = Adds-one field never [] qb tt tt
  apply_in-Adds field (number n) index qb = Adds-one field never [] qb tt tt
  apply_in-Adds field (boolean b) index qb = Adds-one field never [] qb tt tt
  apply_in-Adds field (texts []) index qb = Adds-one field never [] qb tt tt
  apply_in-Adds field (texts (t ∷ ts)) index qb = Adds-one field _ _ qb (refl, inl refl) (tt, tt)
  apply_in-Adds field (numbers []) index qb = Adds-one field never [] qb tt tt
  apply_in-Adds field (numbers (n ∷ ns)) index qb = Adds-one field _ _ qb (refl, inl refl) (tt, tt)

  apply_operator-Adds :
      (field : Text) (operator : Operator) (value : FilterValue) (index : ℕ) (qb : Builder V)
      → Adds field qb (apply_operator field operator value index qb).0
  unfolding apply_operator apply_like
  apply_operator-Adds field (unsupported operator) value index qb = Adds-none field qb
  apply_operator-Adds field is_null value index qb = Adds-one field _ [] qb refl tt
  apply_operator-Adds field is_not_null value index qb = Adds-one field _ [] qb refl tt
  apply_operator-Adds field in_list value index qb = apply_in-Adds field value index qb
  apply_operator-Adds field like (text t) index qb =
      Adds-one field _ _ qb (refl, inr (inl refl)) (tt, tt)
  apply_operator-Adds field like (number n) index qb = Adds-none field qb
  apply_operator-Adds field like (boolean b) index qb = Adds-none field qb
  apply_operator-Adds field like (texts ts) index qb = Adds-none field qb
  apply_operator-Adds field like (numbers ns) index qb = Adds-none field qb
  apply_operator-Adds field ilike (text t) index qb =
      Adds-one field _ _ qb (refl, inr (inl refl)) (tt, tt)
  apply_operator-Adds field ilike (number n) index qb = Adds-none field qb
  apply_operator-Adds field ilike (boolean b) index qb = Adds-none field qb
  apply_operator-Adds field ilike (texts ts) index qb = Adds-none field qb
  apply_operator-Adds field ilike (numbers ns) index qb = Adds-none field qb
  apply_operator-Adds field eq value index qb =
      Adds-one field _ _ qb (refl, inr (inl refl)) (tt, tt)
  apply_operator-Adds field neq value index qb =
      Adds-one field _ _ qb (refl, inr (inl refl)) (tt, tt)
  apply_operator-Adds field gt value index qb =
      Adds-one field _ _ qb (refl, inr (inl refl)) (tt, tt)
  apply_operator-Adds field gte value index qb =
      Adds-one field _ _ qb (refl, inr (inl refl)) (tt, tt)
  apply_operator-Adds field lt value index qb =
      Adds-one field _ _ qb (refl, inr (inl refl)) (tt, tt)
  apply_operator-Adds field lte value index qb =
      Adds-one field _ _ qb (refl, inr (inl refl)) (tt, tt)

module _ (V : Type 0) (allowed : Option (List Text)) where
  -- Every condition is backed, no parameter is that of an `in` condition, and there is no order
  -- yet.
  abbrev pub IsFiltered : Builder V → Type 0
  IsFiltered qb =
      All (IsBacked (λ f. is_allowed allowed f ≡ true) qb.parameters) qb.conditions
      × All NotIn qb.parameters
      × (qb.order ≡ [])

  IsFiltered-Adds :
      (field : Text) (qb qb' : Builder V)
      → is_allowed allowed field ≡ true
      → Adds field qb qb'
      → IsFiltered qb
      → IsFiltered qb'
  IsFiltered-Adds field qb qb' h (cs, ps, grown, given, same, new, plainly)
        (old, others, unordered) =
      let Good = λ (params : List (ParamName × ParamValue)) (conditions : List (Condition V)).
        All (IsBacked (λ f. is_allowed allowed f ≡ true) params) conditions in
      let both : Good (qb.parameters ++ ps) (qb.conditions ++ cs) =
        All-append _ qb.conditions cs
          (All-map _ _ qb.conditions
            (backed (λ f. is_allowed allowed f ≡ true) (λ f. is_allowed allowed f ≡ true)
              qb.parameters (qb.parameters ++ ps) (λ f a. a)
              (λ name. Given-left name qb.parameters ps))
            old)
          (All-map _ _ cs
            (backed (λ f. f ≡ field) (λ f. is_allowed allowed f ≡ true) ps (qb.parameters ++ ps)
              (λ f e. ap (is_allowed allowed) e ∙ h) (λ name. Given-right name qb.parameters ps))
            new) in
      (
        subst (λ params. Good params qb'.conditions) (sym given)
            (subst (Good (qb.parameters ++ ps)) (sym grown) both),
        subst (All NotIn) (sym given) (All-append _ qb.parameters ps others plainly),
        same ∙ unordered,
      )

  apply_field-IsFiltered :
      (field : Text) (conditions : List (Operator × FilterValue)) (index : ℕ) (qb : Builder V)
      → is_allowed allowed field ≡ true
      → IsFiltered qb
      → IsFiltered (apply_field field conditions index qb).0
  unfolding apply_field
  apply_field-IsFiltered field [] index qb h good = good
  apply_field-IsFiltered field ((operator, value) ∷ rest) index qb h good =
      let next = apply_operator field operator value index qb in
      apply_field-IsFiltered field rest next.1 next.0 h
        (IsFiltered-Adds field qb next.0 h (apply_operator-Adds field operator value index qb) good)

  filter_from-IsFiltered :
      (filters : FilterParams) (index : ℕ) (qb : Builder V)
      → IsFiltered qb
      → IsFiltered (filter_from allowed filters index qb)
  unfolding filter_from
  filter_from-IsFiltered [] index qb good = good
  filter_from-IsFiltered ((field, conditions) ∷ rest) index qb good =
      elim (Bool-cases (is_allowed allowed field)) [
        | inl yes' ↦
            let next = apply_field field conditions index qb in
            rw (yes', filter_from)
              (filter_from-IsFiltered rest next.1 next.0
                (apply_field-IsFiltered field conditions index qb yes' good))
        | inr no' ↦ rw (no', filter_from) (filter_from-IsFiltered rest index qb good)
      ]

  -- For any filter: every condition of the query tests an allowed field, or is the condition that
  -- never holds; the parameter of each comparison is given, unless the operator is `in`; and no
  -- parameter of an `in` condition is ever given. The order is left empty.
  pub apply_filters-IsFiltered :
      (filters : FilterParams) → IsFiltered (apply_filters allowed filters (new_builder V))
  unfolding apply_filters
  apply_filters-IsFiltered filters = filter_from-IsFiltered filters 0 (new_builder V) (tt, tt, refl)
