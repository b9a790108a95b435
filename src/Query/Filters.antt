-- ===== src/Query/Filters.antt =====
-- `applyFilters`: the conditions and parameters that a filter becomes.
use shopping_cart.Prelude.{ℕ, suc, Option, List, [], ◌∷◌, ◌++◌, if◌then◌else◌}
use shopping_cart.Shared.Text.{Text}
use shopping_cart.Query.Types.{
  FilterValue, text, number, boolean, texts, numbers, Operator, eq, neq, gt, gte, lt, lte, like,
  ilike, in_list, is_null, is_not_null, unsupported, FilterParams, ParamName, named, numbered,
  ParamValue, plain, wrapped, Condition, never, test, test_with, Builder, is_allowed,
}

module _ {V : Type 0} where
  -- `qb.andWhere(condition, parameters)`
  abbrev pub and_where : Condition V → List (ParamName × ParamValue) → Builder V → Builder V
  and_where condition parameters qb = record qb {
    conditions = qb.conditions ++ condition ∷ [];
    parameters = qb.parameters ++ parameters;
  }

  -- `field operator :name`
  abbrev pub with_parameter : Text → Operator → ParamName → ParamValue → Builder V → Builder V
  with_parameter field operator name value =
      and_where (test_with field operator name) ((name, value) ∷ [])

  -- The branch of `in`; the value stands under the index, not under the name.
  unfoldable pub apply_in : Text → FilterValue → ℕ → Builder V → Builder V
  apply_in field (texts []) index = and_where never []
  apply_in field (numbers []) index = and_where never []
  apply_in field (texts (t ∷ ts)) index =
      and_where (test_with field in_list (named field in_list index))
        ((numbered (suc index), plain (texts (t ∷ ts))) ∷ [])
  apply_in field (numbers (n ∷ ns)) index =
      and_where (test_with field in_list (named field in_list index))
        ((numbered (suc index), plain (numbers (n ∷ ns))) ∷ [])
  apply_in field (text t) index = and_where never []
  apply_in field (number n) index = and_where never []
  apply_in field (boolean b) index = and_where never []

  -- The branch of `like` and `ilike`
  unfoldable pub apply_like : Text → Operator → FilterValue → ℕ → Builder V → Builder V
  apply_like field operator (text t) index qb =
      with_parameter field operator (named field operator index) (wrapped t) qb
  apply_like field operator _ index qb = qb

  -- One operator of one field, and the index that follows.
  unfoldable pub apply_operator : Text → Operator → FilterValue → ℕ → Builder V → Builder V × ℕ
  unfolding apply_in apply_like
  apply_operator field (unsupported operator) value index qb = (qb, index)
  apply_operator field is_null value index qb = (and_where (test field is_null) [] qb, suc index)
  apply_operator field is_not_null value index qb =
      (and_where (test field is_not_null) [] qb, suc index)
  apply_operator field in_list value index qb = (apply_in field value index qb, suc index)
  apply_operator field like value index qb = (apply_like field like value index qb, suc index)
  apply_operator field ilike value index qb = (apply_like field ilike value index qb, suc index)
  apply_operator field eq value index qb =
      (with_parameter field eq (named field eq index) (plain value) qb, suc index)
  apply_operator field neq value index qb =
      (with_parameter field neq (named field neq index) (plain value) qb, suc index)
  apply_operator field gt value index qb =
      (with_parameter field gt (named field gt index) (plain value) qb, suc index)
  apply_operator field gte value index qb =
      (with_parameter field gte (named field gte index) (plain value) qb, suc index)
  apply_operator field lt value index qb =
      (with_parameter field lt (named field lt index) (plain value) qb, suc index)
  apply_operator field lte value index qb =
      (with_parameter field lte (named field lte index) (plain value) qb, suc index)

  -- The operators of one field
  unfoldable pub apply_field : Text → List (Operator × FilterValue) → ℕ → Builder V → Builder V × ℕ
  unfolding apply_operator
  apply_field field [] index qb = (qb, index)
  apply_field field ((operator, value) ∷ rest) index qb =
      let (qb', index') = apply_operator field operator value index qb in
      apply_field field rest index' qb'

  unfoldable pub filter_from : Option (List Text) → FilterParams → ℕ → Builder V → Builder V
  unfolding apply_field
  filter_from allowed [] index qb = qb
  filter_from allowed ((field, conditions) ∷ rest) index qb =
      let (qb', index') =
        if is_allowed allowed field then apply_field field conditions index qb else (qb, index) in
      filter_from allowed rest index' qb'

  unfoldable pub apply_filters : Option (List Text) → FilterParams → Builder V → Builder V
  unfolding filter_from
  apply_filters allowed filters qb = filter_from allowed filters 0 qb
