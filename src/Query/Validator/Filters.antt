-- ===== src/Query/Validator/Filters.antt =====
-- The checks of a filter. `compiles` stands for `regexp.Compile`.
use telhawk_stack.Prelude.{
  ℕ, ◌+◌, ltb, String, Bool, true, false, not, ◌&&◌, ◌||◌, str_eq, if◌then◌else◌,
}
use telhawk_stack.Prelude.Text.{contains}
use telhawk_stack.Prelude.Result.{ok, err, ◌>>◌, fail_if, wrap}
use telhawk_stack.Query.Json.{Json, null, bool, text, arr}
use telhawk_stack.Query.Model.{
  Condition, FilterExpr, expr, Filters, MaybeFilter, absent, present, is_simple_condition,
  is_compound_condition,
}
use telhawk_stack.Query.Validator.Path.{
  validate_field_path, is_valid_operator, is_valid_compound_type,
}
use telhawk_stack.Query.Validator.Limits.{QueryValidator}
use telhawk_stack.Query.Validator.Errors.{
  Check, filter_too_deep, neither_simple_nor_compound, invalid_field, unsupported_operator,
  nil_value, in_not_array, exists_not_bool, invalid_regex, regex_not_string, cidr_without_slash,
  cidr_not_string, unsupported_compound, no_conditions, in_condition, not_without_condition, in_not,
}

module _ (compiles : String → Bool) where
  check_regex : Json → Check
  check_regex (text pattern) = fail_if (not (compiles pattern)) invalid_regex
  check_regex _ = err regex_not_string

check_in : Json → Check
check_in (arr items) = ok tt
check_in _ = err in_not_array

check_exists : Json → Check
check_exists (bool b) = ok tt
check_exists _ = err exists_not_bool

check_cidr : Json → Check
check_cidr (text cidr) = fail_if (not (contains cidr "/")) cidr_without_slash
check_cidr _ = err cidr_not_string

abbrev pub is_null : Json → Bool
is_null null = true
is_null _ = false

module _ (compiles : String → Bool) where
  -- The switch on the operator.
  check_value : String → Json → Check
  unfolding check_in check_exists check_regex check_cidr
  check_value op value =
      if str_eq op "in"
      then check_in value
      else if str_eq op "exists"
      then check_exists value
      else if str_eq op "regex"
      then check_regex compiles value
      else if str_eq op "cidr"
      then check_cidr value
      else ok tt

  unfoldable pub validate_simple_condition : Condition → Check
  unfolding check_value
  validate_simple_condition c = do
    wrap invalid_field (validate_field_path c.field)
    fail_if (not (is_valid_operator c.operator)) (unsupported_operator c.operator)
    fail_if (is_null c.value && not (str_eq c.operator "exists")) (nil_value c.operator)
    check_value c.operator c.value

-- `len(filter.Conditions) == 0`
abbrev pub no_filters : Filters → Bool
no_filters Filters.nil = true
no_filters (Filters.cons f fs) = false

module _ (compiles : String → Bool) (v : QueryValidator) where
  -- The switch on the compound type; `conditions` and `condition` are the results for the parts.
  abbrev compound_result : String → Bool → Check → Check → Check
  compound_result kind empty conditions condition =
      if str_eq kind "and" || str_eq kind "or"
      then fail_if empty (no_conditions kind) >> conditions
      else if str_eq kind "not"
      then condition
      else ok tt

  -- `validateFilterWithDepth` with `validateCompoundConditionWithDepth` in its place.
  unfoldable mutual
    pub validate_filter_with_depth : FilterExpr → ℕ → Check
    validate_filter_with_depth (expr c conditions condition) depth =
        let parts = validate_conditions conditions 0 (depth + 1) in
        let part = validate_condition condition (depth + 1) in
        fail_if (ltb v.max_filter_depth depth) (filter_too_deep depth)
        >> (if is_simple_condition c
            then validate_simple_condition compiles c
            else if is_compound_condition c
            then fail_if (not (is_valid_compound_type c.kind)) (unsupported_compound c.kind)
              >> compound_result c.kind (no_filters conditions) parts part
            else err neither_simple_nor_compound)

    pub validate_conditions : Filters → ℕ → ℕ → Check
    validate_conditions Filters.nil i depth = ok tt
    validate_conditions (Filters.cons f fs) i depth =
        wrap (in_condition i) (validate_filter_with_depth f depth)
        >> validate_conditions fs (i + 1) depth

    pub validate_condition : MaybeFilter → ℕ → Check
    validate_condition absent depth = err not_without_condition
    validate_condition (present f) depth = wrap in_not (validate_filter_with_depth f depth)

  unfoldable pub validate_filter : FilterExpr → Check
  validate_filter f = validate_filter_with_depth f 0
