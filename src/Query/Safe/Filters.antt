-- ===== src/Query/Safe/Filters.antt =====
-- A filter that passes its checks is translated.
use telhawk_stack.Prelude.{ℕ, ◌+◌, String, Bool, true, str_eq, ◌≡◌, arith}
use telhawk_stack.Prelude.Result.{IsOk}
use telhawk_stack.Query.Json.{Json}
use telhawk_stack.Query.Model.{Condition, FilterExpr, expr, Filters, MaybeFilter, absent, present}
use telhawk_stack.Query.Validator.Path.{is_valid_operator, is_valid_compound_type}
use telhawk_stack.Query.Validator.Limits.{QueryValidator}
use telhawk_stack.Query.Validator.Filters.{
  validate_simple_condition, validate_filter_with_depth, validate_conditions, validate_condition,
}
use telhawk_stack.Query.Translator.Names.{translate_field_path}
use telhawk_stack.Query.Translator.Filters.{
  by_operator, translate_simple_condition, translate_filter, translate_conditions,
  translate_condition,
}
use telhawk_stack.Query.Safe.Chain.{Succeeds, Succeeds-IsOk, pick, never}

module _ (compiles : String → Bool) (v : QueryValidator) (sprint : Json → String) where
  operator_translates :
      (op field : String) (value : Json)
      → is_valid_operator op ≡ true
      → Succeeds (by_operator sprint op field value)
  unfolding is_valid_operator
  operator_translates op field value = pick (str_eq op "eq") _ _ _ (
      pick (str_eq op "ne") _ _ _ (
        pick (str_eq op "gt") _ _ _ (
          pick (str_eq op "gte") _ _ _ (
            pick (str_eq op "lt") _ _ _ (
              pick (str_eq op "lte") _ _ _ (
                pick (str_eq op "in") _ _ _ (
                  pick (str_eq op "contains") _ _ _ (
                    pick (str_eq op "startsWith") _ _ _ (
                      pick (str_eq op "endsWith") _ _ _ (
                        pick (str_eq op "regex") _ _ _ (
                          pick (str_eq op "exists") _ _ _
                            (pick (str_eq op "cidr") _ _ _ (never _)))))))))))))

  simple_translates :
      (c : Condition)
      → IsOk (validate_simple_condition compiles c)
      → IsOk (translate_simple_condition sprint c)
  unfolding validate_simple_condition translate_simple_condition
  simple_translates c h =
      Succeeds-IsOk _
        (operator_translates c.operator (translate_field_path c.field) c.value (ground arith))

  mutual
    unfolding validate_filter_with_depth translate_filter is_valid_compound_type

    pub filter_translates :
        (f : FilterExpr) (depth : ℕ)
        → IsOk (validate_filter_with_depth compiles v f depth)
        → IsOk (translate_filter sprint f)
    filter_translates (expr c conditions condition) depth h = ground (
      arith,
      simple_translates c,
      conditions_translate conditions 0 (depth + 1),
      condition_translates condition (depth + 1),
    )

    pub conditions_translate :
        (fs : Filters) (i depth : ℕ)
        → IsOk (validate_conditions compiles v fs i depth)
        → IsOk (translate_conditions sprint fs)
    conditions_translate Filters.nil i depth h = tt
    conditions_translate (Filters.cons f fs) i depth h =
        ground (arith, filter_translates f depth, conditions_translate fs (i + 1) depth)

    pub condition_translates :
        (m : MaybeFilter) (depth : ℕ)
        → IsOk (validate_condition compiles v m depth)
        → IsOk (translate_condition sprint m)
    condition_translates absent depth h = elim h [ ]
    condition_translates (present f) depth h = ground (arith, filter_translates f depth)
