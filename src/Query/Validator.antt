-- ===== src/Query/Validator.antt =====
-- search/internal/validator/query.go: whether a query is safe to run. `compiles` stands for
-- `regexp.Compile`. An `error` is the `err` of a `Result`.
pub mod Path
pub mod Errors
pub mod Limits
pub mod Fields
pub mod Filters
pub mod Aggs
use telhawk_stack.Prelude.{
  ℕ, ◌+◌, pos, ltb, ltb_ℤ, String, Bool, true, false, not, ◌&&◌, ◌||◌, Option, none, some, List, [],
  ◌∷◌, length, is_some, str_eq, if◌then◌else◌,
}
use telhawk_stack.Prelude.Result.{ok, err, ◌>>◌, fail_if, wrap}
use telhawk_stack.Query.Model.{MaybeFilter, absent, present, TimeRangeDef, SortSpec, Query}
use telhawk_stack.Fields as MappedFields
use Path.{validate_field_path, is_valid_relative_time, is_order}
use Limits.{QueryValidator}
use Errors.{
  Check, nil_query, unsupported_fields, in_select, in_filter, in_time_range, in_aggregations,
  in_sort, in_pagination, too_many_select, in_field, invalid_field, empty_time_range,
  mixed_time_range, invalid_relative_time, start_after_end, too_many_sort, in_sort_field,
  invalid_sort_order, negative_limit, large_limit, negative_offset, offset_with_cursor,
}
use Fields.{collect_fields}
use Filters.{validate_filter}
use Aggs.{validate_aggregations}

validate_paths : List String → Check
validate_paths [] = ok tt
validate_paths (field ∷ fields) = do
  wrap (in_field field) (validate_field_path field)
  validate_paths fields

unfoldable pub validate_select : QueryValidator → List String → Check
unfolding validate_paths
validate_select v fields = do
  fail_if (ltb v.max_select_fields (length fields)) (too_many_select (length fields))
  validate_paths fields

-- `tr.Start.After(*tr.End)`, where both are set.
abbrev pub is_after : Option ℕ → Option ℕ → Bool
is_after (some start) (some end) = ltb end start
is_after _ _ = false

unfoldable pub validate_time_range : TimeRangeDef → Check
validate_time_range tr =
    let absolute = is_some tr.start || is_some tr.end in
    let relative = not (str_eq tr.last "") in
    do
      fail_if (not absolute && not relative) empty_time_range
      fail_if (absolute && relative) mixed_time_range
      fail_if (relative && not (is_valid_relative_time tr.last)) (invalid_relative_time tr.last)
      fail_if (is_after tr.start tr.end) start_after_end

check_sorts : List SortSpec → ℕ → Check
check_sorts [] i = ok tt
check_sorts (s ∷ ss) i = do
  wrap (λ e. in_sort_field i (invalid_field e)) (validate_field_path s.field)
  fail_if (not (str_eq s.order "" || is_order s.order)) (invalid_sort_order i s.order)
  check_sorts ss (i + 1)

unfoldable pub validate_sort : QueryValidator → List SortSpec → Check
unfolding check_sorts
validate_sort v sorts = do
  fail_if (ltb v.max_sort_fields (length sorts)) (too_many_sort (length sorts))
  check_sorts sorts 0

unfoldable pub validate_pagination : QueryValidator → Query → Check
validate_pagination v q = do
  fail_if (ltb_ℤ q.limit (pos 0)) negative_limit
  fail_if (ltb_ℤ (pos v.max_result_size) q.limit && str_eq q.cursor "") (large_limit q.limit)
  fail_if (ltb_ℤ q.offset (pos 0)) negative_offset
  fail_if (ltb_ℤ (pos 0) q.offset && not (str_eq q.cursor "")) offset_with_cursor

-- The early check against the mapping, if the validator makes it.
abbrev check_mapping : List String → Check
check_mapping [] = ok tt
check_mapping (field ∷ fields) = err (unsupported_fields (field ∷ fields))

abbrev check_time_range : Option TimeRangeDef → Check
check_time_range none = ok tt
check_time_range (some tr) = wrap in_time_range (validate_time_range tr)

module _ (compiles : String → Bool) (v : QueryValidator) where
  abbrev mapping_errors : Query → List String
  mapping_errors q =
      if v.validate_field_mappings then MappedFields.validate_fields (collect_fields q) else []

  abbrev pub check_filter : MaybeFilter → Check
  check_filter absent = ok tt
  check_filter (present f) = wrap in_filter (validate_filter compiles v f)

  unfoldable pub validate : Option Query → Check
  validate none = err nil_query
  validate (some q) = do
    check_mapping (mapping_errors q)
    wrap in_select (validate_select v q.select)
    check_filter q.filter
    check_time_range q.time_range
    wrap in_aggregations (validate_aggregations v q.aggregations)
    wrap in_sort (validate_sort v q.sort)
    wrap in_pagination (validate_pagination v q)
