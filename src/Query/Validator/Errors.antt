-- ===== src/Query/Validator/Errors.antt =====
-- The errors of search/internal/validator/query.go, one constructor for each message. A constructor
-- that takes an error is a `fmt.Errorf` that wraps it.
use telhawk_stack.Prelude.{ℕ, ℤ, String, List}
use telhawk_stack.Prelude.Result.{Result}

pub data Error : Type 0 where
  nil_query : Error
  unsupported_fields : List String → Error
  in_select in_filter in_time_range in_aggregations in_sort in_pagination : Error → Error
  too_many_select : ℕ → Error
  in_field : String → Error → Error
  filter_too_deep : ℕ → Error
  neither_simple_nor_compound : Error
  invalid_field : Error → Error
  unsupported_operator : String → Error
  nil_value : String → Error
  in_not_array exists_not_bool invalid_regex regex_not_string : Error
  cidr_without_slash cidr_not_string : Error
  unsupported_compound : String → Error
  no_conditions : String → Error
  in_condition : ℕ → Error → Error
  not_without_condition : Error
  in_not : Error → Error
  empty_time_range mixed_time_range : Error
  invalid_relative_time : String → Error
  start_after_end : Error
  too_many_aggregations : ℕ → Error
  in_aggregation : ℕ → String → Error → Error
  unsupported_aggregation : String → Error
  empty_aggregation_name : Error
  terms_without_field terms_size_not_positive : Error
  invalid_order_key invalid_order_direction : String → Error
  histogram_without_field histogram_without_interval : Error
  negative_top_hits_size large_top_hits_size : Error
  in_top_hits_sort : ℕ → Error → Error
  invalid_top_hits_order : ℕ → String → Error
  in_nested : Error → Error
  too_many_sort : ℕ → Error
  in_sort_field : ℕ → Error → Error
  invalid_sort_order : ℕ → String → Error
  negative_limit : Error
  large_limit : ℤ → Error
  negative_offset offset_with_cursor : Error
  empty_path path_without_dot path_with_double_dot path_with_final_dot : Error

-- A Go `error`: nil, or one of the above.
abbrev pub Check : Type 0
Check = Result Error (Unit {0})
