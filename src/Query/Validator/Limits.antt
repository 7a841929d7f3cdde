-- ===== src/Query/Validator/Limits.antt =====
-- `QueryValidator` of search/internal/validator/query.go and its constructors.
use telhawk_stack.Prelude.{ℕ, Bool, true, false}

pub record QueryValidator : Type 0 where
  pub max_aggregations : ℕ
  pub max_result_size : ℕ
  pub max_filter_depth : ℕ
  pub max_select_fields : ℕ
  pub max_sort_fields : ℕ
  pub validate_field_mappings : Bool

-- NewQueryValidator
abbrev pub new_query_validator : QueryValidator
new_query_validator = record {
  max_aggregations = 10;
  max_result_size = 10000;
  max_filter_depth = 10;
  max_select_fields = 100;
  max_sort_fields = 10;
  validate_field_mappings = true;
}

abbrev pub set_field_mapping_validation : QueryValidator → Bool → QueryValidator
set_field_mapping_validation v enabled = record v { validate_field_mappings = enabled }

abbrev pub new_query_validator_without_field_mapping : QueryValidator
new_query_validator_without_field_mapping = set_field_mapping_validation new_query_validator false
