-- ===== src/Query/Examples.antt =====
-- A query on which the theorems are tried, and tests of the code.
use telhawk_stack.Prelude.{
  ℤ, pos, ◌≤ℤ◌, ◌≤◌, String, Bool, true, false, none, some, [], ◌∷◌, ◌≡◌, ◌≢◌, refl, arith, str_eq,
}
use telhawk_stack.Prelude.Result.{ok}
use telhawk_stack.Fields
use telhawk_stack.Query.Json.{Json, int, text, obj, member, end, single, Items, arr, Members}
use telhawk_stack.Query.Model.{FilterExpr, expr, Filters, absent, present, Aggregations, Query}
use telhawk_stack.Prelude.Text.{has_prefix, has_suffix, contains}
use telhawk_stack.Query.Validator.{
  validate, validate_select, validate_time_range, validate_sort, validate_pagination,
}
use telhawk_stack.Query.Validator.Path.{
  validate_field_path, is_valid_operator, is_valid_compound_type, is_valid_relative_time,
}
use telhawk_stack.Query.Validator.Fields.{collect_fields}
use telhawk_stack.Query.Validator.Aggs.{validate_aggregations, check_all}
use telhawk_stack.Query.Validator.Limits.{new_query_validator}
use telhawk_stack.Query.Validator.Filters.{
  validate_filter, validate_filter_with_depth, validate_simple_condition,
}
use telhawk_stack.Query.Translator.{translate, build_bool_query, build_time_range_filter}
use telhawk_stack.Query.Translator.Names.{should_use_term_query, translate_field_path}
use telhawk_stack.Query.Translator.Aggs.{sort_or_default}
use telhawk_stack.Query.Translator.Filters.{translate_filter, translate_simple_condition}
use telhawk_stack.Query.Safe.{translate-validate}
use telhawk_stack.Query.Meaning.{matches, holds, answers, no_empty_or}
use telhawk_stack.Query.Meaning.Agrees.{matches-translate_filter}
use telhawk_stack.Query.Checked.Depth.{height, height-validate_filter}
use telhawk_stack.Query.Checked.Mapped.{query_allowed, query_allowed-validate}
use telhawk_stack.Query.Checked.Pages.{member_at, page-translate}

abbrev condition : String → String → String → FilterExpr
condition field operator value =
    expr (record { field = field; operator = operator; value = text value; kind = "" }) Filters.nil
      absent

-- severity is High, and the user is not root
abbrev severe : FilterExpr
severe =
    expr (record { field = ""; operator = ""; value = Json.null; kind = "and" })
      (Filters.cons (condition ".severity" "eq" "High")
        (Filters.cons (condition ".user.name" "ne" "root") Filters.nil))
      absent

abbrev severe_events : Query
severe_events = record {
  select = ".time" ∷ ".message" ∷ [];
  filter = present severe;
  time_range = some (record { start = none; end = none; last = "24h" });
  aggregations = Aggregations.nil;
  sort = record { field = ".time"; order = "asc" } ∷ [];
  limit = pos 50;
  offset = pos 0;
  cursor = "";
}

abbrev every_pattern : String → Bool
every_pattern pattern = true

abbrev show : Json → String
show (text s) = s
show _ = "?"

abbrev severity_only : Json → Bool
severity_only (obj (member kind (obj (member field value end)) end)) = str_eq field "severity"
severity_only _ = false

query_code : Unit {0}
unfolding validate validate_filter_with_depth validate_simple_condition validate_filter
    validate_select validate_time_range validate_sort validate_pagination validate_aggregations
    check_all validate_field_path is_valid_operator is_valid_compound_type is_valid_relative_time
    collect_fields Fields.validate_fields Fields.is_valid_field translate translate_filter
    translate_simple_condition should_use_term_query translate_field_path build_bool_query
    build_time_range_filter sort_or_default matches holds contains has_suffix has_prefix height
query_code = tt

severe_events_valid : validate every_pattern new_query_validator (some severe_events) ≡ ok tt
unfolding query_code
severe_events_valid = refl

severe_valid : validate_filter every_pattern new_query_validator severe ≡ ok tt
unfolding query_code
severe_valid = refl

severe_query : Json
severe_query = single "bool" (
    single "must" (
      arr (
        Items.cons (single "term" (single "severity" (text "High"))) (
          Items.cons
            (single "bool" (single "must_not" (single "match" (single "user.name" (text "root")))))
            Items.nil))))

severe_translated : translate_filter show severe ≡ ok severe_query
unfolding query_code severe_query
severe_translated = refl

severe-height : height severe ≡ 1
unfolding query_code
severe-height = refl

translate-validate_example : (dsl : Members) × (translate show 0 severe_events ≡ ok dsl)
translate-validate_example =
    translate-validate every_pattern new_query_validator show 0 severe_events severe_events_valid

severe_full : no_empty_or severe ≡ true
unfolding no_empty_or
severe_full = refl

-- OpenSearch takes the translation of an empty disjunction for every event.
empty_or_test :
    matches severity_only (
      single "bool"
        (obj (member "should" (arr Items.nil) (member "minimum_should_match" (int (pos 1)) end))))
    ≡ true
unfolding matches answers
empty_or_test = refl

matches-translate_filter_example :
    matches severity_only severe_query ≡ holds severity_only show severe
matches-translate_filter_example =
    matches-translate_filter severity_only show severe severe_query severe_full severe_translated

query_allowed-validate_example : query_allowed Fields.is_valid_field severe_events ≡ true
query_allowed-validate_example =
    query_allowed-validate every_pattern new_query_validator severe_events refl severe_events_valid

height-validate_filter_example : height severe ≤ 10
height-validate_filter_example =
    height-validate_filter every_pattern new_query_validator severe severe_valid

abbrev severe_dsl : Members
severe_dsl =
    member "query"
      (single "bool" (
        single "must" (
          arr (
            Items.cons severe_query (
              Items.cons
                (single "range" (
                  single "time"
                    (obj (member "gte" (text "now-24h") (member "lte" (text "now") end)))))
                Items.nil)))))
      (member "_source" (arr (Items.cons (text "time") (Items.cons (text "message") Items.nil)))
        (member "sort" (sort_or_default severe_events.sort) (member "size" (int (pos 50)) end)))

severe_events_translated : translate show 0 severe_events ≡ ok severe_dsl
unfolding query_code severe_query
severe_events_translated = refl

page-translate_example :
    (size : ℤ) × (member_at "size" severe_dsl ≡ some (int size))
    × (pos 1 ≤ℤ size)
    × (pos 1 ≤ℤ pos 50 → size ≡ pos 50)
    × (severe_events.cursor ≡ "" → size ≤ℤ pos 10000)
    × (member_at "from" severe_dsl ≡ none)
    × (severe_events.cursor ≢ "" → member_at "from" severe_dsl ≡ none)
page-translate_example =
    page-translate every_pattern new_query_validator show 0 severe_events severe_dsl (omega arith)
      severe_events_valid severe_events_translated
