-- ===== src/Query/Translator/Filters.antt =====
-- The translation of filters. `sprint` stands for `fmt.Sprintf("%v", ·)`.
use telhawk_stack.Prelude.{pos, String, Bool, false, str_eq, if◌then◌else◌}
use telhawk_stack.Prelude.Text.{◌++◌}
use telhawk_stack.Prelude.Result.{Result, ok, err, ◌>>=◌}
use telhawk_stack.Query.Json.{Json, bool, int, text, arr, obj, Items, Members, member, single}
use telhawk_stack.Query.Model.{
  Condition, FilterExpr, expr, Filters, MaybeFilter, absent, present, is_simple_condition,
  is_compound_condition,
}
use telhawk_stack.Query.Translator.Names.{translate_field_path, should_use_term_query}

-- The errors of search/internal/translator/opensearch.go.
pub data Error : Type 0 where
  bool_query_failed aggregations_failed : Error → Error
  invalid_filter : Error
  unsupported_operator : String → Error
  not_without_condition : Error
  unsupported_compound : String → Error
  unsupported_aggregation : String → Error

-- {"bool": {"must_not": query}}
abbrev pub must_not : Json → Json
must_not query = single "bool" (single "must_not" query)

-- {"range": {field: {bound: value}}}
abbrev pub range_query : String → String → Json → Json
range_query field bound value = single "range" (single field (single bound value))

abbrev pub wildcard_query : String → String → Json
wildcard_query field value = single "wildcard" (single field (single "value" (text value)))

-- `filter.Value == true`
abbrev pub is_true : Json → Bool
is_true (bool b) = b
is_true _ = false

-- A term query for exact matches, a match query for text.
abbrev pub equal_query : String → Json → Json
equal_query field value =
    if should_use_term_query field value
    then single "term" (single field value)
    else single "match" (single field value)

module _ (sprint : Json → String) where
  -- The switch of `translateSimpleCondition`, at the translated field.
  abbrev pub by_operator : String → String → Json → Result Error Json
  by_operator op field value =
      if str_eq op "eq"
      then ok (equal_query field value)
      else if str_eq op "ne"
      then ok (must_not (equal_query field value))
      else if str_eq op "gt"
      then ok (range_query field "gt" value)
      else if str_eq op "gte"
      then ok (range_query field "gte" value)
      else if str_eq op "lt"
      then ok (range_query field "lt" value)
      else if str_eq op "lte"
      then ok (range_query field "lte" value)
      else if str_eq op "in"
      then ok (single "terms" (single field value))
      else if str_eq op "contains"
      then ok (wildcard_query field ("*" ++ (sprint value ++ "*")))
      else if str_eq op "startsWith"
      then ok (wildcard_query field (sprint value ++ "*"))
      else if str_eq op "endsWith"
      then ok (wildcard_query field ("*" ++ sprint value))
      else if str_eq op "regex"
      then ok (single "regexp" (single field value))
      else if str_eq op "exists"
      then ok (
          if is_true value
          then single "exists" (single "field" (text field))
          else must_not (single "exists" (single "field" (text field))))
      else if str_eq op "cidr"
      then ok (single "term" (single field value))
      else err (unsupported_operator op)

  unfoldable pub translate_simple_condition : Condition → Result Error Json
  translate_simple_condition c = by_operator c.operator (translate_field_path c.field) c.value

  -- {"bool": {"must": queries}}
  abbrev pub all_of : Items → Json
  all_of queries = single "bool" (single "must" (arr queries))

  -- {"bool": {"should": queries, "minimum_should_match": 1}}
  abbrev pub any_of : Items → Json
  any_of queries = single "bool" (
      obj (member "should" (arr queries) (member "minimum_should_match" (int (pos 1)) Members.end)))

  -- The switch of `translateCompoundCondition`; the last two are the results for the parts.
  abbrev pub compound : String → Result Error Items → Result Error Json → Result Error Json
  compound kind conditions condition =
      if str_eq kind "and"
      then (conditions >>= λ queries. ok (all_of queries))
      else if str_eq kind "or"
      then (conditions >>= λ queries. ok (any_of queries))
      else if str_eq kind "not"
      then (condition >>= λ query. ok (must_not query))
      else err (unsupported_compound kind)

  unfoldable mutual
    pub translate_filter : FilterExpr → Result Error Json
    translate_filter (expr c conditions condition) =
        let parts = translate_conditions conditions in
        let part = translate_condition condition in
        if is_simple_condition c
        then translate_simple_condition c
        else if is_compound_condition c
        then compound c.kind parts part
        else err invalid_filter

    pub translate_conditions : Filters → Result Error Items
    translate_conditions Filters.nil = ok Items.nil
    translate_conditions (Filters.cons f fs) = translate_filter f >>= λ query.
        translate_conditions fs >>= λ queries. ok (Items.cons query queries)

    pub translate_condition : MaybeFilter → Result Error Json
    translate_condition absent = err not_without_condition
    translate_condition (present f) = translate_filter f
