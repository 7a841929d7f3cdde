-- ===== src/Query/Validator/Fields.antt =====
-- The field paths of a query (`collectFields`). The set is a list without repetition, in the order
-- in which the paths are met; the order of the program's result is that of a Go map.
use telhawk_stack.Prelude.{String, ◌||◌, List, [], ◌∷◌, ◌++◌, any, str_eq, if◌then◌else◌}
use telhawk_stack.Query.Model.{
  FilterExpr, expr, Filters, MaybeFilter, absent, present, SortSpec, Aggregation, agg, Aggregations,
  Query, is_simple_condition, is_compound_condition,
}

-- `fieldSet[field] = struct{}{}`, for a field that is neither "" nor ".".
abbrev pub insert : String → List String → List String
insert field set =
    if str_eq field "" || str_eq field "." || any (str_eq field) set then set else set ++ field ∷ []

unfoldable pub insert_all : List String → List String → List String
insert_all [] set = set
insert_all (field ∷ fields) set = insert_all fields (insert field set)

unfoldable pub insert_sorts : List SortSpec → List String → List String
insert_sorts [] set = set
insert_sorts (s ∷ ss) set = insert_sorts ss (insert s.field set)

unfoldable mutual
  pub collect_filter_fields : FilterExpr → List String → List String
  collect_filter_fields (expr c conditions condition) set =
      let deeper = collect_maybe condition (collect_conditions conditions set) in
      if is_simple_condition c
      then insert c.field set
      else if is_compound_condition c
      then deeper
      else set

  pub collect_conditions : Filters → List String → List String
  collect_conditions Filters.nil set = set
  collect_conditions (Filters.cons f fs) set = collect_conditions fs (collect_filter_fields f set)

  pub collect_maybe : MaybeFilter → List String → List String
  collect_maybe absent set = set
  collect_maybe (present f) set = collect_filter_fields f set

unfoldable mutual
  unfolding insert_sorts

  pub collect_aggregation_fields : Aggregation → List String → List String
  collect_aggregation_fields (agg a nested) set =
      collect_aggregations nested (insert_sorts a.top_hits_sort (insert a.field set))

  pub collect_aggregations : Aggregations → List String → List String
  collect_aggregations Aggregations.nil set = set
  collect_aggregations (Aggregations.cons a as') set =
      collect_aggregations as' (collect_aggregation_fields a set)

unfoldable pub collect_fields : Query → List String
unfolding insert_all insert_sorts collect_filter_fields collect_aggregation_fields
collect_fields q =
    insert_sorts q.sort
      (collect_aggregations q.aggregations (collect_maybe q.filter (insert_all q.select [])))
