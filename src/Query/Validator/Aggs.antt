-- ===== src/Query/Validator/Aggs.antt =====
-- The checks of aggregations.
use telhawk_stack.Prelude.{
  ℕ, suc, ◌+◌, pos, ltb, ltb_ℤ, String, not, ◌||◌, List, [], ◌∷◌, str_eq, if◌then◌else◌,
}
use telhawk_stack.Prelude.Result.{ok, ◌>>◌, fail_if, wrap}
use telhawk_stack.Query.Model.{SortSpec, AggSpec, Aggregation, agg, Aggregations}
use telhawk_stack.Query.Validator.Path.{validate_field_path, is_valid_aggregation_type, is_order}
use telhawk_stack.Query.Validator.Limits.{QueryValidator}
use telhawk_stack.Query.Validator.Errors.{
  Check, invalid_field, too_many_aggregations, in_aggregation, unsupported_aggregation,
  empty_aggregation_name, terms_without_field, terms_size_not_positive, invalid_order_key,
  invalid_order_direction, histogram_without_field, histogram_without_interval,
  negative_top_hits_size, large_top_hits_size, in_top_hits_sort, invalid_top_hits_order, in_nested,
}

check_order : List (String × String) → Check
check_order [] = ok tt
check_order ((key, direction) ∷ rest) = do
  fail_if (not (str_eq key "_count" || str_eq key "_key")) (invalid_order_key key)
  fail_if (not (is_order direction)) (invalid_order_direction direction)
  check_order rest

check_top_hits_sort : List SortSpec → ℕ → Check
check_top_hits_sort [] i = ok tt
check_top_hits_sort (s ∷ ss) i = do
  wrap (λ e. in_top_hits_sort i (invalid_field e)) (validate_field_path s.field)
  fail_if (not (str_eq s.order "" || is_order s.order)) (invalid_top_hits_order i s.order)
  check_top_hits_sort ss (i + 1)

-- The switch on the aggregation's type.
check_by_type : AggSpec → Check
unfolding check_order check_top_hits_sort
check_by_type a =
    if str_eq a.kind "terms"
    then (do
      fail_if (str_eq a.field "") terms_without_field
      fail_if (not (ltb_ℤ (pos 0) a.size)) terms_size_not_positive
      check_order a.order)
    else if str_eq a.kind "date_histogram"
    then (do
      fail_if (str_eq a.field "") histogram_without_field
      fail_if (str_eq a.interval "") histogram_without_interval)
    else if str_eq a.kind "top_hits"
    then (do
      fail_if (ltb_ℤ a.top_hits_size (pos 0)) negative_top_hits_size
      fail_if (ltb_ℤ (pos 100) a.top_hits_size) large_top_hits_size
      check_top_hits_sort a.top_hits_sort 0)
    else ok tt

-- The checks of one aggregation but those of the nested ones.
unfoldable pub check_aggregation : AggSpec → Check
unfolding check_by_type
check_aggregation a = do
  fail_if (not (is_valid_aggregation_type a.kind)) (unsupported_aggregation a.kind)
  fail_if (str_eq a.name "") empty_aggregation_name
  if str_eq a.field "" then ok tt else wrap invalid_field (validate_field_path a.field)
  check_by_type a

abbrev pub count_aggregations : Aggregations → ℕ
count_aggregations Aggregations.nil = 0
count_aggregations (Aggregations.cons a as') = suc (count_aggregations as')

abbrev pub agg_name : Aggregation → String
agg_name (agg a nested) = a.name

module _ (v : QueryValidator) where
  abbrev check_count : Aggregations → Check
  check_count as' =
      fail_if (ltb v.max_aggregations (count_aggregations as'))
        (too_many_aggregations (count_aggregations as'))

  -- `check_all` is the loop of `validateAggregations`. An empty list passes the count and the loop,
  -- so that the test `len(agg.Aggregations) > 0` in front of the call needs no branch.
  unfoldable mutual
    pub validate_aggregation : Aggregation → Check
    validate_aggregation (agg a nested) =
        let deeper = check_all nested 0 in
        check_aggregation a >> wrap in_nested (check_count nested >> deeper)

    pub check_all : Aggregations → ℕ → Check
    check_all Aggregations.nil i = ok tt
    check_all (Aggregations.cons a as') i =
        wrap (in_aggregation i (agg_name a)) (validate_aggregation a) >> check_all as' (i + 1)

  unfoldable pub validate_aggregations : Aggregations → Check
  validate_aggregations as' = check_count as' >> check_all as' 0
