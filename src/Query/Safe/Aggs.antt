-- ===== src/Query/Safe/Aggs.antt =====
-- Aggregations that pass their checks are translated.
use telhawk_stack.Prelude.{ℕ, ◌+◌, true, str_eq, ◌≡◌, arith}
use telhawk_stack.Prelude.Result.{IsOk, IsOk-bind, IsOk-seq, IsOk-wrap}
use telhawk_stack.Query.Json.{Members, obj, put}
use telhawk_stack.Query.Model.{AggSpec, Aggregation, agg, Aggregations}
use telhawk_stack.Query.Validator.Path.{is_valid_aggregation_type}
use telhawk_stack.Query.Validator.Limits.{QueryValidator}
use telhawk_stack.Query.Validator.Aggs.{check_aggregation, validate_aggregation, check_all}
use telhawk_stack.Query.Translator.Aggs.{
  aggregation_body, agg_name, translate_aggregation, build_aggregations,
}
use telhawk_stack.Query.Safe.Chain.{Succeeds, Succeeds-IsOk, pick, never}

body-Succeeds :
    (a : AggSpec) → is_valid_aggregation_type a.kind ≡ true → Succeeds (aggregation_body a)
unfolding aggregation_body is_valid_aggregation_type
body-Succeeds a = pick (str_eq a.kind "terms") _ _ _ (
    pick (str_eq a.kind "date_histogram") _ _ _ (
      pick (str_eq a.kind "avg") _ _ _ (
        pick (str_eq a.kind "sum") _ _ _ (
          pick (str_eq a.kind "min") _ _ _ (
            pick (str_eq a.kind "max") _ _ _ (
              pick (str_eq a.kind "stats") _ _ _ (
                pick (str_eq a.kind "cardinality") _ _ _
                  (pick (str_eq a.kind "top_hits") _ _ _ (never _)))))))))

body_translates : (a : AggSpec) → IsOk (check_aggregation a) → IsOk (aggregation_body a)
unfolding check_aggregation
body_translates a h = Succeeds-IsOk _ (body-Succeeds a (ground arith))

module _ (v : QueryValidator) where
  mutual
    unfolding validate_aggregation translate_aggregation

    pub aggregation_translates :
        (a : Aggregation) → IsOk (validate_aggregation v a) → IsOk (translate_aggregation a)
    aggregation_translates (agg a Aggregations.nil) h = ground (arith, body_translates a)
    aggregation_translates (agg a (Aggregations.cons b bs)) h =
        ground
          (arith, body_translates a, aggregations_translate (Aggregations.cons b bs) 0 Members.end)

    pub aggregations_translate :
        (as' : Aggregations) (i : ℕ) (result : Members)
        → IsOk (check_all v as' i)
        → IsOk (build_aggregations as' result)
    aggregations_translate Aggregations.nil i result h = tt
    aggregations_translate (Aggregations.cons a as') i result h =
        let (first, rest) = IsOk-seq _ (check_all v as' (i + 1)) h in
        IsOk-bind (translate_aggregation a) _ (aggregation_translates a (IsOk-wrap _ _ first))
          (λ body. aggregations_translate as' (i + 1) (put (agg_name a) (obj body) result) rest)
