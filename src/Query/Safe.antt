-- ===== src/Query/Safe.antt =====
-- A query that the validator accepts is one that the translator translates.
pub mod Chain
pub mod Filters
pub mod Aggs
use telhawk_stack.Prelude.{ℕ, String, Bool, none, some, ◌≡◌, arith}
use telhawk_stack.Prelude.Result.{ok, IsOk, IsOk-value, IsOk-bind, IsOk-of_eq}
use telhawk_stack.Query.Json.{Json, Members}
use telhawk_stack.Query.Model.{MaybeFilter, absent, present, Aggregations, Query}
use telhawk_stack.Query.Validator.{validate, check_filter}
use telhawk_stack.Query.Validator.Limits.{QueryValidator}
use telhawk_stack.Query.Validator.Filters.{validate_filter}
use telhawk_stack.Query.Validator.Aggs.{validate_aggregations, check_all}
use telhawk_stack.Query.Translator.{
  build_bool_query, translate, maybe_filter, query_part, aggs_part,
}
use Filters.{filter_translates}
use Aggs.{aggregations_translate}

module _ (compiles : String → Bool) (v : QueryValidator) (sprint : Json → String) (now : ℕ) where
  maybe_translates :
      (m : MaybeFilter) → IsOk (check_filter compiles v m) → IsOk (maybe_filter sprint now m)
  unfolding validate_filter
  maybe_translates absent h = tt
  maybe_translates (present f) h = ground (arith, filter_translates compiles v sprint f 0)

  query_translates :
      (q : Query)
      → IsOk (check_filter compiles v q.filter)
      → IsOk (query_part sprint now q.filter q.time_range)
  unfolding build_bool_query
  query_translates q h = ground (arith, maybe_translates q.filter)

  aggs_translate :
      (as' : Aggregations) → IsOk (validate_aggregations v as') → IsOk (aggs_part sprint now as')
  unfolding validate_aggregations
  aggs_translate Aggregations.nil h = tt
  aggs_translate (Aggregations.cons a as') h =
      ground (arith, aggregations_translate v (Aggregations.cons a as') 0 Members.end)

  -- Whatever the mapping check says of fields, a query that `Validate` accepts is translated:
  -- `Translate` returns its result, and no error, for every query that `Validate` accepts.
  pub translate-validate :
      (q : Query)
      → validate compiles v (some q) ≡ ok tt
      → (dsl : Members) × (translate sprint now q ≡ ok dsl)
  unfolding validate translate
  translate-validate q h =
      IsOk-value _ (ground (arith, query_translates q, aggs_translate q.aggregations))
