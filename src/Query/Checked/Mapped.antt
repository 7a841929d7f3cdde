-- ===== src/Query/Checked/Mapped.antt =====
-- Every field that an accepted query names is a field of the mapping.
use telhawk_stack.Prelude.{
  String, Bool, true, ◌&&◌, ◌||◌, some, List, [], ◌∷◌, ◌++◌, all, str_eq, if◌then◌else◌, ◌≡◌, refl,
  arith,
}
use telhawk_stack.Prelude.Keys.{all-any}
use telhawk_stack.Prelude.Result.{ok}
use telhawk_stack.Fields as MappedFields
use telhawk_stack.Query.Model.{
  FilterExpr, expr, Filters, MaybeFilter, absent, present, SortSpec, Aggregation, agg, Aggregations,
  Query, is_simple_condition, is_compound_condition,
}
use telhawk_stack.Query.Validator.{validate}
use telhawk_stack.Query.Validator.Limits.{QueryValidator}
use telhawk_stack.Query.Validator.Fields.{
  insert, insert_all, insert_sorts, collect_filter_fields, collect_conditions, collect_maybe,
  collect_aggregation_fields, collect_aggregations, collect_fields,
}

module _ (p : String → Bool) where
  -- The field is left out, or it is the whole event, or it has the property.
  abbrev pub allowed : String → Bool
  allowed field = str_eq field "" || str_eq field "." || p field

  abbrev pub sorts_allowed : List SortSpec → Bool
  sorts_allowed ss = all (λ (s : SortSpec). allowed s.field) ss

  -- The fields of the conditions in a filter, at every depth.
  unfoldable mutual
    pub filter_allowed : FilterExpr → Bool
    filter_allowed (expr c conditions condition) =
        let parts = conditions_allowed conditions && condition_allowed condition in
        if is_simple_condition c
        then allowed c.field
        else if is_compound_condition c
        then parts
        else true

    pub conditions_allowed : Filters → Bool
    conditions_allowed Filters.nil = true
    conditions_allowed (Filters.cons f fs) = filter_allowed f && conditions_allowed fs

    pub condition_allowed : MaybeFilter → Bool
    condition_allowed absent = true
    condition_allowed (present f) = filter_allowed f

  unfoldable mutual
    pub aggregation_allowed : Aggregation → Bool
    aggregation_allowed (agg a nested) =
        allowed a.field && sorts_allowed a.top_hits_sort && aggregations_allowed nested

    pub aggregations_allowed : Aggregations → Bool
    aggregations_allowed Aggregations.nil = true
    aggregations_allowed (Aggregations.cons a as') =
        aggregation_allowed a && aggregations_allowed as'

  -- Every field that the query names: in its projection, filter, aggregations and sort.
  unfoldable pub query_allowed : Query → Bool
  query_allowed q =
      all allowed q.select
      && condition_allowed q.filter
      && aggregations_allowed q.aggregations
      && sorts_allowed q.sort

  -- Each collector is read backwards: what holds of all the fields collected holds of those that
  -- were there before and of those that the part names.
  all_append :
      (set : List String) (field : String)
      → all p (set ++ field ∷ []) ≡ true
      → (all p set ≡ true) × (p field ≡ true)
  all_append [] field h = ground arith
  all_append (x ∷ set) field h = ground (arith, all_append set field)

  insert_back :
      (field : String) (set : List String)
      → all p (insert field set) ≡ true
      → (all p set ≡ true) × (allowed field ≡ true)
  insert_back field set h = ground (arith, all-any p field set, all_append set field)

  insert_all_back :
      (fields set : List String)
      → all p (insert_all fields set) ≡ true
      → (all p set ≡ true) × (all allowed fields ≡ true)
  unfolding insert_all
  insert_all_back [] set h = (h, refl)
  insert_all_back (field ∷ fields) set h =
      let (earlier, later) = insert_all_back fields (insert field set) h in
      let (old, new) = insert_back field set earlier in (old, rw (new, later))

  insert_sorts_back :
      (ss : List SortSpec) (set : List String)
      → all p (insert_sorts ss set) ≡ true
      → (all p set ≡ true) × (sorts_allowed ss ≡ true)
  unfolding insert_sorts
  insert_sorts_back [] set h = (h, refl)
  insert_sorts_back (s ∷ ss) set h =
      let (earlier, later) = insert_sorts_back ss (insert s.field set) h in
      let (old, new) = insert_back s.field set earlier in (old, rw (new, later))

  mutual
    unfolding collect_filter_fields filter_allowed

    filter_back :
        (f : FilterExpr) (set : List String)
        → all p (collect_filter_fields f set) ≡ true
        → (all p set ≡ true) × (filter_allowed f ≡ true)
    filter_back (expr c conditions condition) set h = ground (
      arith,
      insert_back c.field set,
      condition_back condition (collect_conditions conditions set),
      conditions_back conditions set,
    )

    conditions_back :
        (fs : Filters) (set : List String)
        → all p (collect_conditions fs set) ≡ true
        → (all p set ≡ true) × (conditions_allowed fs ≡ true)
    conditions_back Filters.nil set h = (h, refl)
    conditions_back (Filters.cons f fs) set h =
        let (earlier, later) = conditions_back fs (collect_filter_fields f set) h in
        let (old, new) = filter_back f set earlier in (old, rw (new, later))

    condition_back :
        (m : MaybeFilter) (set : List String)
        → all p (collect_maybe m set) ≡ true
        → (all p set ≡ true) × (condition_allowed m ≡ true)
    condition_back absent set h = (h, refl)
    condition_back (present f) set h = filter_back f set h

  mutual
    unfolding collect_aggregation_fields aggregation_allowed

    aggregation_back :
        (a : Aggregation) (set : List String)
        → all p (collect_aggregation_fields a set) ≡ true
        → (all p set ≡ true) × (aggregation_allowed a ≡ true)
    aggregation_back (agg a nested) set h =
        let (earlier, below) =
          aggregations_back nested (insert_sorts a.top_hits_sort (insert a.field set)) h in
        let (before, sorts) = insert_sorts_back a.top_hits_sort (insert a.field set) earlier in
        let (old, new) = insert_back a.field set before in (old, rw (new, sorts, below))

    aggregations_back :
        (as' : Aggregations) (set : List String)
        → all p (collect_aggregations as' set) ≡ true
        → (all p set ≡ true) × (aggregations_allowed as' ≡ true)
    aggregations_back Aggregations.nil set h = (h, refl)
    aggregations_back (Aggregations.cons a as') set h =
        let (earlier, later) = aggregations_back as' (collect_aggregation_fields a set) h in
        let (old, new) = aggregation_back a set earlier in (old, rw (new, later))

  collect_back : (q : Query) → all p (collect_fields q) ≡ true → query_allowed q ≡ true
  unfolding collect_fields query_allowed
  collect_back q h =
      let (in_aggs, sorts) = insert_sorts_back q.sort _ h in
      let (in_filter, aggs) = aggregations_back q.aggregations _ in_aggs in
      let (in_select, filter) = condition_back q.filter _ in_filter in
      let (none, select) = insert_all_back q.select [] in_select in rw (select, filter, aggs, sorts)

all-validate_fields :
    (paths : List String)
    → MappedFields.validate_fields paths ≡ []
    → all MappedFields.is_valid_field paths ≡ true
unfolding MappedFields.validate_fields
all-validate_fields [] h = refl
all-validate_fields (path ∷ paths) h = ground (arith, all-validate_fields paths)

-- With the mapping check on, an accepted query names only fields that `IsValidField` knows, besides
-- "" and ".": in its projection, in the conditions of its filter at every depth, in its aggregations
-- and those nested in them, and in its sort specifications.
pub query_allowed-validate :
    (compiles : String → Bool) (v : QueryValidator) (q : Query)
    → v.validate_field_mappings ≡ true
    → validate compiles v (some q) ≡ ok tt
    → query_allowed MappedFields.is_valid_field q ≡ true
unfolding validate
query_allowed-validate compiles v q m h =
    collect_back MappedFields.is_valid_field q
      (all-validate_fields (collect_fields q) (ground arith))
