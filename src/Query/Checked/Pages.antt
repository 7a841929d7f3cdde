-- ===== src/Query/Checked/Pages.antt =====
-- The page that OpenSearch is asked for.
use telhawk_stack.Prelude.{
  ℕ, ℤ, pos, ◌≤ℤ◌, ◌≤◌, ltb_ℤ, String, Bool, Option, none, some, List, [], ◌∷◌, str_eq,
  if◌then◌else◌, ◌≡◌, ◌≢◌, refl, inl, inr, subst, arith, eq_iff, Bool-cases,
}
use telhawk_stack.Prelude.Result.{ok, Result-cases}
use telhawk_stack.Query.Json.{Json, int, Members, end, member}
use telhawk_stack.Query.Model.{Aggregations, Query}
use telhawk_stack.Query.Validator.{validate, validate_pagination}
use telhawk_stack.Query.Validator.Limits.{QueryValidator}
use telhawk_stack.Query.Translator.{
  translate, source_part, from_part, page_size, query_part, aggs_part,
}
use telhawk_stack.Query.Translator.Aggs.{sort_or_default, build_aggregations}

-- The value of a member of an object.
abbrev pub member_at : String → Members → Option Json
member_at key end = none
member_at key (member k v ms) = if str_eq k key then some v else member_at key ms

module _ (sprint : Json → String) (now : ℕ) where
  aggs_only :
      (as' : Aggregations) (aggs : Members)
      → aggs_part sprint now as' ≡ ok aggs
      → member_at "from" aggs ≡ none
  aggs_only Aggregations.nil aggs e = ground (arith, e)
  aggs_only (Aggregations.cons a as') aggs e =
      elim (Result-cases (build_aggregations (Aggregations.cons a as') end)) [
        | inl p ↦ ground (arith, p.1, e)
        | inr p ↦ ground (arith, p.1, e)
      ]

  -- What the translation of a query asks for: a number of results, and where to start.
  abbrev Asks : Query → Members → Type 0
  Asks q dsl =
      (member_at "size" dsl ≡ some (int (page_size sprint now q.limit)))
      × (member_at "from" dsl ≡ (if ltb_ℤ (pos 0) q.offset then some (int q.offset) else none))

  built-Asks :
      (q : Query) (query : Json) (select : List String) (aggs : Members)
      → member_at "from" aggs ≡ none
      → Asks q (
          member "query" query (
            source_part sprint now select (
              member "sort" (sort_or_default q.sort) (
                member "size"
                  (int (page_size sprint now q.limit))
                  (from_part sprint now q.offset aggs)))))
  built-Asks q query [] aggs e = elim (Bool-cases (ltb_ℤ (pos 0) q.offset)) [
    | inl later ↦ rw later (refl, refl)
    | inr first ↦ rw first (refl, e)
  ]
  built-Asks q query (f ∷ fs) aggs e = elim (Bool-cases (ltb_ℤ (pos 0) q.offset)) [
    | inl later ↦ rw later (refl, refl)
    | inr first ↦ rw first (refl, e)
  ]

  translate-Asks : (q : Query) (dsl : Members) → translate sprint now q ≡ ok dsl → Asks q dsl
  unfolding translate
  translate-Asks q dsl h = elim (Result-cases (query_part sprint now q.filter q.time_range)) [
    | inr p ↦ ground (arith, p.1, h)
    | inl p ↦ elim (Result-cases (aggs_part sprint now q.aggregations)) [
      | inr r ↦ ground (arith, p.1, r.1, h)
      | inl r ↦
          let body : Members = member "query" p.0 (
            source_part sprint now q.select (
              member "sort" (sort_or_default q.sort) (
                member "size" (int (page_size sprint now q.limit))
                  (from_part sprint now q.offset r.0)))) in
          subst (Asks q) {x = body} {y = dsl} (ground (arith, p.1, r.1, h))
            (built-Asks q p.0 q.select r.0 (aggs_only q.aggregations r.0 r.1))
    ]
  ]

module _ (compiles : String → Bool) (v : QueryValidator) (sprint : Json → String) (now : ℕ) where
  -- The translation of an accepted query has a size of at least 1, which is the query's limit where
  -- that is positive, and at most `max_result_size` where the query has no cursor and the limit
  -- allows the default of 100; it has the query's offset as its start exactly if that is positive,
  -- and no start where the query has a cursor.
  pub page-translate :
      (q : Query) (dsl : Members)
      → 100 ≤ v.max_result_size
      → validate compiles v (some q) ≡ ok tt
      → translate sprint now q ≡ ok dsl
      → (size : ℤ) × (member_at "size" dsl ≡ some (int size))
        × (pos 1 ≤ℤ size)
        × (pos 1 ≤ℤ q.limit → size ≡ q.limit)
        × (q.cursor ≡ "" → size ≤ℤ pos v.max_result_size)
        × (member_at "from" dsl ≡ (if ltb_ℤ (pos 0) q.offset then some (int q.offset) else none))
        × (q.cursor ≢ "" → member_at "from" dsl ≡ none)
  unfolding validate validate_pagination
  page-translate q dsl l h e =
      let asks = translate-Asks sprint now q dsl e in
      (
        page_size sprint now q.limit,
        asks.0,
        ground arith,
        ground arith,
        ground (arith, h, eq_iff q.cursor ""),
        asks.1,
        λ c. ground (arith, h, c, asks.1, eq_iff q.cursor ""),
      )
