-- ===== src/Query/Meaning.antt =====
-- What a filter means for one event, and what OpenSearch makes of its translation. `leaf` stands for
-- OpenSearch's answer to a query that is no bool query (term, match, range, wildcard and so on).
mod Operators
pub mod Agrees
use telhawk_stack.Prelude.{
  ℕ, String, Bool, true, false, not, ◌&&◌, ◌||◌, List, [], ◌∷◌, all, any, Option, none, some,
  str_eq, if◌then◌else◌,
}
use telhawk_stack.Prelude.Result.{Result, ok, err}
use telhawk_stack.Query.Json.{
  Json, null, bool, int, float, text, arr, obj, Items, Members, end, member, single,
}
use telhawk_stack.Query.Model.{
  Condition, FilterExpr, expr, Filters, MaybeFilter, absent, present, is_simple_condition,
  is_compound_condition,
}
use telhawk_stack.Query.Validator.Filters.{no_filters}
use telhawk_stack.Query.Translator.Names.{translate_field_path, should_use_term_query}
use telhawk_stack.Query.Translator.Filters.{Error, by_operator, is_true}

abbrev pub same : Bool → Bool
same b = b

-- Whether there is no answer.
abbrev pub none_asked : List Bool → Bool
none_asked [] = true
none_asked (b ∷ bs) = false

-- A clause of a bool query, by the answers to the queries that it holds. A `should` list that is empty
-- asks for nothing: OpenSearch takes no more for minimum_should_match than there are queries, and
-- makes a bool query without any query a match_all.
abbrev pub clause_holds : String → List Bool → Bool
clause_holds clause answers =
    if str_eq clause "must"
    then all same answers
    else if str_eq clause "must_not"
    then not (any same answers)
    else if str_eq clause "should"
    then none_asked answers || any same answers
    else true

module _ (leaf : Json → Bool) where
  -- The answers to a query, or to each query of a list: for a bool query whether all its clauses
  -- hold. A `should` clause counts in full, since the translator asks for one match at least.
  unfoldable mutual
    pub answers : Json → List Bool
    answers (arr queries) = answers_of_items queries
    answers (obj (member key (obj clauses) end)) =
        let inner = answers_of_clauses clauses in
        (if str_eq key "bool" then inner else leaf (single key (obj clauses))) ∷ []
    answers query = leaf query ∷ []

    pub answers_of_items : Items → List Bool
    answers_of_items Items.nil = []
    answers_of_items (Items.cons query queries) =
        all same (answers query) ∷ answers_of_items queries

    pub answers_of_clauses : Members → Bool
    answers_of_clauses end = true
    answers_of_clauses (member clause query rest) =
        clause_holds clause (answers query) && answers_of_clauses rest

  -- OpenSearch's answer to a query.
  unfoldable pub matches : Json → Bool
  matches query = all same (answers query)

  -- `ne` and `exists` with a value other than true are the negations of `eq` and of `exists` with
  -- the value true.
  abbrev pub is_negated : String → Json → Bool
  is_negated op value = str_eq op "ne" || str_eq op "exists" && not (is_true value)

  abbrev pub positive_op : String → String
  positive_op op = if str_eq op "ne" then "eq" else op

  abbrev pub positive_value : String → Json → Json
  positive_value op value = if str_eq op "exists" then bool true else value

  abbrev pub answer : Result Error Json → Bool
  answer (ok query) = leaf query
  answer (err e) = false

  module _ (sprint : Json → String) where
    -- A condition on a field: one question to OpenSearch, or the negation of one.
    abbrev pub holds_condition : String → String → Json → Bool
    holds_condition op field value =
        let asked = answer (by_operator sprint (positive_op op) field (positive_value op value)) in
        if is_negated op value then not asked else asked

    -- The meaning of a filter: conjunction, disjunction and negation over conditions.
    unfoldable mutual
      pub holds : FilterExpr → Bool
      holds (expr c conditions condition) =
          let every = holds_all conditions in
          let one = holds_any conditions in
          let negated = not (holds_maybe condition) in
          if is_simple_condition c
          then holds_condition c.operator (translate_field_path c.field) c.value
          else if str_eq c.kind "and"
          then every
          else if str_eq c.kind "or"
          then one
          else negated

      pub holds_all : Filters → Bool
      holds_all Filters.nil = true
      holds_all (Filters.cons f fs) = holds f && holds_all fs

      pub holds_any : Filters → Bool
      holds_any Filters.nil = false
      holds_any (Filters.cons f fs) = holds f || holds_any fs

      pub holds_maybe : MaybeFilter → Bool
      holds_maybe absent = true
      holds_maybe (present f) = holds f

-- No disjunction in the filter, at any depth, is empty.
unfoldable mutual
  pub no_empty_or : FilterExpr → Bool
  no_empty_or (expr c conditions condition) =
      let parts = no_empty_ors conditions in
      let part = no_empty_or_in condition in
      not (str_eq c.kind "or" && no_filters conditions) && (parts && part)

  pub no_empty_ors : Filters → Bool
  no_empty_ors Filters.nil = true
  no_empty_ors (Filters.cons f fs) = no_empty_or f && no_empty_ors fs

  pub no_empty_or_in : MaybeFilter → Bool
  no_empty_or_in absent = true
  no_empty_or_in (present f) = no_empty_or f
