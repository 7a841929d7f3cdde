-- ===== src/Query/Meaning/Agrees.antt =====
-- The translation of a filter means what the filter means.
use telhawk_stack.Prelude.{
  String, Bool, true, false, ◌&&◌, ◌||◌, List, [], ◌∷◌, all, any, not, subst, str_eq, ◌≡◌, refl, ap,
  ◌∙◌, arith, if◌then◌else◌,
}
use telhawk_stack.Prelude.Result.{Result, ok, err, ◌>>=◌}
use telhawk_stack.Query.Json.{Json, Items}
use telhawk_stack.Query.Model.{Condition, FilterExpr, expr, Filters, MaybeFilter, absent, present}
use telhawk_stack.Query.Validator.Path.{is_valid_operator}
use telhawk_stack.Query.Translator.Names.{translate_field_path}
use telhawk_stack.Query.Translator.Filters.{
  Error, unsupported_operator, invalid_filter, compound, all_of, any_of, must_not, by_operator,
  translate_simple_condition, translate_filter, translate_conditions, translate_condition,
}
use telhawk_stack.Query.Meaning.{
  same, answers, answers_of_items, matches, holds_condition, holds, holds_all, holds_any,
  holds_maybe, none_asked, no_empty_or, no_empty_ors, no_empty_or_in,
}
use telhawk_stack.Query.Validator.Filters.{no_filters}
use telhawk_stack.Query.Safe.Chain.{skip}
use telhawk_stack.Query.Meaning.Operators.{operator_cases}

module _ (leaf : Json → Bool) (sprint : Json → String) where
  -- OpenSearch has the one answer `expected` to the query, if there is one.
  abbrev Agrees : Result Error Json → Bool → Type 0
  Agrees (ok query) expected = answers leaf query ≡ expected ∷ []
  Agrees (err e) expected = Unit {0}

  abbrev OperatorAgrees : String → Type 0
  OperatorAgrees op =
      (field : String) (value : Json)
      → Agrees (by_operator sprint op field value) (holds_condition leaf sprint op field value)

  by_operator_unsupported :
      (op field : String) (value : Json)
      → is_valid_operator op ≡ false
      → by_operator sprint op field value ≡ err (unsupported_operator op)
  unfolding is_valid_operator
  by_operator_unsupported op field value = skip (str_eq op "eq") _ _ _ _ (
      skip (str_eq op "ne") _ _ _ _ (
        skip (str_eq op "gt") _ _ _ _ (
          skip (str_eq op "gte") _ _ _ _ (
            skip (str_eq op "lt") _ _ _ _ (
              skip (str_eq op "lte") _ _ _ _ (
                skip (str_eq op "in") _ _ _ _ (
                  skip (str_eq op "contains") _ _ _ _ (
                    skip (str_eq op "startsWith") _ _ _ _ (
                      skip (str_eq op "endsWith") _ _ _ _ (
                        skip (str_eq op "regex") _ _ _ _ (
                          skip (str_eq op "exists") _ _ _ _
                            (skip (str_eq op "cidr") _ _ _ _ (λ h. refl)))))))))))))

  other_agrees : (op : String) → is_valid_operator op ≡ false → OperatorAgrees op
  other_agrees op h field value = rw (by_operator_unsupported op field value h) tt

  operator_agrees : (op : String) → OperatorAgrees op
  unfolding answers
  operator_agrees =
      operator_cases OperatorAgrees (λ field value. ground arith) (λ field value. ground arith)
        (λ field value. ground arith) (λ field value. ground arith) (λ field value. ground arith)
        (λ field value. ground arith) (λ field value. ground arith) (λ field value. ground arith)
        (λ field value. ground arith) (λ field value. ground arith) (λ field value. ground arith)
        (λ field value. ground arith) (λ field value. ground arith) other_agrees

  simple-Agrees :
      (c : Condition)
      → Agrees
          (translate_simple_condition sprint c)
          (holds_condition leaf sprint c.operator (translate_field_path c.field) c.value)
  unfolding translate_simple_condition
  simple-Agrees c = operator_agrees c.operator (translate_field_path c.field) c.value

  -- The answers to a list of queries, if there is one, and whether the list is empty.
  abbrev AllAgree : Result Error Items → Bool → Bool → Bool → Type 0
  AllAgree (ok queries) every one empty =
      (all same (answers_of_items leaf queries) ≡ every)
      × (any same (answers_of_items leaf queries) ≡ one)
      × (none_asked (answers_of_items leaf queries) ≡ empty)
  AllAgree (err e) every one empty = Unit {0}

  one_clause : (b c : Bool) → b ≡ c → ◌≡◌ {A = List Bool} ((b && true) ∷ []) (c ∷ [])
  one_clause true c h = ap (λ (x : Bool). x ∷ []) h
  one_clause false c h = ap (λ (x : Bool). x ∷ []) h

  all_of_agrees :
      (qs : Items) (every : Bool)
      → all same (answers_of_items leaf qs) ≡ every
      → answers leaf (all_of sprint qs) ≡ every ∷ []
  unfolding answers
  all_of_agrees qs every h = one_clause (all same (answers_of_items leaf qs)) every h

  any_of_agrees :
      (qs : Items) (one : Bool)
      → any same (answers_of_items leaf qs) ≡ one
      → none_asked (answers_of_items leaf qs) ≡ false
      → answers leaf (any_of sprint qs) ≡ one ∷ []
  unfolding answers
  any_of_agrees qs one h some_asked =
      rw some_asked (one_clause (any same (answers_of_items leaf qs)) one h)

  must_not_agrees :
      (q : Json) (inner : Bool)
      → answers leaf q ≡ inner ∷ []
      → answers leaf (must_not q) ≡ not inner ∷ []
  unfolding answers
  must_not_agrees q true h = rw h
  must_not_agrees q false h = rw h

  switch-Agrees :
      (a o n : Bool) (x y z w : Result Error Json) (every one inner : Bool)
      → Agrees x every
      → (o ≡ true → Agrees y one)
      → Agrees z (not inner)
      → ((b : Bool) → Agrees w b)
      → Agrees
          (if a then x else if o then y else if n then z else w)
          (if a then every else if o then one else not inner)
  switch-Agrees true o n x y z w every one inner hx hy hz hw = hx
  switch-Agrees false true n x y z w every one inner hx hy hz hw = hy refl
  switch-Agrees false false true x y z w every one inner hx hy hz hw = hz
  switch-Agrees false false false x y z w every one inner hx hy hz hw = hw (not inner)

  is_false : {a b : Bool} → (a && b) ≡ false → a ≡ true → b ≡ false
  is_false n e = ground (arith, n, e)

  compound-Agrees :
      (kind : String) (parts : Result Error Items) (part : Result Error Json)
      (every one inner empty : Bool)
      → (str_eq kind "or" && empty) ≡ false
      → AllAgree parts every one empty
      → Agrees part inner
      → Agrees
          (compound sprint kind parts part)
          (if str_eq kind "and" then every else if str_eq kind "or" then one else not inner)
  compound-Agrees kind (ok qs) (ok q) every one inner empty n h k =
      switch-Agrees (str_eq kind "and") (str_eq kind "or") (str_eq kind "not") _ _ _ _ _ _ _
        (all_of_agrees qs every h.0) (λ e. any_of_agrees qs one h.1 (h.2 ∙ is_false n e))
        (must_not_agrees q inner k) (λ b. tt)
  compound-Agrees kind (ok qs) (err e) every one inner empty n h k =
      switch-Agrees (str_eq kind "and") (str_eq kind "or") (str_eq kind "not") _ _ _ _ _ _ _
        (all_of_agrees qs every h.0) (λ e. any_of_agrees qs one h.1 (h.2 ∙ is_false n e)) tt
        (λ b. tt)
  compound-Agrees kind (err d) (ok q) every one inner empty n h k =
      switch-Agrees (str_eq kind "and") (str_eq kind "or") (str_eq kind "not") _ _ _ _ _ _ _ tt
        (λ e. tt) (must_not_agrees q inner k) (λ b. tt)
  compound-Agrees kind (err d) (err e) every one inner empty n h k =
      switch-Agrees (str_eq kind "and") (str_eq kind "or") (str_eq kind "not") _ _ _ _ _ _ _ tt
        (λ e. tt) tt (λ b. tt)

  cons-Agrees :
      (m : Result Error Json) (ms : Result Error Items) (b every one empty : Bool)
      → Agrees m b
      → AllAgree ms every one empty
      → AllAgree (m >>= λ q. ms >>= λ qs. ok (Items.cons q qs)) (b && every) (b || one) false
  unfolding answers
  cons-Agrees (ok q) (ok qs) true every one empty h k = rw h (k.0, refl, refl)
  cons-Agrees (ok q) (ok qs) false every one empty h k = rw h (refl, k.1, refl)
  cons-Agrees (ok q) (err e) b every one empty h k = tt
  cons-Agrees (err d) ms b every one empty h k = tt

  choose-Agrees :
      (simple compound : Bool) (x y : Result Error Json) (b c : Bool)
      → Agrees x b
      → Agrees y c
      → Agrees
          (if simple then x else if compound then y else err invalid_filter)
          (if simple then b else c)
  choose-Agrees true compound x y b c h k = h
  choose-Agrees false true x y b c h k = k
  choose-Agrees false false x y b c h k = tt

  single_answer : (b : Bool) → all same (b ∷ []) ≡ b
  single_answer true = refl
  single_answer false = refl

  both_true : (a b : Bool) → (a && b) ≡ true → (a ≡ true) × (b ≡ true)
  both_true a b h = (ground (arith, h), ground (arith, h))

  no_empty_parts :
      (a b c : Bool) → (not a && (b && c)) ≡ true → (a ≡ false) × (b ≡ true) × (c ≡ true)
  no_empty_parts a b c h = (ground (arith, h), ground (arith, h), ground (arith, h))

  mutual
    unfolding translate_filter holds answers no_empty_or

    filter-Agrees :
        (f : FilterExpr)
        → no_empty_or f ≡ true
        → Agrees (translate_filter sprint f) (holds leaf sprint f)
    filter-Agrees (expr c conditions condition) n =
        let parts = no_empty_parts _ _ _ n in
        choose-Agrees _ _ _ _ _ _ (simple-Agrees c) (
          compound-Agrees c.kind (translate_conditions sprint conditions)
            (translate_condition sprint condition) _ _ _ _ parts.0
            (conditions_agree conditions parts.1) (condition-Agrees condition parts.2))

    conditions_agree :
        (fs : Filters)
        → no_empty_ors fs ≡ true
        → AllAgree
            (translate_conditions sprint fs)
            (holds_all leaf sprint fs)
            (holds_any leaf sprint fs)
            (no_filters fs)
    conditions_agree Filters.nil n = (refl, refl, refl)
    conditions_agree (Filters.cons f fs) n =
        let parts = both_true _ _ n in
        cons-Agrees (translate_filter sprint f) (translate_conditions sprint fs) _ _ _ _
          (filter-Agrees f parts.0) (conditions_agree fs parts.1)

    condition-Agrees :
        (m : MaybeFilter)
        → no_empty_or_in m ≡ true
        → Agrees (translate_condition sprint m) (holds_maybe leaf sprint m)
    condition-Agrees absent n = tt
    condition-Agrees (present f) n = filter-Agrees f n

  -- Where no disjunction in a filter is empty, OpenSearch answers the translated filter with the
  -- filter's meaning: conjunctions, disjunctions and negations go to bool queries that say the same,
  -- at every depth, and `ne` and `exists: false` are the negations of `eq` and `exists: true`.
  pub matches-translate_filter :
      (f : FilterExpr) (query : Json)
      → no_empty_or f ≡ true
      → translate_filter sprint f ≡ ok query
      → matches leaf query ≡ holds leaf sprint f
  unfolding matches
  matches-translate_filter f query n h =
      rw (subst (λ r. Agrees r (holds leaf sprint f)) h (filter-Agrees f n)) (single_answer _)
