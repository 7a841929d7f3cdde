-- ===== src/Fields/Examples.antt =====
-- Rules with valid and with invalid fields.
use telhawk_stack.Prelude.{ℕ, String, true, none, some, [], ◌∷◌, all, ◌≡◌, refl, ◌↔◌}
use telhawk_stack.Prelude.Text.{has_prefix}
use telhawk_stack.Prelude.Result.{ok, err}
use telhawk_stack.Query.Json.{nil, cons, Members, end, member, text, arr, obj}
use telhawk_stack.Fields.{is_valid_field, known, lookup}
use telhawk_stack.Fields.Table.{valid_fields}
use telhawk_stack.Fields.Rule.{
  validate_rule, validate_conditions, extract_fields, extract_conditions, is_aggregation_field,
}
use telhawk_stack.Fields.Rule.Agree.{validate_rule_lem, IsUndottedView}

-- The rule's only number is 0.
abbrev digit : ℕ → String
digit n = "0"

abbrev model_with : String → Members
model_with field =
    member "parameters"
      (obj (
        member "query"
          (obj (
            member "filter"
              (obj
                (member "conditions" (arr (cons (obj (member "field" (text field) end)) nil)) end))
              end))
          end))
      end

abbrev view : Members
view =
    member "fields_order" (arr (cons (text "src_endpoint.ip") (cons (text "event_count") nil))) end

rejected_test :
    validate_rule digit (some (model_with ".nowhere")) (some view) none
    ≡ err (
        record { path = ".nowhere"; location = "model.parameters.query.filter.conditions[0]" } ∷ [])
unfolding validate_rule validate_conditions is_aggregation_field is_valid_field known lookup
    valid_fields has_prefix
rejected_test = refl

extracted_test :
    extract_fields (some (model_with ".actor.user.name")) (some view) none
    ≡ ".actor.user.name" ∷ ".src_endpoint.ip" ∷ []
unfolding extract_fields extract_conditions is_aggregation_field has_prefix
extracted_test = refl

view_IsUndotted : IsUndottedView (some view)
unfolding has_prefix
view_IsUndotted = (refl, (refl, tt))

validate_rule_lem_example :
    validate_rule digit (some (model_with ".actor.user.name")) (some view) none ≡ ok tt
    ↔ all is_valid_field (extract_fields (some (model_with ".actor.user.name")) (some view) none)
      ≡ true
validate_rule_lem_example =
    validate_rule_lem digit (some (model_with ".actor.user.name")) (some view) none view_IsUndotted
