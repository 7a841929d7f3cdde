-- ===== src/Fields/Rule.antt =====
-- common/fields/validator.go: the field paths that a detection rule names. A map that is nil is
-- `none`, `decimal` is what %d writes.
use telhawk_stack.Prelude.{
  ℕ, zero, suc, ◌+◌, ◌-◌, ◌*◌, ◌≤◌, ◌<◌, ℤ, pos, negsuc, ltb_ℤ, eqb_ℤ, sub_ℕ, is_some, List-cases,
  eq_of_parts, pos_part, neg_part, String, Bool, true, false, not, ◌&&◌, ◌||◌, Option, none, some,
  List, [], ◌∷◌, ◌++◌, map, length, any, all, ltb, leb, ◌==◌, str_eq, if◌then◌else◌, ◌≡◌, refl, sym,
  ap, ◌∙◌, ◌⊎◌, inl, inr, ◌↔◌, arith, eq_iff, All, Any, length-append, subst, Bool-cases,
  Option-cases,
}
use telhawk_stack.Prelude.Text.{has_prefix, ◌++◌ as append}
use telhawk_stack.Prelude.Result.{Result, ok, err}
use telhawk_stack.Query.Json.{Json, Items, nil, cons, Members, end, member, text, obj, arr}
use telhawk_stack.Fields.{is_valid_field, with_dot}
pub mod Agree

pub record InvalidField : Type 0 where
  pub path : String
  pub location : String

-- m[key]
abbrev pub value_at : String → Members → Option Json
value_at key end = none
value_at key (member k v ms) = let rest = value_at key ms in if str_eq k key then some v else rest

-- v.(map[string]interface{}), v.([]interface{}) and v.(string)
abbrev pub as_members : Option Json → Option Members
as_members (some (obj ms)) = some ms
as_members _ = none

abbrev pub as_items : Option Json → Option Items
as_items (some (arr vs)) = some vs
as_items _ = none

abbrev pub as_text : Option Json → Option String
as_text (some (text s)) = some s
as_text _ = none

abbrev aggregation_fields : List String
aggregation_fields = "event_count" ∷ "distinct_count" ∷ "count" ∷ "sum" ∷ "avg" ∷ "min" ∷ "max" ∷ []

unfoldable pub is_aggregation_field : String → Bool
is_aggregation_field field = any (str_eq field) aggregation_fields

-- An error for the field where it is no field path that may be named.
abbrev pub checked : String → String → List InvalidField
checked location field =
    if is_valid_field field then [] else record { path = field; location = location } ∷ []

abbrev pub checked_text : String → Option String → List InvalidField
checked_text location none = []
checked_text location (some field) = checked location field

abbrev pub each_checked : String → Items → List InvalidField
each_checked location nil = []
each_checked location (cons v vs) =
    checked_text location (as_text (some v)) ++ each_checked location vs

abbrev pub all_checked : String → Option Items → List InvalidField
all_checked location none = []
all_checked location (some vs) = each_checked location vs

abbrev pub field_of : Members → Option String
field_of ms = as_text (value_at "field" ms)

abbrev pub parameters_of : Members → Option Members
parameters_of model = as_members (value_at "parameters" model)

abbrev filter_within : Option Members → Option Members
filter_within none = none
filter_within (some query) = as_members (value_at "filter" query)

abbrev pub query_filter : Members → Option Members
query_filter ms = filter_within (as_members (value_at "query" ms))

abbrev pub step_filter : Option Members → Option Members
step_filter none = none
step_filter (some step) = query_filter step

abbrev pub fields_order_of : Members → Option Items
fields_order_of view = as_items (value_at "fields_order" view)

-- The fields of the view have no leading dot.
abbrev pub checked_view_field : Option String → List InvalidField
checked_view_field none = []
checked_view_field (some field) =
    if is_aggregation_field field
    then []
    else if is_valid_field (append "." field)
    then []
    else record { path = field; location = "view.fields_order" } ∷ []

abbrev pub each_view_field : Items → List InvalidField
each_view_field nil = []
each_view_field (cons v vs) = checked_view_field (as_text (some v)) ++ each_view_field vs

abbrev pub all_view_fields : Option Items → List InvalidField
all_view_fields none = []
all_view_fields (some vs) = each_view_field vs

abbrev pub validate_view : Option Members → List InvalidField
validate_view none = []
validate_view (some view) = all_view_fields (fields_order_of view)

module _ (decimal : ℕ → String) where
  abbrev nth : String → String → ℕ → String
  nth location inside i = append location (append inside (append (decimal i) "]"))

  -- The loop of `validateFilter`, which looks for the conditions among the members.
  unfoldable mutual
    pub validate_conditions : Members → String → List InvalidField
    validate_conditions end location = []
    validate_conditions (member k v ms) location =
        let here = validate_value v location in
        let rest = validate_conditions ms location in if str_eq k "conditions" then here else rest

    pub validate_value : Json → String → List InvalidField
    validate_value (arr vs) location = validate_each vs 0 location
    validate_value _ location = []

    pub validate_each : Items → ℕ → String → List InvalidField
    validate_each nil i location = []
    validate_each (cons v vs) i location =
        validate_condition v (nth location ".conditions[" i) ++ validate_each vs (suc i) location

    pub validate_condition : Json → String → List InvalidField
    validate_condition (obj ms) location =
        checked_text location (field_of ms) ++ validate_conditions ms location
    validate_condition _ location = []

  abbrev pub validate_filter : Members → String → List InvalidField
  validate_filter filter location =
      checked_text location (field_of filter) ++ validate_conditions filter location

  abbrev pub validate_filter_of : String → Option Members → List InvalidField
  validate_filter_of location none = []
  validate_filter_of location (some filter) = validate_filter filter location

  abbrev pub validate_steps : ℕ → Items → List InvalidField
  validate_steps i nil = []
  validate_steps i (cons step steps) =
      validate_filter_of (append (nth "model.parameters.sequence" "[" i) ".query.filter")
        (step_filter (as_members (some step)))
      ++ validate_steps (suc i) steps

  abbrev pub validate_sequence : Option Items → List InvalidField
  validate_sequence none = []
  validate_sequence (some steps) = validate_steps 0 steps

  abbrev pub validate_parameters : Option Members → List InvalidField
  validate_parameters none = []
  validate_parameters (some params) =
      all_checked "model.parameters.group_by" (as_items (value_at "group_by" params))
      ++ (checked_text "model.parameters.field" (field_of params)
          ++ (validate_filter_of "model.parameters.query.filter" (query_filter params)
              ++ validate_sequence (as_items (value_at "sequence" params))))

  abbrev pub validate_model : Option Members → List InvalidField
  validate_model none = []
  validate_model (some model) = validate_parameters (parameters_of model)

  abbrev none_invalid : List InvalidField → Result (List InvalidField) (Unit {0})
  none_invalid [] = ok tt
  none_invalid (f ∷ fs) = err (f ∷ fs)

  unfoldable pub validate_rule :
      Option Members → Option Members → Option Members → Result (List InvalidField) (Unit {0})
  validate_rule model view controller = none_invalid (validate_model model ++ validate_view view)

-- fields[field] = true, where the fields are kept in the order in which they come.
abbrev pub put_field : String → List String → List String
put_field field fields = if any (str_eq field) fields then fields else fields ++ field ∷ []

abbrev pub put_text : Option String → List String → List String
put_text none fields = fields
put_text (some field) fields = put_field field fields

abbrev pub put_each : Items → List String → List String
put_each nil fields = fields
put_each (cons v vs) fields = put_each vs (put_text (as_text (some v)) fields)

abbrev pub put_all : Option Items → List String → List String
put_all none fields = fields
put_all (some vs) fields = put_each vs fields

-- The loop of `extractFieldsFromFilter`.
unfoldable mutual
  pub extract_conditions : Members → List String → List String
  extract_conditions end fields = fields
  extract_conditions (member k v ms) fields =
      let here = extract_value v fields in
      let rest = extract_conditions ms fields in if str_eq k "conditions" then here else rest

  pub extract_value : Json → List String → List String
  extract_value (arr vs) fields = extract_each vs fields
  extract_value _ fields = fields

  pub extract_each : Items → List String → List String
  extract_each nil fields = fields
  extract_each (cons v vs) fields = extract_each vs (extract_condition v fields)

  pub extract_condition : Json → List String → List String
  extract_condition (obj ms) fields = extract_conditions ms (put_text (field_of ms) fields)
  extract_condition _ fields = fields

abbrev pub extract_filter_of : Option Members → List String → List String
extract_filter_of none fields = fields
extract_filter_of (some filter) fields =
    extract_conditions filter (put_text (field_of filter) fields)

abbrev pub extract_steps : Items → List String → List String
extract_steps nil fields = fields
extract_steps (cons step steps) fields =
    extract_steps steps (extract_filter_of (step_filter (as_members (some step))) fields)

abbrev pub extract_sequence : Option Items → List String → List String
extract_sequence none fields = fields
extract_sequence (some steps) fields = extract_steps steps fields

abbrev pub extract_parameters : Option Members → List String → List String
extract_parameters none fields = fields
extract_parameters (some params) fields = extract_sequence (as_items (value_at "sequence" params)) (
    extract_filter_of (query_filter params)
      (put_text (field_of params) (put_all (as_items (value_at "group_by" params)) fields)))

abbrev pub extract_fields_from_model : Option Members → List String → List String
extract_fields_from_model none fields = fields
extract_fields_from_model (some model) fields = extract_parameters (parameters_of model) fields

abbrev pub put_view_field : Option String → List String → List String
put_view_field none fields = fields
put_view_field (some field) fields =
    if is_aggregation_field field then fields else put_field (with_dot field) fields

abbrev pub put_view_fields : Items → List String → List String
put_view_fields nil fields = fields
put_view_fields (cons v vs) fields = put_view_fields vs (put_view_field (as_text (some v)) fields)

abbrev pub put_fields_order : Option Items → List String → List String
put_fields_order none fields = fields
put_fields_order (some vs) fields = put_view_fields vs fields

abbrev pub extract_fields_from_view : Option Members → List String → List String
extract_fields_from_view none fields = fields
extract_fields_from_view (some view) fields = put_fields_order (fields_order_of view) fields

unfoldable pub extract_fields : Option Members → Option Members → Option Members → List String
extract_fields model view controller =
    extract_fields_from_view view (extract_fields_from_model model [])
