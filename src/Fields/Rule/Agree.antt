-- ===== src/Fields/Rule/Agree.antt =====
-- ValidateRule and ExtractFields: they look at the same fields.
use telhawk_stack.Prelude.{
  ℕ, suc, String, Bool, true, false, ◌&&◌, Option, none, some, List, [], ◌∷◌, ◌++◌, any, all,
  str_eq, ◌≡◌, refl, inl, inr, ◌↔◌, arith, eq_iff, Bool-cases,
}
use telhawk_stack.Prelude.Text.{has_prefix, ◌++◌ as append}
use telhawk_stack.Prelude.Result.{ok}
use telhawk_stack.Query.Json.{
  Json, Items, nil, cons, Members, end, member, text, obj, arr, null, bool, int, float,
}
use telhawk_stack.Fields.{is_valid_field}
use telhawk_stack.Fields.Rule.{
  InvalidField, as_text, as_items, as_members, value_at, field_of, parameters_of, query_filter,
  step_filter, fields_order_of, checked, checked_text, each_checked, all_checked,
  checked_view_field, each_view_field, all_view_fields, validate_view, validate_conditions,
  validate_value, validate_each, validate_condition, validate_filter_of, validate_steps,
  validate_sequence, validate_parameters, validate_model, validate_rule, put_field, put_text,
  put_each, put_all, extract_conditions, extract_value, extract_each, extract_condition,
  extract_filter_of, extract_steps, extract_sequence, extract_parameters, extract_fields_from_model,
  put_view_field, put_view_fields, put_fields_order, extract_fields_from_view, extract_fields, nth,
}

abbrev is_empty {ℓ} : {A : Type ℓ} → List A → Bool
is_empty [] = true
is_empty (x ∷ xs) = false

is_empty-append {ℓ} :
    {A : Type ℓ} (xs ys : List A) → is_empty (xs ++ ys) ≡ (is_empty xs && is_empty ys)
is_empty-append [] ys = refl
is_empty-append (x ∷ xs) ys = refl

and_assoc : (a b c : Bool) → ((a && b) && c) ≡ (a && (b && c))
and_assoc a b c = ground arith

abbrev valid : List String → Bool
valid fields = all is_valid_field fields

all-append {ℓ} :
    {A : Type ℓ} (p : A → Bool) (xs ys : List A) → all p (xs ++ ys) ≡ (all p xs && all p ys)
all-append p [] ys = refl
all-append p (x ∷ xs) ys = ground (arith, all-append p xs ys)

all-present :
    (field : String) (fields : List String)
    → any (str_eq field) fields ≡ true
    → (valid fields && is_valid_field field) ≡ valid fields
all-present field [] h = cc
all-present field (f ∷ fields) h = ground (arith, h, eq_iff field f, all-present field fields)

-- What is left of the fields is valid when those before are, and no error is reported.
abbrev Agrees : List String → List String → List InvalidField → Type 0
Agrees fields after errors = valid after ≡ (valid fields && is_empty errors)

put_field-Agrees :
    (location field : String) (fields : List String)
    → Agrees fields (put_field field fields) (checked location field)
put_field-Agrees location field fields =
    ground (arith, all-present field fields, all-append is_valid_field fields (field ∷ []))

-- One after the other.
both :
    (fields middle after : List String) (es ds : List InvalidField)
    → Agrees fields middle es
    → Agrees middle after ds
    → Agrees fields after (es ++ ds)
both fields middle after es ds h i = ground (arith, h, i, is_empty-append es ds)

none_Agrees : (fields : List String) → Agrees fields fields []
none_Agrees fields = ground arith

put_text-Agrees :
    (location : String) (t : Option String) (fields : List String)
    → Agrees fields (put_text t fields) (checked_text location t)
put_text-Agrees location none fields = none_Agrees fields
put_text-Agrees location (some field) fields = put_field-Agrees location field fields

put_each-Agrees :
    (location : String) (vs : Items) (fields : List String)
    → Agrees fields (put_each vs fields) (each_checked location vs)
put_each-Agrees location nil fields = none_Agrees fields
put_each-Agrees location (cons v vs) fields =
    let middle = put_text (as_text (some v)) fields in
    both fields middle (put_each vs middle) (checked_text location (as_text (some v)))
      (each_checked location vs) (put_text-Agrees location (as_text (some v)) fields)
      (put_each-Agrees location vs middle)

put_all-Agrees :
    (location : String) (vs : Option Items) (fields : List String)
    → Agrees fields (put_all vs fields) (all_checked location vs)
put_all-Agrees location none fields = none_Agrees fields
put_all-Agrees location (some vs) fields = put_each-Agrees location vs fields

-- A field of the view has no leading dot, as the comment on `validateView` says.
abbrev IsUndotted : Option String → Type 0
IsUndotted none = Unit {0}
IsUndotted (some field) = has_prefix field "." ≡ false

abbrev AreUndotted : Items → Type 0
AreUndotted nil = Unit {0}
AreUndotted (cons v vs) = IsUndotted (as_text (some v)) × AreUndotted vs

abbrev IsUndottedOrder : Option Items → Type 0
IsUndottedOrder none = Unit {0}
IsUndottedOrder (some vs) = AreUndotted vs

abbrev pub IsUndottedView : Option Members → Type 0
IsUndottedView none = Unit {0}
IsUndottedView (some view) = IsUndottedOrder (fields_order_of view)

view_field-Agrees :
    (t : Option String) (fields : List String)
    → IsUndotted t
    → Agrees fields (put_view_field t fields) (checked_view_field t)
view_field-Agrees none fields h = none_Agrees fields
view_field-Agrees (some field) fields h = ground (
  arith,
  h,
  all-present (append "." field) fields,
  all-append is_valid_field fields (append "." field ∷ []),
)

view_fields-Agrees :
    (vs : Items) (fields : List String)
    → AreUndotted vs
    → Agrees fields (put_view_fields vs fields) (each_view_field vs)
view_fields-Agrees nil fields h = none_Agrees fields
view_fields-Agrees (cons v vs) fields h =
    let t = as_text (some v) in
    let middle = put_view_field t fields in
    both fields middle (put_view_fields vs middle) (checked_view_field t) (each_view_field vs)
      (view_field-Agrees t fields h.0) (view_fields-Agrees vs middle h.1)

fields_order-Agrees :
    (vs : Option Items) (fields : List String)
    → IsUndottedOrder vs
    → Agrees fields (put_fields_order vs fields) (all_view_fields vs)
fields_order-Agrees none fields h = none_Agrees fields
fields_order-Agrees (some vs) fields h = view_fields-Agrees vs fields h

view-Agrees :
    (view : Option Members) (fields : List String)
    → IsUndottedView view
    → Agrees fields (extract_fields_from_view view fields) (validate_view view)
view-Agrees none fields h = none_Agrees fields
view-Agrees (some view) fields h = fields_order-Agrees (fields_order_of view) fields h

module _ (decimal : ℕ → String) where
  mutual
    unfolding validate_conditions extract_conditions

    conditions-Agrees :
        (ms : Members) (location : String) (fields : List String)
        → Agrees fields (extract_conditions ms fields) (validate_conditions decimal ms location)
    conditions-Agrees end location fields = none_Agrees fields
    conditions-Agrees (member k v ms) location fields =
        let here = value-Agrees v location fields in
        let rest = conditions-Agrees ms location fields in
        elim (Bool-cases (str_eq k "conditions")) [ inl e ↦ rw e here | inr e ↦ rw e rest ]

    value-Agrees :
        (v : Json) (location : String) (fields : List String)
        → Agrees fields (extract_value v fields) (validate_value decimal v location)
    value-Agrees (arr vs) location fields = each-Agrees vs 0 location fields
    value-Agrees null location fields = none_Agrees fields
    value-Agrees (bool b) location fields = none_Agrees fields
    value-Agrees (int n) location fields = none_Agrees fields
    value-Agrees (float n) location fields = none_Agrees fields
    value-Agrees (text s) location fields = none_Agrees fields
    value-Agrees (obj ms) location fields = none_Agrees fields

    each-Agrees :
        (vs : Items) (i : ℕ) (location : String) (fields : List String)
        → Agrees fields (extract_each vs fields) (validate_each decimal vs i location)
    each-Agrees nil i location fields = none_Agrees fields
    each-Agrees (cons v vs) i location fields =
        let middle = extract_condition v fields in
        let inner = nth decimal location ".conditions[" i in
        both fields middle (extract_each vs middle) (validate_condition decimal v inner)
          (validate_each decimal vs (suc i) location) (condition-Agrees v inner fields)
          (each-Agrees vs (suc i) location middle)

    condition-Agrees :
        (v : Json) (location : String) (fields : List String)
        → Agrees fields (extract_condition v fields) (validate_condition decimal v location)
    condition-Agrees (obj ms) location fields =
        let middle = put_text (field_of ms) fields in
        both fields middle (extract_conditions ms middle) (checked_text location (field_of ms))
          (validate_conditions decimal ms location) (put_text-Agrees location (field_of ms) fields)
          (conditions-Agrees ms location middle)
    condition-Agrees null location fields = none_Agrees fields
    condition-Agrees (bool b) location fields = none_Agrees fields
    condition-Agrees (int n) location fields = none_Agrees fields
    condition-Agrees (float n) location fields = none_Agrees fields
    condition-Agrees (text s) location fields = none_Agrees fields
    condition-Agrees (arr vs) location fields = none_Agrees fields

  filter-Agrees :
      (location : String) (filter : Option Members) (fields : List String)
      → Agrees fields (extract_filter_of filter fields) (validate_filter_of decimal location filter)
  filter-Agrees location none fields = none_Agrees fields
  filter-Agrees location (some ms) fields =
      let middle = put_text (field_of ms) fields in
      both fields middle (extract_conditions ms middle) (checked_text location (field_of ms))
        (validate_conditions decimal ms location) (put_text-Agrees location (field_of ms) fields)
        (conditions-Agrees ms location middle)

  steps-Agrees :
      (steps : Items) (i : ℕ) (fields : List String)
      → Agrees fields (extract_steps steps fields) (validate_steps decimal i steps)
  steps-Agrees nil i fields = none_Agrees fields
  steps-Agrees (cons step steps) i fields =
      let location = append (nth decimal "model.parameters.sequence" "[" i) ".query.filter" in
      let filter = step_filter (as_members (some step)) in
      let middle = extract_filter_of filter fields in
      both fields middle (extract_steps steps middle) (validate_filter_of decimal location filter)
        (validate_steps decimal (suc i) steps) (filter-Agrees location filter fields)
        (steps-Agrees steps (suc i) middle)

  sequence-Agrees :
      (steps : Option Items) (fields : List String)
      → Agrees fields (extract_sequence steps fields) (validate_sequence decimal steps)
  sequence-Agrees none fields = none_Agrees fields
  sequence-Agrees (some steps) fields = steps-Agrees steps 0 fields

  parameters-Agrees :
      (params : Option Members) (fields : List String)
      → Agrees fields (extract_parameters params fields) (validate_parameters decimal params)
  parameters-Agrees none fields = none_Agrees fields
  parameters-Agrees (some params) fields =
      let group = as_items (value_at "group_by" params) in
      let sequence = as_items (value_at "sequence" params) in
      let a = put_all group fields in
      let b = put_text (field_of params) a in
      let c = extract_filter_of (query_filter params) b in
      let filter_at : String = "model.parameters.query.filter" in
      let tail_c : Agrees b (extract_sequence sequence c) (
          validate_filter_of decimal filter_at (query_filter params)
          ++ validate_sequence decimal sequence) =
        both b c (extract_sequence sequence c)
          (validate_filter_of decimal filter_at (query_filter params))
          (validate_sequence decimal sequence) (filter-Agrees filter_at (query_filter params) b)
          (sequence-Agrees sequence c) in
      both fields a (extract_sequence sequence c) (all_checked "model.parameters.group_by" group)
        (checked_text "model.parameters.field" (field_of params)
          ++ (validate_filter_of decimal filter_at (query_filter params)
              ++ validate_sequence decimal sequence))
        (put_all-Agrees "model.parameters.group_by" group fields)
        (both a b (extract_sequence sequence c)
          (checked_text "model.parameters.field" (field_of params))
          (validate_filter_of decimal filter_at (query_filter params)
            ++ validate_sequence decimal sequence)
          (put_text-Agrees "model.parameters.field" (field_of params) a) tail_c)

  model-Agrees :
      (model : Option Members) (fields : List String)
      → Agrees fields (extract_fields_from_model model fields) (validate_model decimal model)
  model-Agrees none fields = none_Agrees fields
  model-Agrees (some model) fields = parameters-Agrees (parameters_of model) fields

  -- Where no field of a rule's view begins with a dot, ValidateRule accepts the rule exactly when
  -- every field that ExtractFields finds in it is a valid field.
  pub validate_rule_lem :
      (model view controller : Option Members)
      → IsUndottedView view
      → validate_rule decimal model view controller ≡ ok tt
        ↔ all is_valid_field (extract_fields model view controller) ≡ true
  unfolding validate_rule extract_fields
  validate_rule_lem model view controller h =
      let found = extract_fields_from_model model [] in
      ground (
        arith,
        both [] found (extract_fields_from_view view found) (validate_model decimal model)
            (validate_view view) (model-Agrees model []) (view-Agrees view found h),
      )
