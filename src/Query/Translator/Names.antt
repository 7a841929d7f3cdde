-- ===== src/Query/Translator/Names.antt =====
-- The field names of OpenSearch: `translateFieldPath`, `ensureKeywordField`, `shouldUseTermQuery`.
use telhawk_stack.Prelude.{
  String, Bool, true, false, ◌||◌, List, [], ◌∷◌, any, str_eq, if◌then◌else◌,
}
use telhawk_stack.Prelude.Text.{has_prefix, has_suffix, contains, tail, ◌++◌}
use telhawk_stack.Query.Json.{Json, bool, int, float}

unfoldable pub translate_field_path : String → String
unfolding has_prefix tail
translate_field_path field = if has_prefix field "." then tail field else field

abbrev pub numeric_fields : List String
numeric_fields =
    "class_uid" ∷ "category_uid" ∷ "activity_id" ∷ "severity_id" ∷ "type_uid" ∷ "status_id" ∷ "time"
    ∷ "end_time" ∷ "start_time" ∷ "observed_time" ∷ []

unfoldable pub ensure_keyword_field : String → String
unfolding has_suffix
ensure_keyword_field field =
    if has_suffix field ".keyword"
    then field
    else if any (str_eq field) numeric_fields
    then field
    else if has_suffix field "_id"
        || has_suffix field "_uid"
        || has_suffix field "_code"
        || has_suffix field ".port"
    then field
    else if has_suffix field ".ip" || has_suffix field "_ip"
    then field
    else field ++ ".keyword"

-- The type switch of `shouldUseTermQuery`.
abbrev pub is_number_or_bool : Json → Bool
is_number_or_bool (bool b) = true
is_number_or_bool (int n) = true
is_number_or_bool (float x) = true
is_number_or_bool _ = false

abbrev pub exact_match_fields : List String
exact_match_fields =
    "class_uid" ∷ "category_uid" ∷ "activity_id" ∷ "type_uid" ∷ "severity_id" ∷ "status_id"
    ∷ "severity" ∷ "status" ∷ "observables" ∷ []

unfoldable pub should_use_term_query : String → Json → Bool
should_use_term_query field value =
    if is_number_or_bool value
    then true
    else if has_suffix field ".ip" || has_suffix field "_ip"
    then true
    else if has_suffix field ".uid"
        || has_suffix field "_uid"
        || has_suffix field ".id"
        || has_suffix field "_id"
    then true
    else if has_suffix field ".port" || has_suffix field "_port"
    then true
    else if contains field "_uid"
        || contains field "_id"
        || has_suffix field ".code"
        || has_suffix field "_code"
    then true
    else any (str_eq field) exact_match_fields
