-- ===== src/Query/Validator/Path.antt =====
-- The syntax of field paths and of relative times, and the tests on names.
use telhawk_stack.Prelude.{
  ℕ, String, Bool, true, false, not, ◌&&◌, ◌||◌, List, [], ◌∷◌, any, leb, code, ◌==◌, str_eq, ◌≡◌,
  refl,
}
use telhawk_stack.Prelude.Text.{has_prefix, has_suffix, contains}
use telhawk_stack.Prelude.Result.{◌>>◌, fail_if}
use telhawk_stack.Query.Validator.Errors.{
  Check, empty_path, path_without_dot, path_with_double_dot, path_with_final_dot,
}

unfoldable pub validate_field_path : String → Check
validate_field_path field = do
  fail_if (str_eq field "") empty_path
  fail_if (not (has_prefix field ".")) path_without_dot
  fail_if (contains field "..") path_with_double_dot
  fail_if (has_suffix field "." && not (str_eq field ".")) path_with_final_dot

abbrev pub valid_operators : List String
valid_operators =
    "eq" ∷ "ne" ∷ "gt" ∷ "gte" ∷ "lt" ∷ "lte" ∷ "in" ∷ "contains" ∷ "startsWith" ∷ "endsWith"
    ∷ "regex" ∷ "exists" ∷ "cidr" ∷ []

unfoldable pub is_valid_operator : String → Bool
is_valid_operator op = any (str_eq op) valid_operators

unfoldable pub is_valid_compound_type : String → Bool
is_valid_compound_type t = str_eq t "and" || str_eq t "or" || str_eq t "not"

abbrev pub valid_aggregation_types : List String
valid_aggregation_types =
    "terms" ∷ "date_histogram" ∷ "avg" ∷ "sum" ∷ "min" ∷ "max" ∷ "stats" ∷ "cardinality"
    ∷ "top_hits" ∷ []

unfoldable pub is_valid_aggregation_type : String → Bool
is_valid_aggregation_type t = any (str_eq t) valid_aggregation_types

-- `order == "asc" || order == "desc"`
abbrev pub is_order : String → Bool
is_order order = str_eq order "asc" || str_eq order "desc"

abbrev is_digit : ℕ → Bool
is_digit c = leb b'0' c && leb c b'9'

abbrev is_unit : ℕ → Bool
is_unit c = c == b'm' || c == b'h' || c == b'd'

-- `\d*(m|h|d)$`
digits_then_unit : String → Bool
digits_then_unit String.[] = false
digits_then_unit (String.◌∷◌ c s) =
    is_digit (code c) && digits_then_unit s || is_unit (code c) && str_eq s ""

-- `^\d+(m|h|d)$`
unfoldable pub is_valid_relative_time : String → Bool
unfolding digits_then_unit
is_valid_relative_time String.[] = false
is_valid_relative_time (String.◌∷◌ c s) = is_digit (code c) && digits_then_unit s

relative_times :
    is_valid_relative_time "15m"
      && is_valid_relative_time "7d"
      && not (is_valid_relative_time "m")
      && not (is_valid_relative_time "1h ")
    ≡ true
unfolding is_valid_relative_time
relative_times = refl
