-- ===== src/Fields.antt =====
-- common/fields/fields.go: the field paths that a query may name.
mod Table
pub mod Rule
mod Examples
use telhawk_stack.Prelude.{
  String, Bool, true, false, Option, none, some, List, [], ◌∷◌, any, is_some, str_eq, if◌then◌else◌,
  map,
}
use telhawk_stack.Prelude.Text.{has_prefix, ◌++◌}
use Table.{FieldInfo, valid_fields}
pub use Table.{FieldInfo}

abbrev pub wildcard_prefixes : List String
wildcard_prefixes =
    ".metadata." ∷ ".actor.user." ∷ ".actor.process." ∷ ".actor.session."
    ∷ ".process.parent_process." ∷ ".process.file." ∷ ".http_request." ∷ ".http_response."
    ∷ ".finding." ∷ ".properties." ∷ ".device." ∷ ".device.os." ∷ ".raw." ∷ []

-- ValidFields[path]
lookup : String → List (String × FieldInfo) → Option FieldInfo
lookup path [] = none
lookup path ((k, info) ∷ rest) = if str_eq k path then some info else lookup path rest

-- "." + path unless the dot is there
abbrev pub with_dot : String → String
with_dot path = if has_prefix path "." then path else "." ++ path

known : String → Bool
unfolding lookup valid_fields has_prefix
known path =
    if is_some (lookup path valid_fields)
    then true
    else any (λ prefix. has_prefix path prefix) wildcard_prefixes

unfoldable pub is_valid_field : String → Bool
unfolding known has_prefix
is_valid_field path = known (with_dot path)

unfoldable pub validate_fields : List String → List String
validate_fields [] = []
validate_fields (path ∷ paths) =
    let rest = validate_fields paths in if is_valid_field path then rest else path ∷ rest

unfoldable pub get_field_info : String → Option FieldInfo
unfolding lookup valid_fields has_prefix
get_field_info path = lookup (with_dot path) valid_fields

-- ListFields, in the order of the table (the program's order is that of a Go map).
pub list_fields : List String
unfolding valid_fields
list_fields = map (λ entry. entry.0) valid_fields
