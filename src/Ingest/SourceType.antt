-- ===== src/Ingest/SourceType.antt =====
-- `determineSourceType`: the source type for an event that names none. `truncate` is Go's conversion
-- of a float64, given by its bit pattern, to an int.
use telhawk_stack.Prelude.{
  ℕ, ℤ, pos, String, Bool, ◌&&◌, Option, none, some, ltb_ℤ, not, str_eq, if◌then◌else◌,
}
use telhawk_stack.Query.Json.{Json, int, float, obj, Members, member}

-- eventMap[key]
abbrev pub find : String → Members → Option Json
find key Members.end = none
find key (member k v ms) = if str_eq k key then some v else find key ms

-- uid is one of first, ..., last
abbrev pub is_between : ℕ → ℕ → ℤ → Bool
is_between first last uid = not (ltb_ℤ uid (pos first)) && not (ltb_ℤ (pos last) uid)

-- The switch on OCSF's class_uid.
unfoldable pub class_source_type : ℤ → String
class_source_type uid =
    if is_between 3001 3006 uid
    then "ocsf:iam"
    else if is_between 4001 4012 uid
    then "ocsf:network"
    else if is_between 1001 1007 uid
    then "ocsf:system"
    else if is_between 2001 2004 uid
    then "ocsf:findings"
    else if is_between 5001 5003 uid
    then "ocsf:discovery"
    else if is_between 6001 6004 uid
    then "ocsf:application"
    else "ocsf:generic"

module _ (truncate : ℕ → ℤ) where
  class_of : Option Json → String
  unfolding class_source_type
  class_of (some (float bits)) = class_source_type (truncate bits)
  class_of (some (int uid)) = class_source_type uid
  class_of _ = "ocsf:generic"

  unfoldable pub determine_source_type : Json → String
  unfolding class_of
  determine_source_type (obj ms) = class_of (find "class_uid" ms)
  determine_source_type _ = "ocsf:generic"
