-- ===== src/Rbac/Examples.antt =====
-- Users, roles and assignments on which the theorems are tried, and tests of the code.
use telhawk_stack.Prelude.{
  ℤ, pos, String, Bool, true, false, Option, none, some, List, [], ◌∷◌, ◌≡◌, refl, ◌↔◌, ◌⊎◌, inl,
  arith, ◌≤ℤ◌, is_some,
}
use telhawk_stack.Prelude.Keys.{In, IsDistinct}
use telhawk_stack.Prelude.Outcome.{done, panic}
use telhawk_stack.Prelude.Text.{cut}
use telhawk_stack.Rbac.Role.{
  Permission, Role, UserRole, has_permission_string, permission_string, user_role_is_active,
}
use telhawk_stack.Rbac.User.{
  User, Lookup, can, can_act_in_scope, can_manage_user, can_reset_password, can_assign_role,
  lowest_ordinal, highest_ordinal, has_protected_role, get_permissions,
}
use telhawk_stack.Rbac.User.Scope.{InScope, can_act_in_scope_iff, can_act_in_scope-panic_iff}
use telhawk_stack.Rbac.User.Power.{
  IsLowest, lowest_ordinal-IsLowest, can_assign_role_no_escalation, with_role, can_manage_user_iff,
  can_reset_password_iff,
}
use telhawk_stack.Rbac.User.Permissions.{
  can-get_permissions, get_permissions-can, get_permissions-IsDistinct,
}

abbrev grant : String → String → Permission
grant resource action = record { id = ""; resource = resource; action = action; description = none }

abbrev a_role : ℤ → Bool → List Permission → Role
a_role ordinal is_protected permissions = record {
  id = "r";
  version_id = "v";
  organization_id = none;
  client_id = none;
  name = "role";
  slug = "role";
  ordinal = ordinal;
  description = none;
  is_system = false;
  is_protected = is_protected;
  is_template = false;
  created_by = none;
  updated_by = none;
  deleted_at = none;
  deleted_by = none;
  permissions = permissions;
}

abbrev assigned : Role → UserRole
assigned r = record {
  id = "a";
  user_id = "u";
  role_id = "r";
  organization_id = none;
  client_id = none;
  scope_organization_ids = [];
  scope_client_ids = [];
  granted_by = none;
  revoked_at = none;
  revoked_by = none;
  role = some r;
  organization = none;
  client = none;
}

abbrev a_user : Option String → Option String → List UserRole → User
a_user org cl user_roles = record {
  id = "u";
  version_id = "v";
  username = "ann";
  email = "ann@example.org";
  password_hash = "";
  roles = [];
  primary_organization_id = org;
  primary_client_id = cl;
  created_by = none;
  updated_by = none;
  disabled_at = none;
  disabled_by = none;
  deleted_at = none;
  deleted_by = none;
  permissions_version = pos 1;
  user_roles = user_roles;
  created_from_ip = none;
  created_source_type = pos 0;
  disabled_from_ip = none;
  disabled_source_type = pos 0;
  deleted_from_ip = none;
  deleted_source_type = pos 0;
}

abbrev admin_role : Role
admin_role =
    a_role (pos 20) false
      (grant "users" "update" ∷ grant "users" "reset_password" ∷ grant "users" "assign_roles" ∷ [])

abbrev analyst_role : Role
analyst_role = a_role (pos 30) false (grant "alerts" "read" ∷ [])

-- An administrator of the organization "acme", an analyst of its client "shop", and a user of that
-- client whose organization is missing.
abbrev admin : User
admin = a_user (some "acme") none (assigned admin_role ∷ [])

abbrev analyst : User
analyst = a_user (some "acme") (some "shop") (assigned analyst_role ∷ [])

abbrev misplaced : User
misplaced = a_user none (some "shop") (assigned analyst_role ∷ [])

abbrev shops : Lookup
shops = some (λ cl org. true)

rbac : Unit {0}
unfolding can_act_in_scope can_manage_user can_reset_password can_assign_role lowest_ordinal
    highest_ordinal has_protected_role get_permissions can has_permission_string permission_string
    user_role_is_active cut
rbac = tt

decisions :
    (can_manage_user admin analyst shops ≡ done true)
    × (can_manage_user analyst admin shops ≡ done false)
    × (can_act_in_scope analyst "alerts:read" none (some "bank") none ≡ done false)
    × (can_act_in_scope misplaced "alerts:read" (some "acme") (some "shop") none ≡ panic)
    × (lowest_ordinal admin ≡ pos 20)
    × (get_permissions analyst ≡ "alerts:read" ∷ [])
unfolding rbac
decisions = (refl, refl, refl, refl, refl, refl)

can_act_in_scope_iff_example :
    (can_act_in_scope analyst "alerts:read" (some "acme") (some "shop") none ≡ done true) ↔ (
      (can analyst "alerts:read" ≡ true)
      × InScope (some "acme") (some "shop") none (some "acme") (some "shop"))
can_act_in_scope_iff_example =
    can_act_in_scope_iff analyst "alerts:read" (some "acme") (some "shop") none

can_act_in_scope-panic_iff_example :
    (can_act_in_scope misplaced "alerts:read" (some "acme") (some "shop") none ≡ panic) ↔ (
      (can misplaced "alerts:read" ≡ true)
      × (misplaced.primary_organization_id ≡ none)
      × (is_some misplaced.primary_client_id ≡ true)
      × (some "shop" ≡ misplaced.primary_client_id)
      × (is_some {A = String} (some "acme") ≡ true))
can_act_in_scope-panic_iff_example =
    can_act_in_scope-panic_iff misplaced "alerts:read" (some "acme") (some "shop") none

can_manage_user_iff_example : (can_manage_user admin analyst shops ≡ done true) ↔ (
    (has_protected_role analyst ≡ false)
    × (can admin "users:update" ≡ true)
    × (lowest_ordinal admin ≤ℤ lowest_ordinal analyst)
    × InScope (some "acme") none shops (some "acme") (some "shop"))
can_manage_user_iff_example = can_manage_user_iff admin analyst shops

can_reset_password_iff_test : (can_reset_password admin analyst shops ≡ done true) ↔ (
    (has_protected_role analyst ≡ false)
    × (can admin "users:reset_password" ≡ true)
    × (lowest_ordinal admin ≤ℤ lowest_ordinal analyst)
    × InScope (some "acme") none shops (some "acme") (some "shop"))
can_reset_password_iff_test = can_reset_password_iff admin analyst shops

can_assign_role_no_escalation_example :
    (lowest_ordinal (with_role admin (assigned analyst_role)) ≡ lowest_ordinal admin)
    × (has_protected_role (with_role admin (assigned analyst_role)) ≡ has_protected_role admin)
unfolding rbac
can_assign_role_no_escalation_example =
    can_assign_role_no_escalation admin analyst_role (assigned analyst_role) refl refl

lowest_ordinal-IsLowest_test : IsLowest admin (lowest_ordinal admin)
lowest_ordinal-IsLowest_test = lowest_ordinal-IsLowest admin

can-get_permissions_example :
    (has_protected_role analyst ≡ true) ⊎ In "alerts:read" (get_permissions analyst)
unfolding rbac
can-get_permissions_example = can-get_permissions analyst "alerts:read" refl

get_permissions-can_example : can analyst "alerts:read" ≡ true
unfolding rbac
get_permissions-can_example = get_permissions-can analyst "alerts:read" (omega arith) (inl refl)

get_permissions-IsDistinct_test : IsDistinct (get_permissions admin)
get_permissions-IsDistinct_test = get_permissions-IsDistinct admin
