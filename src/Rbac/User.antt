-- ===== src/Rbac/User.antt =====
-- authenticate/internal/models/user.go: a user and what the user may do.
pub mod Permissions
pub mod Power
pub mod Scope
use telhawk_stack.Prelude.{
  ℕ, ℤ, pos, negsuc, ltb_ℤ, eqb_ℤ, String, Bool, true, false, not, ◌&&◌, Option, none, some, List,
  [], ◌∷◌, ◌++◌, any, is_some, str_eq, if◌then◌else◌,
}
use telhawk_stack.Prelude.Outcome.{Outcome, done, deref, ◌>>=◌}
use telhawk_stack.Rbac.Role.{
  ScopeTier, platform, organization, client, tier_of, Permission, permission_string, Role, UserRole,
  user_role_is_active, has_permission_string,
}

pub record User : Type 0 where
  pub id : String
  pub version_id : String
  pub username : String
  pub email : String
  pub password_hash : String
  pub roles : List String
  pub primary_organization_id : Option String
  pub primary_client_id : Option String
  pub created_by : Option String
  pub updated_by : Option String
  pub disabled_at : Option ℕ
  pub disabled_by : Option String
  pub deleted_at : Option ℕ
  pub deleted_by : Option String
  pub permissions_version : ℤ
  pub user_roles : List UserRole
  pub created_from_ip : Option String
  pub created_source_type : ℤ
  pub disabled_from_ip : Option String
  pub disabled_source_type : ℤ
  pub deleted_from_ip : Option String
  pub deleted_source_type : ℤ

-- User.IsActive
unfoldable pub user_is_active : User → Bool
user_is_active u = not (is_some u.disabled_at) && not (is_some u.deleted_at)

unfoldable pub get_scope_tier : User → ScopeTier
get_scope_tier u = tier_of u.primary_organization_id u.primary_client_id

abbrev test_role : (Role → Bool) → Option Role → Bool
test_role p none = false
test_role p (some r) = p r

-- `ur.Role != nil && ur.IsActive() && p(ur.Role)`
abbrev pub grants : (Role → Bool) → UserRole → Bool
grants p ur = is_some ur.role && user_role_is_active ur && test_role p ur.role

abbrev pub is_root_role : Role → Bool
is_root_role r = r.is_protected && eqb_ℤ r.ordinal (pos 0)

unfoldable pub has_protected_role : User → Bool
has_protected_role u = any (grants is_root_role) u.user_roles

unfoldable pub can : User → String → Bool
can u permission =
    if has_protected_role u
    then true
    else any (grants (λ r. has_permission_string r permission)) u.user_roles

-- One round of the loop of `LowestOrdinal`.
abbrev lower : Option Role → ℤ → ℤ
lower none lowest = lowest
lower (some r) lowest = if ltb_ℤ r.ordinal lowest then r.ordinal else lowest

lowest_from : ℤ → List UserRole → ℤ
lowest_from lowest [] = lowest
lowest_from lowest (ur ∷ urs) =
    lowest_from (if user_role_is_active ur then lower ur.role lowest else lowest) urs

unfoldable pub lowest_ordinal : User → ℤ
unfolding lowest_from
lowest_ordinal u = lowest_from (pos 100) u.user_roles

abbrev higher : Option Role → ℤ → ℤ
higher none highest = highest
higher (some r) highest = if ltb_ℤ highest r.ordinal then r.ordinal else highest

highest_from : ℤ → List UserRole → ℤ
highest_from highest [] = highest
highest_from highest (ur ∷ urs) =
    highest_from (if user_role_is_active ur then higher ur.role highest else highest) urs

unfoldable pub highest_ordinal : User → ℤ
unfolding highest_from
highest_ordinal u = highest_from (negsuc 0) u.user_roles

-- The lookup function may be nil.
abbrev pub Lookup : Type 0
Lookup = Option (String → String → Bool)

abbrev pub is_nil {ℓ} : {A : Type ℓ} → Option A → Bool
is_nil o = not (is_some o)

-- `target != nil && *target != *own`: `own` is dereferenced only if `target` is not nil.
abbrev pub differs : Option String → Option String → Outcome Bool
differs none own = done false
differs (some t) own = do o ← deref own; done (not (str_eq t o))

-- The check of a target client by an organization's user.
abbrev client_in_org : Option String → Option String → Lookup → Outcome Bool
client_in_org none own belongs = done true
client_in_org (some c) own none = done false
client_in_org (some c) own (some belongs) = do o ← deref own; done (belongs c o)

org_scope : Option String → Option String → Option String → Lookup → Outcome Bool
org_scope own target_org target_client belongs =
    if is_nil target_org && is_nil target_client then done false else do
      wrong ← differs target_org own
      if wrong then done false else client_in_org target_client own belongs

-- `target == nil || *target != *own`
abbrev client_mismatch : Option String → Option String → Outcome Bool
client_mismatch none own = done true
client_mismatch (some t) own = do o ← deref own; done (not (str_eq t o))

client_scope : Option String → Option String → Option String → Option String → Outcome Bool
client_scope own_org own_client target_org target_client = do
  other ← client_mismatch target_client own_client
  if other then done false else do wrong ← differs target_org own_org; done (not wrong)

-- The rules for each tier.
in_tier :
    ScopeTier
    → Option String
    → Option String
    → Option String
    → Option String
    → Lookup
    → Outcome Bool
unfolding org_scope client_scope
in_tier platform own_org own_client target_org target_client belongs = done true
in_tier organization own_org own_client target_org target_client belongs =
    org_scope own_org target_org target_client belongs
in_tier client own_org own_client target_org target_client belongs =
    client_scope own_org own_client target_org target_client

unfoldable pub can_act_in_scope :
    User → String → Option String → Option String → Lookup → Outcome Bool
unfolding in_tier get_scope_tier
can_act_in_scope u permission target_org target_client belongs =
    if not (can u permission)
    then done false
    else in_tier (get_scope_tier u) u.primary_organization_id u.primary_client_id target_org
        target_client belongs

-- The body that `CanManageUser` and `CanResetPassword` share but for the permission's name.
abbrev over_user : String → User → User → Lookup → Outcome Bool
over_user permission u target belongs =
    if has_protected_role target
    then done false
    else if not (can u permission)
    then done false
    else if ltb_ℤ (lowest_ordinal target) (lowest_ordinal u)
    then done false
    else can_act_in_scope u permission target.primary_organization_id target.primary_client_id
        belongs

unfoldable pub can_manage_user : User → User → Lookup → Outcome Bool
can_manage_user u target belongs = over_user "users:update" u target belongs

unfoldable pub can_reset_password : User → User → Lookup → Outcome Bool
can_reset_password u target belongs = over_user "users:reset_password" u target belongs

unfoldable pub can_assign_role : User → Role → Bool
can_assign_role u role =
    if role.is_protected
    then false
    else if not (can u "users:assign_roles")
    then false
    else not (ltb_ℤ role.ordinal (lowest_ordinal u))

active_of : List UserRole → List UserRole
active_of [] = []
active_of (ur ∷ urs) =
    let rest = active_of urs in if user_role_is_active ur then ur ∷ rest else rest

unfoldable pub get_active_roles : User → List UserRole
unfolding active_of
get_active_roles u = active_of u.user_roles

-- The inner loop of `GetPermissions`: `seen` holds exactly the keys of `permissions`.
abbrev pub add_key : String → List String → List String
add_key key permissions =
    if any (str_eq key) permissions then permissions else permissions ++ key ∷ []

collect : List String → List Permission → List String
collect permissions [] = permissions
collect permissions (p ∷ ps) = collect (add_key (permission_string p) permissions) ps

collect_role : Option Role → List String → List String
unfolding collect
collect_role none permissions = permissions
collect_role (some r) permissions = collect permissions r.permissions

collect_roles : List String → List UserRole → List String
unfolding collect_role
collect_roles permissions [] = permissions
collect_roles permissions (ur ∷ urs) =
    collect_roles (if user_role_is_active ur then collect_role ur.role permissions else permissions)
      urs

unfoldable pub get_permissions : User → List String
unfolding collect_roles
get_permissions u = collect_roles [] u.user_roles

unfoldable pub can_act_on_organization : User → String → String → Outcome Bool
can_act_on_organization u permission target_org =
    can_act_in_scope u permission (some target_org) none none

unfoldable pub can_act_on_client : User → String → String → String → Lookup → Outcome Bool
can_act_on_client u permission target_org target_client belongs =
    can_act_in_scope u permission (some target_org) (some target_client) belongs

unfoldable pub can_act_at_platform_level : User → String → Outcome Bool
can_act_at_platform_level u permission = can_act_in_scope u permission none none none
