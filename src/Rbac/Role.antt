-- ===== src/Rbac/Role.antt =====
-- authenticate/internal/models/rbac.go: organizations, clients, roles, permissions, assignments.
-- A pointer is an `Option`, a `time.Time` the nanoseconds since Go's zero time.
use telhawk_stack.Prelude.{
  ℕ, ℤ, String, Bool, false, not, ◌&&◌, Option, none, some, List, [], ◌∷◌, any, is_some, str_eq,
}
use telhawk_stack.Prelude.Text.{cut, ◌++◌}

pub data ScopeTier : Type 0 where
  platform organization client : ScopeTier

pub record Organization : Type 0 where
  pub id : String
  pub version_id : String
  pub name : String
  pub slug : String
  pub settings : String
  pub created_by : Option String
  pub updated_by : Option String
  pub disabled_at : Option ℕ
  pub disabled_by : Option String
  pub deleted_at : Option ℕ
  pub deleted_by : Option String

unfoldable pub organization_is_active : Organization → Bool
organization_is_active o = not (is_some o.disabled_at) && not (is_some o.deleted_at)

pub record Client : Type 0 where
  pub id : String
  pub version_id : String
  pub organization_id : String
  pub name : String
  pub slug : String
  pub settings : String
  pub created_by : Option String
  pub updated_by : Option String
  pub disabled_at : Option ℕ
  pub disabled_by : Option String
  pub deleted_at : Option ℕ
  pub deleted_by : Option String

unfoldable pub client_is_active : Client → Bool
client_is_active c = not (is_some c.disabled_at) && not (is_some c.deleted_at)

pub record Permission : Type 0 where
  pub id : String
  pub resource : String
  pub action : String
  pub description : Option String

-- Permission.String
unfoldable pub permission_string : Permission → String
permission_string p = p.resource ++ (":" ++ p.action)

pub record Role : Type 0 where
  pub id : String
  pub version_id : String
  pub organization_id : Option String
  pub client_id : Option String
  pub name : String
  pub slug : String
  pub ordinal : ℤ
  pub description : Option String
  pub is_system : Bool
  pub is_protected : Bool
  pub is_template : Bool
  pub created_by : Option String
  pub updated_by : Option String
  pub deleted_at : Option ℕ
  pub deleted_by : Option String
  pub permissions : List Permission

unfoldable pub role_is_active : Role → Bool
role_is_active r = not (is_some r.deleted_at)

-- The switch that `Role.Tier`, `UserRole.Tier` and `User.GetScopeTier` make on their two pointers.
abbrev pub tier_of : Option String → Option String → ScopeTier
tier_of organization_id (some c) = client
tier_of (some o) none = organization
tier_of none none = platform

unfoldable pub role_tier : Role → ScopeTier
role_tier r = tier_of r.organization_id r.client_id

unfoldable pub is_platform_role : Role → Bool
is_platform_role r =
    not (is_some r.organization_id) && not (is_some r.client_id) && not r.is_template

unfoldable pub is_org_role : Role → Bool
is_org_role r = is_some r.organization_id && not (is_some r.client_id)

unfoldable pub is_client_role : Role → Bool
is_client_role r = is_some r.client_id

unfoldable pub has_permission : Role → String → String → Bool
has_permission r resource action =
    any (λ p. str_eq p.resource resource && str_eq p.action action) r.permissions

abbrev has_parts : Role → Option (String × String) → Bool
has_parts r none = false
has_parts r (some (resource, action)) = has_permission r resource action

-- SplitN(permission, ":", 2) has two parts exactly if there is a colon.
unfoldable pub has_permission_string : Role → String → Bool
unfolding has_permission
has_permission_string r permission = has_parts r (cut b':' permission)

pub record UserRole : Type 0 where
  pub id : String
  pub user_id : String
  pub role_id : String
  pub organization_id : Option String
  pub client_id : Option String
  pub scope_organization_ids : List String
  pub scope_client_ids : List String
  pub granted_by : Option String
  pub revoked_at : Option ℕ
  pub revoked_by : Option String
  pub role : Option Role
  pub organization : Option Organization
  pub client : Option Client

unfoldable pub user_role_is_active : UserRole → Bool
user_role_is_active ur = not (is_some ur.revoked_at)

unfoldable pub user_role_tier : UserRole → ScopeTier
user_role_tier ur = tier_of ur.organization_id ur.client_id

abbrev pub protected_role_slugs : List String
protected_role_slugs = "root" ∷ "admin" ∷ []

unfoldable pub is_protected_slug : String → Bool
is_protected_slug slug = any (λ protected. str_eq slug protected) protected_role_slugs
