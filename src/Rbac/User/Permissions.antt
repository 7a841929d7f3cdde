-- ===== src/Rbac/User/Permissions.antt =====
-- What `GetPermissions` lists is what `Can` allows.
use telhawk_stack.Prelude.{
  String, Bool, true, Option, none, some, List, [], ◌∷◌, any, All, Any, ◌≡◌, ◌⊎◌, inl, inr, arith,
  if◌then◌else◌, str_eq, eq_iff, eq_refl, Bool-cases, Option-cases, ◌&&◌,
}
use telhawk_stack.Prelude.Keys.{
  In, IsDistinct, In-append_left, In-append_right, In-append_cases, any-In, In-any,
  IsDistinct-append,
}
use telhawk_stack.Prelude.Text.{cut}
use telhawk_stack.Prelude.Text.Cut.{NoColon, cut-append, cut-eq-some}
use telhawk_stack.Rbac.Role.{
  Permission, permission_string, Role, UserRole, user_role_is_active, has_permission_string,
}
use telhawk_stack.Rbac.User.{
  User, has_protected_role, can, grants, add_key, collect, collect_role, collect_roles,
  get_permissions,
}

add_key-IsDistinct : (k : String) (xs : List String) → IsDistinct xs → IsDistinct (add_key k xs)
add_key-IsDistinct k xs d = elim (Bool-cases (any (str_eq k) xs)) [
  | inl e ↦ rw e d
  | inr e ↦ rw e (IsDistinct-append k xs d (λ m. cc (In-any k xs m)))
]

In-add_key : (k y : String) (xs : List String) → In k xs → In k (add_key y xs)
In-add_key k y xs h = ground (arith, In-append_left k xs (y ∷ []) h)

In-add_key_self : (k : String) (xs : List String) → In k (add_key k xs)
In-add_key_self k xs = ground (arith, any-In k xs, In-append_right k xs)

In-add_key_cases : (k y : String) (xs : List String) → In k (add_key y xs) → In k xs ⊎ (y ≡ k)
In-add_key_cases k y xs h = ground (arith, In-append_cases k y xs)

-- The permission in the form "resource:action" is `k`.
abbrev Spells : String → Permission → Type 0
Spells k p = permission_string p ≡ k

collect-IsDistinct :
    (xs : List String) (ps : List Permission) → IsDistinct xs → IsDistinct (collect xs ps)
unfolding collect
collect-IsDistinct xs [] d = d
collect-IsDistinct xs (p ∷ ps) d =
    collect-IsDistinct (add_key (permission_string p) xs) ps (add_key-IsDistinct _ xs d)

In-collect : (k : String) (xs : List String) (ps : List Permission) → In k xs → In k (collect xs ps)
unfolding collect
In-collect k xs [] h = h
In-collect k xs (p ∷ ps) h =
    In-collect k (add_key (permission_string p) xs) ps (In-add_key k (permission_string p) xs h)

In-collect_spelt :
    (k : String) (xs : List String) (ps : List Permission)
    → Any (Spells k) ps
    → In k (collect xs ps)
unfolding collect
In-collect_spelt k xs [] h = elim h [ ]
In-collect_spelt k xs (p ∷ ps) (inl e) =
    In-collect k (add_key (permission_string p) xs) ps (rw e (In-add_key_self k xs))
In-collect_spelt k xs (p ∷ ps) (inr h) = In-collect_spelt k (add_key (permission_string p) xs) ps h

In-collect_cases :
    (k : String) (xs : List String) (ps : List Permission)
    → In k (collect xs ps)
    → In k xs ⊎ Any (Spells k) ps
unfolding collect
In-collect_cases k xs [] h = inl h
In-collect_cases k xs (p ∷ ps) h = ground (
  arith,
  In-collect_cases k (add_key (permission_string p) xs) ps h,
  In-add_key_cases k (permission_string p) xs,
)

-- The assignment is active, and its role has a permission that is spelt `k`.
abbrev RoleSpells : String → Option Role → Type 0
RoleSpells k none = ⊥
RoleSpells k (some r) = Any (Spells k) r.permissions

abbrev Carries : String → UserRole → Type 0
Carries k ur = (user_role_is_active ur ≡ true) × RoleSpells k ur.role

-- The list after one assignment.
abbrev after : List String → UserRole → List String
after xs ur = if user_role_is_active ur then collect_role ur.role xs else xs

collect_role-IsDistinct :
    (o : Option Role) (xs : List String) → IsDistinct xs → IsDistinct (collect_role o xs)
unfolding collect_role
collect_role-IsDistinct none xs d = d
collect_role-IsDistinct (some r) xs d = collect-IsDistinct xs r.permissions d

In-collect_role :
    (k : String) (o : Option Role) (xs : List String) → In k xs → In k (collect_role o xs)
unfolding collect_role
In-collect_role k none xs h = h
In-collect_role k (some r) xs h = In-collect k xs r.permissions h

In-collect_role_spelt :
    (k : String) (o : Option Role) (xs : List String) → RoleSpells k o → In k (collect_role o xs)
unfolding collect_role
In-collect_role_spelt k none xs h = elim h [ ]
In-collect_role_spelt k (some r) xs h = In-collect_spelt k xs r.permissions h

In-collect_role_cases :
    (k : String) (o : Option Role) (xs : List String)
    → In k (collect_role o xs)
    → In k xs ⊎ RoleSpells k o
unfolding collect_role
In-collect_role_cases k none xs h = inl h
In-collect_role_cases k (some r) xs h = In-collect_cases k xs r.permissions h

collect_roles-IsDistinct :
    (xs : List String) (urs : List UserRole) → IsDistinct xs → IsDistinct (collect_roles xs urs)
unfolding collect_roles
collect_roles-IsDistinct xs [] d = d
collect_roles-IsDistinct xs (ur ∷ urs) d =
    collect_roles-IsDistinct (after xs ur) urs
      (ground (arith, collect_role-IsDistinct ur.role xs d))

In-collect_roles :
    (k : String) (xs : List String) (urs : List UserRole) → In k xs → In k (collect_roles xs urs)
unfolding collect_roles
In-collect_roles k xs [] h = h
In-collect_roles k xs (ur ∷ urs) h =
    In-collect_roles k (after xs ur) urs (ground (arith, In-collect_role k ur.role xs h))

In-collect_roles_carried :
    (k : String) (xs : List String) (urs : List UserRole)
    → Any (Carries k) urs
    → In k (collect_roles xs urs)
unfolding collect_roles
In-collect_roles_carried k xs [] h = elim h [ ]
In-collect_roles_carried k xs (ur ∷ urs) (inl h) =
    In-collect_roles k (after xs ur) urs (ground (arith, In-collect_role_spelt k ur.role xs h.1))
In-collect_roles_carried k xs (ur ∷ urs) (inr h) = In-collect_roles_carried k (after xs ur) urs h

In-collect_roles_cases :
    (k : String) (xs : List String) (urs : List UserRole)
    → In k (collect_roles xs urs)
    → In k xs ⊎ Any (Carries k) urs
unfolding collect_roles
In-collect_roles_cases k xs [] h = inl h
In-collect_roles_cases k xs (ur ∷ urs) h =
    ground (arith, In-collect_roles_cases k (after xs ur) urs h, In-collect_role_cases k ur.role xs)

-- `GetPermissions` lists no permission twice.
pub get_permissions-IsDistinct : (u : User) → IsDistinct (get_permissions u)
unfolding get_permissions
get_permissions-IsDistinct u = collect_roles-IsDistinct [] u.user_roles tt

-- The code's test of one assignment against `Carries`.
abbrev allows : String → UserRole → Bool
allows k ur = grants (λ r. has_permission_string r k) ur

has_permission-Spells :
    (k a b : String) (ps : List Permission)
    → cut b':' k ≡ some (a, b)
    → any (λ p. str_eq p.resource a && str_eq p.action b) ps ≡ true
    → Any (Spells k) ps
unfolding permission_string
has_permission-Spells k a b [] c h = cc
has_permission-Spells k a b (p ∷ ps) c h = ground (
  arith,
  cut-eq-some k a b c,
  eq_iff p.resource a,
  eq_iff p.action b,
  has_permission-Spells k a b ps c,
)

Spells-has_permission :
    (k : String) (ps : List Permission)
    → All (λ p. NoColon p.resource) ps
    → Any (Spells k) ps
    → (a : String) × (b : String) × (cut b':' k ≡ some (a, b))
      × (any (λ p. str_eq p.resource a && str_eq p.action b) ps ≡ true)
unfolding permission_string
Spells-has_permission k [] n h = elim h [ ]
Spells-has_permission k (p ∷ ps) n (inl e) = (
  p.resource,
  p.action,
  rw (← e) (cut-append p.resource p.action n.0),
  rw (eq_refl p.resource, eq_refl p.action),
)
Spells-has_permission k (p ∷ ps) n (inr h) =
    let (a, b, c, e) = Spells-has_permission k ps n.1 h in (a, b, c, ground arith)

has_permission_string-Spells :
    (k : String) (r : Role) → has_permission_string r k ≡ true → Any (Spells k) r.permissions
unfolding has_permission_string
has_permission_string-Spells k r h = elim (Option-cases (cut b':' k)) [
  | inl e ↦ ground arith
  | inr ((a, b), e) ↦ has_permission-Spells k a b r.permissions e (ground arith)
]

Spells-has_permission_string :
    (k : String) (r : Role)
    → All (λ p. NoColon p.resource) r.permissions
    → Any (Spells k) r.permissions
    → has_permission_string r k ≡ true
unfolding has_permission_string
Spells-has_permission_string k r n h =
    let (a, b, c, e) = Spells-has_permission k r.permissions n h in ground arith

allows-Carries :
    (k : String) (urs : List UserRole) → any (allows k) urs ≡ true → Any (Carries k) urs
allows-Carries k [] h = cc
allows-Carries k (ur ∷ urs) h = elim (Option-cases ur.role) [
  | inl e ↦ ground (arith, allows-Carries k urs)
  | inr (r, e) ↦ ground (arith, has_permission_string-Spells k r, allows-Carries k urs)
]

-- No resource that a role names holds a colon, so "resource:action" is read back as it was meant.
abbrev pub HasPlainRole : Option Role → Type 0
HasPlainRole none = Unit {0}
HasPlainRole (some r) = All (λ p. NoColon p.resource) r.permissions

Carries-allows :
    (k : String) (urs : List UserRole)
    → All (λ ur. HasPlainRole ur.role) urs
    → Any (Carries k) urs
    → any (allows k) urs ≡ true
Carries-allows k [] n h = elim h [ ]
Carries-allows k (ur ∷ urs) n h = elim (Option-cases ur.role) [
  | inl e ↦ ground (arith, Carries-allows k urs n.1)
  | inr (r, e) ↦ ground (arith, Spells-has_permission_string k r, Carries-allows k urs n.1)
]

-- A permission that `Can` grants to a user is in the list that `GetPermissions` makes, unless the
-- user has a protected role.
pub can-get_permissions :
    (u : User) (k : String)
    → can u k ≡ true
    → (has_protected_role u ≡ true) ⊎ In k (get_permissions u)
unfolding can get_permissions
can-get_permissions u k h =
    ground (arith, allows-Carries k u.user_roles, In-collect_roles_carried k [] u.user_roles)

-- Where no resource of the user's roles holds a colon, `Can` grants every permission in the list
-- that `GetPermissions` makes.
pub get_permissions-can :
    (u : User) (k : String)
    → All (λ ur. HasPlainRole ur.role) u.user_roles
    → In k (get_permissions u)
    → can u k ≡ true
unfolding can get_permissions
get_permissions-can u k n h =
    ground (arith, Carries-allows k u.user_roles n, In-collect_roles_cases k [] u.user_roles h)
