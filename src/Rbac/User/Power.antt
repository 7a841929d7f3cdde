-- ===== src/Rbac/User/Power.antt =====
-- The power of a user: the least ordinal among the active roles, and what it allows.
use telhawk_stack.Prelude.{
  ℤ, pos, ◌≤ℤ◌, Bool, true, false, Option, none, some, List, [], ◌∷◌, ◌++◌, ◌||◌, any, All, Any,
  ◌≡◌, refl, ◌↔◌, ◌⊎◌, inl, arith, if◌then◌else◌, String,
}
use telhawk_stack.Prelude.Outcome.{done}
use telhawk_stack.Rbac.Role.{Role, UserRole, user_role_is_active}
use telhawk_stack.Rbac.User.{
  User, Lookup, lower, lowest_from, lowest_ordinal, has_protected_role, can, over_user,
  can_manage_user, can_reset_password, can_assign_role, grants, is_root_role,
}
use telhawk_stack.Rbac.User.Scope.{InScope, can_act_in_scope_iff}

-- The assignment is active, and its role has an ordinal with the property.
abbrev pub OfRole : (ℤ → Type 0) → Option Role → Type 0
OfRole P none = ⊥
OfRole P (some r) = P r.ordinal

abbrev pub Active : (ℤ → Type 0) → UserRole → Type 0
Active P ur = (user_role_is_active ur ≡ true) × OfRole P ur.role

-- If the assignment is active and has a role, the role's ordinal has the property.
abbrev pub OnRole : (ℤ → Type 0) → Option Role → Type 0
OnRole P none = Unit {0}
OnRole P (some r) = P r.ordinal

abbrev pub WhenActive : (ℤ → Type 0) → UserRole → Type 0
WhenActive P ur = user_role_is_active ur ≡ true → OnRole P ur.role

-- The value of the loop's variable after one assignment.
abbrev after : ℤ → UserRole → ℤ
after n ur = if user_role_is_active ur then lower ur.role n else n

lowest_from-le : (n : ℤ) (urs : List UserRole) → lowest_from n urs ≤ℤ n
unfolding lowest_from
lowest_from-le n [] = omega arith
lowest_from-le n (ur ∷ urs) = ground (arith, lowest_from-le (after n ur) urs)

lowest_from-All : (n : ℤ) (urs : List UserRole) → All (WhenActive (λ k. lowest_from n urs ≤ℤ k)) urs
unfolding lowest_from
lowest_from-All n [] = tt
lowest_from-All n (ur ∷ urs) =
    (ground (arith, lowest_from-le (after n ur) urs), lowest_from-All (after n ur) urs)

lowest_from-Any :
    (n : ℤ) (urs : List UserRole)
    → (lowest_from n urs ≡ n) ⊎ Any (Active (λ k. lowest_from n urs ≡ k)) urs
unfolding lowest_from
lowest_from-Any n [] = inl refl
lowest_from-Any n (ur ∷ urs) = ground (arith, lowest_from-Any (after n ur) urs)

-- `n` is the least of 100 and the ordinals of the active roles.
abbrev pub IsLowest : User → ℤ → Type 0
IsLowest u n =
    (n ≤ℤ pos 100)
    × All (WhenActive (λ k. n ≤ℤ k)) u.user_roles
    × ((n ≡ pos 100) ⊎ Any (Active (λ k. n ≡ k)) u.user_roles)

-- The loop of `LowestOrdinal` finds the least ordinal: it is at most 100 and at most the ordinal of
-- every active assignment's role, and it is 100 or one of these ordinals.
pub lowest_ordinal-IsLowest : (u : User) → IsLowest u (lowest_ordinal u)
unfolding lowest_ordinal
lowest_ordinal-IsLowest u = (
  lowest_from-le (pos 100) u.user_roles,
  lowest_from-All (pos 100) u.user_roles,
  lowest_from-Any (pos 100) u.user_roles,
)

lowest_from-append :
    (n : ℤ) (urs vrs : List UserRole)
    → lowest_from n (urs ++ vrs) ≡ lowest_from (lowest_from n urs) vrs
unfolding lowest_from
lowest_from-append n [] vrs = refl
lowest_from-append n (ur ∷ urs) vrs = lowest_from-append (after n ur) urs vrs

module _ {ℓ} {A : Type ℓ} (p : A → Bool) where
  any-append : (xs ys : List A) → any p (xs ++ ys) ≡ (any p xs || any p ys)
  any-append [] ys = refl
  any-append (x ∷ xs) ys = ground (arith, any-append xs ys)

-- The user after the role is assigned to it.
abbrev pub with_role : User → UserRole → User
with_role u ur = record u { user_roles = u.user_roles ++ ur ∷ [] }

-- Nobody gains power by a role that they may assign: who is given an assignment of a role that they
-- may assign themselves keeps the same lowest ordinal, and has a protected role only if they had one.
pub can_assign_role_no_escalation :
    (u : User) (r : Role) (ur : UserRole)
    → can_assign_role u r ≡ true
    → ur.role ≡ some r
    → (lowest_ordinal (with_role u ur) ≡ lowest_ordinal u)
      × (has_protected_role (with_role u ur) ≡ has_protected_role u)
unfolding can_assign_role lowest_ordinal has_protected_role
can_assign_role_no_escalation u r ur h e = (
  rw (lowest_from-append (pos 100) u.user_roles (ur ∷ [])) (ground arith),
  rw (any-append (grants is_root_role) u.user_roles (ur ∷ [])) (ground arith),
)

module _ (permission : String) (u target : User) (belongs : Lookup) where
  over_user_iff : (over_user permission u target belongs ≡ done true) ↔ (
      (has_protected_role target ≡ false)
      × (can u permission ≡ true)
      × (lowest_ordinal u ≤ℤ lowest_ordinal target)
      × InScope u.primary_organization_id u.primary_client_id belongs target.primary_organization_id
          target.primary_client_id)
  over_user_iff = ground (
    arith,
    can_act_in_scope_iff u permission target.primary_organization_id target.primary_client_id
        belongs,
  )

-- Who may be edited: exactly the users with no protected role, in the manager's scope, and of no
-- more power, if the manager has the permission "users:update".
pub can_manage_user_iff :
    (u target : User) (belongs : Lookup)
    → (can_manage_user u target belongs ≡ done true) ↔ (
        (has_protected_role target ≡ false)
        × (can u "users:update" ≡ true)
        × (lowest_ordinal u ≤ℤ lowest_ordinal target)
        × InScope u.primary_organization_id u.primary_client_id belongs
            target.primary_organization_id target.primary_client_id)
unfolding can_manage_user
can_manage_user_iff u target belongs = over_user_iff "users:update" u target belongs

-- The same rules for a password, under the permission "users:reset_password".
pub can_reset_password_iff :
    (u target : User) (belongs : Lookup)
    → (can_reset_password u target belongs ≡ done true) ↔ (
        (has_protected_role target ≡ false)
        × (can u "users:reset_password" ≡ true)
        × (lowest_ordinal u ≤ℤ lowest_ordinal target)
        × InScope u.primary_organization_id u.primary_client_id belongs
            target.primary_organization_id target.primary_client_id)
unfolding can_reset_password
can_reset_password_iff u target belongs = over_user_iff "users:reset_password" u target belongs
