-- ===== src/Rbac/User/Scope.antt =====
-- Which organizations and clients a user reaches: an independent description, and the code's answer.
use telhawk_stack.Prelude.{String, true, is_some, Option, none, some, ◌≡◌, ◌↔◌, arith, eq_iff}
use telhawk_stack.Prelude.Outcome.{done, panic}
use telhawk_stack.Rbac.Role.{tier_of}
use telhawk_stack.Rbac.User.{User, Lookup, can, can_act_in_scope, in_tier}

-- The target is left open, or it is the user's own.
abbrev pub IsOwn : Option String → Option String → Type 0
IsOwn own none = Unit {0}
IsOwn own (some t) = own ≡ some t

-- A target client of an organization's user is found to belong to that organization.
abbrev pub BelongsTo : Option String → Lookup → Option String → Type 0
BelongsTo own belongs none = Unit {0}
BelongsTo own none (some c) = ⊥
BelongsTo none (some f) (some c) = ⊥
BelongsTo (some o) (some f) (some c) = f c o ≡ true

abbrev pub IsNamed : Option String → Option String → Type 0
IsNamed none none = ⊥
IsNamed _ _ = Unit {0}

-- The targets in the scope of a user with the primary organization and client `org` and `cl`.
abbrev pub InScope : Option String → Option String → Lookup → Option String → Option String → Type 0
InScope none none belongs target_org target_client = Unit {0}
InScope (some o) none belongs target_org target_client =
    IsNamed target_org target_client
    × IsOwn (some o) target_org
    × BelongsTo (some o) belongs target_client
InScope org (some c) belongs target_org target_client =
    (target_client ≡ some c) × IsOwn org target_org

in_tier_iff :
    (org cl : Option String) (belongs : Lookup) (target_org target_client : Option String)
    → (in_tier (tier_of org cl) org cl target_org target_client belongs ≡ done true)
      ↔ InScope org cl belongs target_org target_client
unfolding in_tier
in_tier_iff none none belongs target_org target_client = ground arith
in_tier_iff (some o) none belongs none none = ground arith
in_tier_iff (some o) none none none (some c) = ground arith
in_tier_iff (some o) none (some f) none (some c) = ground arith
in_tier_iff (some o) none belongs (some t) none = ground (arith, eq_iff t o)
in_tier_iff (some o) none none (some t) (some c) = ground (arith, eq_iff t o)
in_tier_iff (some o) none (some f) (some t) (some c) = ground (arith, eq_iff t o)
in_tier_iff none (some d) belongs none none = ground arith
in_tier_iff none (some d) belongs none (some c) = ground (arith, eq_iff c d)
in_tier_iff none (some d) belongs (some t) none = ground (arith)
in_tier_iff none (some d) belongs (some t) (some c) = ground (arith, eq_iff c d)
in_tier_iff (some o) (some d) belongs none none = ground arith
in_tier_iff (some o) (some d) belongs none (some c) = ground (arith, eq_iff c d)
in_tier_iff (some o) (some d) belongs (some t) none = ground arith
in_tier_iff (some o) (some d) belongs (some t) (some c) = ground (arith, eq_iff c d, eq_iff t o)

in_tier-panic_iff :
    (org cl : Option String) (belongs : Lookup) (target_org target_client : Option String)
    → (in_tier (tier_of org cl) org cl target_org target_client belongs ≡ panic)
      ↔ ((org ≡ none) × (is_some cl ≡ true) × (target_client ≡ cl) × (is_some target_org ≡ true))
unfolding in_tier
in_tier-panic_iff none none belongs target_org target_client = ground arith
in_tier-panic_iff (some o) none belongs none none = ground arith
in_tier-panic_iff (some o) none none none (some c) = ground arith
in_tier-panic_iff (some o) none (some f) none (some c) = ground arith
in_tier-panic_iff (some o) none belongs (some t) none = ground (arith, eq_iff t o)
in_tier-panic_iff (some o) none none (some t) (some c) = ground (arith, eq_iff t o)
in_tier-panic_iff (some o) none (some f) (some t) (some c) = ground (arith, eq_iff t o)
in_tier-panic_iff org (some d) belongs target_org none = ground arith
in_tier-panic_iff org (some d) belongs none (some c) = ground (arith, eq_iff c d)
in_tier-panic_iff none (some d) belongs (some t) (some c) = ground (arith, eq_iff c d)
in_tier-panic_iff (some o) (some d) belongs (some t) (some c) =
    ground (arith, eq_iff c d, eq_iff t o)

module _ (u : User) (permission : String) (target_org target_client : Option String)
    (belongs : Lookup) where
  -- `CanActInScope` returns true exactly for the users who have the permission and whose scope holds
  -- the target organization and client.
  pub can_act_in_scope_iff :
      (can_act_in_scope u permission target_org target_client belongs ≡ done true) ↔ (
        (can u permission ≡ true)
        × InScope u.primary_organization_id u.primary_client_id belongs target_org target_client)
  unfolding can_act_in_scope
  can_act_in_scope_iff = ground (
    arith,
    in_tier_iff u.primary_organization_id u.primary_client_id belongs target_org target_client,
  )

  -- It dereferences a nil pointer exactly if the user has the permission, a primary client but no
  -- primary organization, and the target names the client of the user and some organization.
  pub can_act_in_scope-panic_iff :
      (can_act_in_scope u permission target_org target_client belongs ≡ panic) ↔ (
        (can u permission ≡ true)
        × (u.primary_organization_id ≡ none)
        × (is_some u.primary_client_id ≡ true)
        × (target_client ≡ u.primary_client_id)
        × (is_some target_org ≡ true))
  unfolding can_act_in_scope
  can_act_in_scope-panic_iff = ground (
    arith,
    in_tier-panic_iff u.primary_organization_id u.primary_client_id belongs target_org
        target_client,
  )
