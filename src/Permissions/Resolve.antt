-- ===== src/Permissions/Resolve.antt =====
-- packages/policy/src/role-mapping.ts and resolve-permissions.ts. `toLowerCase` is a parameter.
use code_kit_ultra.Base.{String, List, [], ◌∷◌, ◌++◌, includes, lookup, or_default, if◌then◌else◌}

-- A permission stands by its name.
unfoldable pub role_permissions : List (String × List String)
role_permissions =
    (
      "admin",
      "run:create" ∷ "run:view" ∷ "run:cancel" ∷ "gate:view" ∷ "gate:approve" ∷ "gate:reject"
          ∷ "execution:view" ∷ "execution:high_risk" ∷ "execution:rollback" ∷ "healing:invoke"
          ∷ "policy:view" ∷ "policy:manage" ∷ "audit:view" ∷ "service_account:manage"
          ∷ "service_account:view" ∷ "automation:view" ∷ "automation:manage" ∷ [],
    )
    ∷ (
      "operator",
      "run:create" ∷ "run:view" ∷ "run:cancel" ∷ "gate:view" ∷ "gate:approve" ∷ "execution:view"
          ∷ "execution:high_risk" ∷ "healing:invoke" ∷ "policy:view" ∷ "automation:view"
          ∷ "automation:manage" ∷ [],
    )
    ∷ (
      "reviewer",
      "run:view" ∷ "gate:view" ∷ "gate:approve" ∷ "gate:reject" ∷ "execution:view" ∷ "policy:view"
          ∷ "audit:view" ∷ "automation:view" ∷ [],
    )
    ∷ (
      "viewer",
      "run:view" ∷ "gate:view" ∷ "execution:view" ∷ "policy:view" ∷ "audit:view" ∷ "automation:view"
          ∷ [],
    )
    ∷ (
      "service_account",
      "run:create" ∷ "run:view" ∷ "run:cancel" ∷ "gate:view" ∷ "gate:approve" ∷ "execution:view"
          ∷ "execution:high_risk" ∷ "healing:invoke" ∷ "automation:view" ∷ "automation:manage" ∷ [],
    )
    ∷ []

unfoldable pub role_aliases : List (String × String)
role_aliases =
    ("owner", "admin")
    ∷ ("Owner", "admin")
    ∷ ("Admin", "admin")
    ∷ ("Operator", "operator")
    ∷ ("Reviewer", "reviewer")
    ∷ ("Viewer", "viewer")
    ∷ ("ServiceAccount", "service_account")
    ∷ []

-- `set.add(p)`
unfoldable pub add : List String → String → List String
add set p = if includes p set then set else set ++ p ∷ []

unfoldable pub add_all : List String → List String → List String
add_all set [] = set
add_all set (p ∷ ps) = add_all (add set p) ps

module _ (to_lower_case : String → String) where
  -- The permissions of one role, none for an unknown one.
  unfoldable pub granted_by : String → List String
  granted_by raw =
      let role = to_lower_case raw in
      or_default (lookup (or_default (lookup role role_aliases) role) role_permissions) []

  unfoldable pub add_roles : List String → List String → List String
  add_roles set [] = set
  add_roles set (role ∷ roles) = add_roles (add_all set (granted_by role)) roles

  unfoldable pub resolve_permissions : List String → List String
  resolve_permissions roles = add_roles [] roles
