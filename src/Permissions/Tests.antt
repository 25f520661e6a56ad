-- ===== src/Permissions/Tests.antt =====
-- The permissions of concrete roles.
use code_kit_ultra.Base.{String, ◌≡◌, refl, [], same, if◌then◌else◌}
use code_kit_ultra.Permissions.Resolve.{role_permissions, role_aliases, granted_by}

-- `toLowerCase` on the texts of the tests.
abbrev lower : String → String
lower s =
    if same s "Reviewer"
    then "reviewer"
    else if same s "ServiceAccount"
    then "serviceaccount"
    else s

-- The alias of a service account gives nothing.
service_account_alias : granted_by lower "ServiceAccount" ≡ []
unfolding granted_by role_permissions role_aliases
service_account_alias = refl
