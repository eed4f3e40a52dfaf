-- ===== src/Admin/Tests.antt =====
-- The theorems of src/admin/roles at a concrete table.
use shield_api.Common.{
  ℕ, ◌≡◌, refl, String, true, false, List, [], ◌∷◌, none, ok, raise, Error, list_table,
}
use shield_api.Auth.Scope.{RoleScope, is_scope_at_least}
use shield_api.Auth.Capabilities.{is_valid_capability}
use shield_api.Admin.Roles.{
  Role, CreateRoleDto, create_one, rescope, run, create_role, set_scope, has_invalid_capabilities,
}
use shield_api.Admin.Roles.Invariant.{WellFormed}
use shield_api.Admin.Roles.Keeping.{run-WellFormed}

abbrev unused : String → ℕ
unused id = 0

abbrev dto : CreateRoleDto
dto = record {
  name = "Inspector";
  description = none;
  scope = RoleScope.site;
  capabilities = "perform-inspections" ∷ [];
  notification_groups = none;
  client_assignable = true;
}

abbrev role : Role
role = record {
  id = "r1";
  name = "Inspector";
  description = none;
  is_system = false;
  client_assignable = true;
  notification_groups = [];
  scope = RoleScope.site;
  capabilities = "perform-inspections" ∷ [];
}

abbrev roles : List Role
roles = role ∷ []

created : run (list_table Role) unused (create_one "r1" dto) [] ≡ ok roles
unfolding run create_role has_invalid_capabilities is_valid_capability is_scope_at_least
created = refl

no_roles-WellFormed : WellFormed []
no_roles-WellFormed = record {
  assignable = λ r m. absurd m;
  valid = λ r m. absurd m;
  ids = λ r s m. absurd m;
  names = λ r s m. absurd m;
}

roles-WellFormed : WellFormed roles
roles-WellFormed =
    run-WellFormed (list_table Role) unused (create_one "r1" dto) [] roles no_roles-WellFormed
      (λ r m. absurd m) created

rescoped :
    run (list_table Role) unused (rescope "r1" RoleScope.client) roles
    ≡ ok (record role { scope = RoleScope.client } ∷ [])
unfolding run set_scope is_scope_at_least
rescoped = refl

too_wide :
    run (list_table Role) unused (rescope "r1" RoleScope.global) roles ≡ raise Error.bad_request
unfolding run set_scope is_scope_at_least
too_wide = refl

run-WellFormed_example : WellFormed (record role { scope = RoleScope.client } ∷ [])
run-WellFormed_example =
    run-WellFormed (list_table Role) unused (rescope "r1" RoleScope.client) roles
      (record role { scope = RoleScope.client } ∷ []) roles-WellFormed tt rescoped
