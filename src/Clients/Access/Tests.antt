-- ===== src/Clients/Access/Tests.antt =====
-- The theorem on src/clients/client-access/client-access.service.ts, at a user with two roles at one
-- place and one at another.
use shield_api.Common.{◌≡◌, refl, String, List, [], ◌∷◌, some, map, distinct, ok}
use shield_api.Auth.Scope.{RoleScope, is_scope_at_least}
use shield_api.Auth.AccessGrants.{reduce_access_grants, reduce_loop, reduce_step}
use shield_api.Clients.Access.{
  AccessRow, MyClientAccess, place_key, group_from, add_to_group, get_my_client_access,
}
use shield_api.Clients.Access.Grouping.{IsMerged, Pairwise, rows_at, get_my_client_access_lem}

abbrev row : String → String → RoleScope → String → AccessRow
row site_id role_id scope capability = record {
  client_id = "c1";
  client_name = "First";
  site_id = site_id;
  site_name = "Site";
  role_id = role_id;
  role_name = "Role";
  scope = scope;
  capabilities = capability ∷ [];
}

abbrev inspector : AccessRow
inspector = row "s1" "inspector" RoleScope.site "perform-inspections"

abbrev others : List AccessRow
others =
    row "s2" "guest" RoleScope.self "view-reports"
    ∷ row "s1" "manager" RoleScope.client "manage-assets"
    ∷ []

abbrev row_entry : String → String → RoleScope → List String → MyClientAccess
row_entry site_id role_id scope capabilities = record {
  client_id = "c1";
  client_name = "First";
  site_id = site_id;
  site_name = "Site";
  role_id = role_id;
  role_name = some "Role";
  scope = scope;
  capabilities = capabilities;
}

-- The entry of the first place has the scope of the manager and the name of the inspector.
two_places :
    get_my_client_access (λ s. s) [] (some "ann@example.org") (inspector ∷ others)
    ≡ ok (
        row_entry "s1" "inspector" RoleScope.client ("perform-inspections" ∷ "manage-assets" ∷ [])
        ∷ row_entry "s2" "guest" RoleScope.self ("view-reports" ∷ [])
        ∷ [])
unfolding get_my_client_access group_from add_to_group reduce_access_grants reduce_loop reduce_step
    is_scope_at_least
two_places = refl

get_my_client_access_example :
    (es : List MyClientAccess) × ((get_my_client_access
          (λ s. s)
          []
          (some "ann@example.org")
          (inspector ∷ others)
        ≡ ok es)
      × Pairwise
          (λ k e. IsMerged (rows_at k (inspector ∷ others)) e)
          (distinct (map place_key (inspector ∷ others)))
          es)
get_my_client_access_example =
    get_my_client_access_lem (λ s. s) [] "ann@example.org" inspector others
