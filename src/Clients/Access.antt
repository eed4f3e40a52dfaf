-- ===== src/Clients/Access.antt =====
-- src/clients/client-access/client-access.service.ts: the places where a user has access. The rows
-- that the query returns are an argument, and so is `toLowerCase`.
pub mod Grouping
mod Tests
use shield_api.Common.{
  String, Bool, true, false, List, [], ◌∷◌, ◌++◌, Option, none, some, map, concat, includes,
  if◌then◌else◌, ◌==◌, Result, ok, raise, Error, ◌>>=◌,
}
use shield_api.Auth.Scope.{RoleScope}
use shield_api.Auth.Capabilities.{valid_capabilities}
use shield_api.Auth.AccessGrants.{AccessGrantData, reduce_access_grants}

-- A row of the query, with its client, site and role.
pub record AccessRow : Type 0 where
  pub client_id : String
  pub client_name : String
  pub site_id : String
  pub site_name : String
  pub role_id : String
  pub role_name : String
  pub scope : RoleScope
  pub capabilities : List String

pub record MyClientAccess : Type 0 where
  pub client_id : String
  pub client_name : String
  pub site_id : String
  pub site_name : String
  pub role_id : String
  -- absent in the entry of a system administrator
  pub role_name : Option String
  pub scope : RoleScope
  pub capabilities : List String

abbrev pub bootstrap_entry : MyClientAccess
bootstrap_entry = record {
  client_id = "unknown";
  client_name = "System Administration";
  site_id = "unknown";
  site_name = "System";
  role_id = "system-admin";
  role_name = none;
  scope = RoleScope.system;
  capabilities = valid_capabilities;
}

abbrev pub place_key : AccessRow → String
place_key a = concat (a.client_id ∷ ":" ∷ a.site_id ∷ [])

-- The entries of the map `grouped`, in the order of their insertion.
abbrev pub Groups : Type 0
Groups = List (String × List AccessRow)

-- One round of the loop.
unfoldable pub add_to_group : AccessRow → Groups → Groups
add_to_group a [] = (place_key a, a ∷ []) ∷ []
add_to_group a (p ∷ gs) =
    let rest = add_to_group a gs in
    if p.0 == place_key a then (p.0, p.1 ++ a ∷ []) ∷ gs else p ∷ rest

unfoldable pub group_from : Groups → List AccessRow → Groups
unfolding add_to_group
group_from gs [] = gs
group_from gs (a ∷ rows) = group_from (add_to_group a gs) rows

abbrev pub grant_of : AccessRow → AccessGrantData
grant_of a = record {
  scope = a.scope;
  capabilities = a.capabilities;
  client_id = a.client_id;
  site_id = a.site_id;
  role_id = a.role_id;
}

abbrev pub entry : AccessRow → AccessGrantData → MyClientAccess
entry first merged = record {
  client_id = first.client_id;
  client_name = first.client_name;
  site_id = first.site_id;
  site_name = first.site_name;
  role_id = first.role_id;
  role_name = some first.role_name;
  scope = merged.scope;
  capabilities = merged.capabilities;
}

-- The entry of a group.
abbrev pub merge_group : List AccessRow → Result MyClientAccess
merge_group [] = raise Error.plain
merge_group (first ∷ rest) = do
  merged ← reduce_access_grants (map grant_of (first ∷ rest))
  ok (entry first merged)

abbrev pub merge_groups : Groups → Result (List MyClientAccess)
merge_groups [] = ok []
merge_groups (p ∷ gs) = do e ← merge_group p.1; es ← merge_groups gs; ok (e ∷ es)

-- `email`: of the user, if there is one.
unfoldable pub get_my_client_access :
    (lower : String → String)
    → List String
    → Option String
    → List AccessRow
    → Result (List MyClientAccess)
unfolding group_from reduce_access_grants
get_my_client_access lower system_admin_emails none rows = ok []
get_my_client_access lower system_admin_emails (some email) [] =
    ok (if includes system_admin_emails (lower email) then bootstrap_entry ∷ [] else [])
get_my_client_access lower system_admin_emails (some email) (r ∷ rs) =
    merge_groups (group_from [] (r ∷ rs))
