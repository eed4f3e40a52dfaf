-- ===== src/Auth/AccessGrants.antt =====
-- src/auth/utils/access-grants.ts: access grants, their reduction to one, and the cache keys.
pub mod Reduction
pub mod CacheKeys
use shield_api.Common.{
  String, Bool, true, false, not, List, [], ◌∷◌, Option, none, some, if◌then◌else◌, get_or, map,
  any, all, includes, set_add_all, Result, ok, raise, Error, plain, ◌==◌, flat_map, ◌++◌, concat,
  truthy?,
}
use shield_api.Auth.Scope.{RoleScope, scope_eq, is_scope_at_least, index_of}

pub record AccessGrantData : Type 0 where
  pub scope : RoleScope
  pub capabilities : List String
  pub client_id : String
  pub site_id : String
  pub role_id : String

unfoldable pub is_system_admin : AccessGrantData → Bool
is_system_admin g = scope_eq g.scope RoleScope.system

unfoldable pub is_global_admin : AccessGrantData → Bool
unfolding is_scope_at_least
is_global_admin g = is_scope_at_least g.scope RoleScope.global

unfoldable pub is_client_admin : AccessGrantData → Bool
unfolding is_scope_at_least
is_client_admin g = is_scope_at_least g.scope RoleScope.client

unfoldable pub scope_allows : AccessGrantData → RoleScope → Bool
unfolding is_scope_at_least
scope_allows g required = is_scope_at_least g.scope required

unfoldable pub has_capability : AccessGrantData → String → Bool
has_capability g capability = includes g.capabilities capability

unfoldable pub has_any_capability : AccessGrantData → List String → Bool
has_any_capability g capabilities = any (λ c. includes g.capabilities c) capabilities

unfoldable pub has_all_capabilities : AccessGrantData → List String → Bool
has_all_capabilities g capabilities = all (λ c. includes g.capabilities c) capabilities

-- One round of the loop of `reduceAccessGrants`. The fields of `acc` are the variables
-- mostPermissiveScope, combinedCapabilities, clientId, siteId and roleId.
unfoldable pub reduce_step : AccessGrantData → AccessGrantData → AccessGrantData
reduce_step acc g =
    let capabilities = set_add_all acc.capabilities g.capabilities in
    if is_scope_at_least g.scope acc.scope
    then record g { capabilities = capabilities }
    else record acc { capabilities = capabilities }

unfoldable pub reduce_loop : AccessGrantData → List AccessGrantData → AccessGrantData
reduce_loop acc [] = acc
reduce_loop acc (g ∷ gs) = reduce_loop (reduce_step acc g) gs

unfoldable pub reduce_access_grants : List AccessGrantData → Result AccessGrantData
reduce_access_grants [] = raise plain
reduce_access_grants (g ∷ gs) =
    ok (reduce_loop (record g { scope = RoleScope.self; capabilities = [] }) (g ∷ gs))

pub data AccessIntent : Type 0 where
  system elevated user : AccessIntent

abbrev pub intent_name : AccessIntent → String
intent_name AccessIntent.system = "system"
intent_name AccessIntent.elevated = "elevated"
intent_name AccessIntent.user = "user"

pub record AccessContext : Type 0 where
  pub requested_client_id : Option String
  pub requested_site_id : Option String
  pub access_intent : Option AccessIntent

unfoldable pub build_access_grant_response_cache_key : String → AccessContext → String
build_access_grant_response_cache_key idp_id c = concat (
    "access-grant:idpId:"
    ∷ idp_id
    ∷ "|client:"
    ∷ get_or c.requested_client_id "default"
    ∷ "|site:"
    ∷ get_or c.requested_site_id "default"
    ∷ "|intent:"
    ∷ intent_name (get_or c.access_intent AccessIntent.user)
    ∷ [])

abbrev pub intent_variants : List AccessIntent
intent_variants = AccessIntent.system ∷ AccessIntent.elevated ∷ AccessIntent.user ∷ []

-- `allSiteIds`
abbrev pub all_site_ids : Option String → Option (List String) → List String
all_site_ids site_id site_ids =
    (if truthy? site_id then get_or site_id "" ∷ [] else []) ++ get_or site_ids []

abbrev pub site_context : String → String → AccessContext
site_context client_id s = record {
  requested_client_id = some client_id;
  requested_site_id = some s;
  access_intent = none;
}

-- `contexts`, with no intent yet.
abbrev pub clear_contexts : String → List String → List AccessContext
clear_contexts client_id sites =
    record { requested_client_id = none; requested_site_id = none; access_intent = none }
    ∷ record {
      requested_client_id = some client_id;
      requested_site_id = none;
      access_intent = none;
    }
    ∷ map (site_context client_id) sites

-- The keys that `clearAccessGrantResponseCache` hands to its `deleteFn`.
unfoldable pub clear_access_grant_response_cache :
    String → String → Option String → Option (List String) → List String
unfolding build_access_grant_response_cache_key
clear_access_grant_response_cache idp_id client_id site_id site_ids =
    flat_map
      (λ c.
        map
          (λ i. build_access_grant_response_cache_key idp_id (record c { access_intent = some i }))
          intent_variants)
      (clear_contexts client_id (all_site_ids site_id site_ids))
