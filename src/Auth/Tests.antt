-- ===== src/Auth/Tests.antt =====
-- The theorems of src/auth at concrete inputs, and runs of the definitions.
use shield_api.Common.{
  map, ℕ, ◌<◌, ◌≡◌, ◌≢◌, ◌↔◌, refl, ◌⊎◌, inl, String, true, false, List, [], ◌∷◌, none, some, In,
  ok, get, ◌>>=◌, arith, eq_iff, ◌==◌, if◌then◌else◌,
}
use shield_api.Auth.Scope.{RoleScope, is_scope_at_least, scope_allows_all_client_sites}
use shield_api.Auth.AccessGrants.{
  AccessGrantData, AccessContext, AccessIntent, reduce_access_grants, reduce_loop, reduce_step,
  build_access_grant_response_cache_key, clear_access_grant_response_cache, scope_allows,
}
use shield_api.Auth.AccessGrants.Reduction.{IsReduction, reduce_access_grants-IsReduction}
use shield_api.Auth.AccessGrants.CacheKeys.{whole_client, clear_access_grant_response_cache_lem}
use shield_api.Auth.SiteVisibility.{
  SiteNode, SiteHierarchy, ClientAccess, build_site_hierarchy, children_map_from, get_descendants,
  descendants_from, get_visible_assets_for_member, is_single_site_user,
}
use shield_api.Auth.SiteVisibility.Hierarchy.{Descendant, child}
use shield_api.Auth.SiteVisibility.Build
use shield_api.Auth.SiteVisibility.Build.{children_of}
use shield_api.Auth.SiteVisibility.Members
use shield_api.Auth.SiteVisibility.Members.{Shown, grants_at}
use shield_api.Auth.Resolution.{
  AccessRecord, ClientStatus, Rows, AccessGrantResult, granted,
  get_access_grant_for_user_from_database, validate_and_build_access_grant_result,
  ephemeral_attempt, grant_from_records,
}
use shield_api.Auth.Resolution.Activation.{Recorded, validate_and_build_access_grant_result_total}
use shield_api.Auth.Resolution.Grants
use shield_api.Auth.Resolution.Grants.{Ephemeral}
use shield_api.Auth.Guards.{
  Endpoint, Headers, auth_guard, policies_guard, check_capability, bypass_rls, get_access_intent,
}
use shield_api.Auth.Guards.Passing.{Authorised, guards_lem}

abbrev inspector : AccessGrantData
inspector = record {
  scope = RoleScope.site;
  capabilities = "perform-inspections" ∷ [];
  client_id = "c1";
  site_id = "s1";
  role_id = "inspector";
}

abbrev manager : AccessGrantData
manager = record {
  scope = RoleScope.site_group;
  capabilities = "manage-assets" ∷ "perform-inspections" ∷ [];
  client_id = "c1";
  site_id = "s2";
  role_id = "manager";
}

reduce_two :
    reduce_access_grants (inspector ∷ manager ∷ [])
    ≡ ok (record manager { capabilities = "perform-inspections" ∷ "manage-assets" ∷ [] })
unfolding reduce_access_grants reduce_loop reduce_step is_scope_at_least
reduce_two = refl

reduce_access_grants-IsReduction_example :
    (r : AccessGrantData) × (reduce_access_grants (inspector ∷ manager ∷ []) ≡ ok r)
    × IsReduction (inspector ∷ manager ∷ []) r
reduce_access_grants-IsReduction_example = reduce_access_grants-IsReduction inspector (manager ∷ [])

abbrev at_c1 : AccessContext
at_c1 = record {
  requested_client_id = some "c1";
  requested_site_id = none;
  access_intent = some AccessIntent.user;
}

clear_access_grant_response_cache_example :
    In
      (build_access_grant_response_cache_key "idp" at_c1)
      (clear_access_grant_response_cache "idp" "c1" (some "s1") none)
clear_access_grant_response_cache_example =
    clear_access_grant_response_cache_lem "idp" "c1" (some "s1") none at_c1 (whole_client refl refl)

abbrev sites : List SiteNode
sites =
    record { id = "s1"; parent_site_id = none }
    ∷ record { id = "s2"; parent_site_id = some "s1" }
    ∷ []

abbrev hierarchy : SiteHierarchy
hierarchy = record {
  all_site_ids = "s1" ∷ "s2" ∷ [];
  descendants_by_site_id = ("s1", "s2" ∷ []) ∷ ("s2", []) ∷ [];
}

build_two : build_site_hierarchy 5 sites ≡ ok hierarchy
unfolding build_site_hierarchy children_map_from get_descendants descendants_from
build_two = refl

build_site_hierarchy_example :
    (hierarchy.all_site_ids ≡ map (λ s. s.id) sites)
    × ((ds : List String) × (get "s1" hierarchy.descendants_by_site_id ≡ some ds)
        × (In "s2" ds ↔ Descendant (children_of sites) "s1" "s2"))
build_site_hierarchy_example =
    Build.build_site_hierarchy_lem sites 5 hierarchy "s1" "s2" build_two refl

-- "s1" stands above the other site.
abbrev rank : String → ℕ
rank a = if "s1" == a then 1 else 0

rank_falls : (p c : String) → In c (children_of sites p) → rank c < rank p
rank_falls p c m = ground (arith, eq_iff "s1" p, eq_iff "s1" c, eq_iff "s1" "s2")

rank_deep : (a : String) → rank a < 5
rank_deep a = ground arith

build_site_hierarchy_total_example : (h : SiteHierarchy) × (build_site_hierarchy 5 sites ≡ ok h)
build_site_hierarchy_total_example =
    Build.build_site_hierarchy_total sites 5 rank rank_falls rank_deep

abbrev looped : List SiteNode
looped = record { id = "s1"; parent_site_id = some "s1" } ∷ []

build_site_hierarchy_cycle_example : build_site_hierarchy 9 looped ≢ ok hierarchy
build_site_hierarchy_cycle_example =
    Build.build_site_hierarchy_cycle looped 9 "s1" hierarchy refl
      (child {a = "s1"} {c = "s1"} (inl refl))

abbrev member : List ClientAccess
member =
    record {
      client_id = "c1";
      site_id = "s1";
      role_id = "manager";
      role_scope = RoleScope.site_group;
      role_capabilities = [];
    }
    ∷ []

abbrev inspector_member : List ClientAccess
inspector_member =
    record {
      client_id = "c1";
      site_id = "s1";
      role_id = "inspector";
      role_scope = RoleScope.site;
      role_capabilities = [];
    }
    ∷ []

-- An asset is its site's id here.
sees_subsite :
    get_visible_assets_for_member (λ (a : String). a) member "c1" ("s2" ∷ "s3" ∷ []) hierarchy
    ≡ ok ("s2" ∷ [])
unfolding get_visible_assets_for_member reduce_loop reduce_step is_scope_at_least
    scope_allows_all_client_sites
sees_subsite = refl

get_visible_assets_for_member_example :
    (visible : List String) × (get_visible_assets_for_member
        (λ (a : String). a)
        member
        "c1"
        ("s2" ∷ "s3" ∷ [])
        hierarchy
      ≡ ok visible)
    × Shown (λ (a : String). a) ("s2" ∷ "s3" ∷ []) (grants_at member "c1") hierarchy visible
get_visible_assets_for_member_example =
    Members.get_visible_assets_for_member_lem (λ (a : String). a) ("s2" ∷ "s3" ∷ []) member "c1"
      hierarchy

single : is_single_site_user inspector_member "c1" ≡ ok true
unfolding is_single_site_user reduce_loop reduce_step is_scope_at_least
single = refl

abbrev seat : AccessRecord
seat = record {
  id = "a1";
  is_primary = true;
  client_id = "c1";
  client_status = ClientStatus.active;
  site_id = "s1";
  site_active = true;
  role_id = "inspector";
  role_scope = RoleScope.site;
  role_capabilities = "perform-inspections" ∷ [];
}

abbrev db : Rows
db = record {
  access_records = seat ∷ [];
  roles = [];
  first_site = λ c. none;
  system_admin_emails = "root@x" ∷ [];
}

-- The texts here are in lower case.
abbrev lower : String → String
lower s = s

resolves : get_access_grant_for_user_from_database lower db "a@x" at_c1 ≡ ok (granted inspector)
unfolding get_access_grant_for_user_from_database ephemeral_attempt grant_from_records
    validate_and_build_access_grant_result reduce_access_grants reduce_loop reduce_step
    is_scope_at_least scope_allows
resolves = refl

validate_and_build_access_grant_result_example :
    (result : AccessGrantResult) × (validate_and_build_access_grant_result (seat ∷ []) at_c1
      ≡ ok result)
validate_and_build_access_grant_result_example =
    validate_and_build_access_grant_result_total seat [] at_c1

get_access_grant_total_example :
    (result : AccessGrantResult) × (get_access_grant_for_user_from_database lower db "a@x" at_c1
      ≡ ok result)
get_access_grant_total_example =
    Grants.get_access_grant_for_user_from_database_total lower db "a@x" at_c1

get_access_grant_sound_example :
    Recorded (seat ∷ []) inspector ⊎ Ephemeral lower db "a@x" at_c1 inspector
get_access_grant_sound_example =
    Grants.get_access_grant_for_user_from_database_sound lower db "a@x" at_c1 inspector resolves

get_access_grant_client_example : inspector.client_id ≡ "c1"
get_access_grant_client_example =
    Grants.get_access_grant_for_user_from_database_client lower db "a@x" at_c1 inspector refl
      resolves

abbrev endpoint : Endpoint ℕ
endpoint = record {
  is_public = false;
  skip_access_grant_validation = false;
  private_handlers = check_capability "perform-inspections" ∷ [];
  public_handlers = [];
}

abbrev headers : Headers
headers = record { x_access_intent = none; x_view_context = none; x_client_id = some "c1" }

passes :
    (auth_guard endpoint headers (some 7) (granted inspector) >>= policies_guard endpoint) ≡ ok true
unfolding auth_guard policies_guard check_capability get_access_intent
passes = refl

guards_example : Authorised endpoint headers (some 7) (granted inspector)
guards_example = guards_lem endpoint headers (some 7) (granted inspector) refl refl refl passes

abbrev admin_grant : AccessGrantData
admin_grant = record inspector { scope = RoleScope.system }

bypasses : bypass_rls false false AccessIntent.system (some admin_grant) ≡ true
unfolding bypass_rls
bypasses = refl
