-- ===== src/Auth/SiteVisibility.antt =====
-- src/auth/utils/site-visibility.ts: the site hierarchy of a client, and what a scope lets a user see.
pub mod Hierarchy
pub mod Build
pub mod Members
use shield_api.Common.{
  ℕ, zero, suc, ◌≡◌, String, Bool, true, false, List, [], ◌∷◌, ◌++◌, Option, none, some, map,
  filter, get, put, get_or, truthy?, if◌then◌else◌, ◌==◌, includes, Result, ok, raise, ◌>>=◌, Error,
  ◌||◌,
}
use shield_api.Auth.Scope.{RoleScope, scope_eq, scope_allows_all_client_sites}
use shield_api.Auth.AccessGrants.{AccessGrantData, reduce_access_grants}

pub record SiteNode : Type 0 where
  pub id : String
  pub parent_site_id : Option String

pub record SiteHierarchy : Type 0 where
  pub all_site_ids : List String
  pub descendants_by_site_id : List (String × List String)

-- The loop that fills `childrenMap`.
unfoldable pub children_map_from :
    List (String × List String) → List SiteNode → List (String × List String)
children_map_from m [] = m
children_map_from m (s ∷ sites) =
    let p = get_or s.parent_site_id "" in
    children_map_from
      (if truthy? s.parent_site_id then put p (get_or (get p m) [] ++ s.id ∷ []) m else m) sites

-- `directChildren.flatMap(childId => [childId, ...getDescendants(childId)])`
abbrev pub descend_each : (String → Result (List String)) → List String → Result (List String)
descend_each descend [] = ok []
descend_each descend (c ∷ cs) = do
  below ← descend c
  rest ← descend_each descend cs
  ok (c ∷ below ++ rest)

-- `getDescendants`. The fuel is the depth of the call stack; where it runs out the source throws
-- a RangeError.
unfoldable pub get_descendants : ℕ → List (String × List String) → String → Result (List String)
get_descendants zero m site_id = raise Error.plain
get_descendants (suc fuel) m site_id =
    descend_each (λ c. get_descendants fuel m c) (get_or (get site_id m) [])

-- The loop that fills `descendantsBySiteId`.
unfoldable pub descendants_from :
    (String → Result (List String))
    → List (String × List String)
    → List SiteNode
    → Result (List (String × List String))
descendants_from descend m [] = ok m
descendants_from descend m (s ∷ sites) = do
  below ← descend s.id
  descendants_from descend (put s.id below m) sites

unfoldable pub build_site_hierarchy : ℕ → List SiteNode → Result SiteHierarchy
unfolding children_map_from get_descendants descendants_from
build_site_hierarchy stack sites = do
  let children = children_map_from [] sites
  descendants ← descendants_from (get_descendants stack children) [] sites
  ok (record { all_site_ids = map (λ s. s.id) sites; descendants_by_site_id = descendants })

-- The `switch` of `getVisibleSiteIds`, at a scope below CLIENT.
abbrev visible_below_client : RoleScope → String → SiteHierarchy → List String
visible_below_client RoleScope.site_group site_id h =
    site_id ∷ get_or (get site_id h.descendants_by_site_id) []
visible_below_client RoleScope.site site_id h = site_id ∷ []
visible_below_client _ site_id h = []

-- `none` is the source's null: all sites of the client.
unfoldable pub get_visible_site_ids : AccessGrantData → SiteHierarchy → Option (List String)
unfolding scope_allows_all_client_sites
get_visible_site_ids g h =
    if scope_allows_all_client_sites g.scope
    then none
    else some (visible_below_client g.scope g.site_id h)

module _ {ℓ} {A : Type ℓ} (site_of : A → String) where
  unfoldable pub filter_assets_by_visible_sites : List A → Option (List String) → List A
  filter_assets_by_visible_sites assets none = assets
  filter_assets_by_visible_sites assets (some []) = []
  filter_assets_by_visible_sites assets (some (s ∷ ss)) =
      filter (λ a. includes (s ∷ ss) (site_of a)) assets

-- A row of `member.clientAccess` with its role.
pub record ClientAccess : Type 0 where
  pub client_id : String
  pub site_id : String
  pub role_id : String
  pub role_scope : RoleScope
  pub role_capabilities : List String

-- `clientAccessGrants` of `getVisibleAssetsForMember`
abbrev pub asset_access_grants : List ClientAccess → String → List AccessGrantData
asset_access_grants accesses client_id =
    map
      (λ ca. record {
        scope = ca.role_scope;
        capabilities = ca.role_capabilities;
        client_id = ca.client_id;
        site_id = ca.site_id;
        role_id = ca.role_id;
      })
      (filter (λ ca. ca.client_id == client_id) accesses)

-- `clientAccessGrants` of `getVisibleSiteIdsForMember`
abbrev pub site_access_grants : List ClientAccess → String → List AccessGrantData
site_access_grants accesses client_id =
    map
      (λ ca. record {
        scope = ca.role_scope;
        capabilities = ca.role_capabilities;
        client_id = ca.client_id;
        site_id = ca.site_id;
        role_id = ca.role_id;
      })
      (filter (λ ca. ca.client_id == client_id) accesses)

-- `clientAccessGrants` of `isSingleSiteUser`
abbrev pub single_access_grants : List ClientAccess → String → List AccessGrantData
single_access_grants accesses client_id =
    map
      (λ ca. record {
        scope = ca.role_scope;
        capabilities = ca.role_capabilities;
        client_id = ca.client_id;
        site_id = ca.site_id;
        role_id = ca.role_id;
      })
      (filter (λ ca. ca.client_id == client_id) accesses)

abbrev visible_site_ids_of_grants :
    SiteHierarchy → List AccessGrantData → Result (Option (List String))
visible_site_ids_of_grants h [] = ok (some [])
visible_site_ids_of_grants h (g ∷ gs) = do
  r ← reduce_access_grants (g ∷ gs)
  ok (get_visible_site_ids r h)

unfoldable pub get_visible_site_ids_for_member :
    List ClientAccess → String → SiteHierarchy → Result (Option (List String))
unfolding reduce_access_grants get_visible_site_ids
get_visible_site_ids_for_member member client_id h =
    visible_site_ids_of_grants h (site_access_grants member client_id)

module _ {ℓ} {A : Type ℓ} (site_of : A → String) where
  -- `getVisibleAssetsForMember` once the grants are collected.
  abbrev visible_assets_of_grants : List A → SiteHierarchy → List AccessGrantData → Result (List A)
  visible_assets_of_grants assets h [] = ok []
  visible_assets_of_grants assets h (g ∷ gs) = do
    r ← reduce_access_grants (g ∷ gs)
    ok (filter_assets_by_visible_sites site_of assets (get_visible_site_ids r h))

  unfoldable pub get_visible_assets_for_member :
      List ClientAccess → String → List A → SiteHierarchy → Result (List A)
  unfolding reduce_access_grants get_visible_site_ids filter_assets_by_visible_sites
  get_visible_assets_for_member member client_id assets h =
      visible_assets_of_grants assets h (asset_access_grants member client_id)

abbrev is_single_site : List AccessGrantData → Result Bool
is_single_site [] = ok true
is_single_site (g ∷ gs) = do
  r ← reduce_access_grants (g ∷ gs)
  ok (scope_eq r.scope RoleScope.site || scope_eq r.scope RoleScope.self)

unfoldable pub is_single_site_user : List ClientAccess → String → Result Bool
unfolding reduce_access_grants
is_single_site_user member client_id = is_single_site (single_access_grants member client_id)
