-- ===== src/Tags/Access.antt =====
-- src/assets/tags/tags.service.ts and `getAllowedSiteIdsForSite` of src/prisma/prisma.service.ts: who
-- may see a tag. The rows of the database are arguments; the cache of the allowed sites is left out.
pub mod Hierarchy
pub mod Inspection
mod Tests
use shield_api.Common.{
  ◌≡◌, String, Bool, true, false, not, ◌&&◌, ◌||◌, List, [], ◌∷◌, Option, none, some, map, filter,
  find, head?, includes, flat_map, is_some, get_or, truthy?, if◌then◌else◌, ◌==◌, Result, ok, raise,
  Error, throw_if, require, ◌>>=◌, ◌>>◌,
}
use shield_api.Auth.Scope.{RoleScope, is_scope_at_least}
use shield_api.Auth.SiteVisibility.{SiteNode}

-- A row of `Tag`, with the id of its asset.
pub record Tag : Type 0 where
  pub id : String
  pub external_id : String
  pub serial_number : String
  pub site_id : Option String
  pub client_id : Option String
  pub asset_id : Option String

-- An access record of the user, with what the context of the access holds.
pub record AccessContext : Type 0 where
  pub client_id : String
  pub site_id : String
  pub role_id : String
  pub scope : RoleScope

-- The ids of `site.subsites`.
abbrev pub subsites : List SiteNode → String → List String
subsites sites id =
    map (λ s. s.id)
      (filter (λ s. is_some s.parent_site_id && get_or s.parent_site_id "" == id) sites)

unfoldable pub get_allowed_site_ids_for_site : List SiteNode → String → List String
get_allowed_site_ids_for_site sites site_id =
    if not (is_some (find (λ s. s.id == site_id) sites))
    then site_id ∷ []
    else site_id
      ∷ flat_map (λ s1. s1 ∷ flat_map (λ s2. s2 ∷ subsites sites s2) (subsites sites s1))
          (subsites sites site_id)

-- One round of the loop over `accessRecords`: the record gives access.
unfoldable pub gives_access : List SiteNode → String → AccessContext → Bool
unfolding get_allowed_site_ids_for_site is_scope_at_least
gives_access sites tag_site_id r =
    is_scope_at_least r.scope RoleScope.client
    || (r.site_id == tag_site_id
        || is_scope_at_least r.scope RoleScope.site_group
          && includes (get_allowed_site_ids_for_site sites r.site_id) tag_site_id)

-- `records`: of the user at all clients, none where there is no user.
unfoldable pub resolve_access_for_client :
    List SiteNode → Option (List AccessContext) → String → Option String → Option AccessContext
unfolding gives_access
resolve_access_for_client sites none tag_client_id tag_site_id = none
resolve_access_for_client sites (some records) tag_client_id tag_site_id =
    let own = filter (λ r. r.client_id == tag_client_id) records in
    if truthy? tag_site_id then find (gives_access sites (get_or tag_site_id "")) own else head? own

-- What follows once a tag with a client is found.
abbrev pub with_access :
    List SiteNode → Option (List AccessContext) → Tag → Result (Option Tag × Option AccessContext)
with_access sites records tag = do
  access ←
      require (resolve_access_for_client sites records (get_or tag.client_id "") tag.site_id)
        Error.forbidden
  ok (some tag, some access)

-- `findOneForInspection` and `findOneForAssetSetup`, which differ in what they include.
unfoldable pub find_one_for_inspection :
    List SiteNode
    → Option (List AccessContext)
    → List Tag
    → String
    → Result (Option Tag × Option AccessContext)
unfolding resolve_access_for_client
find_one_for_inspection sites records tags external_id = do
  tag ← require (find (λ t. t.external_id == external_id) tags) Error.not_found
  if not (truthy? tag.client_id) then ok (some tag, none) else with_access sites records tag

-- `checkRegistration`, for the id that the token is about.
abbrev check_found :
    List SiteNode
    → Option (List AccessContext)
    → Option Tag
    → Result (Option Tag × Option AccessContext)
check_found sites records none = ok (none, none)
check_found sites records (some tag) =
    if not (is_some tag.client_id) then ok (some tag, none) else with_access sites records tag

unfoldable pub check_registered :
    List SiteNode
    → Option (List AccessContext)
    → List Tag
    → String
    → Result (Option Tag × Option AccessContext)
unfolding resolve_access_for_client
check_registered sites records tags external_id =
    check_found sites records (find (λ t. t.external_id == external_id) tags)
