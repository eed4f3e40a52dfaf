-- ===== src/Tags/Access/Tests.antt =====
-- The theorems on the access to a tag of src/assets/tags/tags.service.ts, at two sites.
use shield_api.Common.{◌≡◌, refl, subst, ◌⊎◌, ◌↔◌, inl, inr, List, [], ◌∷◌, none, some, In, ok}
use shield_api.Auth.Scope.{RoleScope, is_scope_at_least}
use shield_api.Auth.SiteVisibility.{SiteNode}
use shield_api.Auth.SiteVisibility.Hierarchy.{Descendant}
use shield_api.Tags.Access.{
  Tag, AccessContext, subsites, get_allowed_site_ids_for_site, gives_access,
  resolve_access_for_client, find_one_for_inspection,
}
use shield_api.Tags.Access.Hierarchy.{ThreeLevels, get_allowed_site_ids_for_site_lem}
use shield_api.Tags.Access.Inspection.{Context, find_one_for_inspection_lem}

abbrev top : SiteNode
top = record { id = "s1"; parent_site_id = none }

abbrev below : SiteNode
below = record { id = "s2"; parent_site_id = some "s1" }

abbrev sites : List SiteNode
sites = top ∷ below ∷ []

sites-ThreeLevels : ThreeLevels sites "s1"
sites-ThreeLevels a b c d (inl e) j k l = absurd (subst (λ z. In b (subsites sites z)) e j)
sites-ThreeLevels a b c d (inr nothing) j k l = absurd nothing

allowed_sites_example :
    In "s2" (get_allowed_site_ids_for_site sites "s1")
    ↔ ((below.id ≡ top.id) ⊎ Descendant (subsites sites) "s1" "s2")
allowed_sites_example =
    get_allowed_site_ids_for_site_lem sites top "s2" (inl refl) sites-ThreeLevels

abbrev tag : Tag
tag = record {
  id = "x1";
  external_id = "t1";
  serial_number = "SN1";
  site_id = some "s2";
  client_id = some "c1";
  asset_id = none;
}

abbrev lead : AccessContext
lead = record { client_id = "c1"; site_id = "s1"; role_id = "r1"; scope = RoleScope.site_group }

found : find_one_for_inspection sites (some (lead ∷ [])) (tag ∷ []) "t1" ≡ ok (some tag, some lead)
unfolding find_one_for_inspection resolve_access_for_client gives_access
    get_allowed_site_ids_for_site is_scope_at_least
found = refl

inspection_example :
    In tag (tag ∷ [])
    × (tag.external_id ≡ tag.external_id)
    × Context sites (some (lead ∷ [])) tag (some lead)
inspection_example =
    find_one_for_inspection_lem sites (some (lead ∷ [])) (tag ∷ []) "t1" tag (some lead) found
