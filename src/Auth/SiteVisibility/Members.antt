-- ===== src/Auth/SiteVisibility/Members.antt =====
-- src/auth/utils/site-visibility.ts: the assets that a member sees.
use mathlib.Core.Path.{fun_ext}
use shield_api.Common.{
  ◌≡◌, refl, ◌⊎◌, inl, inr, String, true, false, ◌||◌, List, [], ◌∷◌, filter, ◌==◌, Bool, sym, ap,
  ap₂, Bool-cases, eq_iff, none, some, length, >>=-eq-ok, ok-injective, ◌≤◌, if◌then◌else◌, get,
  get_or, includes, ok, arith,
}
use shield_api.Auth.Scope.{RoleScope, scope_eq, scope_allows_all_client_sites}
use shield_api.Auth.AccessGrants.{AccessGrantData, reduce_access_grants}
use shield_api.Auth.AccessGrants.Reduction.{IsReduction, reduce_access_grants-IsReduction}
use shield_api.Auth.SiteVisibility.{
  SiteHierarchy, ClientAccess, asset_access_grants, site_access_grants, visible_below_client,
  visible_assets_of_grants, visible_site_ids_of_grants, is_single_site, get_visible_site_ids,
  filter_assets_by_visible_sites, get_visible_assets_for_member, get_visible_site_ids_for_member,
  is_single_site_user,
}

-- Whether a scope shows a site: all from CLIENT up, the own site and those below it for SITE_GROUP,
-- the own site for SITE, none for SELF.
abbrev pub sees_site : RoleScope → String → List String → String → Bool
sees_site RoleScope.system own below s = true
sees_site RoleScope.global own below s = true
sees_site RoleScope.client own below s = true
sees_site RoleScope.site_group own below s = own == s || includes below s
sees_site RoleScope.site own below s = own == s
sees_site RoleScope.self own below s = false

-- The rows of `member.clientAccess` of one client, as grants.
abbrev pub grants_at : List ClientAccess → String → List AccessGrantData
grants_at [] client_id = []
grants_at (a ∷ accesses) client_id =
    let rest = grants_at accesses client_id in
    if a.client_id == client_id
    then record {
      scope = a.role_scope;
      capabilities = a.role_capabilities;
      client_id = client_id;
      site_id = a.site_id;
      role_id = a.role_id;
    }
      ∷ rest
    else rest

grants_at_lem :
    (member : List ClientAccess) (client_id : String)
    → asset_access_grants member client_id ≡ grants_at member client_id
grants_at_lem [] client_id = refl
grants_at_lem (a ∷ member) client_id = elim (Bool-cases (a.client_id == client_id)) [
  | inl e ↦ rw e (
      ap₂
        (λ c gs.
          record {
            scope = a.role_scope;
            capabilities = a.role_capabilities;
            client_id = c;
            site_id = a.site_id;
            role_id = a.role_id;
          }
          ∷ gs)
        ((eq_iff a.client_id client_id).0 e) (grants_at_lem member client_id))
  | inr e ↦ rw e (grants_at_lem member client_id)
]

module _ {A : Type 0} where
  filter_same : (p q : A → Bool) (xs : List A) → ((x : A) → p x ≡ q x) → filter p xs ≡ filter q xs
  filter_same p q xs same = ap (λ f. filter f xs) (fun_ext same)

  filter-true : (xs : List A) → filter (λ x. true) xs ≡ xs
  filter-true [] = refl
  filter-true (x ∷ xs) = ap (λ ys. x ∷ ys) (filter-true xs)

  filter-false : (xs : List A) → filter (λ x. false) xs ≡ []
  filter-false [] = refl
  filter-false (x ∷ xs) = filter-false xs

module _ {A : Type 0} (site_of : A → String) (assets : List A) where
  visible_by_scope :
      (s : RoleScope) (own : String) (h : SiteHierarchy)
      → filter_assets_by_visible_sites site_of assets
          (if scope_allows_all_client_sites s then none else some (visible_below_client s own h))
        ≡ filter
            (λ a. sees_site s own (get_or (get own h.descendants_by_site_id) []) (site_of a))
            assets
  unfolding filter_assets_by_visible_sites scope_allows_all_client_sites
  visible_by_scope RoleScope.system own h = sym (filter-true assets)
  visible_by_scope RoleScope.global own h = sym (filter-true assets)
  visible_by_scope RoleScope.client own h = sym (filter-true assets)
  visible_by_scope RoleScope.site_group own h = filter_same _ _ assets (λ a. refl)
  visible_by_scope RoleScope.site own h = filter_same _ _ assets (λ a. ground arith)
  visible_by_scope RoleScope.self own h = sym (filter-false assets)

  -- The assets at the sites that a grant shows.
  abbrev pub shown_by : AccessGrantData → SiteHierarchy → List A
  shown_by r h =
      filter
        (λ a.
          sees_site r.scope r.site_id (get_or (get r.site_id h.descendants_by_site_id) [])
            (site_of a))
        assets

  abbrev pub Shown : List AccessGrantData → SiteHierarchy → List A → Type 0
  Shown gs h visible =
      ((gs ≡ []) × (visible ≡ []))
      ⊎ ((r : AccessGrantData) × (reduce_access_grants gs ≡ ok r)
          × IsReduction gs r
          × (visible ≡ shown_by r h))

  visible_assets_of_grants_lem :
      (gs : List AccessGrantData) (h : SiteHierarchy)
      → (visible : List A) × (visible_assets_of_grants site_of assets h gs ≡ ok visible)
        × Shown gs h visible
  unfolding get_visible_site_ids
  visible_assets_of_grants_lem [] h = ([], refl, inl (refl, refl))
  visible_assets_of_grants_lem (g ∷ gs) h =
      let (r, e, reduced) = reduce_access_grants-IsReduction g gs in
      (
        filter_assets_by_visible_sites site_of assets (get_visible_site_ids r h),
        rw e refl,
        inr (r, e, reduced, visible_by_scope r.scope r.site_id h),
      )

  -- `getVisibleAssetsForMember` never throws. For a member with no access record at the client it
  -- returns no asset; for any other it returns exactly the assets, in their order, at the sites that
  -- the reduction of the member's grants for that client shows, the same one for every asset.
  pub get_visible_assets_for_member_lem :
      (member : List ClientAccess) (client_id : String) (h : SiteHierarchy)
      → (visible : List A) × (get_visible_assets_for_member site_of member client_id assets h
          ≡ ok visible)
        × Shown (grants_at member client_id) h visible
  unfolding get_visible_assets_for_member
  get_visible_assets_for_member_lem member client_id h =
      rw (grants_at_lem member client_id)
        (visible_assets_of_grants_lem (grants_at member client_id) h)

single_by_scope :
    (s : RoleScope) (own : String) (h : SiteHierarchy)
    → (scope_eq s RoleScope.site || scope_eq s RoleScope.self) ≡ true
    → (scope_allows_all_client_sites s ≡ false) × (length (visible_below_client s own h) ≤ 1)
unfolding scope_allows_all_client_sites
single_by_scope RoleScope.system own h e = cc
single_by_scope s own h e = ground arith

single_site_lem :
    (gs : List AccessGrantData) (h : SiteHierarchy)
    → is_single_site gs ≡ ok true
    → (ids : List String) × (visible_site_ids_of_grants h gs ≡ ok (some ids)) × (length ids ≤ 1)
unfolding get_visible_site_ids
single_site_lem [] h e = ([], refl, omega arith)
single_site_lem (g ∷ gs) h e =
    let (r, reduced, f) = >>=-eq-ok (reduce_access_grants (g ∷ gs)) _ e in
    let (narrow, few) = single_by_scope r.scope r.site_id h (ok-injective f) in
    (visible_below_client r.scope r.site_id h, rw (reduced, narrow), few)

-- A user whom `isSingleSiteUser` accepts sees one site at most.
pub is_single_site_user_lem :
    (member : List ClientAccess) (client_id : String) (h : SiteHierarchy)
    → is_single_site_user member client_id ≡ ok true
    → (ids : List String) × (get_visible_site_ids_for_member member client_id h ≡ ok (some ids))
      × (length ids ≤ 1)
unfolding is_single_site_user get_visible_site_ids_for_member
is_single_site_user_lem member client_id h e =
    single_site_lem (site_access_grants member client_id) h e
