-- ===== src/Tags/Access/Inspection.antt =====
-- src/assets/tags/tags.service.ts: what a user who gets at a registered tag has shown.
use shield_api.Common.{
  ◌≡◌, refl, sym, ap, subst, ◌⊎◌, inl, inr, String, true, false, not, List, [], ◌∷◌, Option, none,
  some, filter, find, find_sound, head?, In, In-of_filter, includes, In-of_includes, get_or,
  truthy?, if◌then◌else◌, ◌==◌, eq_iff, arith, Bool-cases, Option-cases, Result, ok, raise, Error,
  ok-injective,
}
use shield_api.Auth.Scope.{RoleScope, is_scope_at_least}
use shield_api.Auth.SiteVisibility.{SiteNode}
use shield_api.Auth.SiteVisibility.Hierarchy.{Descendant}
use shield_api.Tags.Access.{
  Tag, AccessContext, subsites, get_allowed_site_ids_for_site, gives_access,
  resolve_access_for_client, with_access, find_one_for_inspection,
}
use shield_api.Tags.Access.Hierarchy.{allowed_sound}

-- The record is one of the user's at the tag's client. If the tag has a site, then the record has
-- CLIENT scope or above, or is at this site, or has SITE_GROUP scope or above at a site over it.
pub record Entitles (sites : List SiteNode) (records : List AccessContext) (tag : Tag)
    (r : AccessContext) : Type 0 where
  pub own : In r records
  pub client : r.client_id ≡ get_or tag.client_id ""
  pub site :
      (truthy? tag.site_id ≡ false)
      ⊎ (is_scope_at_least r.scope RoleScope.client ≡ true)
      ⊎ (r.site_id ≡ get_or tag.site_id "")
      ⊎ ((is_scope_at_least r.scope RoleScope.site_group ≡ true)
          × Descendant (subsites sites) r.site_id (get_or tag.site_id ""))

head-In : {A : Type 0} (x : A) (xs : List A) → head? xs ≡ some x → In x xs
head-In x (y ∷ ys) e = inl (cc)
head-In x [] e = cc

module _ (sites : List SiteNode) where
  gives_access_lem :
      (s : String) (r : AccessContext)
      → gives_access sites s r ≡ true
      → (is_scope_at_least r.scope RoleScope.client ≡ true)
        ⊎ (r.site_id ≡ s)
        ⊎ ((is_scope_at_least r.scope RoleScope.site_group ≡ true)
            × Descendant (subsites sites) r.site_id s)
  unfolding gives_access
  gives_access_lem s r h = elim (Bool-cases (is_scope_at_least r.scope RoleScope.client)) [
    | inl wide ↦ inl wide
    | inr narrow ↦ elim (Bool-cases (r.site_id == s)) [
      | inl here ↦ inr (inl ((eq_iff r.site_id s).0 here))
      | inr elsewhere ↦
          let allowed : includes (get_allowed_site_ids_for_site sites r.site_id) s ≡ true =
            ground arith in
          let group : is_scope_at_least r.scope RoleScope.site_group ≡ true = ground arith in
          elim (allowed_sound sites r.site_id s (In-of_includes _ s allowed)) [
            | inl same ↦ inr (inl (sym same))
            | inr below ↦ inr (inr (group, below))
          ]
    ]
  ]

  resolve_lem :
      (records : List AccessContext) (tag : Tag) (r : AccessContext)
      → resolve_access_for_client sites (some records) (get_or tag.client_id "") tag.site_id
        ≡ some r
      → Entitles sites records tag r
  unfolding resolve_access_for_client
  resolve_lem records tag r h =
      let own = λ (a : AccessContext). a.client_id == get_or tag.client_id "" in
      elim (Bool-cases (truthy? tag.site_id)) [
        | inr no_site ↦
            let (i, q) =
              In-of_filter own r records (head-In r (filter own records) (rw no_site at h)) in
            record {
              own = i;
              client = (eq_iff r.client_id (get_or tag.client_id "")).0 q;
              site = inl no_site;
            }
        | inl at_site ↦
            let (j, g) =
              find_sound (gives_access sites (get_or tag.site_id "")) (filter own records) r
                (rw at_site at h) in
            let (i, q) = In-of_filter own r records j in
            record {
              own = i;
              client = (eq_iff r.client_id (get_or tag.client_id "")).0 q;
              site = inr (gives_access_lem (get_or tag.site_id "") r g);
            }
      ]

some-some : {t u : Tag} → some t ≡ some u → t ≡ u
some-some {t} {u} e = cc

-- What comes with a tag: nothing if it has no client, else a record that entitles to it.
abbrev pub Context :
    List SiteNode → Option (List AccessContext) → Tag → Option AccessContext → Type 0
Context sites records tag access =
    ((truthy? tag.client_id ≡ false) × (access ≡ none))
    ⊎ ((rs : List AccessContext) × (records ≡ some rs)
        × ((r : AccessContext) × (access ≡ some r) × Entitles sites rs tag r))

with_access_lem :
    (sites : List SiteNode) (records : Option (List AccessContext)) (t tag : Tag)
    (access : Option AccessContext)
    → with_access sites records t ≡ ok (some tag, access)
    → (t ≡ tag) × Context sites records t access
unfolding resolve_access_for_client
with_access_lem sites none t tag access h = absurd (cc)
with_access_lem sites (some rs) t tag access h =
    elim (Option-cases
      (resolve_access_for_client sites (some rs) (get_or t.client_id "") t.site_id)) [
        | inl e ↦ absurd (raised (rw e at h))
        | inr (r, e) ↦
            let pair = ok-injective (rw e at h) in
            (
              some-some (ap (λ z. z.0) pair),
              inr (rs, refl, (r, sym (ap (λ z. z.1) pair), resolve_lem sites rs t r e)),
            )
      ]
  where
    raised :
        ◌≡◌ {A = Result (Option Tag × Option AccessContext)}
          (raise Error.forbidden)
          (ok (some tag, access))
        → ⊥
    raised e = cc

abbrev find_rest :
    List SiteNode → Option (List AccessContext) → Tag → Result (Option Tag × Option AccessContext)
find_rest sites records t =
    if not (truthy? t.client_id) then ok (some t, none) else with_access sites records t

find_rest_lem :
    (sites : List SiteNode) (records : Option (List AccessContext)) (t tag : Tag)
    (access : Option AccessContext)
    → find_rest sites records t ≡ ok (some tag, access)
    → (t ≡ tag) × Context sites records t access
find_rest_lem sites records t tag access h = elim (Bool-cases (truthy? t.client_id)) [
  | inl e ↦ with_access_lem sites records t tag access (rw e at h)
  | inr e ↦
      let pair = ok-injective (rw e at h) in
      (some-some (ap (λ z. z.0) pair), inl (e, sym (ap (λ z. z.1) pair)))
]

-- Where `findOneForInspection` returns a tag, it is one of the database with the id asked for; and it
-- has no client, or the caller is a user with an access record that entitles to it, which is the
-- context returned.
pub find_one_for_inspection_lem :
    (sites : List SiteNode) (records : Option (List AccessContext)) (tags : List Tag)
    (external_id : String) (tag : Tag) (access : Option AccessContext)
    → find_one_for_inspection sites records tags external_id ≡ ok (some tag, access)
    → In tag tags × (tag.external_id ≡ external_id) × Context sites records tag access
unfolding find_one_for_inspection
find_one_for_inspection_lem sites records tags external_id tag access h =
    elim (Option-cases (find (λ t. t.external_id == external_id) tags)) [
      | inl e ↦ absurd (ground arith)
      | inr (t, e) ↦
          let (i, q) = find_sound (λ t. t.external_id == external_id) tags t e in
          let found : find_rest sites records t ≡ ok (some tag, access) = rw e at h in
          let (same, context) = find_rest_lem sites records t tag access found in
          subst (λ z. In z tags × (z.external_id ≡ external_id) × Context sites records z access)
            same (i, (eq_iff t.external_id external_id).0 q, context)
    ]
