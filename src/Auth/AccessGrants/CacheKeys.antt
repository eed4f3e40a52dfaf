-- ===== src/Auth/AccessGrants/CacheKeys.antt =====
-- src/auth/utils/access-grants.ts: which cached responses `clearAccessGrantResponseCache` deletes.
use shield_api.Common.{
  ◌≢◌, Bool-cases, ◌==◌, eq_iff, In-append_right, truthy?, if◌then◌else◌, [], ◌∷◌, ◌≡◌, refl, sym,
  subst, map, inl, inr, String, List, Option, none, some, In, In-map, In-flat_map, arith, get_or,
}
use shield_api.Auth.AccessGrants.{
  AccessContext, AccessIntent, build_access_grant_response_cache_key, clear_contexts, all_site_ids,
  clear_access_grant_response_cache, intent_variants, site_context,
}

-- A site that a change names: the one site, which an empty text does not give, or one of the list.
pub data IsChanged (site_id : Option String) (site_ids : Option (List String)) (s : String)
    : Type 0 where
  one : site_id ≡ some s → s ≢ "" → IsChanged site_id site_ids s
  listed : (ids : List String) → site_ids ≡ some ids → In s ids → IsChanged site_id site_ids s

-- The contexts of a user that a change of the access to `client_id` at the changed sites concerns: no
-- request, the whole client, or the client at a changed site. One with a site and no client is left
-- out.
pub data IsAffected (client_id : String) (site_id : Option String) (site_ids : Option (List String))
    (c : AccessContext) : Type 0 where
  default :
      c.requested_client_id ≡ none
      → c.requested_site_id ≡ none
      → IsAffected client_id site_id site_ids c
  whole_client :
      c.requested_client_id ≡ some client_id
      → c.requested_site_id ≡ none
      → IsAffected client_id site_id site_ids c
  at_site :
      (s : String)
      → IsChanged site_id site_ids s
      → c.requested_client_id ≡ some client_id
      → c.requested_site_id ≡ some s
      → IsAffected client_id site_id site_ids c

IsChanged-all_site_ids :
    (site_id : Option String) (site_ids : Option (List String)) (s : String)
    → IsChanged site_id site_ids s
    → In s (all_site_ids site_id site_ids)
IsChanged-all_site_ids site_id site_ids s (one e full) = elim (Bool-cases (s == "")) [
  | inl empty ↦ absurd (full ((eq_iff s "").0 empty))
  | inr f ↦ rw (e, f) (inl refl)
]
IsChanged-all_site_ids site_id site_ids s (listed ids e m) =
    rw e (In-append_right s (if truthy? site_id then get_or site_id "" ∷ [] else []) ids m)

IsAffected-clear_contexts :
    (client_id : String) (site_id : Option String) (site_ids : Option (List String))
    (c : AccessContext)
    → IsAffected client_id site_id site_ids c
    → In
        (record c { access_intent = none })
        (clear_contexts client_id (all_site_ids site_id site_ids))
IsAffected-clear_contexts client_id site_id site_ids c (default p q) = inl (ground arith)
IsAffected-clear_contexts client_id site_id site_ids c (whole_client p q) = inr (inl (ground arith))
IsAffected-clear_contexts client_id site_id site_ids c (at_site s m p q) =
    let e : record c { access_intent = none } ≡ site_context client_id s = ground arith in
    inr (
      inr (
        subst (λ z. In z (map (site_context client_id) (all_site_ids site_id site_ids))) (sym e)
          (In-map (site_context client_id) s (all_site_ids site_id site_ids)
            (IsChanged-all_site_ids site_id site_ids s m))))

intent_variants_all : (i : AccessIntent) → In i intent_variants
intent_variants_all AccessIntent.system = inl refl
intent_variants_all AccessIntent.elevated = inr (inl refl)
intent_variants_all AccessIntent.user = inr (inr (inl refl))

-- Of the user and the client of a change at some sites, the keys are among the deleted ones, with any
-- intent or none, of the context that requests nothing, of the one that requests the client alone, and
-- of every one that requests the client at the site given (if it is not the empty text) or at one of
-- the sites listed.
pub clear_access_grant_response_cache_lem :
    (idp_id client_id : String) (site_id : Option String) (site_ids : Option (List String))
    (c : AccessContext)
    → IsAffected client_id site_id site_ids c
    → In
        (build_access_grant_response_cache_key idp_id c)
        (clear_access_grant_response_cache idp_id client_id site_id site_ids)
unfolding clear_access_grant_response_cache
clear_access_grant_response_cache_lem idp_id client_id site_id site_ids c h =
    In-flat_map
      (λ d.
        map
          (λ i. build_access_grant_response_cache_key idp_id (record d { access_intent = some i }))
          intent_variants)
      (record c { access_intent = none }) _
      (clear_contexts client_id (all_site_ids site_id site_ids))
      (IsAffected-clear_contexts client_id site_id site_ids c h)
      (In-map
        (λ i. build_access_grant_response_cache_key idp_id (record c { access_intent = some i }))
        (get_or c.access_intent AccessIntent.user) intent_variants
        (intent_variants_all (get_or c.access_intent AccessIntent.user)))
