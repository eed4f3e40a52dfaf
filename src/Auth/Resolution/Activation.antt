-- ===== src/Auth/Resolution/Activation.antt =====
-- src/auth/auth.service.ts: `validateAndBuildAccessGrantResult`.
use shield_api.Common.{
  ◌↔◌, subst, ◌≡◌, refl, sym, ◌⊎◌, inl, inr, true, List, [], ◌∷◌, map, In, ok, eq_iff, arith,
  Bool-cases, find_complete,
}
use shield_api.Auth.Scope.{RoleScope, is_scope_at_least}
use shield_api.Auth.AccessGrants.{AccessGrantData, AccessContext, scope_allows}
use shield_api.Auth.AccessGrants.Reduction.{IsReduction, reduce_access_grants-IsReduction}
use shield_api.Auth.Resolution.{
  AccessRecord, AccessGrantResult, granted, grant_of_record, at_place, is_active, check_activation,
  validate_and_build_access_grant_result,
}

-- A record of the list stands at the grant's client and site, and satisfies `P`.
abbrev pub Somewhere : (AccessRecord → Type 0) → List AccessRecord → AccessGrantData → Type 0
Somewhere P records g =
    (r : AccessRecord) × In r records × (r.client_id ≡ g.client_id) × (r.site_id ≡ g.site_id) × P r

-- What a grant made of access records owes to them.
pub record Recorded (records : List AccessRecord) (g : AccessGrantData) : Type 0 where
  pub source : Somewhere (λ r. (r.role_id ≡ g.role_id) × (r.role_scope ≡ g.scope)) records g
  pub client_active :
      (is_scope_at_least g.scope RoleScope.global ≡ true)
      ⊎ Somewhere (λ r. is_active r.client_status ≡ true) records g
  pub site_active :
      (is_scope_at_least g.scope RoleScope.client ≡ true)
      ⊎ Somewhere (λ r. r.site_active ≡ true) records g

In-map_grant :
    (g : AccessGrantData) (records : List AccessRecord)
    → In g (map grant_of_record records)
    → (r : AccessRecord) × In r records × (g ≡ grant_of_record r)
In-map_grant g [] m = elim m [ ]
In-map_grant g (r ∷ rs) (inl e) = (r, inl refl, e)
In-map_grant g (r ∷ rs) (inr m) = let (x, i, e) = In-map_grant g rs m in (x, inr i, e)

at_place_iff :
    (g : AccessGrantData) (r : AccessRecord)
    → (at_place g r ≡ true) ↔ ((r.client_id ≡ g.client_id) × (r.site_id ≡ g.site_id))
at_place_iff g r = ground (arith, eq_iff r.client_id g.client_id, eq_iff r.site_id g.site_id)

check_activation-granted :
    (g h : AccessGrantData) (c : AccessContext) (r : AccessRecord)
    → check_activation g c r ≡ granted h
    → (h ≡ g)
      × (is_active r.client_status ≡ true)
      × ((is_scope_at_least g.scope RoleScope.client ≡ true) ⊎ (r.site_active ≡ true))
unfolding scope_allows
check_activation-granted g h c r e = ground arith

global-client :
    (s : RoleScope)
    → is_scope_at_least s RoleScope.global ≡ true
    → is_scope_at_least s RoleScope.client ≡ true
unfolding is_scope_at_least
global-client s h = ground arith

module _ (r : AccessRecord) (rs : List AccessRecord) (c : AccessContext) where
  -- The reduced grant stands at one of the records.
  reduced_source :
      (g : AccessGrantData)
      → IsReduction (map grant_of_record (r ∷ rs)) g
      → Somewhere (λ s. (s.role_id ≡ g.role_id) × (s.role_scope ≡ g.scope)) (r ∷ rs) g
  reduced_source g reduced =
      let (d, m, same) = reduced.source in
      let (s, i, e) = In-map_grant d (r ∷ rs) m in
      (s, i, ground arith, ground arith, (ground arith, ground arith))

  wide-Recorded :
      (g h : AccessGrantData)
      → IsReduction (map grant_of_record (r ∷ rs)) g
      → is_scope_at_least g.scope RoleScope.global ≡ true
      → granted g ≡ granted h
      → Recorded (r ∷ rs) h
  wide-Recorded g h reduced wide e =
      let same : g ≡ h = cc in
      subst (Recorded (r ∷ rs)) same (record {
        source = reduced_source g reduced;
        client_active = inl wide;
        site_active = inl (global-client g.scope wide);
      })

  granted-Recorded :
      (g h : AccessGrantData) (t : AccessRecord)
      → IsReduction (map grant_of_record (r ∷ rs)) g
      → In t (r ∷ rs)
      → at_place g t ≡ true
      → check_activation g c t ≡ granted h
      → Recorded (r ∷ rs) h
  granted-Recorded g h t reduced j place e =
      let (same, client_on, site_on) = check_activation-granted g h c t e in
      let (at_client, at_site) = (at_place_iff g t).0 place in
      subst (Recorded (r ∷ rs)) (sym same) (record {
        source = reduced_source g reduced;
        client_active = inr (t, j, at_client, at_site, client_on);
        site_active = elim site_on [ inl w ↦ inl w | inr on ↦ inr (t, j, at_client, at_site, on) ];
      })

  pub validate_and_build_access_grant_result_lem :
      (result : AccessGrantResult) × (validate_and_build_access_grant_result (r ∷ rs) c ≡ ok result)
      × ((g : AccessGrantData) → result ≡ granted g → Recorded (r ∷ rs) g)
  unfolding validate_and_build_access_grant_result scope_allows
  validate_and_build_access_grant_result_lem =
      let (g, e, reduced) =
        reduce_access_grants-IsReduction (grant_of_record r) (map grant_of_record rs) in
      let (s, i, at_client, at_site, role) = reduced_source g reduced in
      let (t, found, j, place) =
        find_complete (at_place g) s (r ∷ rs) i ((at_place_iff g s).1 (at_client, at_site)) in
      elim (Bool-cases (is_scope_at_least g.scope RoleScope.global)) [
        | inl wide ↦ (granted g, rw (e, wide), λ h same. wide-Recorded g h reduced wide same)
        | inr narrow ↦ (
          check_activation g c t,
          rw (e, narrow, found),
          λ h same. granted-Recorded g h t reduced j place same,
        )
      ]

  -- Of access records that are not none the code always makes a result and never throws: its guard
  -- against a reduced grant without a record is never reached.
  pub validate_and_build_access_grant_result_total :
      (result : AccessGrantResult) × (validate_and_build_access_grant_result (r ∷ rs) c ≡ ok result)
  validate_and_build_access_grant_result_total =
      let (result, e, h) = validate_and_build_access_grant_result_lem in (result, e)
