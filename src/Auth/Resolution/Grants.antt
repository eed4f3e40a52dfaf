-- ===== src/Auth/Resolution/Grants.antt =====
-- src/auth/auth.service.ts: what accounts for the grant of a user.
use shield_api.Common.{
  ◌≡◌, refl, sym, ◌∙◌, ap, ◌⊎◌, inl, inr, String, true, false, not, List, [], ◌∷◌, some, filter, In,
  In-of_filter, arith, Bool-cases, Option-cases, Result, ok, get_or, truthy, truthy?, ok-injective,
  ◌&&◌, ◌||◌, ◌==◌, eq_iff,
}
use shield_api.Auth.Scope.{RoleScope, is_scope_at_least}
use shield_api.Auth.AccessGrants.{AccessGrantData, AccessContext, AccessIntent}
use shield_api.Auth.Resolution.{
  AccessRecord, RoleRow, Rows, AccessGrantResult, granted, intent_is_user, get_most_permissive_role,
  get_system_admin_access_grant, user_is_default_system_admin, requested_access_records,
  grant_for_requested, grant_without_records, grant_by_default, grant_from_records,
  ephemeral_attempt, ephemeral_grant, denied, get_access_grant_for_user_from_database,
  validate_and_build_access_grant_result,
}
use shield_api.Auth.Resolution.Activation.{
  Somewhere, Recorded, validate_and_build_access_grant_result_lem,
}
use shield_api.Auth.Resolution.Roles.{get_most_permissive_role-In}

-- A grant with SYSTEM scope that no access record gives.
pub record Ephemeral (lower : String → String) (db : Rows) (email : String) (c : AccessContext)
    (g : AccessGrantData) : Type 0 where
  pub scope : g.scope ≡ RoleScope.system
  pub entitled :
      (user_is_default_system_admin lower db email ≡ true)
      ⊎ ((r : RoleRow) × In r db.roles
          × (r.id ≡ g.role_id)
          × (r.scope ≡ RoleScope.system)
          × (intent_is_user (get_or c.access_intent AccessIntent.user) ≡ false))

system_only : (s : RoleScope) → is_scope_at_least s RoleScope.system ≡ true → s ≡ RoleScope.system
unfolding is_scope_at_least
system_only s h = ground arith

module _ (xs ys : List AccessRecord) (sub : (r : AccessRecord) → In r xs → In r ys)
    (g : AccessGrantData) where
  Somewhere-mono : (P : AccessRecord → Type 0) → Somewhere P xs g → Somewhere P ys g
  Somewhere-mono P (r, m, a, b, p) = (r, sub r m, a, b, p)

  Recorded-mono : Recorded xs g → Recorded ys g
  Recorded-mono h = record {
    source = Somewhere-mono _ h.source;
    client_active = elim h.client_active [ inl w ↦ inl w | inr s ↦ inr (Somewhere-mono _ s) ];
    site_active = elim h.site_active [ inl w ↦ inl w | inr s ↦ inr (Somewhere-mono _ s) ];
  }

-- The grant of a result, if it has one, satisfies `P`, and the code did not throw.
abbrev Gives : (AccessGrantData → Type 0) → Result AccessGrantResult → Type 0
Gives P m =
    (result : AccessGrantResult) × (m ≡ ok result)
    × ((g : AccessGrantData) → result ≡ granted g → P g)

module _ (lower : String → String) (db : Rows) (email : String) (c : AccessContext) where
  abbrev Accounted : AccessGrantData → Type 0
  Accounted g = Recorded db.access_records g ⊎ Ephemeral lower db email c g

  by_records :
      (r : AccessRecord) (rs : List AccessRecord)
      → ((x : AccessRecord) → In x (r ∷ rs) → In x db.access_records)
      → Gives Accounted (validate_and_build_access_grant_result (r ∷ rs) c)
  by_records r rs sub =
      let (result, e, h) = validate_and_build_access_grant_result_lem r rs c in
      (result, e, λ g same. inl (Recorded-mono (r ∷ rs) db.access_records sub g (h g same)))

  bootstrap_lem :
      (g h : AccessGrantData)
      → g.scope ≡ RoleScope.system
      → user_is_default_system_admin lower db email ≡ true
      → granted g ≡ granted h
      → Accounted h
  bootstrap_lem g h s admin e =
      let same : g ≡ h = cc in inr (record { scope = rw (← same) s; entitled = inl admin })

  abbrev AtClient : String → AccessGrantData → Type 0
  AtClient client_id g = Accounted g × (g.client_id ≡ client_id)

  requested_lem :
      (client_id : String) (records : List AccessRecord)
      → ((x : AccessRecord) → In x records → In x db.access_records × (x.client_id ≡ client_id))
      → Gives (AtClient client_id) (grant_for_requested lower db email client_id c records)
  requested_lem client_id [] sub = elim (Bool-cases (user_is_default_system_admin lower db email)) [
    | inl admin ↦
        let g = ephemeral_grant client_id (get_or c.requested_site_id "") in
        (granted g, rw admin, λ h e. (bootstrap_lem g h refl admin e, cc))
    | inr other ↦ (denied lower client_id c db.access_records, rw other, λ h e. absurd (cc))
  ]
  requested_lem client_id (r ∷ rs) sub =
      let (result, e, h) = validate_and_build_access_grant_result_lem r rs c in
      (
        result,
        e,
        λ g same.
            let owed = h g same in
            (
              inl (Recorded-mono (r ∷ rs) db.access_records (λ y i. (sub y i).0) g owed),
              sym owed.source.2 ∙ (sub owed.source.0 owed.source.1).1,
            ),
      )

  without_records_lem :
      (g : AccessGrantData) → grant_without_records lower db email c ≡ granted g → Accounted g
  without_records_lem g e = elim (Bool-cases (user_is_default_system_admin lower db email)) [
    | inl admin ↦ bootstrap_lem (ephemeral_grant "" "") g refl admin (ground arith)
    | inr other ↦ absurd (ground arith)
  ]

  default_lem :
      (primary records : List AccessRecord)
      → ((x : AccessRecord) → In x primary → In x db.access_records)
      → ((x : AccessRecord) → In x records → In x db.access_records)
      → Gives Accounted (grant_by_default lower db email c primary records)
  default_lem (r ∷ rs) records p q = by_records r rs p
  default_lem [] (r ∷ rs) p q =
      by_records r [] (λ x m. q x (elim m [ inl e ↦ inl e | inr nothing ↦ absurd nothing ]))
  default_lem [] [] p q = (grant_without_records lower db email c, refl, without_records_lem)

  ephemeral_attempt_lem :
      (g : AccessGrantData)
      → ephemeral_attempt db c ≡ some g
      → Accounted g × (g.client_id ≡ get_or c.requested_client_id "")
  unfolding ephemeral_attempt get_system_admin_access_grant
  ephemeral_attempt_lem g e =
      elim (Option-cases (get_most_permissive_role db.roles RoleScope.system)) [
        | inl missing ↦ absurd (ground arith)
        | inr (r, found) ↦
            let (m, wide) = get_most_permissive_role-In db.roles RoleScope.system r found in
            let exact = system_only r.scope wide in
            let scope : g.scope ≡ RoleScope.system = ground arith in
            let role : r.id ≡ g.role_id = ground arith in
            let acting : intent_is_user (get_or c.access_intent AccessIntent.user) ≡ false =
              ground arith in
            (
              inr (record { scope = scope; entitled = inr (r, m, role, exact, acting) }),
              ground arith,
            )
      ]

  abbrev Requested : AccessGrantData → Type 0
  Requested g =
      Accounted g
      × (truthy (get_or c.requested_client_id "") ≡ true
          → g.client_id ≡ get_or c.requested_client_id "")

  requested_access_records-In :
      (client_id : String) (records : List AccessRecord) (x : AccessRecord)
      → In x (requested_access_records lower client_id c records)
      → In x records × (x.client_id ≡ client_id)
  requested_access_records-In client_id records x m =
      let (i, p) =
        In-of_filter
          (λ (r : AccessRecord).
            r.client_id == client_id
            && (not (truthy? c.requested_site_id) || r.site_id == get_or c.requested_site_id ""))
          x records m in
      (i, ground (arith, eq_iff x.client_id client_id))

  grant_from_records_lem : Gives Requested (grant_from_records lower db email c)
  unfolding grant_from_records
  grant_from_records_lem =
      let client_id = get_or c.requested_client_id "" in
      let records = db.access_records in
      elim (Bool-cases (truthy client_id)) [
        | inl asked ↦
            let (result, e, h) =
              requested_lem client_id (requested_access_records lower client_id c records)
                (requested_access_records-In client_id records) in
            (result, rw asked e, λ g same. ((h g same).0, λ _. (h g same).1))
        | inr absent ↦
            let (result, e, h) =
              default_lem (filter (λ r. r.is_primary) records) records
                (λ x m. (In-of_filter (λ r. r.is_primary) x records m).0) (λ x m. m) in
            (result, rw absent e, λ g same. (h g same, λ asked. cc))
      ]

  get_access_grant_for_user_from_database_lem :
      Gives Requested (get_access_grant_for_user_from_database lower db email c)
  unfolding get_access_grant_for_user_from_database
  get_access_grant_for_user_from_database_lem = elim (Option-cases (ephemeral_attempt db c)) [
    | inl missing ↦ rw (missing, get_access_grant_for_user_from_database) grant_from_records_lem
    | inr (g, e) ↦ (
      granted g,
      rw (e, get_access_grant_for_user_from_database),
      λ h same.
          let same' : g ≡ h = cc in
          let (owed, at) = ephemeral_attempt_lem h (e ∙ ap some same') in (owed, λ _. at),
    )
  ]

  -- `getAccessGrantForUserFromDatabase` never throws, whatever the database's rows are.
  pub get_access_grant_for_user_from_database_total :
      (result : AccessGrantResult) × (get_access_grant_for_user_from_database lower db email c
        ≡ ok result)
  get_access_grant_for_user_from_database_total =
      let (result, e, h) = get_access_grant_for_user_from_database_lem in (result, e)

  granted_lem :
      (g : AccessGrantData)
      → get_access_grant_for_user_from_database lower db email c ≡ ok (granted g)
      → Requested g
  granted_lem g e =
      let (result, f, h) = get_access_grant_for_user_from_database_lem in
      h g (ok-injective (sym f ∙ e))

  -- A grant that `getAccessGrantForUserFromDatabase` gives has the client, site, role and scope of
  -- one of the user's access records, and its client and its site are active unless its scope is
  -- exempt (GLOBAL and up, and CLIENT and up); or it is an ephemeral grant with SYSTEM scope, of a
  -- configured system admin or, with an intent other than `user`, of a user with a SYSTEM role.
  pub get_access_grant_for_user_from_database_sound :
      (g : AccessGrantData)
      → get_access_grant_for_user_from_database lower db email c ≡ ok (granted g)
      → Recorded db.access_records g ⊎ Ephemeral lower db email c g
  get_access_grant_for_user_from_database_sound g e = (granted_lem g e).0

  -- Where a client is requested, a grant is for that client.
  pub get_access_grant_for_user_from_database_client :
      (g : AccessGrantData)
      → truthy (get_or c.requested_client_id "") ≡ true
      → get_access_grant_for_user_from_database lower db email c ≡ ok (granted g)
      → g.client_id ≡ get_or c.requested_client_id ""
  get_access_grant_for_user_from_database_client g asked e = (granted_lem g e).1 asked
