-- ===== src/Auth/AccessSync/Persons.antt =====
-- src/auth/keycloak/keycloak-access-sync.service.ts: the persons that the sync finds, makes and keeps.
use shield_api.Common.{
  if◌then◌else◌, is_some, In-map, In-append_left, In-append_right, Bool-cases, Option-cases, ◌≡◌,
  refl, sym, ◌∙◌, subst, inl, inr, String, List, [], ◌∷◌, Option, none, some, In, ◌==◌, eq_iff,
  Result, Result-cases, Table,
}
use shield_api.Clients.Invitations.{PersonClientAccess}
use shield_api.Auth.AccessSync.{
  KeycloakUser, Person, State, new_person, update_person, upsert_person, matching_role_ids,
  find_person, id_of, write_matching, sync_at, sync_user, carry_on, sync_users,
}

module _ (tp : Table Person) where
  -- The table of persons has one with this id at Keycloak and this id.
  abbrev pub HasPerson : tp.Db → String → String → Type 0
  HasPerson persons idp_id id =
      (p : Person) × In p (tp.rows persons) × (p.idp_id ≡ idp_id) × (p.id ≡ id)

  abbrev refreshed : KeycloakUser → String → Person → Person
  refreshed u idp_id r = if r.idp_id == idp_id then update_person u r else r

  upserted-HasPerson :
      (new_id idp_id : String) (u : KeycloakUser) (persons : tp.Db) (i d : String)
      → HasPerson persons i d
      → HasPerson (upsert_person tp new_id idp_id u persons) i d
  upserted-HasPerson new_id idp_id u persons i d (p, m, same, at) =
      elim (Bool-cases (is_some (find_person tp idp_id persons))) [
        | inr e ↦ rw e (
          p,
          subst (In p) (sym (tp.rows-create _ persons)) (In-append_left p (tp.rows persons) _ m),
          same,
          at,
        )
        | inl e ↦ rw e (
          refreshed u idp_id p,
          subst (In (refreshed u idp_id p)) (sym (tp.rows-update_many _ _ persons))
              (In-map (refreshed u idp_id) p (tp.rows persons) m),
          (changed p).0 ∙ same,
          (changed p).1 ∙ at,
        )
      ]
    where
      changed :
          (r : Person)
          → ((refreshed u idp_id r).idp_id ≡ r.idp_id) × ((refreshed u idp_id r).id ≡ r.id)
      changed r = elim (Bool-cases (r.idp_id == idp_id)) [
        | inl e ↦ rw e (refl, refl)
        | inr e ↦ rw e (refl, refl)
      ]

  pub own-HasPerson :
      (new_id idp_id : String) (u : KeycloakUser) (persons : tp.Db)
      → HasPerson
          (upsert_person tp new_id idp_id u persons)
          idp_id
          (id_of new_id (find_person tp idp_id persons))
  own-HasPerson new_id idp_id u persons = elim (Option-cases (find_person tp idp_id persons)) [
    | inl e ↦ rw e (
      new_person new_id idp_id u,
      subst (In (new_person new_id idp_id u)) (sym (tp.rows-create _ persons))
          (In-append_right _ (tp.rows persons) _ (inl refl)),
      refl,
      refl,
    )
    | inr (p, e) ↦
        let (m, q) = tp.find_first_sound (λ r. r.idp_id == idp_id) persons p e in
        subst (λ o. HasPerson (upsert_person tp new_id idp_id u persons) idp_id (id_of new_id o))
          (sym e)
          (upserted-HasPerson new_id idp_id u persons idp_id p.id
            (p, m, (eq_iff p.idp_id idp_id).0 q, refl))
  ]

module _ (tp : Table Person) (ta : Table PersonClientAccess) (draw : String → String)
    (groups_of : String → Result (List (Option String)))
    (role_map client_map site_map : List (String × String)) where
  written-HasPerson :
      (new_id idp_id : String) (u : KeycloakUser) (place : String × String) (roles : List String)
      (s : State tp ta) (i d : String)
      → HasPerson tp s.0 i d
      → HasPerson tp (write_matching tp ta new_id idp_id u place roles s).1.0 i d
  written-HasPerson new_id idp_id u place [] s i d h = h
  written-HasPerson new_id idp_id u place (r ∷ rs) s i d h =
      upserted-HasPerson tp new_id idp_id u s.0 i d h

  carried-HasPerson :
      (u : KeycloakUser) (i c k : Option String) (s : State tp ta) (idp_id id : String)
      → HasPerson tp s.0 idp_id id
      → HasPerson tp
          (carry_on tp ta draw groups_of role_map client_map site_map s
            (sync_at tp ta draw groups_of role_map client_map site_map u i c k s)).0
          idp_id
          id
  carried-HasPerson u none c k s idp_id id h = h
  carried-HasPerson u (some i) none k s idp_id id h = h
  carried-HasPerson u (some i) (some c) none s idp_id id h = h
  carried-HasPerson u (some i) (some c) (some k) s idp_id id h = elim (Result-cases (groups_of i)) [
    | inl (groups, e) ↦
        rw e
          (written-HasPerson (draw i) i u (c, k) (matching_role_ids role_map groups) s idp_id id h)
    | inr (error, e) ↦ rw e h
  ]

  pub synced-HasPerson :
      (us : List KeycloakUser) (s : State tp ta) (idp_id id : String)
      → HasPerson tp s.0 idp_id id
      → HasPerson tp (sync_users tp ta draw groups_of role_map client_map site_map us s).0 idp_id id
  unfolding sync_users sync_user
  synced-HasPerson [] s idp_id id h = h
  synced-HasPerson (u ∷ us) s idp_id id h =
      synced-HasPerson us _ idp_id id (carried-HasPerson u _ _ _ s idp_id id h)
