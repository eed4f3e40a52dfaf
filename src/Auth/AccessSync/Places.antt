-- ===== src/Auth/AccessSync/Places.antt =====
-- src/auth/keycloak/keycloak-access-sync.service.ts: the sync keeps what there is, and where it puts
-- what is new.
use shield_api.Common.{
  ◌≡◌, sym, ◌∙◌, subst, inl, inr, String, Bool, true, List, [], ◌∷◌, Option, none, some, length, In,
  In-to_filter, eqb, ◌==◌, eq_iff, arith, Result, Result-cases, ok, Table,
}
use shield_api.Clients.Invitations.{PersonClientAccess}
use shield_api.Clients.Invitations.PrimaryPlace.{OnePlace}
use shield_api.Auth.AccessSync.{
  KeycloakUser, Person, State, look_up, matching_role_ids, find_person, id_of, sync_roles,
  is_first_access, write_matching, sync_at, sync_user, carry_on, sync_users,
}
use shield_api.Auth.AccessSync.Persons.{HasPerson}
use shield_api.Auth.AccessSync.Writes.{IsGranted, sync_roles_sound}

module _ (ta : Table PersonClientAccess) where
  open ta use {Db, rows, find_first, find_many, create}

  sync_roles-OnePlace :
      (p : String) (place : String × String) (first : Bool) (rs : List String) (db : Db)
      → OnePlace (rows db)
      → (first ≡ true → (a : PersonClientAccess) → In a (rows db) → a.person_id ≡ p → ⊥)
      → OnePlace (rows (sync_roles ta p place first rs db))
  sync_roles-OnePlace p place first rs db before only a b m n same marked marked' =
      elim (sync_roles_sound ta p place first rs db a m) [
        | inl old ↦ elim (sync_roles_sound ta p place first rs db b n) [
          | inl old' ↦ before a b old old' same marked marked'
          | inr new' ↦ absurd (only (sym new'.primary ∙ marked') a old (same ∙ new'.person))
        ]
        | inr new ↦ elim (sync_roles_sound ta p place first rs db b n) [
          | inl old' ↦ absurd (only (sym new.primary ∙ marked) b old' (sym same ∙ new.person))
          | inr new' ↦ (new.client ∙ sym new'.client, new.site ∙ sym new'.site)
        ]
      ]

  no_rows :
      (p : String) (db : Db)
      → is_first_access ta p db ≡ true
      → (a : PersonClientAccess) → In a (rows db)
      → a.person_id ≡ p
      → ⊥
  no_rows p db first a m of_p =
      nothing_in (find_many (λ x. x.person_id == p) db)
        (subst (In a) (sym (ta.find_many_lem _ db))
          (In-to_filter (λ x. x.person_id == p) a (rows db) m ((eq_iff a.person_id p).1 of_p)))
        first
    where
      nothing_in : (xs : List PersonClientAccess) → In a xs → eqb (length xs) 0 ≡ true → ⊥
      nothing_in [] i e = absurd i
      nothing_in (x ∷ xs) i e = ground arith

module _ (tp : Table Person) (ta : Table PersonClientAccess) (draw : String → String)
    (groups_of : String → Result (List (Option String)))
    (role_map client_map site_map : List (String × String)) where
  open ta use {Db, rows}

  write_matching-OnePlace :
      (new_id idp_id : String) (u : KeycloakUser) (place : String × String) (roles : List String)
      (s : State tp ta)
      → OnePlace (rows s.1)
      → OnePlace (rows (write_matching tp ta new_id idp_id u place roles s).1.1)
  write_matching-OnePlace new_id idp_id u place [] s before = before
  write_matching-OnePlace new_id idp_id u place (r ∷ rs) s before =
      let p = id_of new_id (find_person tp idp_id s.0) in
      sync_roles-OnePlace ta p place (is_first_access ta p s.1) (r ∷ rs) s.1 before
        (no_rows ta p s.1)

  sync_at-OnePlace :
      (u : KeycloakUser) (i c k : Option String) (s : State tp ta)
      → OnePlace (rows s.1)
      → OnePlace (
          rows
            (carry_on tp ta draw groups_of role_map client_map site_map s
              (sync_at tp ta draw groups_of role_map client_map site_map u i c k s)).1)
  sync_at-OnePlace u none c k s before = before
  sync_at-OnePlace u (some i) none k s before = before
  sync_at-OnePlace u (some i) (some c) none s before = before
  sync_at-OnePlace u (some i) (some c) (some k) s before = elim (Result-cases (groups_of i)) [
    | inl (groups, e) ↦
        rw e
          (write_matching-OnePlace (draw i) i u (c, k) (matching_role_ids role_map groups) s before)
    | inr (error, e) ↦ rw e before
  ]

  -- The sync of a list of users, each of whom may fail, keeps each person's primary access records at
  -- one client and site.
  pub sync_users-OnePlace :
      (us : List KeycloakUser) (s : State tp ta)
      → OnePlace (rows s.1)
      → OnePlace (rows (sync_users tp ta draw groups_of role_map client_map site_map us s).1)
  unfolding sync_users sync_user
  sync_users-OnePlace [] s before = before
  sync_users-OnePlace (u ∷ us) s before =
      sync_users-OnePlace us _ (sync_at-OnePlace u _ _ _ s before)

  -- What a record made for a user is, by the persons there are at the end.
  pub record IsFor (u : KeycloakUser) (persons : tp.Db) (a : PersonClientAccess) : Type 0 where
    pub idp_id : String
    pub groups : List (Option String)
    pub client : String
    pub site : String
    pub person_id : String
    pub first : Bool
    pub has_person : HasPerson tp persons idp_id person_id
    pub is_user : u.id ≡ some idp_id
    pub has_groups : groups_of idp_id ≡ ok groups
    pub at_client : look_up client_map u.client_id ≡ some client
    pub at_site : look_up site_map u.site_id ≡ some site
    pub granted : IsGranted person_id (client, site) first (matching_role_ids role_map groups) a
