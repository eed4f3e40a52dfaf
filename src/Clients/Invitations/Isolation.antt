-- ===== src/Clients/Invitations/Isolation.antt =====
-- src/clients/invitations/invitations.service.ts: what `createBulk` lets into the table, and what
-- `renew` leaves of the invitation it renews.
use shield_api.Common.{
  some, raise, ℕ, suc, ◌≡◌, refl, sym, ◌∙◌, subst, ◌⊎◌, inl, inr, String, true, ◌||◌, List, [], ◌∷◌,
  Option, map, find, find_sound, In, In-map, In-of_filter, In-of_append, distinct, includes_of_In,
  In-of_includes, includes-set_add_all, ◌==◌, eq_iff, arith, Option-cases, Result, ok, >>=-eq-ok,
  Table,
}
use shield_api.Auth.Scope.{RoleScope}
use shield_api.Auth.AccessGrants.{scope_allows}
use shield_api.Clients.Invitations.{Invitation, InvitationStatus}
use shield_api.Clients.Invitations.Creation.{
  Invite, CreateInvitationsDto, Site, AssignableRole, Caller, target_client_id, check_sites,
  check_roles, assignable_roles, new_invitation, create_many, create_bulk,
}

-- An invitation that the caller may issue: pending, for the target client, at one of the client's
-- sites that the caller sees, with a role that it may assign.
pub record IsAllowed (c : Caller) (dto : CreateInvitationsDto) (i : Invitation) : Type 0 where
  pub pending : i.status ≡ InvitationStatus.pending
  pub client : i.client_id ≡ target_client_id c dto
  pub site : (s : Site) × In s c.sites × (s.id ≡ i.site_id) × (s.client_id ≡ i.client_id)
  pub role :
      (r : AssignableRole) × In r c.roles
      × (r.id ≡ i.role_id)
      × ((scope_allows c.grant RoleScope.system || r.client_assignable) ≡ true)

In-distinct : (xs : List String) (x : String) → In x xs → In x (distinct xs)
In-distinct xs x m =
    In-of_includes (distinct xs) x (includes-set_add_all [] xs x ∙ includes_of_In xs x m)

check_sites_lem :
    (sites : List Site) (client_id : String) (ids : List String) (id : String)
    → check_sites sites client_id ids ≡ ok tt
    → In id ids
    → (s : Site) × In s sites × (s.id ≡ id) × (s.client_id ≡ client_id)
unfolding check_sites
check_sites_lem sites client_id [] id h m = absurd m
check_sites_lem sites client_id (x ∷ ids) id h m =
    elim (Option-cases (find (λ s. s.id == x) sites)) [
      | inl e ↦ absurd (ground arith)
      | inr (s, e) ↦
          let (i, q) = find_sound (λ s. s.id == x) sites s e in
          let rest : check_sites sites client_id ids ≡ ok tt = ground arith in
          let own : s.client_id ≡ client_id = ground (arith, eq_iff s.client_id client_id) in
          elim m [
            | inl here ↦ (s, i, (eq_iff s.id x).0 q ∙ sym here, own)
            | inr later ↦ check_sites_lem sites client_id ids id rest later
          ]
    ]

check_roles_lem :
    (roles : List AssignableRole) (ids : List String) (id : String)
    → check_roles roles ids ≡ ok tt
    → In id ids
    → (r : AssignableRole) × In r roles × (r.id ≡ id)
unfolding check_roles
check_roles_lem roles [] id h m = absurd m
check_roles_lem roles (x ∷ ids) id h m = elim (Option-cases (find (λ r. r.id == x) roles)) [
  | inl e ↦ absurd (ground arith)
  | inr (r, e) ↦
      let (i, q) = find_sound (λ r. r.id == x) roles r e in
      let rest : check_roles roles ids ≡ ok tt = ground arith in
      elim m [
        | inl here ↦ (r, i, (eq_iff r.id x).0 q ∙ sym here)
        | inr later ↦ check_roles_lem roles ids id rest later
      ]
]

module _ (t : Table Invitation) (c : Caller) where
  create_many_lem :
      (dto : CreateInvitationsDto) (n : ℕ) (vs : List Invite) (db : t.Db) (i : Invitation)
      → In i (t.rows (create_many t c dto n vs db))
      → In i (t.rows db) ⊎ ((v : Invite) × (k : ℕ) × In v vs × (i ≡ new_invitation c dto k v))
  unfolding create_many
  create_many_lem dto n [] db i m = inl m
  create_many_lem dto n (v ∷ vs) db i m = elim (create_many_lem dto (suc n) vs _ i m) [
    | inr (w, k, j, e) ↦ inr (w, k, inr j, e)
    | inl before ↦ elim (In-of_append i (t.rows db) _ (subst (In i) (t.rows-create _ db) before)) [
      | inl old ↦ inl old
      | inr (inl e) ↦ inr (v, n, inl refl, e)
      | inr (inr nothing) ↦ absurd nothing
    ]
  ]

  new-IsAllowed :
      (dto : CreateInvitationsDto) (v : Invite) (k : ℕ)
      → In v dto.invitations
      → check_sites c.sites
          (target_client_id c dto)
          (distinct (map (λ w. w.site_id) dto.invitations))
        ≡ ok tt
      → check_roles
          (assignable_roles c.grant c.roles)
          (distinct (map (λ w. w.role_id) dto.invitations))
        ≡ ok tt
      → IsAllowed c dto (new_invitation c dto k v)
  unfolding assignable_roles
  new-IsAllowed dto v k m sites roles =
      let site_in =
        In-distinct (map (λ (w : Invite). w.site_id) dto.invitations) v.site_id
          (In-map (λ (w : Invite). w.site_id) v dto.invitations m) in
      let role_in =
        In-distinct (map (λ (w : Invite). w.role_id) dto.invitations) v.role_id
          (In-map (λ (w : Invite). w.role_id) v dto.invitations m) in
      let (r, j, e) = check_roles_lem _ _ v.role_id roles role_in in
      let (seen, may) = In-of_filter _ r c.roles j in
      record {
        pending = refl;
        client = refl;
        site = check_sites_lem _ _ _ v.site_id sites site_in;
        role = (r, seen, e, may);
      }

  created :
      (dto : CreateInvitationsDto) (db db' : t.Db)
      → create_bulk t c dto db ≡ ok db'
      → (check_sites c.sites
            (target_client_id c dto)
            (distinct (map (λ w. w.site_id) dto.invitations))
          ≡ ok tt)
        × (check_roles
              (assignable_roles c.grant c.roles)
              (distinct (map (λ w. w.role_id) dto.invitations))
            ≡ ok tt)
        × (create_many t c dto 0 dto.invitations db ≡ db')
  unfolding create_bulk
  created dto db db' h =
      let (u, sites, h1) = >>=-eq-ok _ _ h in
      let (u', roles, h2) = >>=-eq-ok _ _ h1 in (sites, roles, ground arith)

  -- A `createBulk` that returns adds only invitations that the caller may issue: pending, for the
  -- target client, at a site of this client that the caller sees, with a role that it may assign.
  pub create_bulk-IsAllowed :
      (dto : CreateInvitationsDto) (db db' : t.Db) (i : Invitation)
      → create_bulk t c dto db ≡ ok db'
      → In i (t.rows db')
      → In i (t.rows db) ⊎ IsAllowed c dto i
  create_bulk-IsAllowed dto db db' i h m =
      let (sites, roles, done) = created dto db db' h in
      elim (create_many_lem dto 0 dto.invitations db i
        (subst (λ d. In i (t.rows d)) (sym done) m)) [
          | inl old ↦ inl old
          | inr (v, k, j, e) ↦
              inr (subst (IsAllowed c dto) (sym e) (new-IsAllowed dto v k j sites roles))
        ]

  -- The table that `renew` leaves: that of `createBulk` where it returns, else that of the revocation.
  abbrev pub left_by : t.Db → Result t.Db → t.Db
  left_by revoked (ok db) = db
  left_by revoked (raise e) = revoked

  abbrev renewal : Invitation → List Invitation → Option ℕ → CreateInvitationsDto
  renewal original batch days = record {
    client_id = some original.client_id;
    expires_in_days = days;
    invitations =
        map (λ r. record { email = r.email; site_id = r.site_id; role_id = r.role_id }) batch;
  }
