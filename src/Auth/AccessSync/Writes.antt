-- ===== src/Auth/AccessSync/Writes.antt =====
-- src/auth/keycloak/keycloak-access-sync.service.ts: the records that one user's roles make.
use shield_api.Common.{
  ◌≡◌, sym, ap, subst, ◌⊎◌, inl, inr, String, Bool, List, [], ◌∷◌, is_some, In, In-of_append,
  In-append_left, Bool-cases, Table,
}
use shield_api.Clients.Invitations.{PersonClientAccess}
use shield_api.Clients.Members.{Assignment, assignment, is_assigned, new_access}
use shield_api.Auth.AccessSync.{sync_access, sync_roles}

-- A record that the sync makes.
pub record IsGranted (p : String) (place : String × String) (first : Bool) (roles : List String)
    (a : PersonClientAccess) : Type 0 where
  pub person : a.person_id ≡ p
  pub client : a.client_id ≡ place.0
  pub site : a.site_id ≡ place.1
  pub role : In a.role_id roles
  pub primary : a.is_primary ≡ first

more_roles :
    {p r : String} {place : String × String} {first : Bool} {rs : List String}
    {a : PersonClientAccess}
    → IsGranted p place first rs a
    → IsGranted p place first (r ∷ rs) a
more_roles g = record {
  person = g.person;
  client = g.client;
  site = g.site;
  role = inr g.role;
  primary = g.primary;
}

module _ (ta : Table PersonClientAccess) where
  open ta use {Db, rows, find_first, find_many, create}

  sync_access_sound :
      (p : String) (d : Assignment) (first : Bool) (db : Db) (a : PersonClientAccess)
      → In a (rows (sync_access ta p d first db))
      → In a (rows db) ⊎ (a ≡ new_access p d first)
  unfolding sync_access
  sync_access_sound p d first db a m =
      elim (Bool-cases (is_some (find_first (is_assigned p d) db))) [
        | inl e ↦ inl (rw e at m)
        | inr e ↦
            elim (In-of_append a (rows db) _ (subst (In a) (ta.rows-create _ db) (rw e at m))) [
              | inl old ↦ inl old
              | inr (inl new) ↦ inr new
              | inr (inr nothing) ↦ absurd nothing
            ]
      ]

  pub sync_roles_sound :
      (p : String) (place : String × String) (first : Bool) (rs : List String) (db : Db)
      (a : PersonClientAccess)
      → In a (rows (sync_roles ta p place first rs db))
      → In a (rows db) ⊎ IsGranted p place first rs a
  unfolding sync_roles
  sync_roles_sound p place first [] db a m = inl m
  sync_roles_sound p place first (r ∷ rs) db a m =
      let d = assignment place.0 place.1 r in
      elim (sync_roles_sound p place first rs (sync_access ta p d first db) a m) [
        | inr granted ↦ inr (more_roles granted)
        | inl left ↦ elim (sync_access_sound p d first db a left) [
          | inl old ↦ inl old
          | inr new ↦ inr (record {
            person = ap (λ z. z.person_id) new;
            client = ap (λ z. z.client_id) new;
            site = ap (λ z. z.site_id) new;
            role = inl (ap (λ z. z.role_id) new);
            primary = ap (λ z. z.is_primary) new;
          })
        ]
      ]

  sync_access_keeps :
      (p : String) (d : Assignment) (first : Bool) (db : Db) (a : PersonClientAccess)
      → In a (rows db)
      → In a (rows (sync_access ta p d first db))
  unfolding sync_access
  sync_access_keeps p d first db a m =
      elim (Bool-cases (is_some (find_first (is_assigned p d) db))) [
        | inl e ↦ rw e m
        | inr e ↦ rw e (subst (In a) (sym (ta.rows-create _ db)) (In-append_left a (rows db) _ m))
      ]

  pub sync_roles_keeps :
      (p : String) (place : String × String) (first : Bool) (rs : List String) (db : Db)
      (a : PersonClientAccess)
      → In a (rows db)
      → In a (rows (sync_roles ta p place first rs db))
  unfolding sync_roles
  sync_roles_keeps p place first [] db a m = m
  sync_roles_keeps p place first (r ∷ rs) db a m =
      sync_roles_keeps p place first rs _ a
        (sync_access_keeps p (assignment place.0 place.1 r) first db a m)
