-- ===== src/Clients/Members/Places.antt =====
-- src/clients/members/members.service.ts and src/clients/users/users.service.ts: adding and removing
-- access keeps a person's primary records at one place.
use shield_api.Common.{
  ◌≡◌, refl, sym, ◌∙◌, ap, subst, inl, inr, String, Bool, true, ◌&&◌, [], ◌∷◌, Option, none, some,
  is_some, In, In-of_append, eq_iff, arith, Option-cases, ok, Table,
}
use shield_api.Clients.Invitations.{
  Invitation, InvitationStatus, PersonClientAccess, existing_primary, grant_accesses, upsert_access,
  becomes_primary,
}
use shield_api.Clients.Invitations.PrimaryPlace.{OnePlace, granted-OnePlace}
use shield_api.Clients.Members.{
  Assignment, Command, sees, at_place, is_assigned, assignment, new_access, is_primary_place,
  drop_access, add_role, remove_role, upsert_assignment, add_user_role, remove_user_role, run,
}
use shield_api.Clients.Members.Promotion.{sees-SeesByClient, drop_access-OnePlace}

module _ (t : Table PersonClientAccess) where
  open t use {Db, rows, find_first, find_many, create, update_many, delete_many}

  add-OnePlace :
      (p : String) (d : Assignment) (b : Bool) (db : Db)
      → ((x : PersonClientAccess)
          → b ≡ true
          → In x (rows db)
          → x.person_id ≡ p
          → x.is_primary ≡ true
          → (x.client_id ≡ d.client_id) × (x.site_id ≡ d.site_id))
      → OnePlace (rows db)
      → OnePlace (rows (create (new_access p d b) db))
  add-OnePlace p d b db fits before =
      subst OnePlace (sym (t.rows-create (new_access p d b) db)) λ x y m n same marked marked'.
        elim (In-of_append x (rows db) _ m) [
          | inr (inr nothing) ↦ absurd nothing
          | inl old ↦ elim (In-of_append y (rows db) _ n) [
            | inr (inr nothing) ↦ absurd nothing
            | inl old' ↦ before x y old old' same marked marked'
            | inr (inl e) ↦
                subst
                  (λ z.
                    x.person_id ≡ z.person_id
                    → z.is_primary ≡ true
                    → (x.client_id ≡ z.client_id) × (x.site_id ≡ z.site_id))
                  (sym e) (λ of_p set. fits x set old of_p marked) same marked'
          ]
          | inr (inl e) ↦ elim (In-of_append y (rows db) _ n) [
            | inr (inr nothing) ↦ absurd nothing
            | inr (inl e') ↦ (
              ap (λ (z : PersonClientAccess). z.client_id) (e ∙ sym e'),
              ap (λ (z : PersonClientAccess). z.site_id) (e ∙ sym e'),
            )
            | inl old' ↦
                subst
                  (λ z.
                    z.person_id ≡ y.person_id
                    → z.is_primary ≡ true
                    → (z.client_id ≡ y.client_id) × (z.site_id ≡ y.site_id))
                  (sym e)
                  (λ of_p set. let (c, s) = fits y set old' (sym of_p) marked' in (sym c, sym s))
                  same marked
          ]
        ]

  add_role-OnePlace :
      (known : String → Bool) (bypass : Bool) (client_id id site_id role_id : String) (db db' : Db)
      → OnePlace (rows db)
      → add_role t known bypass client_id id site_id role_id db ≡ ok db'
      → OnePlace (rows db')
  unfolding add_role
  add_role-OnePlace known bypass client_id id site_id role_id db db' before h =
      let p = λ (a : PersonClientAccess).
        sees bypass client_id a && (at_place id client_id site_id a && a.is_primary) in
      let d = assignment client_id site_id role_id in
      let done : create (new_access id d (is_some (find_first p db))) db ≡ db' = ground arith in
      subst (λ z. OnePlace (rows z)) done
        (add-OnePlace id d (is_some (find_first p db)) db
          (λ x set i of_p marked. elim (Option-cases (find_first p db)) [
            | inl e ↦ absurd (ground arith)
            | inr (y, e) ↦
                let (j, q) = t.find_first_sound p db y e in
                let at_id : y.person_id ≡ id = ground (arith, eq_iff y.person_id id) in
                let (c, s) = before x y i j (of_p ∙ sym at_id) marked (ground arith) in
                (
                  c ∙ ground (arith, eq_iff y.client_id client_id),
                  s ∙ ground (arith, eq_iff y.site_id site_id),
                )
          ])
          before)

  remove_role-OnePlace :
      (known : String → Bool) (bypass : Bool) (client_id id site_id role_id : String) (db db' : Db)
      → OnePlace (rows db)
      → remove_role t known bypass client_id id site_id role_id db ≡ ok db'
      → OnePlace (rows db')
  unfolding remove_role
  remove_role-OnePlace known bypass client_id id site_id role_id db db' before h =
      let p = λ (a : PersonClientAccess).
        sees bypass client_id a && is_assigned id (assignment client_id site_id role_id) a in
      elim (Option-cases (find_first p db)) [
        | inl e ↦ absurd (ground arith)
        | inr (a, e) ↦
            let (i, q) = t.find_first_sound p db a e in
            let done : drop_access t (sees bypass client_id) a db ≡ db' = ground arith in
            subst (λ z. OnePlace (rows z)) done
              (drop_access-OnePlace t (sees bypass client_id) a db
                (sees-SeesByClient bypass client_id) (ground arith) i before)
      ]

  remove_user_role-OnePlace :
      (known : String → Bool) (id : String) (d : Assignment) (db db' : Db)
      → OnePlace (rows db)
      → remove_user_role t known id d db ≡ ok db'
      → OnePlace (rows db')
  unfolding remove_user_role
  remove_user_role-OnePlace known id d db db' before h =
      elim (Option-cases (find_first (is_assigned id d) db)) [
        | inl e ↦ absurd (ground arith)
        | inr (a, e) ↦
            let (i, q) = t.find_first_sound (is_assigned id d) db a e in
            let done : drop_access t (λ b. true) a db ≡ db' = ground arith in
            subst (λ z. OnePlace (rows z)) done
              (drop_access-OnePlace t (λ b. true) a db (λ x y same. refl) refl i before)
      ]

  -- An invitation to the place and role, of which only these are read.
  abbrev invitation_to : Assignment → Invitation
  invitation_to d = record {
    id = "";
    code = "";
    client_id = d.client_id;
    created_by_id = "";
    email = "";
    role_id = d.role_id;
    site_id = d.site_id;
    group_id = none;
    status = InvitationStatus.pending;
    expires_on = 0;
    accepted_by_id = none;
    accepted_on = none;
  }

  -- The upsert of UsersService.addRole is that of an `accept` of one invitation.
  upsert_assignment-grant_accesses :
      (id : String) (d : Assignment) (existing : Option PersonClientAccess) (db : Db)
      → upsert_assignment t id d (is_primary_place existing d) db
        ≡ grant_accesses t id existing (some 0) (invitation_to d ∷ []) db
  unfolding upsert_assignment grant_accesses upsert_access becomes_primary
  upsert_assignment-grant_accesses id d none db = refl
  upsert_assignment-grant_accesses id d (some a) db = refl

  add_user_role-OnePlace :
      (known : String → Bool) (site_of : String → String → Bool) (role : String → Bool)
      (id : String) (d : Assignment) (db db' : Db)
      → OnePlace (rows db)
      → add_user_role t known site_of role id d db ≡ ok db'
      → OnePlace (rows db')
  unfolding add_user_role
  add_user_role-OnePlace known site_of role id d db db' before h =
      let existing = existing_primary t id db in
      let done : upsert_assignment t id d (is_primary_place existing d) db ≡ db' = ground arith in
      subst (λ z. OnePlace (rows z))
        (sym (upsert_assignment-grant_accesses id d existing db) ∙ done)
        (granted-OnePlace t id db 0 (invitation_to d ∷ []) before)

-- Adding and removing a role, of a member or of a user, keeps each person's primary access records
-- at one client and site.
pub run-OnePlace :
    (t : Table PersonClientAccess) (known : String → Bool) (site_of : String → String → Bool)
    (role : String → Bool) (command : Command) (db db' : t.Db)
    → OnePlace (t.rows db)
    → run t known site_of role command db ≡ ok db'
    → OnePlace (t.rows db')
unfolding run
run-OnePlace t known site_of role (Command.add_one bypass c id s r) db db' before h =
    add_role-OnePlace t known bypass c id s r db db' before h
run-OnePlace t known site_of role (Command.remove_one bypass c id s r) db db' before h =
    remove_role-OnePlace t known bypass c id s r db db' before h
run-OnePlace t known site_of role (Command.add_user_one id d) db db' before h =
    add_user_role-OnePlace t known site_of role id d db db' before h
run-OnePlace t known site_of role (Command.remove_user_one id d) db db' before h =
    remove_user_role-OnePlace t known id d db db' before h
