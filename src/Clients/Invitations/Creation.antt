-- ===== src/Clients/Invitations/Creation.antt =====
-- src/clients/invitations/invitations.service.ts: `createBulk` and `renew`.
use shield_api.Common.{
  ℕ, suc, String, Bool, not, ◌&&◌, ◌||◌, List, [], ◌∷◌, Option, none, some, map, filter, find,
  includes, distinct, length, get_or, truthy?, concat, if◌then◌else◌, ltb, ◌==◌, Result, ok, Error,
  throw_if, require, ◌>>=◌, ◌>>◌, Table,
}
use shield_api.Auth.Scope.{RoleScope}
use shield_api.Auth.AccessGrants.{AccessGrantData, scope_allows}
use shield_api.Clients.Invitations.{
  Invitation, InvitationStatus, is_pending, pending_in_group, in_batch,
}

-- An element of `dto.invitations`.
pub record Invite : Type 0 where
  pub email : String
  pub site_id : String
  pub role_id : String

pub record CreateInvitationsDto : Type 0 where
  pub client_id : Option String
  pub expires_in_days : Option ℕ
  pub invitations : List Invite

pub record Site : Type 0 where
  pub id : String
  pub client_id : String

pub record AssignableRole : Type 0 where
  pub id : String
  pub client_assignable : Bool

-- What a call reads besides the table of invitations: the caller, the rows of sites and roles that
-- row-level security shows it, the clock, and what `nanoid` and the database draw.
pub record Caller : Type 0 where
  pub person_id : String
  pub grant : AccessGrantData
  pub sites : List Site
  pub roles : List AssignableRole
  -- the time so many days from now
  pub time_in_days : ℕ → ℕ
  pub group_id_of : String → String
  pub code_at : ℕ → String
  pub id_at : ℕ → String

abbrev pub target_client_id : Caller → CreateInvitationsDto → String
target_client_id c dto =
    if truthy? dto.client_id then get_or dto.client_id "" else c.grant.client_id

-- The loop over `uniqueSiteIds`.
unfoldable pub check_sites : List Site → String → List String → Result (Unit {0})
check_sites sites client_id [] = ok tt
check_sites sites client_id (id ∷ ids) = do
  site ← require (find (λ s. s.id == id) sites) Error.not_found
  throw_if (not (site.client_id == client_id)) Error.bad_request
  check_sites sites client_id ids

-- The loop over `uniqueRoleIds`.
unfoldable pub check_roles : List AssignableRole → List String → Result (Unit {0})
check_roles roles [] = ok tt
check_roles roles (id ∷ ids) = do
  role ← require (find (λ r. r.id == id) roles) Error.not_found
  check_roles roles ids

-- The `where` of the query for roles.
unfoldable pub assignable_roles : AccessGrantData → List AssignableRole → List AssignableRole
unfolding scope_allows
assignable_roles grant roles =
    filter (λ r. scope_allows grant RoleScope.system || r.client_assignable) roles

abbrev key : String → String → String → String
key email site_id role_id = concat (email ∷ "|" ∷ site_id ∷ "|" ∷ role_id ∷ [])

-- A pending invitation of the client that the query for duplicates finds.
abbrev pub pending_duplicate : String → List Invite → Invitation → Bool
pending_duplicate client_id invites i =
    i.client_id == client_id
    && (is_pending i.status
        && (includes (map (λ v. v.email) invites) i.email
            && (includes (map (λ v. v.site_id) invites) i.site_id
                && includes (map (λ v. v.role_id) invites) i.role_id)))

-- `conflicts`
abbrev pub conflicts : List Invitation → List Invite → List Invite
conflicts existing invites =
    filter
      (λ v.
        includes (map (λ e. key e.email e.site_id e.role_id) existing)
          (key v.email v.site_id v.role_id))
      invites

-- `groupIds.get(...)`: an e-mail address that stands in several of the invites has a group.
unfoldable pub group_of : Caller → List Invite → String → Option String
group_of c invites email =
    if ltb 1 (length (filter (λ v. v.email == email) invites))
    then some (c.group_id_of email)
    else none

-- A row of `createData`, the `n`th.
abbrev pub new_invitation : Caller → CreateInvitationsDto → ℕ → Invite → Invitation
new_invitation c dto n v = record {
  id = c.id_at n;
  code = c.code_at n;
  client_id = target_client_id c dto;
  created_by_id = c.person_id;
  email = v.email;
  role_id = v.role_id;
  site_id = v.site_id;
  group_id = group_of c dto.invitations v.email;
  status = InvitationStatus.pending;
  expires_on = c.time_in_days (get_or dto.expires_in_days 7);
  accepted_by_id = none;
  accepted_on = none;
}

module _ (t : Table Invitation) where
  open t use {Db, find_first, find_many, create, update_many}

  unfoldable pub create_many : Caller → CreateInvitationsDto → ℕ → List Invite → Db → Db
  create_many c dto n [] db = db
  create_many c dto n (v ∷ vs) db =
      create_many c dto (suc n) vs (create (new_invitation c dto n v) db)

  unfoldable pub create_bulk : Caller → CreateInvitationsDto → Db → Result Db
  unfolding check_sites check_roles assignable_roles create_many
  create_bulk c dto db = do
    let client_id = target_client_id c dto
    check_sites c.sites client_id (distinct (map (λ v. v.site_id) dto.invitations))
    check_roles (assignable_roles c.grant c.roles) (distinct (map (λ v. v.role_id) dto.invitations))
    let existing = find_many (pending_duplicate client_id dto.invitations) db
    throw_if (ltb 0 (length (conflicts existing dto.invitations))) Error.conflict
    ok (create_many c dto 0 dto.invitations db)

  -- `toReplace`
  unfoldable pub to_replace : Invitation → Db → List Invitation
  to_replace original db =
      if truthy? original.group_id
      then find_many (pending_in_group (get_or original.group_id "")) db
      else original ∷ []

  abbrev pub revoke_batch : List Invitation → Db → Db
  revoke_batch batch db =
      update_many (in_batch batch) (λ i. record i { status = InvitationStatus.revoked }) db

  -- `renew` is no transaction. Its result is the table after the revocation, with what `createBulk`
  -- then returns or throws; an exception before the revocation is the outer one.
  unfoldable pub renew :
      (Invitation → Bool) → Caller → String → Option ℕ → Db → Result (Db × Result Db)
  unfolding to_replace create_bulk
  renew visible c id expires_in_days db = do
    seen ← require (find_first (λ i. visible i && i.id == id) db) Error.not_found
    original ← require (find_first (λ i. i.id == id) db) Error.not_found
    throw_if (not (is_pending original.status)) Error.bad_request
    let batch = to_replace original db
    throw_if (not (ltb 0 (length batch))) Error.bad_request
    let revoked = revoke_batch batch db
    ok (
        (
          revoked,
          create_bulk c
              (record {
                client_id = some original.client_id;
                expires_in_days = expires_in_days;
                invitations =
                    map (λ i. record { email = i.email; site_id = i.site_id; role_id = i.role_id })
                      batch;
              })
              revoked,
        ))
