-- ===== src/Clients/Members.antt =====
-- src/clients/members/members.service.ts and src/clients/users/users.service.ts: the access records
-- of a person. Records have no ids here: the unique key of person, client, site and role names one.
-- The invalidation of cached grants is left out; `Auth.AccessGrants` has its keys.
pub mod Promotion
pub mod Places
pub mod Removal
mod Tests
use shield_api.Common.{
  ℕ, String, Bool, true, false, not, ◌&&◌, ◌||◌, List, [], ◌∷◌, Option, none, some, length, any,
  head?, is_some, if◌then◌else◌, leb, ◌==◌, Result, ok, raise, Error, throw_if, require, ◌>>=◌,
  ◌>>◌, Table,
}
use shield_api.Clients.Invitations.{PersonClientAccess, existing_primary}

-- A place of work in an organisation, with a role there.
pub record Assignment : Type 0 where
  pub client_id : String
  pub site_id : String
  pub role_id : String

abbrev pub assignment : String → String → String → Assignment
assignment client_id site_id role_id = record {
  client_id = client_id;
  site_id = site_id;
  role_id = role_id;
}

-- `isPrimary` of UsersService.addRole
abbrev pub is_primary_place : Option PersonClientAccess → Assignment → Bool
is_primary_place none d = true
is_primary_place (some a) d = a.client_id == d.client_id && a.site_id == d.site_id

-- The policy of row-level security on PersonClientAccess: the rows of the caller's client, or all
-- of them where the caller bypasses it.
unfoldable pub sees : Bool → String → PersonClientAccess → Bool
sees bypass client_id a = bypass || a.client_id == client_id

abbrev pub is_assigned : String → Assignment → PersonClientAccess → Bool
is_assigned person_id d a =
    a.person_id == person_id
    && (a.client_id == d.client_id && (a.site_id == d.site_id && a.role_id == d.role_id))

abbrev pub at_place : String → String → String → PersonClientAccess → Bool
at_place person_id client_id site_id a =
    a.person_id == person_id && (a.client_id == client_id && a.site_id == site_id)

abbrev pub same_key : PersonClientAccess → PersonClientAccess → Bool
same_key a b =
    b.person_id == a.person_id
    && (b.client_id == a.client_id && (b.site_id == a.site_id && b.role_id == a.role_id))

abbrev pub new_access : String → Assignment → Bool → PersonClientAccess
new_access person_id d is_primary = record {
  person_id = person_id;
  client_id = d.client_id;
  site_id = d.site_id;
  role_id = d.role_id;
  is_primary = is_primary;
}

module _ (t : Table PersonClientAccess) where
  open t use {Db, rows, find_first, find_many, create, update_many, delete_many}

  -- `if (oldestRemaining) ...`
  abbrev pub promote_place :
      (PersonClientAccess → Bool) → String → Option PersonClientAccess → Db → Db
  promote_place visible person_id none db = db
  promote_place visible person_id (some o) db =
      update_many (λ a. visible a && at_place person_id o.client_id o.site_id a)
        (λ a. record a { is_primary = true }) db

  -- The promotion of the oldest remaining record's place, the same in three operations.
  unfoldable pub promote_oldest : (PersonClientAccess → Bool) → String → Db → Db
  promote_oldest visible person_id db =
      promote_place visible person_id
        (head? (find_many (λ a. visible a && a.person_id == person_id) db)) db

  -- The deletion of a record and the promotion after it, the same in both `removeRole`s.
  unfoldable pub drop_access : (PersonClientAccess → Bool) → PersonClientAccess → Db → Db
  unfolding promote_oldest
  drop_access visible a db =
      let left = delete_many (same_key a) db in
      if a.is_primary
      then (if is_some
            (find_first (λ b. visible b && (b.person_id == a.person_id && b.is_primary)) left)
          then left
          else promote_oldest visible a.person_id left)
      else left

  -- MembersService.addRole. The unique key is the database's, whoever asks. `known`: the persons
  -- that the caller sees.
  unfoldable pub add_role :
      (String → Bool) → Bool → String → String → String → String → Db → Result Db
  unfolding sees
  add_role known bypass client_id id site_id role_id db = do
    throw_if (not (known id)) Error.not_found
    let d = assignment client_id site_id role_id
    let primary =
        find_first
          (λ a. sees bypass client_id a && (at_place id client_id site_id a && a.is_primary)) db
    throw_if (is_some (find_first (is_assigned id d) db)) Error.plain
    ok (create (new_access id d (is_some primary)) db)

  -- MembersService.removeRole
  unfoldable pub remove_role :
      (String → Bool) → Bool → String → String → String → String → Db → Result Db
  unfolding sees drop_access
  remove_role known bypass client_id id site_id role_id db = do
    throw_if (not (known id)) Error.not_found
    let d = assignment client_id site_id role_id
    a ← require (find_first (λ a. sees bypass client_id a && is_assigned id d a) db) Error.not_found
    throw_if
        (leb
          (length (
            find_many
              (λ a. sees bypass client_id a && (a.person_id == id && a.client_id == client_id)) db))
          1)
        Error.bad_request
    ok (drop_access (sees bypass client_id) a db)

  -- MembersService.remove
  unfoldable pub remove : (String → Bool) → Bool → String → String → Db → Result Db
  unfolding sees promote_oldest
  remove known bypass client_id id db = do
    throw_if (not (known id)) Error.not_found
    let had_primary =
        any (λ a. a.is_primary) (find_many (λ a. sees bypass client_id a && a.person_id == id) db)
    let left =
        delete_many
          (λ a. sees bypass client_id a && (a.person_id == id && a.client_id == client_id)) db
    ok (if had_primary then promote_oldest (sees bypass client_id) id left else left)

  -- The upsert of UsersService.addRole.
  unfoldable pub upsert_assignment : String → Assignment → Bool → Db → Db
  upsert_assignment id d is_primary db =
      if is_some (find_first (is_assigned id d) db)
      then update_many (is_assigned id d) (λ a. record a { is_primary = is_primary }) db
      else create (new_access id d is_primary) db

  -- UsersService.addRole. `site_of`: whether the client has the site; `role`: whether there is one.
  unfoldable pub add_user_role :
      (String → Bool)
      → (String → String → Bool)
      → (String → Bool)
      → String
      → Assignment
      → Db
      → Result Db
  unfolding upsert_assignment
  add_user_role known site_of role id d db = do
    throw_if (not (known id)) Error.not_found
    throw_if (not (site_of d.client_id d.site_id)) Error.not_found
    throw_if (not (role d.role_id)) Error.not_found
    ok (upsert_assignment id d (is_primary_place (existing_primary t id db) d) db)

  -- UsersService.removeRole
  unfoldable pub remove_user_role : (String → Bool) → String → Assignment → Db → Result Db
  unfolding drop_access
  remove_user_role known id d db = do
    throw_if (not (known id)) Error.not_found
    a ← require (find_first (is_assigned id d) db) Error.not_found
    ok (drop_access (λ b. true) a db)

-- A call that changes one person's records.
pub data Command : Type 0 where
  add_one : (bypass : Bool) (client_id id site_id role_id : String) → Command
  remove_one : (bypass : Bool) (client_id id site_id role_id : String) → Command
  add_user_one : (id : String) (d : Assignment) → Command
  remove_user_one : (id : String) (d : Assignment) → Command

unfoldable pub run :
    (t : Table PersonClientAccess)
    → (String → Bool)
    → (String → String → Bool)
    → (String → Bool)
    → Command
    → t.Db
    → Result t.Db
unfolding add_role remove_role add_user_role remove_user_role
run t known site_of role (add_one bypass client_id id site_id role_id) db =
    add_role t known bypass client_id id site_id role_id db
run t known site_of role (remove_one bypass client_id id site_id role_id) db =
    remove_role t known bypass client_id id site_id role_id db
run t known site_of role (add_user_one id d) db = add_user_role t known site_of role id d db
run t known site_of role (remove_user_one id d) db = remove_user_role t known id d db
