-- ===== src/Auth/AccessSync.antt =====
-- src/auth/keycloak/keycloak-access-sync.service.ts: the access records that a user's groups in
-- Keycloak give. The requests to Keycloak are arguments; a write of the database that throws leaves
-- the tables as they are, as a request that throws does. The pages of users are one list.
pub mod Writes
pub mod Persons
pub mod Places
pub mod Complete
mod Tests
use shield_api.Common.{
  ◌≡◌, String, Bool, true, false, not, ◌||◌, List, [], ◌∷◌, Option, none, some, length, map,
  flat_map, get, put, get_or, is_some, truthy, truthy?, includes, eqb, if◌then◌else◌, ◌==◌, Result,
  ok, raise, Error, ◌>>=◌, Table,
}
use shield_api.Clients.Invitations.{PersonClientAccess}
use shield_api.Clients.Members.{Assignment, assignment, is_assigned, new_access}

-- A user of Keycloak, with the first values of the attributes client_id and site_id.
pub record KeycloakUser : Type 0 where
  pub id : Option String
  pub email : Option String
  pub first_name : Option String
  pub last_name : Option String
  pub client_id : Option String
  pub site_id : Option String

pub record Person : Type 0 where
  pub id : String
  pub idp_id : String
  pub first_name : String
  pub last_name : String
  pub email : String

-- A group of Keycloak, with the first value of the attribute shield_role_id.
pub record Group : Type 0 where
  pub id : Option String
  pub shield_role_id : Option String

-- The loop that fills `roleMap`.
unfoldable pub role_map_from :
    List String → List (String × String) → List Group → List (String × String)
role_map_from db_roles entries [] = entries
role_map_from db_roles entries (g ∷ gs) =
    if not (truthy? g.shield_role_id)
      || not (truthy? g.id)
      || not (includes db_roles (get_or g.shield_role_id ""))
    then role_map_from db_roles entries gs
    else role_map_from db_roles (put (get_or g.id "") (get_or g.shield_role_id "") entries) gs

-- The text, unless it is empty.
abbrev pub or_none : Option String → Option String
or_none o = if truthy? o then o else none

abbrev or_default : String → Option String → String
or_default d o = if truthy? o then get_or o d else d

-- `clientMap.get`, `siteMap.get`, with what is tested before and after.
abbrev pub look_up : List (String × String) → Option String → Option String
look_up entries none = none
look_up entries (some key) = if truthy key then or_none (get key entries) else none

-- `matchingRoleIds`, for the ids of the groups
abbrev pub matching_role_ids : List (String × String) → List (Option String) → List String
matching_role_ids role_map [] = []
matching_role_ids role_map (none ∷ groups) = matching_role_ids role_map groups
matching_role_ids role_map (some g ∷ groups) =
    let rest = matching_role_ids role_map groups in
    if truthy g then elim (get g role_map) [ none ↦ rest | some r ↦ r ∷ rest ] else rest

abbrev pub new_person : String → String → KeycloakUser → Person
new_person new_id idp_id u = record {
  id = new_id;
  idp_id = idp_id;
  first_name = or_default "Unknown" u.first_name;
  last_name = or_default "Unknown" u.last_name;
  email = or_default "" u.email;
}

abbrev pub update_person : KeycloakUser → Person → Person
update_person u p = record p {
  first_name = get_or u.first_name p.first_name;
  last_name = get_or u.last_name p.last_name;
  email = get_or u.email p.email;
}

abbrev pub id_of : String → Option Person → String
id_of new_id none = new_id
id_of new_id (some p) = p.id

module _ (ta : Table PersonClientAccess) where
  open ta use {Db, find_first, find_many, create}

  -- The upsert of one role's record, whose update changes nothing.
  unfoldable pub sync_access : String → Assignment → Bool → Db → Db
  sync_access person_id d is_first db =
      if is_some (find_first (is_assigned person_id d) db)
      then db
      else create (new_access person_id d is_first) db

  unfoldable pub sync_roles : String → String × String → Bool → List String → Db → Db
  unfolding sync_access
  sync_roles person_id place is_first [] db = db
  sync_roles person_id place is_first (r ∷ rs) db =
      sync_roles person_id place is_first rs
        (sync_access person_id (assignment place.0 place.1 r) is_first db)

  abbrev pub is_first_access : String → Db → Bool
  is_first_access person_id db = eqb (length (find_many (λ a. a.person_id == person_id) db)) 0

module _ (tp : Table Person) where
  abbrev pub find_person : String → tp.Db → Option Person
  find_person idp_id = tp.find_first (λ p. p.idp_id == idp_id)

  abbrev pub upsert_person : String → String → KeycloakUser → tp.Db → tp.Db
  upsert_person new_id idp_id u persons =
      if is_some (find_person idp_id persons)
      then tp.update_many (λ p. p.idp_id == idp_id) (update_person u) persons
      else tp.create (new_person new_id idp_id u) persons

module _ (tp : Table Person) (ta : Table PersonClientAccess) where
  open ta use {Db}

  abbrev pub State : Type 0
  State = tp.Db × Db

  -- The transaction.
  abbrev pub write : String → String → KeycloakUser → String × String → List String → State → State
  write new_id idp_id u place roles s =
      let person_id = id_of new_id (find_person tp idp_id s.0) in
      (
        upsert_person tp new_id idp_id u s.0,
        sync_roles ta person_id place (is_first_access ta person_id s.1) roles s.1,
      )

  abbrev pub write_matching :
      String → String → KeycloakUser → String × String → List String → State → Bool × State
  write_matching new_id idp_id u place [] s = (false, s)
  write_matching new_id idp_id u place (r ∷ rs) s = (true, write new_id idp_id u place (r ∷ rs) s)

  -- `draw`: the id of a new person. `groups_of`: the ids of a user's groups.
  module _ (draw : String → String) (groups_of : String → Result (List (Option String)))
      (role_map client_map site_map : List (String × String)) where
    abbrev pub sync_at :
        KeycloakUser → Option String → Option String → Option String → State → Result (Bool × State)
    sync_at u (some idp_id) (some client_id) (some site_id) s = do
      groups ← groups_of idp_id
      ok (
          write_matching (draw idp_id) idp_id u (client_id, site_id)
            (matching_role_ids role_map groups) s)
    sync_at u _ _ _ s = ok (false, s)

    unfoldable pub sync_user : KeycloakUser → State → Result (Bool × State)
    unfolding sync_roles
    sync_user u s =
        sync_at u (or_none u.id) (look_up client_map u.client_id) (look_up site_map u.site_id) s

    -- What the loop over the users goes on with.
    abbrev pub carry_on : State → Result (Bool × State) → State
    carry_on s (ok r) = r.1
    carry_on s (raise e) = s

    unfoldable pub sync_users : List KeycloakUser → State → State
    unfolding sync_user
    sync_users [] s = s
    sync_users (u ∷ us) s = sync_users us (carry_on s (sync_user u s))
