-- ===== src/Auth/AccessSync/Tests.antt =====
-- The theorems on src/auth/keycloak/keycloak-access-sync.service.ts, at a new user and a user whose
-- groups cannot be listed.
use shield_api.Common.{
  ◌≡◌, refl, String, true, List, [], ◌∷◌, Option, none, some, Result, ok, raise, Error, ◌==◌,
  if◌then◌else◌, list_table,
}
use shield_api.Clients.Invitations.{PersonClientAccess}
use shield_api.Clients.Invitations.PrimaryPlace.{OnePlace}
use shield_api.Auth.AccessSync.{
  KeycloakUser, Person, role_map_from, sync_access, sync_roles, sync_user, sync_users,
}
use shield_api.Auth.AccessSync.Places.{sync_users-OnePlace}

abbrev user : String → KeycloakUser
user id = record {
  id = some id;
  email = none;
  first_name = some "Ann";
  last_name = some "";
  client_id = some "demo";
  site_id = some "main";
}

abbrev users : List KeycloakUser
users = user "k1" ∷ user "k2" ∷ []

abbrev draw : String → String
draw id = if id == "k1" then "p1" else "p2"

abbrev groups_of : String → Result (List (Option String))
groups_of id = if id == "k1" then raise Error.plain else ok (some "g1" ∷ none ∷ [])

abbrev role_map : List (String × String)
role_map = ("g1", "r1") ∷ []

role_map_run :
    role_map_from ("r1" ∷ []) [] (
      record { id = some "g1"; shield_role_id = some "r1" }
      ∷ record { id = none; shield_role_id = none }
      ∷ [])
    ≡ role_map
unfolding role_map_from
role_map_run = refl

abbrev made : PersonClientAccess
made = record {
  person_id = "p2";
  client_id = "c1";
  site_id = "s1";
  role_id = "r1";
  is_primary = true;
}

abbrev ann : Person
ann = record { id = "p2"; idp_id = "k2"; first_name = "Ann"; last_name = "Unknown"; email = "" }

run :
    sync_users
      (list_table Person)
      (list_table PersonClientAccess)
      draw
      groups_of
      role_map
      (("demo", "c1") ∷ [])
      (("main", "s1") ∷ [])
      users
      ([], [])
    ≡ (ann ∷ [], made ∷ [])
unfolding sync_users sync_user sync_roles sync_access
run = refl

empty-OnePlace : OnePlace []
empty-OnePlace a b m n same marked marked' = absurd m

sync_users-OnePlace_example :
    OnePlace
      (sync_users
        (list_table Person)
        (list_table PersonClientAccess)
        draw
        groups_of
        role_map
        (("demo", "c1") ∷ [])
        (("main", "s1") ∷ [])
        users
        ([], [])).1
sync_users-OnePlace_example =
    sync_users-OnePlace (list_table Person) (list_table PersonClientAccess) draw groups_of role_map
      (("demo", "c1") ∷ []) (("main", "s1") ∷ []) users ([], []) empty-OnePlace
