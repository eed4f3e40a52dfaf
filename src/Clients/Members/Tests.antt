-- ===== src/Clients/Members/Tests.antt =====
-- The theorems of src/clients/members and src/clients/users at concrete tables.
use shield_api.Common.{
  ◌≡◌, refl, ◌⊎◌, inl, inr, String, Bool, true, false, List, [], ◌∷◌, ok, raise, Error, list_table,
  filter, not,
}
use shield_api.Clients.Invitations.{PersonClientAccess}
use shield_api.Clients.Invitations.PrimaryPlace.{OnePlace}
use shield_api.Clients.Members.{
  Command, assignment, sees, promote_oldest, drop_access, add_role, remove_role, remove,
  remove_user_role, run,
}
use shield_api.Clients.Members.Places.{run-OnePlace}
use shield_api.Clients.Members.Removal.{
  UniqueKeys, Primary, NoAccess, remove_user_role-Primary, is_member_row, remove_lem,
}

abbrev known : String → Bool
known id = true

abbrev site_of : String → String → Bool
site_of client_id site_id = true

abbrev row : String → String → Bool → PersonClientAccess
row client_id site_id is_primary = record {
  person_id = "p1";
  client_id = client_id;
  site_id = site_id;
  role_id = "r1";
  is_primary = is_primary;
}

abbrev table : List PersonClientAccess
table = row "c1" "s1" true ∷ row "c2" "s2" false ∷ []

abbrev one_left : List PersonClientAccess
one_left = row "c2" "s2" true ∷ []

dropped :
    remove_user_role (list_table PersonClientAccess) known "p1" (assignment "c1" "s1" "r1") table
    ≡ ok one_left
unfolding remove_user_role drop_access promote_oldest
dropped = refl

table-OnePlace : OnePlace table
table-OnePlace a b (inl e) (inl f) same marked marked' = rw (e, f) (refl, refl)
table-OnePlace a b (inr (inl e)) n same marked marked' = cc
table-OnePlace a b (inl e) (inr (inl f)) same marked marked' = cc
table-OnePlace a b (inr (inr nothing)) n same marked marked' = absurd nothing
table-OnePlace a b (inl e) (inr (inr nothing)) same marked marked' = absurd nothing

dropped_run :
    run
      (list_table PersonClientAccess)
      known
      site_of
      known
      (Command.remove_user_one "p1" (assignment "c1" "s1" "r1"))
      table
    ≡ ok one_left
unfolding run remove_user_role drop_access promote_oldest
dropped_run = refl

run-OnePlace_example : OnePlace one_left
run-OnePlace_example =
    run-OnePlace (list_table PersonClientAccess) known site_of known
      (Command.remove_user_one "p1" (assignment "c1" "s1" "r1")) table one_left table-OnePlace
      dropped_run

abbrev single : List PersonClientAccess
single = row "c1" "s1" true ∷ []

single-UniqueKeys : UniqueKeys single
single-UniqueKeys a b (inl e) (inl f) same = rw (e, f) refl
single-UniqueKeys a b (inr nothing) n same = absurd nothing
single-UniqueKeys a b (inl e) (inr nothing) same = absurd nothing

last_dropped :
    remove_user_role (list_table PersonClientAccess) known "p1" (assignment "c1" "s1" "r1") single
    ≡ ok []
unfolding remove_user_role drop_access promote_oldest
last_dropped = refl

remove_user_role_example : NoAccess "p1" [] ⊎ Primary "p1" []
remove_user_role_example =
    remove_user_role-Primary (list_table PersonClientAccess) known "p1" (assignment "c1" "s1" "r1")
      single [] single-UniqueKeys (row "c1" "s1" true, inl refl, refl, refl) last_dropped

-- Under row-level security the person is left with no primary record.
removed :
    remove (list_table PersonClientAccess) known false "c1" "p1" table
    ≡ ok (row "c2" "s2" false ∷ [])
unfolding remove sees promote_oldest
removed = refl

remove_example : row "c2" "s2" false ∷ [] ≡ filter (λ a. not (is_member_row "c1" "p1" a)) table
remove_example =
    remove_lem (list_table PersonClientAccess) known "c1" "p1" table (row "c2" "s2" false ∷ [])
      removed

-- With row-level security bypassed, the removal from a client that is not the primary one makes a
-- second place primary.
two_places :
    remove
      (list_table PersonClientAccess)
      known
      true
      "c2"
      "p1"
      (row "c3" "s3" false ∷ row "c2" "s2" false ∷ row "c1" "s1" true ∷ [])
    ≡ ok (row "c3" "s3" true ∷ row "c1" "s1" true ∷ [])
unfolding remove sees promote_oldest
two_places = refl

last_role :
    remove_role (list_table PersonClientAccess) known false "c1" "p1" "s1" "r1" table
    ≡ raise Error.bad_request
unfolding remove_role sees drop_access promote_oldest
last_role = refl

added :
    add_role (list_table PersonClientAccess) known false "c1" "p1" "s1" "r2" table
    ≡ ok (
        row "c1" "s1" true
        ∷ row "c2" "s2" false
        ∷ record (row "c1" "s1" true) { role_id = "r2" }
        ∷ [])
unfolding add_role sees
added = refl
