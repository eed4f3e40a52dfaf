-- ===== src/Auth/Resolution.antt =====
-- src/auth/auth.service.ts: the access grant of a user, from the rows that the database returns. The
-- queries' results are arguments; `lower` is JavaScript's `toLowerCase`.
pub mod Activation
pub mod Roles
pub mod Grants
use shield_api.Common.{
  ◌≡◌, String, Bool, true, false, not, ◌&&◌, ◌||◌, List, [], ◌∷◌, Option, none, some, map, filter,
  find, any, take, length, ltb, head?, includes, get_or, truthy, truthy?, if◌then◌else◌, ◌==◌,
  Result, ok, raise, Error, require, ◌>>=◌,
}
use mathlib.Core.Option
use shield_api.Auth.Scope.{RoleScope, scope_eq, is_scope_at_least, get_scopes_at_least}
use shield_api.Auth.Capabilities.{valid_capabilities}
use shield_api.Auth.AccessGrants.{
  AccessGrantData, AccessContext, AccessIntent, reduce_access_grants, scope_allows,
}

pub data ClientStatus : Type 0 where
  legacy pending active inactive : ClientStatus

abbrev pub is_active : ClientStatus → Bool
is_active ClientStatus.active = true
is_active _ = false

-- What the `select` of the query of access records takes.
pub record AccessRecord : Type 0 where
  pub id : String
  pub is_primary : Bool
  pub client_id : String
  pub client_status : ClientStatus
  pub site_id : String
  pub site_active : Bool
  pub role_id : String
  pub role_scope : RoleScope
  pub role_capabilities : List String

pub data Reason : Type 0 where
  no_access_grant access_grant_expired access_grant_request_denied client_inactive site_inactive :
      Reason

pub record Details : Type 0 where
  pub requested_client_id : Option String
  pub requested_site_id : Option String
  pub primary_client_id : Option String
  pub primary_site_id : Option String
  pub primary_role_id : Option String

pub data AccessGrantResult : Type 0 where
  granted : AccessGrantData → AccessGrantResult
  refused : Reason → Details → AccessGrantResult

abbrev pub grant_of_record : AccessRecord → AccessGrantData
grant_of_record r = record {
  scope = r.role_scope;
  capabilities = r.role_capabilities;
  client_id = r.client_id;
  site_id = r.site_id;
  role_id = r.role_id;
}

abbrev pub at_place : AccessGrantData → AccessRecord → Bool
at_place g r = r.client_id == g.client_id && r.site_id == g.site_id

abbrev requested_details : AccessContext → Details
requested_details c = record {
  requested_client_id = c.requested_client_id;
  requested_site_id = c.requested_site_id;
  primary_client_id = none;
  primary_site_id = none;
  primary_role_id = none;
}

-- The rest of `validateAndBuildAccessGrantResult`, with the row that was found.
abbrev pub check_activation : AccessGrantData → AccessContext → AccessRecord → AccessGrantResult
check_activation grant c r =
    if not (is_active r.client_status)
    then refused Reason.client_inactive (requested_details c)
    else if scope_allows grant RoleScope.client
    then granted grant
    else if not r.site_active
    then refused Reason.site_inactive (requested_details c)
    else granted grant

unfoldable pub validate_and_build_access_grant_result :
    List AccessRecord → AccessContext → Result AccessGrantResult
unfolding scope_allows
validate_and_build_access_grant_result records c = do
  grant ← reduce_access_grants (map grant_of_record records)
  if scope_allows grant RoleScope.global
      then ok (granted grant)
      else (require (find (at_place grant) records) Error.plain >>= λ status.
          ok (check_activation grant c status))

-- A row of `role`.
pub record RoleRow : Type 0 where
  pub id : String
  pub scope : RoleScope
  pub capabilities : List String

-- The callback of `reduce` in `getMostPermissiveRole`.
unfoldable pub more_permissive : RoleRow → RoleRow → RoleRow
unfolding is_scope_at_least
more_permissive most current =
    if not (scope_eq current.scope most.scope) && is_scope_at_least current.scope most.scope
    then current
    else if scope_eq current.scope most.scope
        && ltb (length most.capabilities) (length current.capabilities)
    then current
    else most

unfoldable pub fold_roles : RoleRow → List RoleRow → RoleRow
fold_roles most [] = most
fold_roles most (r ∷ rs) = fold_roles (more_permissive most r) rs

abbrev fold_some : List RoleRow → Option RoleRow
fold_some [] = none
fold_some (r ∷ rs) = some (fold_roles r (r ∷ rs))

-- `roles`: the roles of the user's access records, each once.
unfoldable pub get_most_permissive_role : List RoleRow → RoleScope → Option RoleRow
unfolding get_scopes_at_least fold_roles more_permissive
get_most_permissive_role roles scope_at_least =
    fold_some (filter (λ r. any (scope_eq r.scope) (get_scopes_at_least scope_at_least)) roles)

-- `first_site`: the id of the client's primary site, or else of its oldest, if it has a site.
unfoldable pub get_system_admin_access_grant :
    List RoleRow → (String → Option String) → String → Option String → Option AccessGrantData
unfolding get_most_permissive_role
get_system_admin_access_grant roles first_site client_id site_id =
    elim (get_most_permissive_role roles RoleScope.system) [
      | none ↦ none
      | some r ↦
          let found = if truthy? site_id then site_id else first_site client_id in
          if truthy? found
          then some (record {
            scope = r.scope;
            capabilities = r.capabilities;
            client_id = client_id;
            site_id = get_or found "";
            role_id = r.id;
          })
          else none
    ]

abbrev pub intent_is_user : AccessIntent → Bool
intent_is_user AccessIntent.user = true
intent_is_user _ = false

abbrev pub ephemeral_grant : String → String → AccessGrantData
ephemeral_grant client_id site_id = record {
  scope = RoleScope.system;
  capabilities = valid_capabilities;
  client_id = client_id;
  site_id = site_id;
  role_id = "ephemeral-system-admin";
}

-- What the queries return for one user, and the configured SYSTEM_ADMIN_EMAILS.
pub record Rows : Type 0 where
  pub access_records : List AccessRecord
  pub roles : List RoleRow
  pub first_site : String → Option String
  pub system_admin_emails : List String

-- The attempt at an ephemeral grant for a user with a SYSTEM role.
unfoldable pub ephemeral_attempt : Rows → AccessContext → Option AccessGrantData
ephemeral_attempt db c =
    let client_id = get_or c.requested_client_id "" in
    if truthy client_id && not (intent_is_user (get_or c.access_intent AccessIntent.user))
    then get_system_admin_access_grant db.roles db.first_site client_id c.requested_site_id
    else none

module _ (lower : String → String) where
  unfoldable pub user_is_default_system_admin : Rows → String → Bool
  user_is_default_system_admin db email = includes db.system_admin_emails (lower email)

  -- The records at the requested client, and at the requested site if one is given.
  abbrev pub requested_access_records :
      String → AccessContext → List AccessRecord → List AccessRecord
  requested_access_records client_id c records =
      filter
        (λ r.
          r.client_id == client_id
          && (not (truthy? c.requested_site_id) || r.site_id == get_or c.requested_site_id ""))
        records

  abbrev denied : String → AccessContext → List AccessRecord → AccessGrantResult
  denied client_id c records =
      let primary = find (λ r. r.is_primary) records in
      refused Reason.access_grant_request_denied (record {
        requested_client_id = some client_id;
        requested_site_id = c.requested_site_id;
        primary_client_id = Option.map (λ r. r.client_id) primary;
        primary_site_id = Option.map (λ r. r.site_id) primary;
        primary_role_id = Option.map (λ r. r.role_id) primary;
      })

  -- The branch of a requested client; `requested` are the records there.
  abbrev pub grant_for_requested :
      Rows → String → String → AccessContext → List AccessRecord → Result AccessGrantResult
  grant_for_requested db email client_id c [] =
      if user_is_default_system_admin db email
      then ok (granted (ephemeral_grant client_id (get_or c.requested_site_id "")))
      else ok (denied client_id c db.access_records)
  grant_for_requested db email client_id c (r ∷ rs) =
      validate_and_build_access_grant_result (r ∷ rs) c

  -- The branches with no access record.
  abbrev pub grant_without_records : Rows → String → AccessContext → AccessGrantResult
  grant_without_records db email c =
      if not (intent_is_user (get_or c.access_intent AccessIntent.user))
        && user_is_default_system_admin db email
      then granted (ephemeral_grant "" "")
      else refused Reason.no_access_grant (record {
        requested_client_id = none;
        requested_site_id = none;
        primary_client_id = none;
        primary_site_id = none;
        primary_role_id = none;
      })

  -- The branches of no requested client: the primary records, or else all of them.
  abbrev pub grant_by_default :
      Rows
      → String
      → AccessContext
      → List AccessRecord
      → List AccessRecord
      → Result AccessGrantResult
  grant_by_default db email c (r ∷ rs) records = validate_and_build_access_grant_result (r ∷ rs) c
  grant_by_default db email c [] (r ∷ rs) =
      validate_and_build_access_grant_result (take 1 (r ∷ rs)) c
  grant_by_default db email c [] [] = ok (grant_without_records db email c)

  -- The code after the attempt at an ephemeral grant.
  unfoldable pub grant_from_records : Rows → String → AccessContext → Result AccessGrantResult
  unfolding validate_and_build_access_grant_result user_is_default_system_admin
  grant_from_records db email c =
      let client_id = get_or c.requested_client_id "" in
      if truthy client_id
      then grant_for_requested db email client_id c
          (requested_access_records client_id c db.access_records)
      else grant_by_default db email c (filter (λ r. r.is_primary) db.access_records)
          db.access_records

  unfoldable pub get_access_grant_for_user_from_database :
      Rows → String → AccessContext → Result AccessGrantResult
  get_access_grant_for_user_from_database db email c = elim (ephemeral_attempt db c) [
    | some g ↦ ok (granted g)
    | none ↦ grant_from_records db email c
  ]
