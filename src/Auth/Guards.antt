-- ===== src/Auth/Guards.antt =====
-- src/auth/auth.guard.ts, src/auth/policies.guard.ts, src/auth/utils/policies.ts, and `getAccessIntent` of
-- src/common/utils.ts: what a request has to pass.
pub mod Passing
use shield_api.Common.{
  String, Bool, true, false, not, ◌&&◌, ◌||◌, List, [], ◌∷◌, Option, none, some, all, is_some,
  get_or, truthy?, if◌then◌else◌, ◌==◌, Result, ok, raise, Error, throw_if, ◌>>◌,
}
use shield_api.Auth.Scope.{RoleScope, scope_eq}
use shield_api.Auth.AccessGrants.{
  AccessGrantData, AccessIntent, has_capability, has_any_capability, has_all_capabilities,
  scope_allows, is_system_admin, is_global_admin, is_client_admin,
}
use shield_api.Auth.Resolution.{AccessGrantResult, granted, refused, intent_is_user}

-- What a private policy handler is given, less the request and the module reference.
pub record PolicyContext (User : Type 0) : Type 0 where
  pub user : User
  pub access_grant : AccessGrantData

-- What a public one is given.
pub record PublicPolicyContext (User : Type 0) : Type 0 where
  pub user : Option User
  pub access_grant : Option AccessGrantData

abbrev pub PolicyHandler : Type 0 → Type 0
PolicyHandler User = PolicyContext User → Bool

module _ {User : Type 0} where
  unfoldable pub check_capability : String → PolicyHandler User
  unfolding has_capability
  check_capability capability context = has_capability context.access_grant capability

  unfoldable pub check_any_capability : List String → PolicyHandler User
  unfolding has_any_capability
  check_any_capability capabilities context = has_any_capability context.access_grant capabilities

  unfoldable pub check_all_capabilities : List String → PolicyHandler User
  unfolding has_all_capabilities
  check_all_capabilities capabilities context =
      has_all_capabilities context.access_grant capabilities

  unfoldable pub check_scope : RoleScope → PolicyHandler User
  unfolding scope_allows
  check_scope scope context = scope_allows context.access_grant scope

  unfoldable pub check_system_admin : PolicyHandler User
  unfolding is_system_admin
  check_system_admin context = is_system_admin context.access_grant

  unfoldable pub check_global_admin : PolicyHandler User
  unfolding is_global_admin
  check_global_admin context = is_global_admin context.access_grant

  unfoldable pub check_client_admin : PolicyHandler User
  unfolding is_client_admin
  check_client_admin context = is_client_admin context.access_grant

-- The headers that the guards read, each the first of its values.
pub record Headers : Type 0 where
  pub x_access_intent : Option String
  pub x_view_context : Option String
  pub x_client_id : Option String

abbrev parse_intent : String → AccessIntent
parse_intent s =
    if s == "system"
    then AccessIntent.system
    else if s == "elevated"
    then AccessIntent.elevated
    else AccessIntent.user

unfoldable pub get_access_intent : Headers → AccessIntent
get_access_intent headers =
    if not (truthy? headers.x_access_intent) && get_or headers.x_view_context "" == "admin"
    then AccessIntent.system
    else parse_intent (get_or headers.x_access_intent "")

-- What the guards find in an endpoint's metadata.
pub record Endpoint (User : Type 0) : Type 0 where
  pub is_public : Bool
  pub skip_access_grant_validation : Bool
  pub private_handlers : List (PolicyHandler User)
  pub public_handlers : List (PublicPolicyContext User → Bool)

-- The request's CLS store, as `setClsContextFromRequest` leaves it.
pub record ClsContext (User : Type 0) : Type 0 where
  pub is_public : Bool
  pub skip_access_grant_validation : Bool
  pub access_intent : AccessIntent
  pub user : Option User
  pub access_grant : Option AccessGrantData

abbrev is_system : AccessIntent → Bool
is_system AccessIntent.system = true
is_system _ = false

abbrev is_elevated : AccessIntent → Bool
is_elevated AccessIntent.elevated = true
is_elevated _ = false

abbrev empty {ℓ} : {A : Type ℓ} → List A → Bool
empty [] = true
empty (x ∷ xs) = false

abbrev grant_of_result : AccessGrantResult → Option AccessGrantData
grant_of_result (granted g) = some g
grant_of_result (refused _ _) = none

-- The checks of the access intent against the grant.
abbrev pub check_intent : AccessIntent → Headers → Option AccessGrantData → Result (Unit {0})
check_intent intent headers none = ok tt
check_intent intent headers (some g) = if intent_is_user intent then ok tt else do
  throw_if (not (scope_eq g.scope RoleScope.system)) Error.forbidden
  throw_if (is_elevated intent && not (truthy? headers.x_client_id)) Error.bad_request

module _ {User : Type 0} where
  unfoldable pub allow_public : Endpoint User → Bool
  allow_public e = e.is_public || not (empty e.public_handlers)

  -- `user`: of a token that `validateJwtToken` accepts. `result`: of `getAccessGrantForUser`.
  -- An AccessGrantException is a 403, `forbidden`.
  unfoldable pub auth_guard :
      Endpoint User → Headers → Option User → AccessGrantResult → Result (ClsContext User)
  unfolding allow_public
  auth_guard e headers user result = do
    throw_if (not (is_some user) && not (allow_public e)) Error.unauthorized
    let grant = if is_some user then grant_of_result result else none
    throw_if
        (is_some user
          && not (is_some grant)
          && not (allow_public e)
          && not e.skip_access_grant_validation)
        Error.forbidden
    check_intent (get_access_intent headers) headers grant
    ok (record {
      is_public = allow_public e;
      skip_access_grant_validation = e.skip_access_grant_validation;
      access_intent = get_access_intent headers;
      user = user;
      access_grant = grant;
    })

  -- The end of `canActivate`, past the checks of the user and of the handlers.
  abbrev pub check_private : Endpoint User → Bool → User → Option AccessGrantData → Result Bool
  check_private e skip user none = if skip then ok true else raise Error.forbidden
  check_private e skip user (some g) =
      ok (all (λ h. h (record { user = user; access_grant = g })) e.private_handlers)

  abbrev pub check_user : Endpoint User → Bool → Option User → Option AccessGrantData → Result Bool
  check_user e skip none grant = ok false
  check_user e skip (some user) grant =
      if empty e.private_handlers then ok false else check_private e skip user grant

  unfoldable pub policies_guard : Endpoint User → ClsContext User → Result Bool
  policies_guard e cls =
      if cls.is_public
      then ok true
      else if not (empty e.public_handlers)
      then ok (
          all (λ h. h (record { user = cls.user; access_grant = cls.access_grant }))
            e.public_handlers)
      else check_user e cls.skip_access_grant_validation cls.user cls.access_grant

-- `bypassRLS` of `buildPrimaryExtension` in src/prisma/prisma.service.ts; `cron` is its mode.
unfoldable pub bypass_rls : Bool → Bool → AccessIntent → Option AccessGrantData → Bool
bypass_rls cron as_system_admin intent grant =
    (cron || as_system_admin || is_system intent)
    && (cron || elim grant [ none ↦ false | some g ↦ scope_eq g.scope RoleScope.system ])
