-- ===== src/Auth/Guards/Passing.antt =====
-- src/auth/auth.guard.ts and src/auth/policies.guard.ts, one after the other.
use shield_api.Common.{
  ◌≡◌, refl, ◌⊎◌, inl, inr, Bool, true, false, [], Option, none, some, all, truthy?, ok, raise,
  Error, ◌>>=◌, arith, Bool-cases,
}
use shield_api.Auth.Scope.{RoleScope}
use shield_api.Auth.Scope.Order.{scope_eq_iff}
use shield_api.Auth.AccessGrants.{AccessGrantData, AccessIntent}
use shield_api.Auth.Resolution.{AccessGrantResult, granted, intent_is_user}
use shield_api.Auth.Guards.{
  Headers, Endpoint, auth_guard, policies_guard, get_access_intent, is_elevated, bypass_rls,
}

-- What a request that reaches a handler has shown.
pub record Authorised {User : Type 0} (e : Endpoint User) (headers : Headers) (user : Option User)
    (result : AccessGrantResult) : Type 0 where
  pub grant : AccessGrantData
  pub who : User
  pub signed_in : user ≡ some who
  pub granted_access : result ≡ granted grant
  pub policies :
      all (λ h. h (record { user = who; access_grant = grant })) e.private_handlers ≡ true
  pub intent :
      (intent_is_user (get_access_intent headers) ≡ true) ⊎ (grant.scope ≡ RoleScope.system)
  pub elevated :
      (is_elevated (get_access_intent headers) ≡ false) ⊎ (truthy? headers.x_client_id ≡ true)

module _ {User : Type 0} (e : Endpoint User) (headers : Headers) where
  guards_refuse_anonymous :
      (result : AccessGrantResult)
      → e.is_public ≡ false
      → e.public_handlers ≡ []
      → (auth_guard e headers none result >>= policies_guard e) ≡ raise Error.unauthorized
  unfolding auth_guard
  guards_refuse_anonymous result p q = ground arith

  -- Of an endpoint that is not public, has no public handlers and does not skip the validation of
  -- the grant, both guards let through only a request with a user, a granted access for which every
  -- private handler holds, SYSTEM scope if its intent is not `user`, and a client id in its headers
  -- if its intent is `elevated`.
  pub guards_lem :
      (user : Option User) (result : AccessGrantResult)
      → e.is_public ≡ false
      → e.public_handlers ≡ []
      → e.skip_access_grant_validation ≡ false
      → (auth_guard e headers user result >>= policies_guard e) ≡ ok true
      → Authorised e headers user result
  unfolding auth_guard policies_guard
  guards_lem none result p q s h = absurd (ground arith)
  guards_lem (some u) (granted g) p q s h = record {
    grant = g;
    who = u;
    signed_in = refl;
    granted_access = refl;
    policies = ground arith;
    intent = elim (Bool-cases (intent_is_user (get_access_intent headers))) [
      | inl plain_user ↦ inl plain_user
      | inr acting ↦ inr (ground (arith, scope_eq_iff g.scope RoleScope.system))
    ];
    elevated = ground arith;
  }
  guards_lem (some u) r p q s h = absurd (ground arith)

-- Outside a cron job, row-level security is bypassed only under a grant with SYSTEM scope, and
-- only with the intent `system` or on the caller's demand.
pub bypass_rls_lem :
    (demanded : Bool) (intent : AccessIntent) (grant : Option AccessGrantData)
    → bypass_rls false demanded intent grant ≡ true
    → (g : AccessGrantData) × (grant ≡ some g)
      × (g.scope ≡ RoleScope.system)
      × ((demanded ≡ true) ⊎ (intent ≡ AccessIntent.system))
unfolding bypass_rls
bypass_rls_lem demanded intent none h = absurd (ground arith)
bypass_rls_lem demanded intent (some g) h =
    (g, refl, ground (arith, scope_eq_iff g.scope RoleScope.system), ground arith)
