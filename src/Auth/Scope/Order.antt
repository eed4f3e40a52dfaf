-- ===== src/Auth/Scope/Order.antt =====
-- src/auth/utils/scope.ts: the comparison of scopes is a total order.
use shield_api.Common.{◌≡◌, refl, ◌↔◌, ◌⊎◌, true, arith, any}
use shield_api.Auth.Scope.{RoleScope, system, scope_eq, is_scope_at_least, get_scopes_at_least}

pub scope_eq_iff : (a b : RoleScope) → (scope_eq a b ≡ true) ↔ (a ≡ b)
scope_eq_iff a b = ground arith

pub is_scope_at_least_refl : (a : RoleScope) → is_scope_at_least a a ≡ true
unfolding is_scope_at_least
is_scope_at_least_refl a = ground arith

pub is_scope_at_least_trans :
    (a b c : RoleScope)
    → is_scope_at_least a b ≡ true
    → is_scope_at_least b c ≡ true
    → is_scope_at_least a c ≡ true
unfolding is_scope_at_least
is_scope_at_least_trans a b c p q = ground arith

pub is_scope_at_least_total :
    (a b : RoleScope) → (is_scope_at_least a b ≡ true) ⊎ (is_scope_at_least b a ≡ true)
unfolding is_scope_at_least
is_scope_at_least_total a b = ground arith

pub is_scope_at_least_antisymm :
    (a b : RoleScope) → is_scope_at_least a b ≡ true → is_scope_at_least b a ≡ true → a ≡ b
unfolding is_scope_at_least
is_scope_at_least_antisymm system b p q = ground arith
is_scope_at_least_antisymm a b p q = ground arith

-- A scope is listed by `getScopesAtLeast` exactly when it is at least as permissive.
pub get_scopes_at_least_lem :
    (a required : RoleScope)
    → any (scope_eq a) (get_scopes_at_least required) ≡ is_scope_at_least a required
unfolding get_scopes_at_least is_scope_at_least
get_scopes_at_least_lem system system = refl
get_scopes_at_least_lem a required = ground arith
