-- ===== src/Auth/Scope.antt =====
-- src/auth/utils/scope.ts: the scope hierarchy, from most to least permissive.
pub mod Order
use shield_api.Common.{ℕ, zero, suc, Bool, true, false, List, [], ◌∷◌, if◌then◌else◌, leb, take}

pub data RoleScope : Type 0 where
  system global client site_group site self : RoleScope

-- `===` on scopes
abbrev pub scope_eq : RoleScope → RoleScope → Bool
scope_eq system system = true
scope_eq global global = true
scope_eq client client = true
scope_eq site_group site_group = true
scope_eq site site = true
scope_eq self self = true
scope_eq _ _ = false

abbrev pub scope_hierarchy : List RoleScope
scope_hierarchy = system ∷ global ∷ client ∷ site_group ∷ site ∷ self ∷ []

-- `indexOf`, one higher: 0 stands for the -1 of a scope that is not listed.
abbrev index_from : ℕ → List RoleScope → RoleScope → ℕ
index_from n [] s = 0
index_from n (x ∷ xs) s = if scope_eq x s then suc n else index_from (suc n) xs s

abbrev pub index_of : RoleScope → ℕ
index_of s = index_from 0 scope_hierarchy s

unfoldable pub is_scope_at_least : RoleScope → RoleScope → Bool
is_scope_at_least scope required = leb (index_of scope) (index_of required)

-- `slice(0, indexOf(scope) + 1)`
unfoldable pub get_scopes_at_least : RoleScope → List RoleScope
get_scopes_at_least scope = take (index_of scope) scope_hierarchy

unfoldable pub scope_allows_all_client_sites : RoleScope → Bool
unfolding is_scope_at_least
scope_allows_all_client_sites scope = is_scope_at_least scope client

unfoldable pub scope_allows_multiple_clients : RoleScope → Bool
unfolding is_scope_at_least
scope_allows_multiple_clients scope = is_scope_at_least scope global
