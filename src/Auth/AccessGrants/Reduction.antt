-- ===== src/Auth/AccessGrants/Reduction.antt =====
-- src/auth/utils/access-grants.ts: what `reduceAccessGrants` makes of a list of grants.
use shield_api.Common.{
  ◌≡◌, refl, ◌⊎◌, inl, inr, String, true, ◌||◌, List, [], ◌∷◌, any, includes, In, All, ok, arith,
  includes-set_add_all, Bool-cases,
}
use shield_api.Auth.Scope.{RoleScope, is_scope_at_least}
use shield_api.Auth.Scope.Order.{
  is_scope_at_least_refl, is_scope_at_least_trans, is_scope_at_least_total,
}
use shield_api.Auth.AccessGrants.{AccessGrantData, reduce_step, reduce_loop, reduce_access_grants}

-- Two grants agree in scope, client, site and role.
pub record SameSource (a b : AccessGrantData) : Type 0 where
  pub scope : a.scope ≡ b.scope
  pub client_id : a.client_id ≡ b.client_id
  pub site_id : a.site_id ≡ b.site_id
  pub role_id : a.role_id ≡ b.role_id

pub record IsReduction (gs : List AccessGrantData) (r : AccessGrantData) : Type 0 where
  pub source : (g : AccessGrantData) × In g gs × SameSource r g
  pub widest : All (λ g. is_scope_at_least r.scope g.scope ≡ true) gs
  pub combined : (c : String) → includes r.capabilities c ≡ any (λ g. includes g.capabilities c) gs

self_least : (a : RoleScope) → is_scope_at_least a RoleScope.self ≡ true
unfolding is_scope_at_least
self_least a = ground arith

step_scope :
    (acc g : AccessGrantData)
    → (is_scope_at_least (reduce_step acc g).scope acc.scope ≡ true)
      × (is_scope_at_least (reduce_step acc g).scope g.scope ≡ true)
unfolding reduce_step
step_scope acc g = ground (
  arith,
  is_scope_at_least_refl acc.scope,
  is_scope_at_least_refl g.scope,
  is_scope_at_least_total acc.scope g.scope,
)

step_source :
    (acc g : AccessGrantData)
    → SameSource (reduce_step acc g) acc ⊎ SameSource (reduce_step acc g) g
unfolding reduce_step
step_source acc g = elim (Bool-cases (is_scope_at_least g.scope acc.scope)) [
  | inl e ↦ inr (ground arith)
  | inr e ↦ inl (ground arith)
]

step_capabilities :
    (acc g : AccessGrantData) (c : String)
    → includes (reduce_step acc g).capabilities c
      ≡ (includes acc.capabilities c || includes g.capabilities c)
unfolding reduce_step
step_capabilities acc g c = ground (arith, includes-set_add_all acc.capabilities g.capabilities c)

loop_scope :
    (acc : AccessGrantData) (gs : List AccessGrantData)
    → (is_scope_at_least (reduce_loop acc gs).scope acc.scope ≡ true)
      × All (λ g. is_scope_at_least (reduce_loop acc gs).scope g.scope ≡ true) gs
unfolding reduce_loop
loop_scope acc [] = (is_scope_at_least_refl acc.scope, tt)
loop_scope acc (g ∷ gs) =
    let (below, rest) = loop_scope (reduce_step acc g) gs in
    let (kept, taken) = step_scope acc g in
    (is_scope_at_least_trans _ _ _ below kept, (is_scope_at_least_trans _ _ _ below taken, rest))

SameSource-trans : {a b c : AccessGrantData} → SameSource a b → SameSource b c → SameSource a c
SameSource-trans p q = ground arith

loop_source :
    (acc : AccessGrantData) (gs : List AccessGrantData)
    → SameSource (reduce_loop acc gs) acc
      ⊎ ((g : AccessGrantData) × In g gs × SameSource (reduce_loop acc gs) g)
unfolding reduce_loop
loop_source acc [] = inl (ground arith)
loop_source acc (g ∷ gs) = elim (loop_source (reduce_step acc g) gs) [
  | inr (h, m, s) ↦ inr (h, inr m, s)
  | inl s ↦ elim (step_source acc g) [
    | inl t ↦ inl (SameSource-trans s t)
    | inr t ↦ inr (g, inl refl, SameSource-trans s t)
  ]
]

loop_capabilities :
    (acc : AccessGrantData) (gs : List AccessGrantData) (c : String)
    → includes (reduce_loop acc gs).capabilities c
      ≡ (includes acc.capabilities c || any (λ g. includes g.capabilities c) gs)
unfolding reduce_loop
loop_capabilities acc [] c = ground arith
loop_capabilities acc (g ∷ gs) c =
    ground (arith, loop_capabilities (reduce_step acc g) gs c, step_capabilities acc g c)

-- The first grant is always taken.
start_source :
    (g : AccessGrantData) (gs : List AccessGrantData)
    → let start = record g { scope = RoleScope.self; capabilities = [] } in
      (h : AccessGrantData) × In h (g ∷ gs) × SameSource (reduce_loop start (g ∷ gs)) h
unfolding reduce_loop reduce_step
start_source g gs =
    let start : AccessGrantData = record g { scope = RoleScope.self; capabilities = [] } in
    elim (loop_source (reduce_step start g) gs) [
      | inr (h, m, s) ↦ (h, inr m, s)
      | inl s ↦ (g, inl refl, ground (arith, s, self_least g.scope))
    ]

-- Of a list that is not empty `reduceAccessGrants` makes, without throwing, one grant whose scope,
-- client, site and role are those of one of the grants, whose scope is at least as permissive as
-- every grant's, and that has exactly the capabilities that some grant has.
pub reduce_access_grants-IsReduction :
    (g : AccessGrantData) (gs : List AccessGrantData)
    → (r : AccessGrantData) × (reduce_access_grants (g ∷ gs) ≡ ok r) × IsReduction (g ∷ gs) r
unfolding reduce_access_grants
reduce_access_grants-IsReduction g gs =
    let start : AccessGrantData = record g { scope = RoleScope.self; capabilities = [] } in
    (
      reduce_loop start (g ∷ gs),
      refl,
      record {
        source = start_source g gs;
        widest = (loop_scope start (g ∷ gs)).1;
        combined = loop_capabilities start (g ∷ gs);
      },
    )
