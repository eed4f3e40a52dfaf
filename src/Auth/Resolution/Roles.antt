-- ===== src/Auth/Resolution/Roles.antt =====
-- src/auth/auth.service.ts: `getMostPermissiveRole`.
use shield_api.Common.{
  ◌≢◌, ◌≡◌, ◌≤◌, refl, sym, subst, ◌∙◌, ◌⊎◌, inl, inr, Bool, true, List, [], ◌∷◌, some, any, filter,
  length, In, In-of_filter, In-to_filter, All-In, All, arith,
}
use shield_api.Auth.Scope.{RoleScope, is_scope_at_least, get_scopes_at_least, scope_eq}
use shield_api.Auth.Scope.Order.{
  is_scope_at_least_refl, is_scope_at_least_trans, is_scope_at_least_total,
  is_scope_at_least_antisymm, scope_eq_iff, get_scopes_at_least_lem,
}
use shield_api.Auth.Resolution.{
  RoleRow, more_permissive, fold_roles, fold_some, get_most_permissive_role,
}

-- `a` has the wider scope, or the same scope and no fewer capabilities.
pub record Covers (a b : RoleRow) : Type 0 where
  pub wider : is_scope_at_least a.scope b.scope ≡ true
  pub richer : (a.scope ≢ b.scope) ⊎ (length b.capabilities ≤ length a.capabilities)

Covers-refl : (a : RoleRow) → Covers a a
Covers-refl a = record { wider = is_scope_at_least_refl a.scope; richer = inr (omega arith) }

Covers-trans : (a b c : RoleRow) → Covers a b → Covers b c → Covers a c
Covers-trans a b c p q = record {
  wider = is_scope_at_least_trans a.scope b.scope c.scope p.wider q.wider;
  richer = ground (
    arith,
    p,
    q,
    is_scope_at_least_antisymm a.scope b.scope,
    is_scope_at_least_antisymm b.scope c.scope,
  );
}

more_permissive-Covers :
    (a b : RoleRow) → Covers (more_permissive a b) a × Covers (more_permissive a b) b
unfolding more_permissive
more_permissive-Covers a b = ground (
  arith,
  scope_eq_iff b.scope a.scope,
  is_scope_at_least_refl a.scope,
  is_scope_at_least_refl b.scope,
  is_scope_at_least_total a.scope b.scope,
  is_scope_at_least_antisymm a.scope b.scope,
)

more_permissive-source : (a b : RoleRow) → (more_permissive a b ≡ a) ⊎ (more_permissive a b ≡ b)
unfolding more_permissive
more_permissive-source a b = ground arith

fold_roles-Covers :
    (a : RoleRow) (rs : List RoleRow)
    → Covers (fold_roles a rs) a × All (Covers (fold_roles a rs)) rs
unfolding fold_roles
fold_roles-Covers a [] = (Covers-refl a, tt)
fold_roles-Covers a (r ∷ rs) =
    let (old, new) = more_permissive-Covers a r in
    let (top, rest) = fold_roles-Covers (more_permissive a r) rs in
    (Covers-trans _ _ _ top old, (Covers-trans _ _ _ top new, rest))

fold_roles-source :
    (a : RoleRow) (rs : List RoleRow) → (fold_roles a rs ≡ a) ⊎ In (fold_roles a rs) rs
unfolding fold_roles
fold_roles-source a [] = inl refl
fold_roles-source a (r ∷ rs) = elim (fold_roles-source (more_permissive a r) rs) [
  | inr m ↦ inr (inr m)
  | inl e ↦ elim (more_permissive-source a r) [ inl f ↦ inl (e ∙ f) | inr f ↦ inr (inl (e ∙ f)) ]
]

fold_some_lem :
    (rs : List RoleRow) (r : RoleRow) → fold_some rs ≡ some r → In r rs × All (Covers r) rs
fold_some_lem [] r e = cc
fold_some_lem (x ∷ xs) r e =
    let same : fold_roles x (x ∷ xs) ≡ r = cc in
    subst (λ y. In y (x ∷ xs) × All (Covers y) (x ∷ xs)) same
      (among (fold_roles-source x (x ∷ xs)), (fold_roles-Covers x (x ∷ xs)).1)
  where
    among :
        (fold_roles x (x ∷ xs) ≡ x) ⊎ In (fold_roles x (x ∷ xs)) (x ∷ xs)
        → In (fold_roles x (x ∷ xs)) (x ∷ xs)
    among (inl f) = inl f
    among (inr m) = m

module _ (roles : List RoleRow) (least : RoleScope) (r : RoleRow)
    (e : get_most_permissive_role roles least ≡ some r) where
  abbrev allowed : RoleRow → Bool
  allowed q = any (scope_eq q.scope) (get_scopes_at_least least)

  found : In r (filter allowed roles) × All (Covers r) (filter allowed roles)
  unfolding get_most_permissive_role
  found = fold_some_lem (filter allowed roles) r e

  pub get_most_permissive_role-In : In r roles × (is_scope_at_least r.scope least ≡ true)
  get_most_permissive_role-In =
      let (i, wide) = In-of_filter allowed r roles found.0 in
      (i, sym (get_scopes_at_least_lem r.scope least) ∙ wide)

  -- The role that `getMostPermissiveRole` returns is one of the user's roles with at least the
  -- given scope, and covers every such role `q`: its scope is at least as wide, and where the two
  -- scopes are the same it has no fewer capabilities.
  get_most_permissive_role_lem :
      (q : RoleRow)
      → In q roles
      → is_scope_at_least q.scope least ≡ true
      → In r roles × (is_scope_at_least r.scope least ≡ true) × Covers r q
  get_most_permissive_role_lem q j h =
      let (i, wide) = get_most_permissive_role-In in
      (
        i,
        wide,
        All-In (Covers r) (filter allowed roles) q found.1
            (In-to_filter allowed q roles j (get_scopes_at_least_lem q.scope least ∙ h)),
      )
