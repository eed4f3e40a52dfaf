-- ===== src/Admin/Roles/Invariant.antt =====
-- src/admin/roles/roles.service.ts: what the table of roles keeps to, and the changes that keep to it.
use shield_api.Common.{
  ◌≡◌, ◌≢◌, sym, ◌∙◌, ap, subst, ◌⊎◌, inl, inr, String, Bool, true, false, List, [], ◌∷◌, ◌++◌, map,
  filter, In, In-of_map, In-of_append, In-of_filter, if◌then◌else◌, ◌==◌, eq_iff, arith, Bool-cases,
  All,
}
use shield_api.Auth.Scope.{RoleScope, is_scope_at_least}
use shield_api.Auth.Capabilities.{is_valid_capability}
use shield_api.Admin.Roles.{Role}

pub record WellFormed (rows : List Role) : Type 0 where
  -- No client-assignable role has GLOBAL or SYSTEM scope.
  pub assignable :
      (r : Role)
      → In r rows
      → r.client_assignable ≡ true
      → is_scope_at_least r.scope RoleScope.global ≡ false
  pub valid : (r : Role) → In r rows → All (λ c. is_valid_capability c ≡ true) r.capabilities
  pub ids : (r s : Role) → In r rows → In s rows → r.id ≡ s.id → r ≡ s
  pub names : (r s : Role) → In r rows → In s rows → r.name ≡ s.name → r.id ≡ s.id

-- A row that is fit to stand in the table, by itself.
pub record IsFit (r : Role) : Type 0 where
  pub assignable : r.client_assignable ≡ true → is_scope_at_least r.scope RoleScope.global ≡ false
  pub valid : All (λ c. is_valid_capability c ≡ true) r.capabilities

module _ (rows : List Role) (w : WellFormed rows) where
  pub WellFormed-IsFit : (r : Role) → In r rows → IsFit r
  WellFormed-IsFit r m = record { assignable = w.assignable r m; valid = w.valid r m }

  pub WellFormed-filter : (p : Role → Bool) → WellFormed (filter p rows)
  WellFormed-filter p = record {
    assignable = λ r m. w.assignable r (In-of_filter p r rows m).0;
    valid = λ r m. w.valid r (In-of_filter p r rows m).0;
    ids = λ r s m n. w.ids r s (In-of_filter p r rows m).0 (In-of_filter p s rows n).0;
    names = λ r s m n. w.names r s (In-of_filter p r rows m).0 (In-of_filter p s rows n).0;
  }

  pub WellFormed-append :
      (x : Role)
      → IsFit x
      → ((r : Role) → In r rows → r.id ≢ x.id)
      → ((r : Role) → In r rows → r.name ≢ x.name)
      → WellFormed (rows ++ x ∷ [])
  WellFormed-append x fit new_id new_name = record {
    assignable = λ r m. (fits r (In-of_append r rows (x ∷ []) m)).assignable;
    valid = λ r m. (fits r (In-of_append r rows (x ∷ []) m)).valid;
    ids = λ r s m n. one_id r s (In-of_append r rows (x ∷ []) m) (In-of_append s rows (x ∷ []) n);
    names =
        λ r s m n. one_name r s (In-of_append r rows (x ∷ []) m) (In-of_append s rows (x ∷ []) n);
  }
    where
      fits : (r : Role) → In r rows ⊎ In r (x ∷ []) → IsFit r
      fits r (inl m) = WellFormed-IsFit r m
      fits r (inr (inl e)) = subst IsFit (sym e) fit
      fits r (inr (inr nothing)) = absurd nothing

      one_id :
          (r s : Role) → In r rows ⊎ In r (x ∷ []) → In s rows ⊎ In s (x ∷ []) → r.id ≡ s.id → r ≡ s
      one_id r s (inl m) (inl n) e = w.ids r s m n e
      one_id r s (inl m) (inr (inl f)) e = absurd (new_id r m (e ∙ ap (λ (y : Role). y.id) f))
      one_id r s (inr (inl f)) (inl n) e = absurd (new_id s n (sym e ∙ ap (λ (y : Role). y.id) f))
      one_id r s (inr (inl f)) (inr (inl g)) e = f ∙ sym g
      one_id r s (inr (inr nothing)) n e = absurd nothing
      one_id r s m (inr (inr nothing)) e = absurd nothing

      one_name :
          (r s : Role)
          → In r rows ⊎ In r (x ∷ [])
          → In s rows ⊎ In s (x ∷ [])
          → r.name ≡ s.name
          → r.id ≡ s.id
      one_name r s (inl m) (inl n) e = w.names r s m n e
      one_name r s (inl m) (inr (inl f)) e = absurd (new_name r m (e ∙ ap (λ (y : Role). y.name) f))
      one_name r s (inr (inl f)) (inl n) e =
          absurd (new_name s n (sym e ∙ ap (λ (y : Role). y.name) f))
      one_name r s (inr (inl f)) (inr (inl g)) e = ap (λ (y : Role). y.id) (f ∙ sym g)
      one_name r s (inr (inr nothing)) n e = absurd nothing
      one_name r s m (inr (inr nothing)) e = absurd nothing

  module _ (id : String) (f : Role → Role) where
    abbrev change : Role → Role
    change r = if r.id == id then f r else r

    module _ (same_id : (r : Role) → (f r).id ≡ r.id)
        (fit : (r : Role) → In r rows → r.id ≡ id → IsFit (f r))
        (new_name : (r : Role)
          → In r rows
          → r.id ≡ id
          → ((f r).name ≡ r.name)
            ⊎ ((s : Role) → In s rows → (f r).name ≡ s.name → s.id ≡ id)) where
      change_id : (r : Role) → (change r).id ≡ r.id
      change_id r = ground (arith, same_id r)

      change-IsFit : (r : Role) → In r rows → IsFit (change r)
      change-IsFit r m = elim (Bool-cases (r.id == id)) [
        | inl e ↦ rw e (fit r m ((eq_iff r.id id).0 e))
        | inr e ↦ rw e (WellFormed-IsFit r m)
      ]

      hit_miss :
          (r s : Role) → In r rows → In s rows → r.id ≡ id → (f r).name ≡ s.name → r.id ≡ s.id
      hit_miss r s m n at e = elim (new_name r m at) [
        | inl kept ↦ w.names r s m n (sym kept ∙ e)
        | inr other ↦ at ∙ sym (other s n e)
      ]

      change_name :
          (r s : Role) → In r rows → In s rows → (change r).name ≡ (change s).name → r.id ≡ s.id
      change_name r s m n e = elim (Bool-cases (r.id == id)) [
        | inl p ↦ elim (Bool-cases (s.id == id)) [
          | inl q ↦ (eq_iff r.id id).0 p ∙ sym ((eq_iff s.id id).0 q)
          | inr q ↦ hit_miss r s m n ((eq_iff r.id id).0 p) (ground arith)
        ]
        | inr p ↦ elim (Bool-cases (s.id == id)) [
          | inl q ↦ sym (hit_miss s r n m ((eq_iff s.id id).0 q) (ground arith))
          | inr q ↦ w.names r s m n (ground arith)
        ]
      ]

      -- A change of the row with one id keeps the table well formed, if the new row is fit and
      -- its name is the old one or no other row's.
      pub WellFormed-update : WellFormed (map change rows)
      WellFormed-update = record {
        assignable = λ r m. (fits r m).assignable;
        valid = λ r m. (fits r m).valid;
        ids = one_id;
        names = one_name;
      }
        where
          fits : (r : Role) → In r (map change rows) → IsFit r
          fits r m =
              let (q, i, e) = In-of_map change r rows m in subst IsFit (sym e) (change-IsFit q i)

          one_id :
              (r s : Role) → In r (map change rows) → In s (map change rows) → r.id ≡ s.id → r ≡ s
          one_id r s m n e =
              let (q, i, d) = In-of_map change r rows m in
              let (q', j, d') = In-of_map change s rows n in
              let key = λ (y : Role). y.id in
              let same =
                w.ids q q' i j
                  (sym (change_id q) ∙ ap key (sym d) ∙ e ∙ ap key d' ∙ change_id q') in
              d ∙ ap change same ∙ sym d'

          one_name :
              (r s : Role)
              → In r (map change rows)
              → In s (map change rows)
              → r.name ≡ s.name
              → r.id ≡ s.id
          one_name r s m n e =
              let (q, i, d) = In-of_map change r rows m in
              let (q', j, d') = In-of_map change s rows n in
              let key = λ (y : Role). y.id in
              let label = λ (y : Role). y.name in
              ap key d
              ∙ change_id q
              ∙ change_name q q' i j (ap label (sym d) ∙ e ∙ ap label d')
              ∙ sym (change_id q')
              ∙ ap key (sym d')
