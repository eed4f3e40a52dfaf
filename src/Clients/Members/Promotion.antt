-- ===== src/Clients/Members/Promotion.antt =====
-- src/clients/members/members.service.ts: removing a record, and the promotion after it, keeps a person's
-- primary records at one place.
use shield_api.Common.{
  ◌≡◌, refl, sym, ◌∙◌, ap, subst, ◌⊎◌, inl, inr, String, Bool, true, not, ◌&&◌, List, map, filter,
  head?, In, In-of_map, In-of_filter, if◌then◌else◌, ◌==◌, eq_iff, arith, Bool-cases, Option-cases,
  Table,
}
use shield_api.Clients.Invitations.{PersonClientAccess}
use shield_api.Clients.Invitations.PrimaryPlace.{OnePlace}
use shield_api.Clients.Members.{sees, at_place, same_key, promote_oldest, drop_access}

-- The records that a caller sees are those of some clients.
abbrev pub SeesByClient : (PersonClientAccess → Bool) → Type 0
SeesByClient visible =
    (a b : PersonClientAccess) → a.client_id ≡ b.client_id → visible a ≡ visible b

pub sees-SeesByClient : (bypass : Bool) (client_id : String) → SeesByClient (sees bypass client_id)
unfolding sees
sees-SeesByClient bypass client_id a b e = rw e refl

pub OnePlace-filter :
    (p : PersonClientAccess → Bool) (rows : List PersonClientAccess)
    → OnePlace rows
    → OnePlace (filter p rows)
OnePlace-filter p rows h a b m n = h a b (In-of_filter p a rows m).0 (In-of_filter p b rows n).0

-- The person has no primary record among the rows.
abbrev pub NoPrimary : String → List PersonClientAccess → Type 0
NoPrimary p rows = (a : PersonClientAccess) → In a rows → a.person_id ≡ p → a.is_primary ≡ true → ⊥

module _ (t : Table PersonClientAccess) where
  open t use {Db, rows, find_first, find_many, create, update_many, delete_many}

  abbrev promoted :
      (PersonClientAccess → Bool)
      → String
      → PersonClientAccess
      → PersonClientAccess
      → PersonClientAccess
  promoted visible p o a =
      if visible a && at_place p o.client_id o.site_id a then record a { is_primary = true } else a

  promoted_cases :
      (visible : PersonClientAccess → Bool) (p : String) (o a : PersonClientAccess)
      → (promoted visible p o a ≡ a)
        ⊎ (((promoted visible p o a).person_id ≡ p)
            × ((promoted visible p o a).client_id ≡ o.client_id)
            × ((promoted visible p o a).site_id ≡ o.site_id))
  promoted_cases visible p o a =
      elim (Bool-cases (visible a && at_place p o.client_id o.site_id a)) [
        | inr e ↦ inl (rw e refl)
        | inl e ↦ inr (
            rw e (
              ground (arith, eq_iff a.person_id p),
              ground (arith, eq_iff a.client_id o.client_id),
              ground (arith, eq_iff a.site_id o.site_id),
            ))
      ]

  pub promote-OnePlace :
      (visible : PersonClientAccess → Bool) (p : String) (db : Db)
      → OnePlace (rows db)
      → NoPrimary p (rows db)
      → OnePlace (rows (promote_oldest t visible p db))
  unfolding promote_oldest
  promote-OnePlace visible p db before none_left =
      elim (Option-cases (head? (find_many (λ a. visible a && a.person_id == p) db))) [
        | inl e ↦ rw e before
        | inr (o, e) ↦ rw e (
            subst OnePlace
              (sym (
                t.rows-update_many (λ a. visible a && at_place p o.client_id o.site_id a)
                  (λ a. record a { is_primary = true }) db))
              (marked-OnePlace o))
      ]
    where
      marked-OnePlace : (o : PersonClientAccess) → OnePlace (map (promoted visible p o) (rows db))
      marked-OnePlace o a b m n same marked marked' =
          let (x, i, q) = In-of_map (promoted visible p o) a (rows db) m in
          let (y, j, r) = In-of_map (promoted visible p o) b (rows db) n in
          elim (promoted_cases visible p o x) [
            | inl keep ↦ elim (promoted_cases visible p o y) [
              | inl keep' ↦
                  before a b (subst (λ z. In z (rows db)) (sym (q ∙ keep)) i)
                    (subst (λ z. In z (rows db)) (sym (r ∙ keep')) j) same marked marked'
              | inr (of_p, c, s) ↦ absurd (
                  none_left a (subst (λ z. In z (rows db)) (sym (q ∙ keep)) i)
                    (same ∙ ap (λ (z : PersonClientAccess). z.person_id) r ∙ of_p) marked)
            ]
            | inr (of_p, c, s) ↦ elim (promoted_cases visible p o y) [
              | inl keep' ↦ absurd (
                  none_left b (subst (λ z. In z (rows db)) (sym (r ∙ keep')) j)
                    (sym same ∙ ap (λ (z : PersonClientAccess). z.person_id) q ∙ of_p) marked')
              | inr (of_p', c', s') ↦ (
                ap (λ (z : PersonClientAccess). z.client_id) q
                    ∙ c
                    ∙ sym (ap (λ (z : PersonClientAccess). z.client_id) r ∙ c'),
                ap (λ (z : PersonClientAccess). z.site_id) q
                    ∙ s
                    ∙ sym (ap (λ (z : PersonClientAccess). z.site_id) r ∙ s'),
              )
            ]
          ]

  pub drop_access-OnePlace :
      (visible : PersonClientAccess → Bool) (a : PersonClientAccess) (db : Db)
      → SeesByClient visible
      → visible a ≡ true
      → In a (rows db)
      → OnePlace (rows db)
      → OnePlace (rows (drop_access t visible a db))
  unfolding drop_access
  drop_access-OnePlace visible a db by_client seen i before =
      let left = delete_many (same_key a) db in
      let rest : OnePlace (rows left) =
        subst OnePlace (sym (t.rows-delete_many (same_key a) db))
          (OnePlace-filter _ (rows db) before) in
      let p =
        λ (b : PersonClientAccess). visible b && (b.person_id == a.person_id && b.is_primary) in
      elim (Bool-cases a.is_primary) [
        | inr e ↦ rw e rest
        | inl e ↦ elim (Option-cases (find_first p left)) [
          | inr (x, f) ↦ rw (e, f) rest
          | inl f ↦
              rw (e, f)
                (promote-OnePlace visible a.person_id left rest (λ b m of_p marked.
                  let old =
                    In-of_filter (λ (z : PersonClientAccess). not (same_key a z)) b (rows db)
                      (subst (In b) (t.rows-delete_many (same_key a) db) m) in
                  let here = before b a old.0 i of_p marked e in
                  let visible_b = by_client b a here.0 ∙ seen in
                  let miss = t.find_first_none p left b f m in
                  let at = (eq_iff b.person_id a.person_id).1 of_p in cc))
        ]
      ]
