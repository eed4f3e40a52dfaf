-- ===== src/Clients/Members/Removal.antt =====
-- src/clients/members/members.service.ts and src/clients/users/users.service.ts: which primary record
-- a person is left with.
use shield_api.Common.{
  ◌≡◌, refl, sym, ◌∙◌, ap, subst, ◌⊎◌, inl, inr, String, Bool, true, false, not, ◌&&◌, List, [],
  ◌∷◌, none, some, map, filter, head?, In, In-map, In-of_filter, In-to_filter, if◌then◌else◌, ◌==◌,
  eq_iff, arith, Bool-cases, Option-cases, ok, Table,
}
use shield_api.Clients.Invitations.{PersonClientAccess}
use shield_api.Clients.Members.{
  Assignment, sees, at_place, is_assigned, same_key, promote_oldest, drop_access, remove,
  remove_user_role,
}

-- The database's unique key.
abbrev pub UniqueKeys : List PersonClientAccess → Type 0
UniqueKeys rows = (a b : PersonClientAccess) → In a rows → In b rows → same_key a b ≡ true → a ≡ b

abbrev pub Primary : String → List PersonClientAccess → Type 0
Primary p rows = (a : PersonClientAccess) × In a rows × (a.person_id ≡ p) × (a.is_primary ≡ true)

abbrev pub NoAccess : String → List PersonClientAccess → Type 0
NoAccess p rows = (a : PersonClientAccess) → In a rows → a.person_id ≡ p → ⊥

head-In : {A : Type 0} (x : A) (xs : List A) → head? xs ≡ some x → In x xs
head-In x (y ∷ ys) e = inl (cc)
head-In x [] e = cc

head-none : {A : Type 0} (x : A) (xs : List A) → head? xs ≡ none → In x xs → ⊥
head-none x (y ∷ ys) e m = cc
head-none x [] e m = m

abbrev pub is_member_row : String → String → PersonClientAccess → Bool
is_member_row client_id id a = a.person_id == id && a.client_id == client_id

module _ (t : Table PersonClientAccess) where
  open t use {Db, rows, find_first, find_many, update_many, delete_many}

  -- With every record in sight the oldest one's place becomes primary, if there is one.
  promote-Primary :
      (p : String) (db : Db)
      → NoAccess p (rows (promote_oldest t (λ b. true) p db))
        ⊎ Primary p (rows (promote_oldest t (λ b. true) p db))
  unfolding promote_oldest
  promote-Primary p db =
      let own = λ (a : PersonClientAccess). a.person_id == p in
      let found = t.find_many_lem own db in
      elim (Option-cases (head? (find_many own db))) [
        | inl e ↦ rw e (
            inl λ a m of_p. head-none a (find_many own db) e (
              subst (In a) (sym found)
                (In-to_filter own a (rows db) m ((eq_iff a.person_id p).1 of_p))))
        | inr (o, e) ↦
            let (i, q) =
              In-of_filter own o (rows db) (subst (In o) found (head-In o (find_many own db) e)) in
            let chosen = λ (a : PersonClientAccess). at_place p o.client_id o.site_id a in
            let mark =
              λ (a : PersonClientAccess). if chosen a then record a { is_primary = true } else a in
            let marked : mark o ≡ record o { is_primary = true } =
              ground (arith, eq_iff o.client_id o.client_id, eq_iff o.site_id o.site_id) in
            inr (
              rw e (
                record o { is_primary = true },
                subst (In (record o { is_primary = true }))
                    (sym (t.rows-update_many chosen (λ a. record a { is_primary = true }) db))
                    (subst (λ r. In r (map mark (rows db))) marked (In-map mark o (rows db) i)),
                (eq_iff o.person_id p).0 q,
                refl,
              ))
      ]

  drop_access-Primary :
      (a : PersonClientAccess) (db : Db)
      → UniqueKeys (rows db)
      → In a (rows db)
      → Primary a.person_id (rows db)
      → NoAccess a.person_id (rows (drop_access t (λ b. true) a db))
        ⊎ Primary a.person_id (rows (drop_access t (λ b. true) a db))
  unfolding drop_access
  drop_access-Primary a db unique i (x, j, of_p, marked) = elim (Bool-cases a.is_primary) [
    | inr e ↦
        let other : same_key a x ≡ false = elim (Bool-cases (same_key a x)) [
          | inr miss ↦ miss
          | inl hit ↦
              let same = ap (λ (z : PersonClientAccess). z.is_primary) (unique a x i j hit) in
              absurd (cc)
        ] in
        rw e (
          inr (
            x,
            subst (In x) (sym (t.rows-delete_many (same_key a) db))
                (In-to_filter (λ b. not (same_key a b)) x (rows db) j (ground arith)),
            of_p,
            marked,
          ))
    | inl e ↦
        let left = delete_many (same_key a) db in
        let p = λ (b : PersonClientAccess). b.person_id == a.person_id && b.is_primary in
        elim (Option-cases (find_first p left)) [
          | inr (y, f) ↦
              let (k, q) = t.find_first_sound p left y f in
              rw (e, f) (inr (y, k, ground (arith, eq_iff y.person_id a.person_id), ground arith))
          | inl f ↦ rw (e, f) (promote-Primary a.person_id left)
        ]
  ]

  -- Where keys are unique, a `removeRole` of UsersService that returns leaves a person who had a
  -- primary access record with one, or with no access record at all.
  pub remove_user_role-Primary :
      (known : String → Bool) (id : String) (d : Assignment) (db db' : Db)
      → UniqueKeys (rows db)
      → Primary id (rows db)
      → remove_user_role t known id d db ≡ ok db'
      → NoAccess id (rows db') ⊎ Primary id (rows db')
  unfolding remove_user_role
  remove_user_role-Primary known id d db db' unique had h =
      elim (Option-cases (find_first (is_assigned id d) db)) [
        | inl e ↦ absurd (ground arith)
        | inr (a, e) ↦
            let (i, q) = t.find_first_sound (is_assigned id d) db a e in
            let done : drop_access t (λ b. true) a db ≡ db' = ground arith in
            let own : a.person_id ≡ id = ground (arith, eq_iff a.person_id id) in
            subst (λ z. NoAccess id (rows z) ⊎ Primary id (rows z)) done
              (subst
                (λ p.
                  NoAccess p (rows (drop_access t (λ b. true) a db))
                  ⊎ Primary p (rows (drop_access t (λ b. true) a db)))
                own
                (drop_access-Primary a db unique i
                  (subst (λ p. Primary p (rows db)) (sym own) had)))
      ]

  nothing_to_promote :
      (client_id id : String) (db : Db)
      → (find_many
          (λ a. sees false client_id a && a.person_id == id)
          (delete_many (λ a. sees false client_id a && is_member_row client_id id a) db))
        ≡ []
  unfolding sees
  nothing_to_promote client_id id db =
      t.find_many_lem own left
      ∙ ap (filter own)
          (t.rows-delete_many (λ a. a.client_id == client_id && is_member_row client_id id a) db)
      ∙ no_rows (rows db)
    where
      own : PersonClientAccess → Bool
      own a = a.client_id == client_id && a.person_id == id

      left : Db
      left = delete_many (λ a. a.client_id == client_id && is_member_row client_id id a) db

      no_rows :
          (xs : List PersonClientAccess)
          → filter own
              (filter (λ a. not (a.client_id == client_id && is_member_row client_id id a)) xs)
            ≡ []
      no_rows [] = refl
      no_rows (x ∷ xs) = ground (arith, no_rows xs)

  seen_member :
      (client_id id : String) (xs : List PersonClientAccess)
      → filter (λ a. not (sees false client_id a && is_member_row client_id id a)) xs
        ≡ filter (λ a. not (is_member_row client_id id a)) xs
  unfolding sees
  seen_member client_id id [] = refl
  seen_member client_id id (x ∷ xs) = ground (arith, seen_member client_id id xs)

  -- A `remove` by a caller under row-level security leaves the records that are not the person's at
  -- the client, as they were, and no others: it makes none of them primary.
  pub remove_lem :
      (known : String → Bool) (client_id id : String) (db db' : Db)
      → remove t known false client_id id db ≡ ok db'
      → rows db' ≡ filter (λ a. not (is_member_row client_id id a)) (rows db)
  unfolding remove promote_oldest
  remove_lem known client_id id db db' h =
      let member =
        λ (a : PersonClientAccess). sees false client_id a && is_member_row client_id id a in
      let left = delete_many member db in
      let quiet : promote_oldest t (sees false client_id) id left ≡ left =
        rw (nothing_to_promote client_id id db) refl in
      let done : left ≡ db' = ground arith in
      sym (ap rows done) ∙ t.rows-delete_many member db ∙ seen_member client_id id (rows db)
