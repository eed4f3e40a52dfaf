-- ===== src/Clients/Invitations/Upsert.antt =====
-- src/clients/invitations/invitations.service.ts: one access record that `accept` writes.
use shield_api.Common.{
  ◌≡◌, refl, sym, ◌∙◌, subst, ◌⊎◌, inl, inr, String, Bool, true, false, List, In, In-map, In-of_map,
  In-of_append, In-append_left, In-append_right, if◌then◌else◌, eq_iff, arith, Bool-cases,
  Option-cases, Table,
}
use shield_api.Clients.Invitations.{Invitation, PersonClientAccess, is_access_of, upsert_access}

-- The access record is the one that the invitation gives to the person.
pub record Matches (person_id : String) (inv : Invitation) (a : PersonClientAccess) : Type 0 where
  pub person : a.person_id ≡ person_id
  pub client : a.client_id ≡ inv.client_id
  pub site : a.site_id ≡ inv.site_id
  pub role : a.role_id ≡ inv.role_id

Matches-is_access_of :
    (p : String) (inv : Invitation) (a : PersonClientAccess)
    → is_access_of p inv a ≡ true
    → Matches p inv a
Matches-is_access_of p inv a h = record {
  person = ground (arith, eq_iff a.person_id p);
  client = ground (arith, eq_iff a.client_id inv.client_id);
  site = ground (arith, eq_iff a.site_id inv.site_id);
  role = ground (arith, eq_iff a.role_id inv.role_id);
}

-- What the upsert leaves of it.
abbrev pub Written : String → Invitation → Bool → PersonClientAccess → Type 0
Written p inv b a = Matches p inv a × (a.is_primary ≡ b)

-- The person has the access that the invitation gives.
abbrev pub Has : String → Invitation → List PersonClientAccess → Type 0
Has p inv rows = (a : PersonClientAccess) × In a rows × Matches p inv a

module _ (t : Table PersonClientAccess) (p : String) where
  open t use {Db, rows, find_first, create, update_many}

  abbrev set_primary : Invitation → Bool → PersonClientAccess → PersonClientAccess
  set_primary inv b a = if is_access_of p inv a then record a { is_primary = b } else a

  abbrev access_row : Invitation → Bool → PersonClientAccess
  access_row inv b = record {
    person_id = p;
    client_id = inv.client_id;
    site_id = inv.site_id;
    role_id = inv.role_id;
    is_primary = b;
  }

  row-Written : (inv : Invitation) (b : Bool) → Written p inv b (access_row inv b)
  row-Written inv b = (record { person = refl; client = refl; site = refl; role = refl }, refl)

  set_primary_cases :
      (inv : Invitation) (b : Bool) (a : PersonClientAccess)
      → (set_primary inv b a ≡ a) ⊎ Written p inv b (set_primary inv b a)
  set_primary_cases inv b a = elim (Bool-cases (is_access_of p inv a)) [
    | inr e ↦ inl (rw e refl)
    | inl e ↦
        let m = Matches-is_access_of p inv a e in
        inr (
          rw e
            (record { person = m.person; client = m.client; site = m.site; role = m.role }, refl))
  ]

  -- A record after the upsert was there before or is the one of the invitation.
  pub upsert_sound :
      (inv : Invitation) (b : Bool) (db : Db) (a : PersonClientAccess)
      → In a (rows (upsert_access t p inv b db))
      → In a (rows db) ⊎ Written p inv b a
  unfolding upsert_access
  upsert_sound inv b db a m = elim (Option-cases (find_first (is_access_of p inv) db)) [
    | inl e ↦ elim (In-of_append a (rows db) _ (subst (In a) (t.rows-create _ db) (rw e at m))) [
      | inl old ↦ inl old
      | inr (inl new) ↦ inr (subst (Written p inv b) (sym new) (row-Written inv b))
      | inr (inr nothing) ↦ absurd nothing
    ]
    | inr (x, e) ↦
        let (y, i, q) =
          In-of_map (set_primary inv b) a (rows db)
            (subst (In a) (t.rows-update_many (is_access_of p inv) _ db) (rw e at m)) in
        elim (set_primary_cases inv b y) [
          | inl same ↦ inl (subst (λ z. In z (rows db)) (sym (q ∙ same)) i)
          | inr w ↦ inr (subst (Written p inv b) (sym q) w)
        ]
  ]

  set_primary-Matches :
      (inv j : Invitation) (b : Bool) (a : PersonClientAccess)
      → Matches p j a
      → Matches p j (set_primary inv b a)
  set_primary-Matches inv j b a m = elim (Bool-cases (is_access_of p inv a)) [
    | inr e ↦ rw e m
    | inl e ↦ rw e (record { person = m.person; client = m.client; site = m.site; role = m.role })
  ]

  pub upsert_keeps :
      (inv j : Invitation) (b : Bool) (db : Db)
      → Has p j (rows db)
      → Has p j (rows (upsert_access t p inv b db))
  unfolding upsert_access
  upsert_keeps inv j b db (a, i, m) = elim (Option-cases (find_first (is_access_of p inv) db)) [
    | inl e ↦ rw e (
      a,
      subst (In a) (sym (t.rows-create (access_row inv b) db)) (In-append_left a (rows db) _ i),
      m,
    )
    | inr (x, e) ↦ rw e (
      set_primary inv b a,
      subst (In (set_primary inv b a)) (sym (t.rows-update_many (is_access_of p inv) _ db))
          (In-map (set_primary inv b) a (rows db) i),
      set_primary-Matches inv j b a m,
    )
  ]

  pub upsert-Has :
      (inv : Invitation) (b : Bool) (db : Db) → Has p inv (rows (upsert_access t p inv b db))
  unfolding upsert_access
  upsert-Has inv b db = elim (Option-cases (find_first (is_access_of p inv) db)) [
    | inl e ↦ rw e (
      access_row inv b,
      subst (In (access_row inv b)) (sym (t.rows-create (access_row inv b) db))
          (In-append_right (access_row inv b) (rows db) _ (inl refl)),
      (row-Written inv b).0,
    )
    | inr (x, e) ↦
        let (i, h) = t.find_first_sound (is_access_of p inv) db x e in
        rw e (
          set_primary inv b x,
          subst (In (set_primary inv b x)) (sym (t.rows-update_many (is_access_of p inv) _ db))
              (In-map (set_primary inv b) x (rows db) i),
          set_primary-Matches inv inv b x (Matches-is_access_of p inv x h),
        )
  ]

  -- `b` does not set a record's mark.
  pub upsert_unmarked :
      (inv : Invitation) (b : Bool) (db : Db) (a : PersonClientAccess)
      → b ≡ false
      → In a (rows (upsert_access t p inv b db))
      → a.is_primary ≡ true
      → In a (rows db)
  upsert_unmarked inv b db a e m marked = elim (upsert_sound inv b db a m) [
    | inl old ↦ old
    | inr (w, q) ↦ absurd (cc)
  ]
