-- ===== src/Clients/Invitations/Grants.antt =====
-- src/clients/invitations/invitations.service.ts: the access records that `accept` writes.
use shield_api.Common.{
  ℕ, zero, suc, ◌≡◌, refl, sym, subst, ◌⊎◌, inl, inr, String, true, false, ◌&&◌, List, [], ◌∷◌,
  Option, none, some, In, ◌==◌, eq_iff, arith, Table,
}
use shield_api.Clients.Invitations.{
  Invitation, PersonClientAccess, becomes_primary, upsert_access, grant_accesses, is_here,
  one_step_nearer,
}
use shield_api.Clients.Invitations.Upsert.{
  Matches, Has, upsert_sound, upsert_unmarked, upsert_keeps, upsert-Has,
}

-- The person's primary records are all at one client and site.
abbrev pub PrimaryAt : String → String → String → List PersonClientAccess → Type 0
PrimaryAt p client site rows =
    (a : PersonClientAccess)
    → In a rows
    → a.person_id ≡ p
    → a.is_primary ≡ true
    → (a.client_id ≡ client) × (a.site_id ≡ site)

module _ (t : Table PersonClientAccess) (p : String) where
  open t use {Db, rows, find_first, create, update_many}

  pub grant_accesses_sound :
      (existing : Option PersonClientAccess) (k : Option ℕ) (batch : List Invitation) (db : Db)
      (a : PersonClientAccess)
      → In a (rows (grant_accesses t p existing k batch db))
      → In a (rows db) ⊎ ((inv : Invitation) × In inv batch × Matches p inv a)
  unfolding grant_accesses
  grant_accesses_sound existing k [] db a m = inl m
  grant_accesses_sound existing k (inv ∷ rest) db a m =
      elim (grant_accesses_sound existing (one_step_nearer k) rest _ a m) [
        | inr (j, i, w) ↦ inr (j, inr i, w)
        | inl before ↦ elim (upsert_sound t p inv _ db a before) [
          | inl old ↦ inl old
          | inr w ↦ inr (inv, inl refl, w.0)
        ]
      ]

  grant_accesses_keeps :
      (existing : Option PersonClientAccess) (k : Option ℕ) (batch : List Invitation) (db : Db)
      (j : Invitation)
      → Has p j (rows db)
      → Has p j (rows (grant_accesses t p existing k batch db))
  unfolding grant_accesses
  grant_accesses_keeps existing k [] db j h = h
  grant_accesses_keeps existing k (inv ∷ rest) db j h =
      grant_accesses_keeps existing (one_step_nearer k) rest _ j (upsert_keeps t p inv j _ db h)

  pub grant_accesses_complete :
      (existing : Option PersonClientAccess) (k : Option ℕ) (batch : List Invitation) (db : Db)
      (j : Invitation)
      → In j batch
      → Has p j (rows (grant_accesses t p existing k batch db))
  unfolding grant_accesses
  grant_accesses_complete existing k [] db j m = absurd m
  grant_accesses_complete existing k (inv ∷ rest) db j (inl e) =
      grant_accesses_keeps existing (one_step_nearer k) rest _ j (
        subst
          (λ i.
            Has p i (rows (upsert_access t p inv (becomes_primary (is_here k) existing inv) db)))
          (sym e) (upsert-Has t p inv _ db))
  grant_accesses_complete existing k (inv ∷ rest) db j (inr m) =
      grant_accesses_complete existing (one_step_nearer k) rest _ j m

  -- What the existing primary record says of the person's primary records.
  abbrev pub Anchored : Option PersonClientAccess → List PersonClientAccess → Type 0
  Anchored none rows =
      (a : PersonClientAccess) → In a rows → a.person_id ≡ p → a.is_primary ≡ true → ⊥
  Anchored (some e) rows = PrimaryAt p e.client_id e.site_id rows

  not_clicked :
      (existing : Option PersonClientAccess) (inv : Invitation)
      → becomes_primary false existing inv ≡ false
  unfolding becomes_primary
  not_clicked none inv = refl
  not_clicked (some e) inv = refl

  -- Past the clicked invitation.
  grant_rest-PrimaryAt :
      (existing : Option PersonClientAccess) (batch : List Invitation) (db : Db)
      (client site : String)
      → PrimaryAt p client site (rows db)
      → PrimaryAt p client site (rows (grant_accesses t p existing none batch db))
  unfolding grant_accesses
  grant_rest-PrimaryAt existing [] db client site h = h
  grant_rest-PrimaryAt existing (inv ∷ rest) db client site h =
      grant_rest-PrimaryAt existing rest _ client site λ a m of_p marked.
        h a (upsert_unmarked t p inv _ db a (not_clicked existing inv) m marked) of_p marked

  -- The clicked one.
  clicked-PrimaryAt :
      (existing : Option PersonClientAccess) (inv : Invitation) (db : Db)
      → Anchored existing (rows db)
      → (client : String) × (site : String) × PrimaryAt p client site
          (rows (upsert_access t p inv (becomes_primary true existing inv) db))
  unfolding becomes_primary
  clicked-PrimaryAt none inv db h = (
    inv.client_id,
    inv.site_id,
    λ a m of_p marked. elim (upsert_sound t p inv true db a m) [
      | inl old ↦ absurd (h a old of_p marked)
      | inr (w, q) ↦ (w.client, w.site)
    ],
  )
  clicked-PrimaryAt (some e) inv db h = (
    e.client_id,
    e.site_id,
    λ a m of_p marked. elim (upsert_sound t p inv _ db a m) [
      | inl old ↦ h a old of_p marked
      | inr (w, q) ↦
          let same : (e.client_id == inv.client_id && e.site_id == inv.site_id) ≡ true = cc in
          (
            ground (arith, eq_iff e.client_id inv.client_id, w.client),
            ground (arith, eq_iff e.site_id inv.site_id, w.site),
          )
    ],
  )

  Anchored-unmarked :
      (existing : Option PersonClientAccess) (inv : Invitation) (db : Db)
      → Anchored existing (rows db)
      → Anchored existing (rows (upsert_access t p inv (becomes_primary false existing inv) db))
  Anchored-unmarked none inv db h = λ a m of_p marked.
      h a (upsert_unmarked t p inv _ db a (not_clicked none inv) m marked) of_p marked
  Anchored-unmarked (some e) inv db h = λ a m of_p marked.
      h a (upsert_unmarked t p inv _ db a (not_clicked (some e) inv) m marked) of_p marked

  pub grant_accesses-PrimaryAt :
      (existing : Option PersonClientAccess) (n : ℕ) (batch : List Invitation) (db : Db)
      → Anchored existing (rows db)
      → (client : String) × (site : String) × PrimaryAt p client site
          (rows (grant_accesses t p existing (some n) batch db))
  unfolding grant_accesses
  grant_accesses-PrimaryAt none n [] db h = ("", "", λ a m of_p marked. absurd (h a m of_p marked))
  grant_accesses-PrimaryAt (some e) n [] db h = (e.client_id, e.site_id, h)
  grant_accesses-PrimaryAt existing zero (inv ∷ rest) db h =
      let (client, site, at) = clicked-PrimaryAt existing inv db h in
      (client, site, grant_rest-PrimaryAt existing rest _ client site at)
  grant_accesses-PrimaryAt existing (suc n) (inv ∷ rest) db h =
      grant_accesses-PrimaryAt existing n rest _ (Anchored-unmarked existing inv db h)
