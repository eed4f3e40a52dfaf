-- ===== src/Clients/Invitations/PrimaryPlace.antt =====
-- src/clients/invitations/invitations.service.ts: the place of a person's primary access records.
use shield_api.Common.{
  ℕ, ◌≡◌, refl, sym, ◌∙◌, inl, inr, String, true, ◌&&◌, List, Option, none, some, In, ◌==◌, eq_iff,
  arith, Table,
}
use shield_api.Clients.Invitations.{
  Invitation, PersonClientAccess, existing_primary, grant_accesses,
}
use shield_api.Clients.Invitations.Grants.{Anchored, grant_accesses_sound, grant_accesses-PrimaryAt}

-- Each person's primary records are all at one client and site.
abbrev pub OnePlace : List PersonClientAccess → Type 0
OnePlace rows =
    (a b : PersonClientAccess)
    → In a rows
    → In b rows
    → a.person_id ≡ b.person_id
    → a.is_primary ≡ true
    → b.is_primary ≡ true
    → (a.client_id ≡ b.client_id) × (a.site_id ≡ b.site_id)

module _ (ta : Table PersonClientAccess) (p : String) (accesses : ta.Db) where
  existing-Anchored :
      OnePlace (ta.rows accesses)
      → (o : Option PersonClientAccess) → existing_primary ta p accesses ≡ o
      → Anchored ta p o (ta.rows accesses)
  existing-Anchored before none e = λ a m of_p marked.
      let primary = λ (r : PersonClientAccess). r.person_id == p && r.is_primary in
      let miss = ta.find_first_none primary accesses a e m in ground (arith, eq_iff a.person_id p)
  existing-Anchored before (some x) e = λ a m of_p marked.
      let primary = λ (r : PersonClientAccess). r.person_id == p && r.is_primary in
      let (i, q) = ta.find_first_sound primary accesses x e in
      before a x m i (of_p ∙ sym ((eq_iff x.person_id p).0 (ground arith))) marked (ground arith)

  pub granted-OnePlace :
      (n : ℕ) (batch : List Invitation)
      → OnePlace (ta.rows accesses)
      → OnePlace
          (ta.rows (grant_accesses ta p (existing_primary ta p accesses) (some n) batch accesses))
  granted-OnePlace n batch before a b m m' same marked marked' =
      let existing = existing_primary ta p accesses in
      let (client, site, at) =
        grant_accesses-PrimaryAt ta p existing n batch accesses
          (existing-Anchored before existing refl) in
      let both : a.person_id ≡ p → (a.client_id ≡ b.client_id) × (a.site_id ≡ b.site_id) = λ of_p.
        let (c, s) = at a m of_p marked in
        let (c', s') = at b m' (sym same ∙ of_p) marked' in (c ∙ sym c', s ∙ sym s') in
      let sound = grant_accesses_sound ta p existing (some n) batch accesses in
      elim (sound a m) [
        | inr (inv, i, w) ↦ both w.person
        | inl old ↦ elim (sound b m') [
          | inr (inv, i, w) ↦ both (same ∙ w.person)
          | inl old' ↦ before a b old old' same marked marked'
        ]
      ]
