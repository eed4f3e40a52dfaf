-- ===== src/Clients/Invitations/Terminal.antt =====
-- src/clients/invitations/invitations.service.ts: accepted invitations stay as they are.
use shield_api.Common.{
  ℕ, ◌≡◌, refl, sym, ◌∙◌, subst, ap, inl, inr, String, Bool, true, false, ◌&&◌, List, map, In,
  In-map, get_or, truthy?, if◌then◌else◌, ◌==◌, eq_iff, arith, Bool-cases, Option-cases, ok, Table,
}
use shield_api.Clients.Invitations.{
  Invitation, InvitationStatus, is_pending, is_accepted, pending_in_group, revoke, expire_stale,
}

-- No two rows have the same id.
abbrev pub UniqueIds : List Invitation → Type 0
UniqueIds rows = (a b : Invitation) → In a rows → In b rows → a.id ≡ b.id → a ≡ b

module _ (t : Table Invitation) (visible : Invitation → Bool) (db : t.Db) (i : Invitation) where
  abbrev revoke_row : Invitation → Invitation
  revoke_row r = record r { status = InvitationStatus.revoked }

  untouched :
      (p : Invitation → Bool)
      → In i (t.rows db)
      → p i ≡ false
      → In i (t.rows (t.update_many p revoke_row db))
  untouched p m e =
      let mark = λ (r : Invitation). if p r then revoke_row r else r in
      let stays : mark i ≡ i = rw e refl in
      subst (In i) (sym (t.rows-update_many p revoke_row db))
        (subst (λ r. In r (map mark (t.rows db))) stays (In-map mark i (t.rows db) m))

  not_pending : i.status ≡ InvitationStatus.accepted → is_pending i.status ≡ false
  not_pending s = ap is_pending s

  revoke_keeps :
      (id : String) (db' : t.Db)
      → UniqueIds (t.rows db)
      → In i (t.rows db)
      → i.status ≡ InvitationStatus.accepted
      → revoke t visible id db ≡ ok db'
      → In i (t.rows db')
  unfolding revoke
  revoke_keeps id db' unique m s h =
      elim (Option-cases (t.find_first (λ r. visible r && r.id == id) db)) [
        | inl e ↦ absurd (ground arith)
        | inr (x, e) ↦
            let (j, q) = t.find_first_sound (λ r. visible r && r.id == id) db x e in
            let p = λ (r : Invitation).
              visible r
              && (if truthy? x.group_id
                  then pending_in_group (get_or x.group_id "") r
                  else r.id == id) in
            let done : t.update_many p revoke_row db ≡ db' = ground arith in
            let not_accepted : is_accepted x.status ≡ false = ground arith in
            let here : x.id ≡ id = (eq_iff x.id id).0 (ground arith) in
            let was = not_pending s in
            let other : (i.id == id) ≡ false = elim (Bool-cases (i.id == id)) [
              | inr miss ↦ miss
              | inl hit ↦
                  let same = unique x i j m (here ∙ sym ((eq_iff i.id id).0 hit)) in
                  let bad : is_accepted x.status ≡ true =
                    ap (λ (r : Invitation). is_accepted r.status) same ∙ ap is_accepted s in
                  absurd (cc)
            ] in
            subst (λ d. In i (t.rows d)) done (untouched p m (ground arith))
      ]

  -- Where ids are unique, a `revoke` that returns leaves an accepted invitation in the table as it
  -- is, and so does `expireStale`.
  pub accepted_stays :
      (id : String) (now : ℕ) (db' : t.Db)
      → UniqueIds (t.rows db)
      → In i (t.rows db)
      → i.status ≡ InvitationStatus.accepted
      → revoke t visible id db ≡ ok db'
      → In i (t.rows db') × In i (t.rows (expire_stale t visible now db))
  unfolding expire_stale
  accepted_stays id now db' unique m s h =
      let was = not_pending s in (revoke_keeps id db' unique m s h, untouched _ m (ground arith))
