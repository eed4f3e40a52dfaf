-- ===== src/Clients/Invitations/Acceptance.antt =====
-- src/clients/invitations/invitations.service.ts: what `accept` does to the two tables.
use shield_api.Common.{
  ℕ, ◌≡◌, refl, sym, subst, ◌⊎◌, inl, inr, String, List, Option, some, map, In, In-map,
  includes_of_In, if◌then◌else◌, ◌==◌, ok, >>=-eq-ok, ok-injective, Table,
}
use shield_api.Clients.Invitations.{
  Invitation, InvitationStatus, PersonClientAccess, Person, in_batch, invitations_to_accept,
  acceptable, accept, grant_accesses, index_or_zero,
}
use shield_api.Clients.Invitations.Upsert.{Matches, Has}
use shield_api.Clients.Invitations.Grants.{grant_accesses_sound, grant_accesses_complete}
use shield_api.Clients.Invitations.PrimaryPlace.{OnePlace, granted-OnePlace}
use shield_api.Clients.Invitations.Batch.{
  GoesWith, Usable, acceptable_lem, batch_sound, batch_complete,
}

-- What `accept` comes to, for the person and the invitation whose code is used.
pub record Accepted (rows invited_from : List Invitation) (before after : List PersonClientAccess)
    (person_id : String) (now : ℕ) (inv : Invitation) : Type 0 where
  -- Every new or changed access record is one that such an invitation gives.
  pub sound :
      (a : PersonClientAccess)
      → In a after
      → In a before
        ⊎ ((b : Invitation) × In b invited_from × GoesWith inv b × Matches person_id b a)
  -- Every such invitation gives its access, and is accepted.
  pub complete :
      (b : Invitation)
      → In b invited_from
      → GoesWith inv b
      → Has person_id b after
        × In
            (record b {
              status = InvitationStatus.accepted;
              accepted_by_id = some person_id;
              accepted_on = some now;
            })
            rows

module _ (ti : Table Invitation) (lower : String → String) (now : ℕ) (person : Person)
    (code : String) (invitations : ti.Db) where
  abbrev accept_row : Invitation → Invitation
  accept_row b = record b {
    status = InvitationStatus.accepted;
    accepted_by_id = some person.id;
    accepted_on = some now;
  }

  marked_lem :
      (batch : List Invitation) (b : Invitation)
      → In b (ti.rows invitations)
      → In b batch
      → In (accept_row b) (ti.rows (ti.update_many (in_batch batch) accept_row invitations))
  marked_lem batch b i m =
      let mark = λ (r : Invitation). if in_batch batch r then accept_row r else r in
      let chosen =
        includes_of_In (map (λ (r : Invitation). r.id) batch) b.id
          (In-map (λ (r : Invitation). r.id) b batch m) in
      let moved : mark b ≡ accept_row b = rw chosen refl in
      subst (In (accept_row b)) (sym (ti.rows-update_many (in_batch batch) accept_row invitations))
        (subst (λ r. In r (map mark (ti.rows invitations))) moved
          (In-map mark b (ti.rows invitations) i))

  module _ (ta : Table PersonClientAccess) (accesses : ta.Db) where
    accepted_lem :
        (inv : Invitation) (existing : Option PersonClientAccess) (k : Option ℕ)
        → In inv (ti.rows invitations)
        → inv.status ≡ InvitationStatus.pending
        → Accepted
            (ti.rows (
              ti.update_many
                (in_batch (invitations_to_accept ti inv invitations))
                accept_row
                invitations))
            (ti.rows invitations)
            (ta.rows accesses)
            (ta.rows (
              grant_accesses ta person.id existing k
                (invitations_to_accept ti inv invitations)
                accesses))
            person.id
            now
            inv
    accepted_lem inv existing k i s =
        let batch = invitations_to_accept ti inv invitations in
        record {
          sound = λ a m. elim (grant_accesses_sound ta person.id existing k batch accesses a m) [
            | inl old ↦ inl old
            | inr (b, j, w) ↦
                let (in_table, with) = batch_sound ti invitations inv b i s j in
                inr (b, in_table, with, w)
          ];
          complete = λ b j with.
              let m = batch_complete ti invitations inv b j with in
              (
                grant_accesses_complete ta person.id existing k batch accesses b m,
                marked_lem batch b j m,
              );
        }

  module _ (ta : Table PersonClientAccess) (accesses accesses' : ta.Db) (invitations' : ti.Db) where
    -- An `accept` that returns was given the code of a pending invitation in time, addressed to
    -- the person. It gives the person the access of this invitation and of every pending one of
    -- its group, marks those as accepted, and gives no other access.
    pub accept_lem :
        accept ti ta lower now person code invitations accesses ≡ ok (invitations', accesses')
        → (inv : Invitation) × In inv (ti.rows invitations)
          × Usable lower now person code inv
          × Accepted
              (ti.rows invitations')
              (ti.rows invitations)
              (ta.rows accesses)
              (ta.rows accesses')
              person.id
              now
              inv
    unfolding accept
    accept_lem h =
        let (inv, e, r) = >>=-eq-ok (acceptable ti lower now person code invitations) _ h in
        let (i, u) = acceptable_lem ti lower now person code invitations inv e in
        (
          inv,
          i,
          u,
          subst
              (λ d.
                Accepted (ti.rows d.0) (ti.rows invitations) (ta.rows accesses) (ta.rows d.1)
                  person.id now inv)
              (ok-injective r) (accepted_lem ta accesses inv _ _ i u.is_open),
        )

    -- `accept` keeps each person's primary access records at one client and site.
    pub accept-OnePlace :
        OnePlace (ta.rows accesses)
        → accept ti ta lower now person code invitations accesses ≡ ok (invitations', accesses')
        → OnePlace (ta.rows accesses')
    unfolding accept
    accept-OnePlace before h =
        let (inv, e, r) = >>=-eq-ok (acceptable ti lower now person code invitations) _ h in
        let batch = invitations_to_accept ti inv invitations in
        subst (λ d. OnePlace (ta.rows d.1)) (ok-injective r)
          (granted-OnePlace ta person.id accesses (index_or_zero (λ i. i.code == code) batch) batch
            before)
