-- ===== src/Clients/Invitations/Batch.antt =====
-- src/clients/invitations/invitations.service.ts: which invitations `accept` accepts.
use shield_api.Common.{
  ℕ, ◌≡◌, refl, sym, subst, ap, ◌⊎◌, inl, inr, String, true, false, ◌&&◌, Option, none, some, In,
  In-of_filter, In-to_filter, is_some, get_or, truthy?, ltb, ◌==◌, eq_iff, arith, Bool-cases,
  Option-cases, ok, Table,
}
use shield_api.Clients.Invitations.{
  Invitation, InvitationStatus, Person, is_pending, is_accepted, is_retired, pending_in_group,
  invitations_to_accept, acceptable,
}

-- The invitation goes with the one whose code was used: the same, or a pending one of its group.
abbrev pub GoesWith : Invitation → Invitation → Type 0
GoesWith inv b =
    (b.status ≡ InvitationStatus.pending)
    × ((b ≡ inv) ⊎ ((truthy? inv.group_id ≡ true) × (b.group_id ≡ inv.group_id)))

-- The invitation may be used by the person at the time.
pub record Usable (lower : String → String) (now : ℕ) (person : Person) (code : String)
    (inv : Invitation) : Type 0 where
  pub by_code : inv.code ≡ code
  pub is_open : inv.status ≡ InvitationStatus.pending
  pub in_time : ltb inv.expires_on now ≡ false
  pub addressed : lower person.email ≡ lower inv.email

open_status :
    (s : InvitationStatus)
    → is_retired s ≡ false
    → is_accepted s ≡ false
    → s ≡ InvitationStatus.pending
open_status InvitationStatus.pending p q = refl
open_status InvitationStatus.accepted p q = cc
open_status InvitationStatus.revoked p q = cc
open_status InvitationStatus.expired p q = cc

pub pending_status : (s : InvitationStatus) → is_pending s ≡ true → s ≡ InvitationStatus.pending
pending_status InvitationStatus.pending p = refl
pending_status InvitationStatus.accepted p = cc
pending_status InvitationStatus.revoked p = cc
pending_status InvitationStatus.expired p = cc

group_lem :
    (g h : Option String)
    → truthy? h ≡ true
    → (is_some g && get_or g "" == get_or h "") ≡ true
    → g ≡ h
group_lem (some x) (some y) p q = ap some ((eq_iff x y).0 q)
group_lem none h p q = cc
group_lem (some x) none p q = cc

group_refl :
    (g h : Option String)
    → truthy? h ≡ true
    → g ≡ h
    → (is_some g && get_or g "" == get_or h "") ≡ true
group_refl g none p q = cc
group_refl g (some y) p q = rw q ((eq_iff y y).1 refl)

module _ (ti : Table Invitation) (lower : String → String) (now : ℕ) (person : Person)
    (code : String) (invitations : ti.Db) where
  pub acceptable_lem :
      (inv : Invitation)
      → acceptable ti lower now person code invitations ≡ ok inv
      → In inv (ti.rows invitations) × Usable lower now person code inv
  unfolding acceptable
  acceptable_lem inv h = elim (Option-cases (ti.find_first (λ i. i.code == code) invitations)) [
    | inl e ↦ absurd (ground arith)
    | inr (x, e) ↦
        let (i, q) = ti.find_first_sound (λ i. i.code == code) invitations x e in
        let same : x ≡ inv = ground arith in
        subst (λ y. In y (ti.rows invitations) × Usable lower now person code y) same
          (
            i,
            record {
              by_code = (eq_iff x.code code).0 q;
              is_open = open_status x.status (ground arith) (ground arith);
              in_time = ground arith;
              addressed = ground (arith, eq_iff (lower person.email) (lower x.email));
            },
          )
  ]

module _ (ti : Table Invitation) (invitations : ti.Db) where
  pub batch_sound :
      (inv b : Invitation)
      → In inv (ti.rows invitations)
      → inv.status ≡ InvitationStatus.pending
      → In b (invitations_to_accept ti inv invitations)
      → In b (ti.rows invitations) × GoesWith inv b
  unfolding invitations_to_accept
  batch_sound inv b i s m = elim (Bool-cases (truthy? inv.group_id)) [
    | inr e ↦ elim (rw e at m) [
      | inl same ↦
          subst (λ y. In y (ti.rows invitations) × GoesWith inv y) (sym same) (i, (s, inl refl))
      | inr nothing ↦ absurd nothing
    ]
    | inl e ↦
        let p = pending_in_group (get_or inv.group_id "") in
        let (j, q) =
          In-of_filter p b (ti.rows invitations)
            (subst (In b) (ti.find_many_lem p invitations) (rw e at m)) in
        (
          j,
          (
            pending_status b.status (ground arith),
            inr (e, group_lem b.group_id inv.group_id e (ground arith)),
          ),
        )
  ]

  pub batch_complete :
      (inv b : Invitation)
      → In b (ti.rows invitations)
      → GoesWith inv b
      → In b (invitations_to_accept ti inv invitations)
  unfolding invitations_to_accept
  batch_complete inv b i (s, with) = elim (Bool-cases (truthy? inv.group_id)) [
    | inr e ↦ rw e (elim with [ inl same ↦ inl same | inr (g, h) ↦ absurd (cc) ])
    | inl e ↦
        let p = pending_in_group (get_or inv.group_id "") in
        let same : b.group_id ≡ inv.group_id = elim with [
          | inl q ↦ ap (λ (y : Invitation). y.group_id) q
          | inr (g, h) ↦ h
        ] in
        let in_group = group_refl b.group_id inv.group_id e same in
        let still_open = ap is_pending s in
        rw e (
          subst (In b) (sym (ti.find_many_lem p invitations))
            (In-to_filter p b (ti.rows invitations) i (ground arith)))
  ]
