-- ===== src/Assets/Sessions/Statuses.antt =====
-- src/assets/inspections/inspections.service.ts: how the status of a session moves.
use shield_api.Common.{
  ◌≡◌, refl, sym, ap, ◌∙◌, subst, inl, inr, String, true, List, In, In-map, In-of_map,
  if◌then◌else◌, Bool-cases, Table,
}
use shield_api.Assets.Sessions.{
  SessionStatus, pending, complete, expired, cancelled, is_pending, InspectionSession, with_status,
  by_id, set_status,
}

-- A status and one that may come later: PENDING may become any, and any may become CANCELLED.
pub data Later (a b : SessionStatus) : Type 0 where
  same : a ≡ b → Later a b
  from_pending : a ≡ pending → Later a b
  to_cancelled : b ≡ cancelled → Later a b

pub Later-trans : (a b c : SessionStatus) → Later a b → Later b c → Later a c
Later-trans a b c (from_pending e) q = from_pending e
Later-trans a b c (same e) q = subst (λ z. Later z c) (sym e) q
Later-trans a b c (to_cancelled e) (same f) = to_cancelled (sym f ∙ e)
Later-trans a b c (to_cancelled e) (to_cancelled f) = to_cancelled f
Later-trans a b c (to_cancelled e) (from_pending f) = absurd (cc)

pub pending_only : (s : SessionStatus) → is_pending s ≡ true → s ≡ pending
pending_only pending e = refl
pending_only complete e = cc
pending_only expired e = cc
pending_only cancelled e = cc

-- The id of a session is a primary key.
abbrev pub Keyed : List InspectionSession → Type 0
Keyed rows = (a b : InspectionSession) → In a rows → In b rows → a.id ≡ b.id → a ≡ b

-- Each session is still there, with a later status.
abbrev pub Kept : List InspectionSession → List InspectionSession → Type 0
Kept rows rows' =
    (a : InspectionSession)
    → In a rows
    → (b : InspectionSession) × (In b rows' × ((b.id ≡ a.id) × Later a.status b.status))

pub Kept-refl : (rows : List InspectionSession) → Kept rows rows
Kept-refl rows a m = (a, (m, (refl, same refl)))

pub Kept-trans : (xs ys zs : List InspectionSession) → Kept xs ys → Kept ys zs → Kept xs zs
Kept-trans xs ys zs p q a m =
    let (b, (n, (e, l))) = p a m in
    let (c, (o, (f, k))) = q b n in (c, (o, (f ∙ e, Later-trans a.status b.status c.status l k)))

module _ (t : Table InspectionSession) where
  open t use {Db, rows, find_first, create, update_many}

  abbrev changed : String → SessionStatus → InspectionSession → InspectionSession
  changed id status a = if by_id t id a then with_status status a else a

  changed_id :
      (id : String) (status : SessionStatus) (a : InspectionSession)
      → (changed id status a).id ≡ a.id
  changed_id id status a = elim (Bool-cases (by_id t id a)) [
    | inl e ↦ rw e refl
    | inr e ↦ rw e refl
  ]

  pub set_status-Keyed :
      (id : String) (status : SessionStatus) (db : Db)
      → Keyed (rows db)
      → Keyed (rows (set_status t id status db))
  set_status-Keyed id status db keyed a b m n e =
      let rows' = t.rows-update_many (by_id t id) (with_status status) db in
      let (x, i, p) = In-of_map (changed id status) a (rows db) (subst (In a) rows' m) in
      let (y, j, q) = In-of_map (changed id status) b (rows db) (subst (In b) rows' n) in
      let ids : x.id ≡ y.id =
        sym (ap (λ (z : InspectionSession). z.id) p ∙ changed_id id status x)
        ∙ e
        ∙ (ap (λ (z : InspectionSession). z.id) q ∙ changed_id id status y) in
      p ∙ ap (changed id status) (keyed x y i j ids) ∙ sym q

  -- The status of one session changes; it may where the session is pending or is cancelled.
  pub set_status-Kept :
      (id : String) (status : SessionStatus) (db : Db)
      → ((a : InspectionSession) → In a (rows db) → by_id t id a ≡ true → Later a.status status)
      → Kept (rows db) (rows (set_status t id status db))
  set_status-Kept id status db may a m = (
    changed id status a,
    (
      subst (In (changed id status a))
          (sym (t.rows-update_many (by_id t id) (with_status status) db))
          (In-map (changed id status) a (rows db) m),
      (changed_id id status a, later),
    ),
  )
    where
      later : Later a.status (changed id status a).status
      later = elim (Bool-cases (by_id t id a)) [
        | inl e ↦ rw e (may a m e)
        | inr e ↦ rw e (same refl)
      ]
