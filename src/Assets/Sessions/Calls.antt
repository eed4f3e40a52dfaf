-- ===== src/Assets/Sessions/Calls.antt =====
-- src/assets/inspections/inspections.service.ts: what a sequence of calls does to the sessions.
use shield_api.Common.{
  ℕ, ◌≡◌, refl, sym, ap, ◌∙◌, subst, inl, inr, String, true, List, [], ◌∷◌, ◌++◌, Option, none,
  some, is_some, truthy?, In, In-append_left, In-of_append, eq_iff, Bool-cases, Option-cases,
  Result, Result-cases, ok-injective, >>=-eq-ok, ok, raise, Error, Table,
}
use shield_api.Assets.Sessions.{
  SessionStatus, complete, expired, cancelled, is_pending, InspectionSession, RoutePoint,
  CompletedPoint, CycledAsset, all_completed, should_expire, by_id, set_status, refresh,
  find_inspection_session, cancel_inspection_session, session_of, connect_session,
  current_route_point, complete_route_point, Call, find_session, cancel, complete_point, State,
  run_call, run_calls,
}
use shield_api.Assets.Sessions.Statuses.{
  same, from_pending, to_cancelled, pending_only, Keyed, Kept, Kept-refl, Kept-trans,
  set_status-Keyed, set_status-Kept,
}

-- Ids stay unique, and every session is kept.
abbrev pub Keeps : List InspectionSession → List InspectionSession → Type 0
Keeps rows rows' = Keyed rows' × Kept rows rows'

module _ (t : Table InspectionSession) where
  open t use {Db, rows, find_first, create, update_many}

  unchanged : (db : Db) → Keyed (rows db) → Keeps (rows db) (rows db)
  unchanged db keyed = (keyed, Kept-refl (rows db))

  set_pending-Keeps :
      (s : InspectionSession) (status : SessionStatus) (db : Db)
      → Keyed (rows db)
      → In s (rows db)
      → is_pending s.status ≡ true
      → Keeps (rows db) (rows (set_status t s.id status db))
  set_pending-Keeps s status db keyed m e = (
    set_status-Keyed t s.id status db keyed,
    set_status-Kept t s.id status db (λ a i q.
        let one = keyed a s i m ((eq_iff a.id s.id).0 q) in
        from_pending (ap (λ (z : InspectionSession). z.status) one ∙ pending_only s.status e)),
  )

  cancel-Keeps :
      (id : String) (db : Db)
      → Keyed (rows db)
      → Keeps (rows db) (rows (cancel_inspection_session t id db).0)
  unfolding cancel_inspection_session
  cancel-Keeps id db keyed = elim (Bool-cases (is_some (find_first (by_id t id) db))) [
    | inr e ↦ rw e (unchanged db keyed)
    | inl e ↦ rw e (
      set_status-Keyed t id cancelled db keyed,
      set_status-Kept t id cancelled db (λ a i q. to_cancelled refl),
    )
  ]

  module _ (sub_days : ℕ → ℕ → ℕ) (assets : List CycledAsset) (points : List RoutePoint) where
    refresh-Keeps :
        (now : ℕ) (completed : List CompletedPoint) (s : InspectionSession) (db : Db)
        → Keyed (rows db)
        → In s (rows db)
        → Keeps (rows db) (rows (refresh t sub_days assets points now completed s db).0)
    refresh-Keeps now completed s db keyed m = elim (Bool-cases (is_pending s.status)) [
      | inr e ↦ rw e (unchanged db keyed)
      | inl e ↦ elim (Bool-cases (all_completed points completed s)) [
        | inl f ↦ rw (e, f) (set_pending-Keeps s complete db keyed m e)
        | inr f ↦ elim (Bool-cases (should_expire sub_days now assets points completed s)) [
          | inl g ↦ rw (e, f, g) (set_pending-Keeps s expired db keyed m e)
          | inr g ↦ rw (e, f, g) (unchanged db keyed)
        ]
      ]
    ]

    find-Keeps :
        (now : ℕ) (completed : List CompletedPoint) (id : String) (db : Db)
        → Keyed (rows db)
        → Keeps
            (rows db)
            (rows (find_inspection_session t sub_days assets points now completed id db).0)
    unfolding find_inspection_session
    find-Keeps now completed id db keyed = elim (Option-cases (find_first (by_id t id) db)) [
      | inl e ↦ rw e (unchanged db keyed)
      | inr (s, e) ↦
          let (m, q) = t.find_first_sound (by_id t id) db s e in
          rw e (refresh-Keeps now completed s db keyed m)
    ]

  created-Keeps :
      (s : InspectionSession) (db : Db)
      → Keyed (rows db)
      → find_first (by_id t s.id) db ≡ none
      → Keeps (rows db) (rows db ++ s ∷ [])
  created-Keeps s db keyed e = (
    λ a b m n same_id. elim (In-of_append a (rows db) _ m) [
      | inl old ↦ elim (In-of_append b (rows db) _ n) [
        | inl old' ↦ keyed a b old old' same_id
        | inr (inl new') ↦
            absurd (fresh a old (same_id ∙ ap (λ (z : InspectionSession). z.id) new'))
        | inr (inr nothing) ↦ absurd nothing
      ]
      | inr (inl new) ↦ elim (In-of_append b (rows db) _ n) [
        | inl old' ↦ absurd (fresh b old' (sym same_id ∙ ap (λ (z : InspectionSession). z.id) new))
        | inr (inl new') ↦ new ∙ sym new'
        | inr (inr nothing) ↦ absurd nothing
      ]
      | inr (inr nothing) ↦ absurd nothing
    ],
    λ a m. (a, (In-append_left a (rows db) (s ∷ []) m, (refl, same refl))),
  )
    where
      fresh : (a : InspectionSession) → In a (rows db) → a.id ≡ s.id → ⊥
      fresh a m f =
          let miss = t.find_first_none (by_id t s.id) db a e m in
          let hit = (eq_iff a.id s.id).1 f in cc

  connect-Keeps :
      (session_id : Option String) (new_session_id : String) (cycle now : ℕ) (p : Option RoutePoint)
      (st st' : Db × List CompletedPoint)
      → Keyed (rows st.0)
      → connect_session t session_id new_session_id cycle now p st ≡ ok st'
      → Keeps (rows st.0) (rows st'.0)
  connect-Keeps session_id new_session_id cycle now none st st' keyed e =
      subst (λ z. Keeps (rows st.0) (rows z.0)) (ok-injective e) (unchanged st.0 keyed)
  connect-Keeps session_id new_session_id cycle now (some p) (db, completed) st' keyed e =
      elim (Bool-cases (truthy? session_id)) [
        | inl f ↦
            subst (λ z. Keeps (rows db) (rows z.0)) (ok-injective (rw f at e)) (unchanged db keyed)
        | inr f ↦ elim (Option-cases (find_first (by_id t new_session_id) db)) [
          | inr (s, g) ↦ absurd (never (rw (f, g) at e))
          | inl g ↦
              subst (λ z. Keeps (rows db) (rows z.0)) (ok-injective (rw (f, g) at e))
                (subst (Keeps (rows db)) (sym (t.rows-create _ db)) (created-Keeps _ db keyed g))
        ]
      ]
    where
      never : ◌≡◌ {A = Result (Db × List CompletedPoint)} (raise Error.plain) (ok st') → ⊥
      never h = cc

  complete-Keeps :
      (points : List RoutePoint) (session_id route_id : Option String)
      (asset_id new_session_id : String) (cycle now : ℕ) (st st' : Db × List CompletedPoint)
      → Keyed (rows st.0)
      → complete_route_point t points session_id route_id asset_id new_session_id cycle now st
        ≡ ok st'
      → Keeps (rows st.0) (rows st'.0)
  unfolding complete_route_point
  complete-Keeps points session_id route_id asset_id new_session_id cycle now st st' keyed e =
      let (session, f, g) = >>=-eq-ok (session_of t session_id st.0) _ e in
      connect-Keeps session_id new_session_id cycle now
        (current_route_point t points session route_id asset_id) st st' keyed g

module _ (t : Table InspectionSession) (sub_days : ℕ → ℕ → ℕ) (assets : List CycledAsset)
    (points : List RoutePoint) where
  abbrev sessions : State t → List InspectionSession
  sessions st = t.rows st.0

  run_call-Keeps :
      (c : Call) (st : State t)
      → Keyed (sessions st)
      → Keeps (sessions st) (sessions (run_call t sub_days assets points c st))
  unfolding run_call
  run_call-Keeps (find_session now id) (db, completed) keyed =
      find-Keeps t sub_days assets points now completed id db keyed
  run_call-Keeps (cancel id) (db, completed) keyed = cancel-Keeps t id db keyed
  run_call-Keeps (complete_point session_id route_id asset_id new_session_id cycle now) st keyed =
      elim (Result-cases
        (complete_route_point t points session_id route_id asset_id new_session_id cycle now st)) [
          | inl (st', e) ↦ rw e (
              complete-Keeps t points session_id route_id asset_id new_session_id cycle now st st'
                keyed e)
          | inr (error, e) ↦ rw e (unchanged t st.0 keyed)
        ]

  -- Over any sequence of calls, returning or not, no session is lost, ids stay unique, and a session
  -- that is no longer pending keeps its status or is cancelled; one that is cancelled stays so.
  pub run_calls-Keeps :
      (cs : List Call) (st : State t)
      → Keyed (sessions st)
      → Keeps (sessions st) (sessions (run_calls t sub_days assets points cs st))
  unfolding run_calls
  run_calls-Keeps [] st keyed = unchanged t st.0 keyed
  run_calls-Keeps (c ∷ cs) st keyed =
      let (keyed', kept) = run_call-Keeps c st keyed in
      let (keyed'', kept') = run_calls-Keeps cs (run_call t sub_days assets points c st) keyed' in
      (keyed'', Kept-trans _ _ _ kept kept')
