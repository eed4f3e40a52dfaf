-- ===== src/Assets/Sessions/Finding.antt =====
-- src/assets/inspections/inspections.service.ts: what `findInspectionSession` returns.
use shield_api.Common.{
  any, ℕ, ◌≡◌, refl, sym, ap, ◌∙◌, subst, inl, inr, String, true, false, List, In, In-map,
  In-of_map, if◌then◌else◌, eq_iff, eq_refl, map, Bool-cases, Option-cases, ok, Error, Table,
}
use shield_api.Assets.Sessions.{
  SessionStatus, complete, expired, is_pending, InspectionSession, RoutePoint, CompletedPoint,
  CycledAsset, all_completed, should_expire, with_status, by_id, get_session, set_status, refresh,
  find_inspection_session,
}
use shield_api.Assets.Sessions.Meaning.{
  route_is_done, is_stale, all_completed_lem, should_expire_lem,
}
use shield_api.Assets.Sessions.Statuses.{Keyed}

-- The status that a session has once it is looked at.
abbrev pub next_status :
    (ℕ → ℕ → ℕ)
    → ℕ
    → List CycledAsset
    → List RoutePoint
    → List CompletedPoint
    → InspectionSession
    → SessionStatus
next_status sub_days now assets points completed s =
    if is_pending s.status
    then if route_is_done points completed s
      then complete
      else if any (is_stale points completed sub_days now s) assets
      then expired
      else s.status
    else s.status

module _ (t : Table InspectionSession) where
  open t use {Db, rows, find_first, update_many}

  abbrev changed : String → SessionStatus → InspectionSession → InspectionSession
  changed id status a = if by_id t id a then with_status status a else a

  -- Where ids are unique, the second look at a session finds it with its new status.
  get-set_status :
      (s : InspectionSession) (status : SessionStatus) (db : Db)
      → Keyed (rows db)
      → In s (rows db)
      → (get_session t s.id Error.plain (set_status t s.id status db)).1 ≡ ok (with_status status s)
  get-set_status s status db keyed m =
      elim (Option-cases (find_first (by_id t s.id) (set_status t s.id status db))) [
        | inl e ↦
            let updated : changed s.id status s ≡ with_status status s = rw (eq_refl s.id) refl in
            let there =
              subst (In (changed s.id status s)) (sym rows')
                (In-map (changed s.id status) s (rows db) m) in
            let miss =
              t.find_first_none (by_id t s.id) (set_status t s.id status db) (changed s.id status s)
                e there in
            absurd (missed (subst (λ z. by_id t s.id z ≡ false) updated miss))
        | inr (b, e) ↦
            let (n, q) = t.find_first_sound (by_id t s.id) (set_status t s.id status db) b e in
            let (x, i, p) = In-of_map (changed s.id status) b (rows db) (subst (In b) rows' n) in
            rw e (ap ok (p ∙ is_changed x i (subst (λ z. by_id t s.id z ≡ true) p q)))
      ]
    where
      rows' : rows (set_status t s.id status db) ≡ map (changed s.id status) (rows db)
      rows' = t.rows-update_many (by_id t s.id) (with_status status) db

      missed : by_id t s.id (with_status status s) ≡ false → ⊥
      missed h = let hit = eq_refl s.id in cc

      is_changed :
          (x : InspectionSession)
          → In x (rows db)
          → by_id t s.id (changed s.id status x) ≡ true
          → changed s.id status x ≡ with_status status s
      is_changed x i q = elim (Bool-cases (by_id t s.id x)) [
        | inl f ↦ rw f (ap (with_status status) (keyed x s i m ((eq_iff x.id s.id).0 f)))
        | inr f ↦ absurd (differs (rw f at q) f)
      ]
        where
          differs : by_id t s.id x ≡ true → by_id t s.id x ≡ false → ⊥
          differs h k = cc

  module _ (sub_days : ℕ → ℕ → ℕ) (assets : List CycledAsset) (points : List RoutePoint) where
    refresh_lem :
        (now : ℕ) (completed : List CompletedPoint) (s : InspectionSession) (db : Db)
        → Keyed (rows db)
        → In s (rows db)
        → (refresh t sub_days assets points now completed s db).1
          ≡ ok (with_status (next_status sub_days now assets points completed s) s)
    refresh_lem now completed s db keyed m = elim (Bool-cases (is_pending s.status)) [
      | inr e ↦ rw e refl
      | inl e ↦ elim (Bool-cases (all_completed points completed s)) [
        | inl f ↦
            rw (e, sym (all_completed_lem points completed s), f)
              (get-set_status s complete db keyed m)
        | inr f ↦ elim (Bool-cases (should_expire sub_days now assets points completed s)) [
          | inl g ↦
              rw
                (
                  e,
                  sym (all_completed_lem points completed s),
                  f,
                  sym (should_expire_lem points completed sub_days now assets s),
                  g,
                )
                (get-set_status s expired db keyed m)
          | inr g ↦
              rw
                (
                  e,
                  sym (all_completed_lem points completed s),
                  f,
                  sym (should_expire_lem points completed sub_days now assets s),
                  g,
                )
                refl
        ]
      ]
    ]

    -- `findInspectionSession` of a session that is there returns it, where ids of sessions are unique,
    -- with the status COMPLETE if it was pending and each point of its route has a completed point of
    -- this session; else EXPIRED if it was pending and there is an asset with a cycle of its own, with
    -- a point of any route completed in this session, for which the first completion of the first of
    -- its points, of any route and in any session, is more than the cycle ago; else with its status.
    pub find_inspection_session_lem :
        (now : ℕ) (completed : List CompletedPoint) (s : InspectionSession) (db : Db)
        → Keyed (rows db)
        → In s (rows db)
        → (find_inspection_session t sub_days assets points now completed s.id db).1
          ≡ ok (with_status (next_status sub_days now assets points completed s) s)
    unfolding find_inspection_session
    find_inspection_session_lem now completed s db keyed m =
        elim (Option-cases (find_first (by_id t s.id) db)) [
          | inl e ↦
              let miss = t.find_first_none (by_id t s.id) db s e m in
              let hit = eq_refl s.id in absurd (cc)
          | inr (x, e) ↦
              let (n, q) = t.find_first_sound (by_id t s.id) db x e in
              let one : x ≡ s = keyed x s n m ((eq_iff x.id s.id).0 q) in
              rw e (
                subst
                  (λ z.
                    (refresh t sub_days assets points now completed z db).1
                    ≡ ok (with_status (next_status sub_days now assets points completed s) s))
                  (sym one) (refresh_lem now completed s db keyed m))
        ]
