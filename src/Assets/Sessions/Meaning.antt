-- ===== src/Assets/Sessions/Meaning.antt =====
-- src/assets/inspections/inspections.service.ts: when a session is complete and when it expires, by its
-- route's points and the completed points.
use mathlib.Core.Path.{fun_ext}
use shield_api.Common.{
  ℕ, ◌≡◌, refl, ap, ap₂, ◌∙◌, inl, inr, String, Bool, false, not, ◌&&◌, ◌||◌, List, [], ◌∷◌, Option,
  none, some, get_or, map, filter, find, any, all, head?, includes, ltb, ◌==◌, Bool-cases,
  Option-cases, arith,
}
use shield_api.Assets.Sessions.{
  InspectionSession, RoutePoint, CompletedPoint, CycledAsset, all_completed, should_expire,
  is_in_session, is_overdue, inspection_date, first_completion,
}

module _ {A : Type 0} where
  any-filter : (p g : A → Bool) (xs : List A) → any p (filter g xs) ≡ any (λ x. g x && p x) xs
  any-filter p g [] = refl
  any-filter p g (x ∷ xs) = elim (Bool-cases (g x)) [
    | inl e ↦ rw e (ap (λ b. p x || b) (any-filter p g xs))
    | inr e ↦ rw e (any-filter p g xs)
  ]

  all-filter : (p g : A → Bool) (xs : List A) → all p (filter g xs) ≡ all (λ x. not (g x) || p x) xs
  all-filter p g [] = refl
  all-filter p g (x ∷ xs) = elim (Bool-cases (g x)) [
    | inl e ↦ rw e (ap (λ b. p x && b) (all-filter p g xs))
    | inr e ↦ rw e (all-filter p g xs)
  ]

  any-map :
      {B : Type 0} (p : B → Bool) (f : A → B) (xs : List A)
      → any p (map f xs) ≡ any (λ x. p (f x)) xs
  any-map p f [] = refl
  any-map p f (x ∷ xs) = ap (λ b. p (f x) || b) (any-map p f xs)

  head-filter : (g : A → Bool) (xs : List A) → head? (filter g xs) ≡ find g xs
  head-filter g [] = refl
  head-filter g (x ∷ xs) = elim (Bool-cases (g x)) [
    | inl e ↦ rw e refl
    | inr e ↦ rw e (head-filter g xs)
  ]

module _ (points : List RoutePoint) (completed : List CompletedPoint) where
  -- A completed point is of this point and of this session.
  abbrev pub is_done : String → RoutePoint → Bool
  is_done session_id p =
      any (λ c. c.inspection_route_point_id == p.id && c.inspection_session_id == session_id)
        completed

  -- Each point of the session's route is done in the session.
  abbrev pub route_is_done : InspectionSession → Bool
  route_is_done s =
      all (λ p. not (p.inspection_route_id == s.inspection_route_id) || is_done s.id p) points

  -- The first point of the asset, of any route, and its first completion, in any session.
  abbrev pub first_date : CycledAsset → Option ℕ
  first_date a = elim (find (λ p. p.asset_id == a.id) points) [
    | none ↦ none
    | some p ↦ elim (find (λ c. c.inspection_route_point_id == p.id) completed) [
      | none ↦ none
      | some c ↦ some c.created_on
    ]
  ]

  -- An asset with a cycle of its own and a point done in the session, whose first date is more than a
  -- cycle ago.
  abbrev pub is_stale : (ℕ → ℕ → ℕ) → ℕ → InspectionSession → CycledAsset → Bool
  is_stale sub_days now s a = elim a.inspection_cycle [
    | none ↦ false
    | some cycle ↦
        any (λ p. p.asset_id == a.id && is_done s.id p) points
        && elim (first_date a) [ none ↦ false | some date ↦ ltb date (sub_days now cycle) ]
  ]

  and_comm : (a b : Bool) → (a && b) ≡ (b && a)
  and_comm a b = ground arith

  done_lem :
      (session_id : String) (p : RoutePoint)
      → any
          (λ c. c.inspection_session_id == session_id)
          (filter (λ c. c.inspection_route_point_id == p.id) completed)
        ≡ is_done session_id p
  done_lem session_id p = any-filter _ _ completed

  pub all_completed_lem :
      (s : InspectionSession) → all_completed points completed s ≡ route_is_done s
  all_completed_lem s =
      all-filter
        (λ p.
          includes
            (map (λ c. c.inspection_route_point_id)
              (filter (λ c. c.inspection_session_id == s.id) completed))
            p.id)
        _ points
      ∙ ap (λ f. all f points)
          (fun_ext λ p.
            ap (λ b. not (p.inspection_route_id == s.inspection_route_id) || b)
              (any-map _ _ (filter (λ c. c.inspection_session_id == s.id) completed)
                ∙ any-filter _ _ completed
                ∙ ap (λ f. any f completed)
                    (fun_ext λ c.
                      and_comm (c.inspection_session_id == s.id)
                        (c.inspection_route_point_id == p.id))))

  first_date_lem : (a : CycledAsset) → inspection_date points completed a ≡ first_date a
  first_date_lem a =
      ap (λ o. elim (first_completion completed o) [ none ↦ none | some c ↦ some c.created_on ])
        (head-filter (λ p. p.asset_id == a.id) points)
      ∙ date_of (find (λ p. p.asset_id == a.id) points)
    where
      date_of :
          (o : Option RoutePoint)
          → (elim (first_completion completed o) [ none ↦ none | some c ↦ some c.created_on ])
            ≡ (elim o [
              | none ↦ none
              | some p ↦ elim (find (λ c. c.inspection_route_point_id == p.id) completed) [
                | none ↦ none
                | some c ↦ some c.created_on
              ]
            ])
      date_of none = refl
      date_of (some p) = rw (head-filter (λ c. c.inspection_route_point_id == p.id) completed) refl

  overdue_lem :
      (sub_days : ℕ → ℕ → ℕ) (now cycle : ℕ) (o : Option ℕ)
      → is_overdue sub_days now cycle o
        ≡ (elim o [ none ↦ false | some date ↦ ltb date (sub_days now cycle) ])
  overdue_lem sub_days now cycle none = refl
  overdue_lem sub_days now cycle (some date) = refl

  in_session_lem :
      (session_id : String) (a : CycledAsset)
      → any
          (λ p.
            any
              (λ c. c.inspection_session_id == session_id)
              (filter (λ c. c.inspection_route_point_id == p.id) completed))
          (filter (λ p. p.asset_id == a.id) points)
        ≡ any (λ p. p.asset_id == a.id && is_done session_id p) points
  in_session_lem session_id a =
      any-filter _ (λ p. p.asset_id == a.id) points
      ∙ ap (λ f. any f points)
          (fun_ext λ p. ap (λ b. p.asset_id == a.id && b) (done_lem session_id p))

  stale_lem :
      (sub_days : ℕ → ℕ → ℕ) (now : ℕ) (s : InspectionSession) (a : CycledAsset)
      → (is_in_session points completed s.id a
          && is_overdue sub_days now
              (get_or a.inspection_cycle s.default_inspection_cycle)
              (inspection_date points completed a))
        ≡ is_stale sub_days now s a
  stale_lem sub_days now s a = elim (Option-cases a.inspection_cycle) [
    | inl e ↦ rw e refl
    | inr (cycle, e) ↦ rw e (
        ap₂ ◌&&◌ (in_session_lem s.id a) (
          overdue_lem sub_days now cycle _
          ∙ ap (λ o. elim o [ none ↦ false | some date ↦ ltb date (sub_days now cycle) ])
              (first_date_lem a)))
  ]

  pub should_expire_lem :
      (sub_days : ℕ → ℕ → ℕ) (now : ℕ) (assets : List CycledAsset) (s : InspectionSession)
      → should_expire sub_days now assets points completed s ≡ any (is_stale sub_days now s) assets
  should_expire_lem sub_days now assets s =
      any-filter _ (is_in_session points completed s.id) assets
      ∙ ap (λ f. any f assets) (fun_ext (stale_lem sub_days now s))
