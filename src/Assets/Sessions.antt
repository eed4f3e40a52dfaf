-- ===== src/Assets/Sessions.antt =====
-- src/assets/inspections/inspections.service.ts: inspection sessions over the table of sessions and
-- the list of completed route points. The rows that row-level security shows are the tables here;
-- `subDays` of date-fns is an argument.
pub mod Statuses
pub mod Calls
pub mod Meaning
pub mod Finding
mod Tests
use shield_api.Common.{
  ℕ, String, Bool, true, false, not, ◌&&◌, List, [], ◌∷◌, ◌++◌, Option, none, some, map, filter,
  find, any, all, head?, includes, is_some, get_or, truthy?, ltb, if◌then◌else◌, ◌==◌, Result, ok,
  raise, Error, ◌>>=◌, Table,
}

-- InspectionSessionStatus
pub data SessionStatus : Type 0 where
  pending complete expired cancelled : SessionStatus

abbrev pub is_pending : SessionStatus → Bool
is_pending pending = true
is_pending _ = false

-- PENDING or EXPIRED
abbrev pub is_active : SessionStatus → Bool
is_active pending = true
is_active expired = true
is_active _ = false

-- Rows of InspectionSession, InspectionRoutePoint and CompletedInspectionRoutePoint, and what is read
-- of an asset.
pub record InspectionSession : Type 0 where
  pub id : String
  pub status : SessionStatus
  pub inspection_route_id : String
  pub default_inspection_cycle : ℕ

pub record RoutePoint : Type 0 where
  pub id : String
  pub inspection_route_id : String
  pub asset_id : String

pub record CompletedPoint : Type 0 where
  pub inspection_session_id : String
  pub inspection_route_point_id : String
  pub created_on : ℕ

pub record CycledAsset : Type 0 where
  pub id : String
  pub inspection_cycle : Option ℕ

abbrev pub points_of_route : List RoutePoint → String → List RoutePoint
points_of_route points route_id = filter (λ p. p.inspection_route_id == route_id) points

abbrev pub completed_point_ids : List CompletedPoint → String → List String
completed_point_ids completed session_id =
    map (λ c. c.inspection_route_point_id)
      (filter (λ c. c.inspection_session_id == session_id) completed)

-- Every point of the session's route is completed in the session.
abbrev pub all_completed : List RoutePoint → List CompletedPoint → InspectionSession → Bool
all_completed points completed s =
    all (λ p. includes (completed_point_ids completed s.id) p.id)
      (points_of_route points s.inspection_route_id)

abbrev pub points_of_asset : List RoutePoint → String → List RoutePoint
points_of_asset points asset_id = filter (λ p. p.asset_id == asset_id) points

abbrev pub completions_of_point : List CompletedPoint → String → List CompletedPoint
completions_of_point completed point_id =
    filter (λ c. c.inspection_route_point_id == point_id) completed

-- The `where` of the query of assets.
abbrev pub is_in_session : List RoutePoint → List CompletedPoint → String → CycledAsset → Bool
is_in_session points completed session_id a =
    is_some a.inspection_cycle
    && any
        (λ p.
          any (λ c. c.inspection_session_id == session_id) (completions_of_point completed p.id))
        (points_of_asset points a.id)

abbrev pub first_completion : List CompletedPoint → Option RoutePoint → Option CompletedPoint
first_completion completed none = none
first_completion completed (some p) = head? (completions_of_point completed p.id)

-- The date that is compared: the first completion of the asset's first point, of any session.
abbrev pub inspection_date : List RoutePoint → List CompletedPoint → CycledAsset → Option ℕ
inspection_date points completed a =
    elim (first_completion completed (head? (points_of_asset points a.id))) [
      | none ↦ none
      | some c ↦ some c.created_on
    ]

abbrev pub is_overdue : (ℕ → ℕ → ℕ) → ℕ → ℕ → Option ℕ → Bool
is_overdue sub_days now cycle none = false
is_overdue sub_days now cycle (some date) = ltb date (sub_days now cycle)

abbrev pub should_expire :
    (ℕ → ℕ → ℕ)
    → ℕ
    → List CycledAsset
    → List RoutePoint
    → List CompletedPoint
    → InspectionSession
    → Bool
should_expire sub_days now assets points completed s =
    any
      (λ a.
        is_overdue sub_days now (get_or a.inspection_cycle s.default_inspection_cycle)
          (inspection_date points completed a))
      (filter (is_in_session points completed s.id) assets)

abbrev pub with_status : SessionStatus → InspectionSession → InspectionSession
with_status status s = record s { status = status }

module _ (t : Table InspectionSession) where
  open t use {Db, find_first, find_many, create, update_many}

  abbrev pub by_id : String → InspectionSession → Bool
  by_id id s = s.id == id

  abbrev pub get_session : String → Error → Db → Db × Result InspectionSession
  get_session id error db =
      (db, elim (find_first (by_id id) db) [ none ↦ raise error | some s ↦ ok s ])

  abbrev pub set_status : String → SessionStatus → Db → Db
  set_status id status db = update_many (by_id id) (with_status status) db

  module _ (sub_days : ℕ → ℕ → ℕ) (assets : List CycledAsset) (points : List RoutePoint) where
    -- `findInspectionSession` once the session is found. The update comes with a second look at it.
    abbrev pub refresh :
        ℕ → List CompletedPoint → InspectionSession → Db → Db × Result InspectionSession
    refresh now completed s db =
        if not (is_pending s.status)
        then (db, ok s)
        else if all_completed points completed s
        then get_session s.id Error.plain (set_status s.id complete db)
        else if not (should_expire sub_days now assets points completed s)
        then (db, ok s)
        else get_session s.id Error.plain (set_status s.id expired db)

    abbrev refresh_found :
        ℕ → List CompletedPoint → Option InspectionSession → Db → Db × Result InspectionSession
    refresh_found now completed none db = (db, raise Error.not_found)
    refresh_found now completed (some s) db = refresh now completed s db

    unfoldable pub find_inspection_session :
        ℕ → List CompletedPoint → String → Db → Db × Result InspectionSession
    find_inspection_session now completed id db =
        refresh_found now completed (find_first (by_id id) db) db

  unfoldable pub cancel_inspection_session : String → Db → Db × Result InspectionSession
  cancel_inspection_session id db =
      if is_some (find_first (by_id id) db)
      then get_session id Error.plain (set_status id cancelled db)
      else (db, raise Error.plain)

  -- What `create` of an inspection does about a route: `session_id` and `route_id` are as they are
  -- given, `new_session_id` is what the database draws.
  abbrev pub session_of : Option String → Db → Result (Option InspectionSession)
  session_of session_id db =
      if not (truthy? session_id)
      then ok none
      else elim (find_first (by_id (get_or session_id "")) db) [
        | none ↦ raise Error.not_found
        | some s ↦ ok (some s)
      ]

  abbrev point_on : List RoutePoint → String → String → Option RoutePoint
  point_on points route_id asset_id =
      find (λ p. p.inspection_route_id == route_id && p.asset_id == asset_id) points

  abbrev or_point : Option RoutePoint → Option RoutePoint → Option RoutePoint
  or_point none q = q
  or_point (some p) q = some p

  abbrev point_of_session : List RoutePoint → Option InspectionSession → String → Option RoutePoint
  point_of_session points none asset_id = none
  point_of_session points (some s) asset_id = point_on points s.inspection_route_id asset_id

  abbrev pub current_route_point :
      List RoutePoint → Option InspectionSession → Option String → String → Option RoutePoint
  current_route_point points session route_id asset_id =
      or_point (point_of_session points session asset_id)
        (if truthy? route_id then point_on points (get_or route_id "") asset_id else none)

  abbrev new_session : String → ℕ → RoutePoint → InspectionSession
  new_session id cycle p = record {
    id = id;
    status = pending;
    inspection_route_id = p.inspection_route_id;
    default_inspection_cycle = cycle;
  }

  abbrev completion : String → RoutePoint → ℕ → CompletedPoint
  completion session_id p now = record {
    inspection_session_id = session_id;
    inspection_route_point_id = p.id;
    created_on = now;
  }

  abbrev pub connect_session :
      Option String
      → (new_session_id : String) (cycle now : ℕ) → Option RoutePoint
      → Db × List CompletedPoint
      → Result (Db × List CompletedPoint)
  connect_session session_id new_session_id cycle now none st = ok st
  connect_session session_id new_session_id cycle now (some p) (db, completed) =
      if truthy? session_id
      then ok (db, completed ++ completion (get_or session_id "") p now ∷ [])
      else if is_some (find_first (by_id new_session_id) db)
      then raise Error.plain
      else ok (
        create (new_session new_session_id cycle p) db,
        completed ++ completion new_session_id p now ∷ [],
      )

  unfoldable pub complete_route_point :
      List RoutePoint
      → (session_id route_id : Option String) (asset_id new_session_id : String) (cycle now : ℕ)
      → Db × List CompletedPoint
      → Result (Db × List CompletedPoint)
  complete_route_point points session_id route_id asset_id new_session_id cycle now st = do
    session ← session_of session_id st.0
    connect_session session_id new_session_id cycle now
        (current_route_point points session route_id asset_id) st

-- A call, with the time of the clock where it matters.
pub data Call : Type 0 where
  find_session : ℕ → String → Call
  cancel : String → Call
  complete_point :
      (session_id route_id : Option String) (asset_id new_session_id : String) (cycle now : ℕ)
      → Call

abbrev or_unchanged : {S : Type 0} → S → Result S → S
or_unchanged st (ok st') = st'
or_unchanged st (raise e) = st

module _ (t : Table InspectionSession) where
  abbrev pub State : Type 0
  State = t.Db × List CompletedPoint

module _ (t : Table InspectionSession) (sub_days : ℕ → ℕ → ℕ) (assets : List CycledAsset)
    (points : List RoutePoint) where
  -- The tables after a call, returning or not.
  unfoldable pub run_call : Call → State t → State t
  unfolding find_inspection_session cancel_inspection_session complete_route_point
  run_call (find_session now id) (db, completed) =
      ((find_inspection_session t sub_days assets points now completed id db).0, completed)
  run_call (cancel id) (db, completed) = ((cancel_inspection_session t id db).0, completed)
  run_call (complete_point session_id route_id asset_id new_session_id cycle now) st =
      or_unchanged st
        (complete_route_point t points session_id route_id asset_id new_session_id cycle now st)

  unfoldable pub run_calls : List Call → State t → State t
  unfolding run_call
  run_calls [] st = st
  run_calls (c ∷ cs) st = run_calls cs (run_call c st)
