-- ===== src/Assets/Sessions/Tests.antt =====
-- The theorems on src/assets/inspections/inspections.service.ts at one route of two points.
use shield_api.Common.{
  ℕ, ◌-◌, ◌≡◌, refl, inl, inr, String, List, [], ◌∷◌, none, some, ok, list_table,
}
use shield_api.Assets.Sessions.{
  SessionStatus, pending, expired, cancelled, InspectionSession, RoutePoint, CompletedPoint,
  CycledAsset, with_status, Call, find_inspection_session, cancel_inspection_session,
  complete_route_point, run_call, run_calls,
}
use shield_api.Assets.Sessions.Statuses.{Keyed}
use shield_api.Assets.Sessions.Calls.{Keeps, run_calls-Keeps}
use shield_api.Assets.Sessions.Finding.{next_status, find_inspection_session_lem}

abbrev session : SessionStatus → InspectionSession
session status = record {
  id = "s1";
  status = status;
  inspection_route_id = "r1";
  default_inspection_cycle = 30;
}

abbrev point : String → String → RoutePoint
point id asset_id = record { id = id; inspection_route_id = "r1"; asset_id = asset_id }

abbrev points : List RoutePoint
points = point "p1" "a1" ∷ point "p2" "a2" ∷ []

abbrev assets : List CycledAsset
assets =
    record { id = "a1"; inspection_cycle = some 10 }
    ∷ record { id = "a2"; inspection_cycle = none }
    ∷ []

abbrev sub_days : ℕ → ℕ → ℕ
sub_days now days = now - days

abbrev sessions : List InspectionSession
sessions = session pending ∷ []

-- A second point completed in time, and then a look at the session.
abbrev calls : List Call
calls =
    Call.complete_point (some "s1") none "a1" "x" 30 100
    ∷ Call.find_session 105 "s1"
    ∷ Call.complete_point (some "s1") none "a2" "x" 30 106
    ∷ Call.find_session 107 "s1"
    ∷ Call.cancel "s1"
    ∷ []

abbrev done : String → ℕ → CompletedPoint
done id now = record {
  inspection_session_id = "s1";
  inspection_route_point_id = id;
  created_on = now;
}

calls_run :
    run_calls (list_table InspectionSession) sub_days assets points calls (sessions, [])
    ≡ (session cancelled ∷ [], done "p1" 100 ∷ done "p2" 106 ∷ [])
unfolding run_calls run_call find_inspection_session cancel_inspection_session complete_route_point
calls_run = refl

-- A cancelled session takes a completed point.
after_the_end :
    complete_route_point
      (list_table InspectionSession)
      points
      (some "s1")
      none
      "a1"
      "x"
      30
      100
      (session cancelled ∷ [], [])
    ≡ ok (session cancelled ∷ [], done "p1" 100 ∷ [])
unfolding complete_route_point
after_the_end = refl

-- A completion of an earlier session makes a new one expire, however recent its own is.
older_session :
    (find_inspection_session
      (list_table InspectionSession)
      sub_days
      assets
      points
      101
      (record (done "p1" 1) { inspection_session_id = "s0" } ∷ done "p1" 100 ∷ [])
      "s1"
      sessions).1
    ≡ ok (session expired)
unfolding find_inspection_session
older_session = refl

sessions-Keyed : Keyed sessions
sessions-Keyed a b (inl e) (inl f) same = cc
sessions-Keyed a b (inr nothing) n same = absurd nothing
sessions-Keyed a b (inl e) (inr nothing) same = absurd nothing

run_calls-Keeps_example :
    Keeps sessions
      (run_calls (list_table InspectionSession) sub_days assets points calls (sessions, [])).0
run_calls-Keeps_example =
    run_calls-Keeps (list_table InspectionSession) sub_days assets points calls (sessions, [])
      sessions-Keyed

find_inspection_session_example :
    (find_inspection_session
      (list_table InspectionSession)
      sub_days
      assets
      points
      105
      (done "p1" 100 ∷ [])
      "s1"
      sessions).1
    ≡ ok (
        with_status
          (next_status sub_days 105 assets points (done "p1" 100 ∷ []) (session pending))
          (session pending))
find_inspection_session_example =
    find_inspection_session_lem (list_table InspectionSession) sub_days assets points 105
      (done "p1" 100 ∷ []) (session pending) sessions sessions-Keyed (inl refl)
