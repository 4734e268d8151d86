-- ===== src/Journeys/Journey/Counts.antt =====
-- The journeys under way, counted by user and by station, and the crowd counts beside them.
use metroflow_ai_backend.Common.{
  ℕ, ◌+◌, ◌-◌, ◌≤◌, ◌≡◌, ◌≢◌, refl, Bool, true, false, some, List, [], ◌∷◌, ◌++◌, if◌then◌else◌,
  ◌==◌, arith, is_some, ℕ_discrete,
}
use metroflow_ai_backend.Common.Dict.{lookup-insert}
use metroflow_ai_backend.Journeys.Crowd.{
  Station, Delta, plus, minus, clamped, count_at, apply_live_state_delta, level_of,
  StationCrowdState,
}
use metroflow_ai_backend.Journeys.Journey.{
  Journey, Db, has_active_status, is_active_for, active_journey_for_user, stage_crowd_delta,
  stage_arrival, journey_by_id, close_by_id,
}

module _ {User Fare : Type 0} (dec : Discrete User) (fare_of : Station → Station → Fare) where
  abbrev pub one_if : Bool → ℕ
  one_if b = if b then 1 else 0

  -- How many active journeys a user has.
  abbrev pub active_of : User → List (Journey User Fare) → ℕ
  active_of user [] = 0
  active_of user (j ∷ js) = active_of user js + one_if (is_active_for dec fare_of user j)

  -- How many active journeys started at a station.
  abbrev pub active_from : ℕ → List (Journey User Fare) → ℕ
  active_from station [] = 0
  active_from station (j ∷ js) =
      active_from station js
      + (if has_active_status dec fare_of j then one_if (j.source_station_id == station) else 0)

  pub active_of-append_one :
      (user : User) (j : Journey User Fare) (js : List (Journey User Fare))
      → active_of user (js ++ j ∷ [])
        ≡ active_of user js + one_if (is_active_for dec fare_of user j)
  active_of-append_one user j [] = ground arith
  active_of-append_one user j (k ∷ js) = omega (arith, active_of-append_one user j js)

  pub active_from-append_one :
      (station : ℕ) (j : Journey User Fare) (js : List (Journey User Fare))
      → active_from station (js ++ j ∷ [])
        ≡ active_from station js
          + (if has_active_status dec fare_of j then one_if (j.source_station_id == station) else 0)
  active_from-append_one station j [] = omega arith
  active_from-append_one station j (k ∷ js) = omega (arith, active_from-append_one station j js)

  pub active_journey_none :
      (user : User) (js : List (Journey User Fare))
      → is_some (active_journey_for_user dec fare_of user js) ≡ false
      → active_of user js ≡ 0
  active_journey_none user [] h = refl
  active_journey_none user (j ∷ js) h = ground (arith, active_journey_none user js)

  pub active_of-close-le :
      (user : User) (id now : ℕ) (fare : Fare) (js : List (Journey User Fare))
      → active_of user (close_by_id dec fare_of id now fare js) ≤ active_of user js
  active_of-close-le user id now fare [] = omega arith
  active_of-close-le user id now fare (j ∷ js) =
      ground (arith, active_of-close-le user id now fare js)

  -- The journey that is closed was the first with its id, and counted once.
  pub active_from-close :
      (station id now : ℕ) (fare : Fare) (j : Journey User Fare) (js : List (Journey User Fare))
      → journey_by_id dec fare_of id js ≡ some j
      → has_active_status dec fare_of j ≡ true
      → active_from station (close_by_id dec fare_of id now fare js)
          + one_if (j.source_station_id == station)
        ≡ active_from station js
  active_from-close station id now fare j [] h active = ground arith
  active_from-close station id now fare j (k ∷ js) h active =
      ground (arith, h, active, active_from-close station id now fare j js)

  -- A change moves the count of its station, and of no other.
  pub count_at-stage_crowd_delta :
      (at : ℕ) (station : Station) (delta : Delta) (db : Db User Fare)
      → count_at at (stage_crowd_delta dec fare_of station delta db).states ≡ (
          if station.id == at then clamped (count_at at db.states) delta else count_at at db.states)
  unfolding stage_crowd_delta apply_live_state_delta
  count_at-stage_crowd_delta at station delta db =
      let count = clamped (count_at station.id db.states) delta in
      let row : StationCrowdState = record {
        current_count = count;
        crowd_level = level_of count station.capacity;
      } in
      ground (arith, lookup-insert ℕ_discrete station.id at row db.states)

  -- The two changes of an arrival.
  pub count_at-stage_arrival :
      (at : ℕ) (source destination : Station) (db : Db User Fare)
      → source.id ≢ destination.id
      → count_at at (stage_arrival dec fare_of source destination db).states
        ≡ (count_at at db.states - one_if (source.id == at)) + one_if (destination.id == at)
  unfolding stage_arrival
  count_at-stage_arrival at source destination db ne =
      let first = stage_crowd_delta dec fare_of destination (plus 1) db in
      let second = stage_crowd_delta dec fare_of source (minus 1) db in
      ground (
        arith,
        ne,
        count_at-stage_crowd_delta at source (minus 1) first,
        count_at-stage_crowd_delta at destination (plus 1) db,
        count_at-stage_crowd_delta at destination (plus 1) second,
        count_at-stage_crowd_delta at source (minus 1) db,
      )
