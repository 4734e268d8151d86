-- ===== src/Journeys/Journey.antt =====
-- app/services/journey_service.py over the tables that it uses. A request reads the tables as they
-- are when it starts, and commits to them as they are when it ends.
pub mod Counts
pub mod Requests
pub mod History
pub mod Races
use metroflow_ai_backend.Common.{
  ℕ, ◌+◌, Bool, true, false, ◌&&◌, ◌||◌, not, Option, none, some, List, [], ◌∷◌, ◌++◌, ltb, leb,
  if◌then◌else◌, ◌==◌, ite, is_some, ℕ_discrete,
}
use metroflow_ai_backend.Common.Dict.{Dict, lookup, insert}
use metroflow_ai_backend.Journeys.Crowd.{
  CrowdLevel, Station, CrowdStates, CrowdLog, Delta, plus, minus, apply_live_state_delta,
}

pub data JourneyStatus : Type 0 where
  active completed cancelled : JourneyStatus

-- A row of `journeys`.
pub record Journey (User Fare : Type 0) : Type 0 where
  pub id : ℕ
  pub user_id : User
  pub source_station_id : ℕ
  pub destination_station_id : ℕ
  pub checkin_time : ℕ
  pub checkout_time : Option ℕ
  pub fare : Option Fare
  pub status : JourneyStatus

-- The tables, and the next value of the journeys' sequence.
pub record Db (User Fare : Type 0) : Type 0 where
  pub stations : Dict ℕ Station
  pub journeys : List (Journey User Fare)
  pub states : CrowdStates
  pub logs : List CrowdLog
  pub next_id : ℕ

-- The errors of the two requests, by their detail; `server_error` is an exception in the code.
pub data Failure : Type 0 where
  station_not_found stations_same already_active journey_not_found not_active server_error : Failure

-- `HTTPException.status_code`
abbrev pub status_code : Failure → ℕ
status_code station_not_found = 404
status_code stations_same = 400
status_code already_active = 400
status_code journey_not_found = 404
status_code not_active = 400
status_code server_error = 500

pub data Result (A : Type 0) : Type 0 where
  ok : A → Result A
  failure : Failure → Result A

module _ {User Fare : Type 0} (dec : Discrete User) (fare_of : Station → Station → Fare) where
  abbrev pub has_active_status : Journey User Fare → Bool
  has_active_status j = elim j.status [ active ↦ true | completed ↦ false | cancelled ↦ false ]

  abbrev pub is_active_for : User → Journey User Fare → Bool
  is_active_for user j = ite (dec j.user_id user) (has_active_status j) false

  -- `active_journey_for_user`: the latest check-in of the active ones.
  abbrev pub active_journey_for_user : User → List (Journey User Fare) → Option (Journey User Fare)
  active_journey_for_user user [] = none
  active_journey_for_user user (j ∷ js) =
      let rest = active_journey_for_user user js in
      if is_active_for user j
      then (elim rest [
        | none ↦ some j
        | some k ↦ if leb k.checkin_time j.checkin_time then some j else some k
      ])
      else rest

  -- `_stage_crowd_delta`
  unfoldable pub stage_crowd_delta : Station → Delta → Db User Fare → Db User Fare
  stage_crowd_delta station delta db =
      let (count, level, states) = apply_live_state_delta station delta db.states in
      record db {
        states = states;
        logs =
            db.logs
            ++ (record { station_id = station.id; log_count = count; log_level = level }) ∷ [];
      }

  -- The row that `check_in` adds.
  abbrev pub opened : ℕ → User → ℕ → ℕ → ℕ → Journey User Fare
  opened id user source destination now = record {
    id = id;
    user_id = user;
    source_station_id = source;
    destination_station_id = destination;
    checkin_time = now;
    checkout_time = none;
    fare = none;
    status = active;
  }

  -- `commit`: the index `ux_journeys_one_active_per_user` refuses a second active journey.
  unfoldable pub commit_check_in :
      ℕ → User → Station → Station → Db User Fare → Result (Journey User Fare) × Db User Fare
  unfolding stage_crowd_delta
  commit_check_in now user source destination db =
      if is_some (active_journey_for_user user db.journeys)
      then (failure already_active, db)
      else (let journey = opened db.next_id user source.id destination.id now in
          let staged = stage_crowd_delta source (plus 1) db in
          (
            ok journey,
            record staged { journeys = db.journeys ++ journey ∷ []; next_id = db.next_id + 1 },
          ))

  -- `check_in`, with the tables that it read.
  unfoldable pub check_in :
      ℕ → User → ℕ → ℕ → Db User Fare → Db User Fare → Result (Journey User Fare) × Db User Fare
  check_in now user source_id destination_id read db =
      elim (lookup ℕ_discrete source_id read.stations) [
        | none ↦ (failure station_not_found, db)
        | some source ↦ elim (lookup ℕ_discrete destination_id read.stations) [
          | none ↦ (failure station_not_found, db)
          | some destination ↦
              if source_id == destination_id
              then (failure stations_same, db)
              else if is_some (active_journey_for_user user read.journeys)
              then (failure already_active, db)
              else commit_check_in now user source destination db
        ]
      ]

  abbrev pub journey_by_id : ℕ → List (Journey User Fare) → Option (Journey User Fare)
  journey_by_id id [] = none
  journey_by_id id (j ∷ js) = if j.id == id then some j else journey_by_id id js

  -- The row that `check_out` leaves.
  abbrev pub closed : ℕ → Fare → Journey User Fare → Journey User Fare
  closed now fare j = record j { checkout_time = some now; fare = some fare; status = completed }

  abbrev pub close_by_id : ℕ → ℕ → Fare → List (Journey User Fare) → List (Journey User Fare)
  close_by_id id now fare [] = []
  close_by_id id now fare (j ∷ js) =
      if j.id == id then closed now fare j ∷ js else j ∷ close_by_id id now fare js

  -- The two changes of a journey's end, by the order of the stations' ids.
  unfoldable pub stage_arrival : Station → Station → Db User Fare → Db User Fare
  unfolding stage_crowd_delta
  stage_arrival source destination db =
      if ltb destination.id source.id
      then stage_crowd_delta source (minus 1) (stage_crowd_delta destination (plus 1) db)
      else stage_crowd_delta destination (plus 1) (stage_crowd_delta source (minus 1) db)

  -- `check_out`. The row of the journey is locked, so it reads what it commits to.
  unfoldable pub check_out : ℕ → User → ℕ → Db User Fare → Result (Journey User Fare) × Db User Fare
  check_out now user id db = elim (journey_by_id id db.journeys) [
    | none ↦ (failure journey_not_found, db)
    | some j ↦
        if not (ite (dec j.user_id user) true false)
        then (failure journey_not_found, db)
        else if not (has_active_status j)
        then (failure not_active, db)
        else elim (lookup ℕ_discrete j.source_station_id db.stations) [
          | none ↦ (failure server_error, db)
          | some source ↦ elim (lookup ℕ_discrete j.destination_station_id db.stations) [
            | none ↦ (failure server_error, db)
            | some destination ↦
                let fare = fare_of source destination in
                let staged = stage_arrival source destination db in
                (
                  ok (closed now fare j),
                  record staged { journeys = close_by_id id now fare db.journeys },
                )
          ]
        ]
  ]
