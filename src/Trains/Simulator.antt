-- ===== src/Trains/Simulator.antt =====
-- app/simulator/train_simulator.py: the ticks that move the trains along their routes, to and fro.
-- Progress and speed are floating-point numbers: their arithmetic is a parameter.
pub mod Running
mod Tests
use metroflow_ai_backend.Common.{
  ℕ, zero, suc, ◌+◌, ◌-◌, ◌≤◌, ◌<◌, Bool, true, false, ◌&&◌, ◌||◌, not, Option, none, some, List,
  [], ◌∷◌, ◌++◌, leb, ltb, if◌then◌else◌, ◌==◌, ite, length, ℕ_discrete, Text, ℤ, pos, negsuc,
}
use metroflow_ai_backend.Common.Dict.{Dict, lookup, insert}
use metroflow_ai_backend.Trains.Tracking.{
  Direction, forth, back, segment_index_for, segment_at, advance,
}

-- `speed_factor_for`, with none where it divides by zero; `progress + (tick_seconds / segment) *
-- speed_factor`; the tests of a progress; `eta_seconds_for`.
pub record Motor (Ratio Speed : Type 0) : Type 0 where
  pub at_rest : Ratio
  pub speed_factor_for : ℤ → Option Speed
  pub forward : Ratio → ℕ → ℕ → Speed → Ratio
  pub is_over : Ratio → Bool
  pub is_at_rest : Ratio → Bool
  pub eta_seconds_for : Ratio → ℕ → Speed → ℤ

pub data LocationStatus : Type 0 where
  at_station in_transit : LocationStatus

-- A row of `train_locations`, by its train.
pub record TrainLocation (Ratio : Type 0) : Type 0 where
  pub station_id : ℕ
  pub next_station_id : Option ℕ
  pub progress_ratio : Ratio
  pub status : LocationStatus

-- An entry of `_train_state`.
pub record Motion : Type 0 where
  pub index : ℕ
  pub direction : Direction

-- What `build_routes` gives for a train.
pub record Line : Type 0 where
  pub train_id : ℕ
  pub route : List ℕ
  pub segments : List ℕ
  pub delay_at : ℕ → ℤ

-- An entry of `updates`, without the names of the train and the stations, which are looked up.
pub record TrainUpdate (Ratio : Type 0) : Type 0 where
  pub train : ℕ
  pub from_station_id : ℕ
  pub to_station_id : ℕ
  pub progress : Ratio
  pub delay_minutes : ℤ
  pub is_delayed : Bool
  pub eta_seconds : ℤ
  pub segment_duration_seconds : ℕ
  pub heading : Direction

-- `_train_state`, the rows of the session, the updates so far, and whether an exception ended the tick.
pub record Tick (Ratio : Type 0) : Type 0 where
  pub motions : Dict ℕ Motion
  pub locations : Dict ℕ (TrainLocation Ratio)
  pub updates : List (TrainUpdate Ratio)
  pub has_failed : Bool

abbrev pub station_at : ℕ → List ℕ → Option ℕ
station_at i [] = none
station_at zero (s ∷ route) = some s
station_at (suc i) (s ∷ route) = station_at i route

-- `route.index(station)`, if it is there
abbrev pub index_of : ℕ → List ℕ → Option ℕ
index_of station [] = none
index_of station (s ∷ route) =
    let later = index_of station route in
    ite (ℕ_discrete s station) (some 0) (elim later [ none ↦ none | some i ↦ some (suc i) ])

-- The index after a segment, and the direction: a train turns at the ends.
abbrev pub arrive : ℕ → Motion → Motion
arrive n m =
    let index : ℕ = elim m.direction [ forth ↦ m.index + 1 | back ↦ m.index - 1 ] in
    if leb (n - 1) index
    then record { index = n - 1; direction = back }
    else if index == 0
    then record { index = 0; direction = forth }
    else record m { index = index }

abbrev pub initial_motion : Motion
initial_motion = record { index = 0; direction = forth }

abbrev pub motion_of : ℕ → Dict ℕ Motion → Motion
motion_of train motions = elim (lookup ℕ_discrete train motions) [
  | none ↦ initial_motion
  | some m ↦ m
]

-- `get_direction`
abbrev pub get_direction : ℕ → Dict ℕ Motion → Direction
get_direction train motions = (motion_of train motions).direction

module _ {Ratio Speed : Type 0} (motor : Motor Ratio Speed) where
  abbrev pub fail : Tick Ratio → Tick Ratio
  fail t = record t { has_failed = true }

  -- From the assignments to `loc` on, for a motion and a progress.
  abbrev pub report : Line → Motion → Ratio → Tick Ratio → Tick Ratio
  report line m progress t =
      let seg_index = segment_index_for m.index m.direction (length line.segments) in
      let segment_duration = segment_at seg_index line.segments in
      elim (station_at m.index line.route) [
        | none ↦ fail t
        | some from_station ↦
            elim (station_at (advance (length line.route) m.direction m.index) line.route) [
              | none ↦ fail t
              | some to_station ↦
                  let placed : Tick Ratio = record t {
                    locations =
                        insert ℕ_discrete line.train_id
                          (record {
                            station_id = from_station;
                            next_station_id = some to_station;
                            progress_ratio = progress;
                            status =
                                if motor.is_at_rest progress && (from_station == to_station)
                                then at_station
                                else in_transit;
                          })
                          t.locations;
                  } in
                  let delay : ℤ = line.delay_at from_station in
                  elim (motor.speed_factor_for delay) [
                    | none ↦ fail placed
                    | some speed ↦ record placed {
                      updates =
                          placed.updates
                          ++ (record {
                            train = line.train_id;
                            from_station_id = from_station;
                            to_station_id = to_station;
                            progress = progress;
                            delay_minutes = delay;
                            is_delayed = elim delay [ pos n ↦ ltb 0 n | negsuc n ↦ false ];
                            eta_seconds = motor.eta_seconds_for progress segment_duration speed;
                            segment_duration_seconds = segment_duration;
                            heading = m.direction;
                          })
                            ∷ [];
                    }
                  ]
            ]
      ]

  -- The progress of a tick, and, where it is over, the next segment.
  abbrev pub move : Line → Motion → Ratio → Tick Ratio → Tick Ratio
  move line m progress t =
      let next = arrive (length line.route) m in
      if motor.is_over progress
      then report line next motor.at_rest
          (record t { motions = insert ℕ_discrete line.train_id next t.motions })
      else report line m progress t

  -- The body of the loop, for a train that has a route and a location.
  abbrev pub track_location : ℕ → Line → Motion → TrainLocation Ratio → Tick Ratio → Tick Ratio
  track_location tick_seconds line m loc t =
      let at : Tick Ratio = record t { motions = insert ℕ_discrete line.train_id m t.motions } in
      let seg_index = segment_index_for m.index m.direction (length line.segments) in
      elim (station_at m.index line.route) [
        | none ↦ fail at
        | some station ↦ elim (motor.speed_factor_for (line.delay_at station)) [
          | none ↦ fail at
          | some speed ↦
              let segment = segment_at seg_index line.segments in
              move line m (motor.forward loc.progress_ratio tick_seconds segment speed) at
        ]
      ]

  -- The index of a train's location, if it is on the route.
  abbrev pub placed_motion : Line → TrainLocation Ratio → Motion → Motion
  placed_motion line loc m = elim (index_of loc.station_id line.route) [
    | none ↦ m
    | some i ↦ record m { index = i }
  ]

  -- The loop's body for one train.
  unfoldable pub track_train : ℕ → Line → Tick Ratio → Tick Ratio
  track_train tick_seconds line t =
      let m = motion_of line.train_id t.motions in
      if ltb (length line.route) 2 || (length line.segments == 0)
      then t
      else elim (lookup ℕ_discrete line.train_id t.locations) [
        | none ↦ record t { motions = insert ℕ_discrete line.train_id m t.motions }
        | some loc ↦ track_location tick_seconds line (placed_motion line loc m) loc t
      ]

  -- The trains of a tick; an exception leaves the rest as they are.
  abbrev pub track_trains : ℕ → List Line → Tick Ratio → Tick Ratio
  track_trains tick_seconds [] t = t
  track_trains tick_seconds (line ∷ lines) t =
      let tracked = track_train tick_seconds line t in
      let rest = track_trains tick_seconds lines tracked in
      if tracked.has_failed then tracked else rest

  -- `_locations_for`: a train without a row gets one at the first station of its route.
  abbrev pub locations_for : List Line → Dict ℕ (TrainLocation Ratio) → Dict ℕ (TrainLocation Ratio)
  locations_for [] locations = locations
  locations_for (line ∷ lines) locations =
      locations_for lines (elim (lookup ℕ_discrete line.train_id locations) [
        | some loc ↦ locations
        | none ↦ elim line.route [
          | [] ↦ locations
          | first ∷ others ↦
              if length others == 0
              then locations
              else insert ℕ_discrete line.train_id
                  (record {
                    station_id = first;
                    next_station_id = some first;
                    progress_ratio = motor.at_rest;
                    status = at_station;
                  })
                  locations
        ]
      ])

  -- `_track_tick_sync`, and the rollback after an exception: `_train_state` is not part of it.
  unfoldable pub track_tick :
      ℕ
      → List Line
      → Dict ℕ Motion
      → Dict ℕ (TrainLocation Ratio)
      → Dict ℕ Motion × Dict ℕ (TrainLocation Ratio) × List (TrainUpdate Ratio)
  track_tick tick_seconds lines motions locations =
      let tracked = track_trains tick_seconds lines (record {
        motions = motions;
        locations = locations_for lines locations;
        updates = [];
        has_failed = false;
      }) in
      if tracked.has_failed then (tracked.motions, locations, []) else elim tracked.updates [
        | [] ↦ (tracked.motions, locations, [])
        | u ∷ us ↦ (tracked.motions, tracked.locations, u ∷ us)
      ]
