-- ===== src/Trains/Tracking.antt =====
-- app/services/train_tracking.py: the routes of the schedules, and how long a train takes to a station
-- of its route, which it runs to and fro. A duration is a floating-point number: its type and the sum
-- of a duration and a segment's time at a speed are parameters.
pub mod Eta
pub mod Routes
use metroflow_ai_backend.Common.{
  ℕ, zero, suc, ◌+◌, ◌-◌, ◌*◌, Bool, true, false, ◌||◌, Option, none, some, List, [], ◌∷◌, ◌++◌,
  ltb, leb, if◌then◌else◌, ◌==◌, ite, min, max, length, is_some, ℕ_discrete,
}
use metroflow_ai_backend.Common.Dict.{Dict, lookup, insert}

abbrev pub min_segment_seconds : ℕ
min_segment_seconds = 30

abbrev pub day_seconds : ℕ
day_seconds = 24 * 3600

-- `datetime.time`, to the second.
pub record Time : Type 0 where
  pub hour : ℕ
  pub minute : ℕ
  pub second : ℕ

abbrev pub seconds_since_midnight : Time → ℕ
seconds_since_midnight t = t.hour * 3600 + t.minute * 60 + t.second

-- `segment_gap_seconds`: a gap that is not positive goes over midnight.
abbrev pub segment_gap_seconds : Time → Time → ℕ
segment_gap_seconds start end =
    let s = seconds_since_midnight start in
    let e = seconds_since_midnight end in
    max (if leb e s then e + day_seconds - s else e - s) min_segment_seconds

-- A row of the query of `_refresh_route_cache`, in its order.
pub record Stop : Type 0 where
  pub train_id : ℕ
  pub station_id : ℕ
  pub arrival_time : Time

abbrev pub contains : ℕ → List ℕ → Bool
contains station [] = false
contains station (x ∷ xs) = ite (ℕ_discrete x station) true (contains station xs)

-- The route and the arrival times of one train.
abbrev pub Route : Type 0
Route = List ℕ × List Time

abbrev pub route_of : ℕ → Dict ℕ Route → Route
route_of train routes = elim (lookup ℕ_discrete train routes) [ none ↦ ([], []) | some r ↦ r ]

-- The loop of `_refresh_route_cache`: a station that a train has seen is skipped.
unfoldable pub add_stops : List Stop → Dict ℕ Route → Dict ℕ Route
add_stops [] routes = routes
add_stops (s ∷ stops) routes =
    let (route, times) = route_of s.train_id routes in
    add_stops stops (
      insert ℕ_discrete s.train_id
        (if contains s.station_id route
          then (route, times)
          else (route ++ s.station_id ∷ [], times ++ s.arrival_time ∷ []))
        routes)

-- `segment_seconds` of one train.
abbrev pub gaps : List Time → List ℕ
gaps [] = []
gaps (t ∷ []) = []
gaps (t ∷ u ∷ times) = segment_gap_seconds t u ∷ gaps (u ∷ times)

-- The direction along a route: `1` or `-1`.
pub data Direction : Type 0 where
  forth back : Direction

-- `segment_index_for`
abbrev pub segment_index_for : ℕ → Direction → ℕ → ℕ
segment_index_for index forth segment_count = min index (segment_count - 1)
segment_index_for index back segment_count = min (index - 1) (segment_count - 1)

-- The turn at the ends of a route of `n` stations.
abbrev pub turn : ℕ → ℕ → Direction → Direction
turn n pos direction = if pos == n - 1 then back else if pos == 0 then forth else direction

-- `max(0, min(len(route) - 1, pos + dir_))`
abbrev pub advance : ℕ → Direction → ℕ → ℕ
advance n forth pos = min (n - 1) (pos + 1)
advance n back pos = min (n - 1) (pos - 1)

abbrev pub segment_at : ℕ → List ℕ → ℕ
segment_at i [] = 0
segment_at zero (s ∷ segments) = s
segment_at (suc i) (s ∷ segments) = segment_at i segments

module _ {Duration : Type 0} (plus_segment : Duration → ℕ → Duration) where
  -- The loop of `walk_eta_seconds`, for so many rounds.
  unfoldable pub walk : ℕ → ℕ → List ℕ → ℕ → Duration → ℕ → Direction → Option Duration
  walk zero n segments target total pos direction = none
  walk (suc rounds) n segments target total pos direction =
      let d = turn n pos direction in
      let further =
        plus_segment total (segment_at (segment_index_for pos d (length segments)) segments) in
      let next = advance n d pos in
      let rest = walk rounds n segments target further next d in
      if next == target then some further else rest

  -- `walk_eta_seconds`, before it rounds.
  unfoldable pub walk_eta_seconds : List ℕ → List ℕ → ℕ → Direction → Duration → ℕ → Option Duration
  walk_eta_seconds route segments from_index direction remaining target =
      let n = length route in
      if n == 0 || length segments == 0 || leb n target
      then none
      else (let pos = advance n direction from_index in
          if pos == target
          then some remaining
          else walk (2 * n) n segments target remaining pos direction)
