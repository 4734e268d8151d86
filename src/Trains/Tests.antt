-- ===== src/Trains/Tests.antt =====
-- Runs of the train tracking at concrete inputs; durations are numbers, and every speed is one.
use metroflow_ai_backend.Common.{
  ℕ, ◌+◌, ◌-◌, ◌≡◌, refl, true, some, List, [], ◌∷◌, is_some, length, ℕ_discrete,
}
use metroflow_ai_backend.Common.Dict.{lookup, insert}
use metroflow_ai_backend.Trains.Tracking.{
  Time, Stop, forth, walk, walk_eta_seconds, route_of, add_stops, gaps,
}
use metroflow_ai_backend.Trains.Tracking.Eta
use metroflow_ai_backend.Trains.Tracking.Routes

program : Unit {0}
unfolding lookup insert walk walk_eta_seconds add_stops ℕ_discrete
program = tt

abbrev plus_segment : ℕ → ℕ → ℕ
plus_segment total seconds = total + seconds

abbrev late : Time
late = record { hour = 23; minute = 59; second = 0 }

abbrev early : Time
early = record { hour = 0; minute = 2; second = 0 }

-- A train from station 0 of 3, on its way forth, to the station that it has just left.
eta : walk_eta_seconds plus_segment (7 ∷ 8 ∷ 9 ∷ []) (60 ∷ 90 ∷ []) 0 forth 10 0 ≡ some 250
unfolding program
eta = refl

walk_eta_seconds_arrives_example :
    is_some (walk_eta_seconds plus_segment (7 ∷ 8 ∷ 9 ∷ []) (60 ∷ 90 ∷ []) 0 forth 10 0) ≡ true
walk_eta_seconds_arrives_example =
    Eta.walk_eta_seconds_arrives plus_segment (7 ∷ 8 ∷ 9 ∷ []) (60 ∷ 90 ∷ []) 0 0 forth 10

abbrev stop : ℕ → ℕ → Time → Stop
stop train station time = record { train_id = train; station_id = station; arrival_time = time }

abbrev stops : List Stop
stops = stop 1 7 early ∷ stop 1 8 late ∷ stop 1 7 late ∷ []

add_stops-IsRoute_example :
    let (route, times) = route_of 1 (add_stops stops []) in
    Routes.AreDistinct route
    × (length times ≡ length route)
    × (length (gaps times) ≡ length route - 1)
unfolding program
add_stops-IsRoute_example =
    Routes.add_stops-IsRoute stops [] 1 (λ t. record { distinct = tt; timed = refl })
