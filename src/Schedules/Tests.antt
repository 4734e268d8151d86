-- ===== src/Schedules/Tests.antt =====
-- Runs of the schedules at concrete inputs.
use metroflow_ai_backend.Common.{
  negsuc, ℕ, ◌<◌, ◌≡◌, refl, inl, false, none, some, List, [], ◌∷◌, map, arith, ℕ_discrete,
  Text-discrete, codes, decimal, pos,
}
use metroflow_ai_backend.Common.Dict.{Dict, lookup, insert}
use metroflow_ai_backend.Geo.{cities_for_state}
use metroflow_ai_backend.Trains.Tracking.{Time}
use metroflow_ai_backend.Schedules.{
  TrainSchedule, Timetable, value_error, weekday, on_time, DayType-discrete,
  ScheduleStatus-discrete,
}
use metroflow_ai_backend.Schedules.Actions.{handle_delay}
use metroflow_ai_backend.Schedules.Delay
use metroflow_ai_backend.Schedules.Delay.{late, IsTime}
use metroflow_ai_backend.Schedules.Cached.{
  cached_schedule_list, hydrate_all, hydrate_schedule, Field, Value,
}
use metroflow_ai_backend.Schedules.RoundTrip
use metroflow_ai_backend.Schedules.RoundTrip.{serialized, plain_row, AreTimes}
use metroflow_ai_backend.Schedules.Upcoming.{dedupe_by_train, upcoming, next_stop}
use metroflow_ai_backend.Schedules.Lists.{
  list_schedules, peak_hour_schedules, delayed_schedules, delayed_schedules_count,
}

program : Unit {0}
unfolding lookup insert list_schedules peak_hour_schedules delayed_schedules delayed_schedules_count
    handle_delay cached_schedule_list hydrate_all hydrate_schedule dedupe_by_train upcoming
    next_stop ℕ_discrete Text-discrete cities_for_state decimal DayType-discrete
    ScheduleStatus-discrete
program = tt

abbrev clock : ℕ → ℕ → Time
clock h m = record { hour = h; minute = m; second = 0 }

abbrev stop : ℕ → ℕ → ℕ → ℕ → ℕ → TrainSchedule
stop train station place hour minute = record {
  train_id = train;
  station_id = station;
  arrival_time = clock hour minute;
  departure_time = clock hour minute;
  platform_number = pos 1;
  station_sequence = some (pos place);
  day_type = weekday;
  is_peak_hour = false;
  frequency_minutes = pos 10;
  status = on_time;
  delay_minutes = pos 0;
  actual_arrival_time = none;
  actual_departure_time = none;
}

abbrev last_train : TrainSchedule
last_train = stop 4 5 1 23 50

abbrev timetable : Timetable ℕ
timetable = record {
  schedules = (1, last_train) ∷ [];
  next_id = 2;
  train_numbers = (4, codes "L4") ∷ [];
  stations = (5, record { station_name = codes "Dadar"; city = codes "Mumbai" }) ∷ [];
  inbox = record { notifications = []; read_states = []; next_id = 1; notices = [] };
  deleted_keys = [];
  route_invalidations = 0;
  notices = [];
}

last_train-IsTime : IsTime last_train.arrival_time
last_train-IsTime = record { hours = omega arith; minutes = omega arith; seconds = omega arith }

handle_delay_lem_example :
    ((handle_delay ℕ_discrete 100 1 (pos 15) timetable).0 ≡ inl value_error)
    × (lookup ℕ_discrete 1 (handle_delay ℕ_discrete 100 1 (pos 15) timetable).1.schedules
        ≡ some last_train)
unfolding program
handle_delay_lem_example =
    Delay.handle_delay_lem ℕ_discrete 100 1 14 timetable last_train refl last_train-IsTime

abbrev rows : List (ℕ × TrainSchedule)
rows = (1, stop 4 5 1 9 0) ∷ (2, stop 4 6 2 9 10) ∷ (3, stop 7 5 1 9 20) ∷ []

stop-AreTimes :
    (train station place minute : ℕ) → minute < 60 → AreTimes (stop train station place 9 minute)
stop-AreTimes train station place minute h = record {
  arrival = record { hours = omega arith; minutes = omega (arith, h); seconds = omega arith };
  departure = record { hours = omega arith; minutes = omega (arith, h); seconds = omega arith };
  actual_arrival = λ t e. absurd (ground (arith, e));
  actual_departure = λ t e. absurd (ground (arith, e));
}

cached_schedule_list_twice_example :
    (written : List (Dict Field Value)) × ((cached_schedule_list none (map serialized rows)).1
      ≡ some written)
    × ((cached_schedule_list (some written) []).0 ≡ some (map plain_row (map serialized rows)))
cached_schedule_list_twice_example = RoundTrip.cached_schedule_list_twice rows [] (
  stop-AreTimes 4 5 1 0 (omega arith),
  (stop-AreTimes 4 6 2 10 (omega arith), (stop-AreTimes 7 5 1 20 (omega arith), tt)),
)

next_of_first : next_stop (1, stop 4 5 1 9 0) rows ≡ some (2, stop 4 6 2 9 10)
unfolding program
next_of_first = refl

-- The later of two delayed trains comes first; the one on time is left out.
abbrev late_db : Timetable ℕ
late_db = record timetable {
  schedules =
      (1, late 5 (stop 4 5 1 9 0)) ∷ (2, stop 4 5 2 9 10) ∷ (3, late 20 (stop 7 5 1 9 20)) ∷ [];
}

latest_first :
    delayed_schedules late_db (some 5) (some (codes "Maharashtra")) (pos 200) (pos 0)
    ≡ (3, late 20 (stop 7 5 1 9 20)) ∷ (1, late 5 (stop 4 5 1 9 0)) ∷ []
unfolding program
latest_first = refl

counted : (delayed_schedules_count late_db none none none).0 ≡ 2
unfolding program
counted = refl

none_at_peak : peak_hour_schedules late_db none none (pos 0) (negsuc 4) ≡ []
unfolding program
none_at_peak = refl

one_train :
    list_schedules late_db none (some 7) (some weekday) none (pos 1) (pos 0)
    ≡ (3, late 20 (stop 7 5 1 9 20)) ∷ []
unfolding program
one_train = refl
