-- ===== src/Schedules/Lists.antt =====
-- The lists of schedules of app/services/schedule_service.py, as the queries give them on a miss, and
-- the number of delayed ones.
use metroflow_ai_backend.Common.{
  ℕ, zero, suc, Bool, true, false, ◌&&◌, ◌||◌, Option, none, some, List, select, length, page,
  order_by, clamp, at_least, ltb, ite, ◌==◌, ℤ, pos, ℕ_discrete, Text,
}
use metroflow_ai_backend.Common.Dict.{Dict, lookup}
use metroflow_ai_backend.Geo.{cities_for_state, is_in}
use metroflow_ai_backend.Trains.Tracking.{seconds_since_midnight}
use metroflow_ai_backend.Schedules.{
  TrainSchedule, DayType, DayType-discrete, ScheduleStatus-discrete, delayed, StopPlace, Timetable,
}
use metroflow_ai_backend.Schedules.Upcoming.{
  default_schedule_list_limit, max_schedule_list_limit, ltz,
}

-- `_scope_to_state`: an inner join with the stations of the state's cities.
abbrev pub scope_to_state : Option Text → Dict ℕ StopPlace → ℕ × TrainSchedule → Bool
scope_to_state state stations e = elim (cities_for_state state) [
  | none ↦ true
  | some cities ↦ elim (lookup ℕ_discrete e.1.station_id stations) [
    | none ↦ false
    | some s ↦ is_in s.city cities
  ]
]

-- A filter by an id, which zero and none leave out.
abbrev pub has_id : Option ℕ → ℕ → Bool
has_id none id = true
has_id (some zero) id = true
has_id (some (suc n)) id = id == suc n

-- `ORDER BY arrival_time`, and `ORDER BY delay_minutes DESC`
abbrev pub arrives_first : ℕ × TrainSchedule → ℕ × TrainSchedule → Bool
arrives_first e f =
    ltb (seconds_since_midnight e.1.arrival_time) (seconds_since_midnight f.1.arrival_time)

abbrev pub is_later : ℕ × TrainSchedule → ℕ × TrainSchedule → Bool
is_later e f = ltz f.1.delay_minutes e.1.delay_minutes

-- The page of a list, with the limit and the offset as a request gives them.
abbrev pub schedule_page : ℤ → ℤ → List (ℕ × TrainSchedule) → List (ℕ × TrainSchedule)
schedule_page limit offset rows =
    page (clamp (some limit) default_schedule_list_limit max_schedule_list_limit)
      (at_least 0 offset) rows

-- `(delay_minutes > 0) | (status == DELAYED)`
abbrev pub is_delayed : ℕ × TrainSchedule → Bool
is_delayed e =
    ltz (pos 0) e.1.delay_minutes || ite (ScheduleStatus-discrete e.1.status delayed) true false

module _ {User : Type 0} where
  -- `list_schedules`
  unfoldable pub list_schedules :
      Timetable User
      → Option ℕ
      → Option ℕ
      → Option DayType
      → Option Text
      → ℤ
      → ℤ
      → List (ℕ × TrainSchedule)
  list_schedules db station_id train_id day_type state limit offset = schedule_page limit offset (
      order_by arrives_first (
        select
          (λ e.
            has_id station_id e.1.station_id
            && has_id train_id e.1.train_id
            && (elim day_type [
              | none ↦ true
              | some d ↦ ite (DayType-discrete e.1.day_type d) true false
            ])
            && scope_to_state state db.stations e)
          db.schedules))

  -- `peak_hour_schedules`
  unfoldable pub peak_hour_schedules :
      Timetable User → Option ℕ → Option Text → ℤ → ℤ → List (ℕ × TrainSchedule)
  peak_hour_schedules db station_id state limit offset = schedule_page limit offset (
      order_by arrives_first (
        select
          (λ e.
            e.1.is_peak_hour
            && has_id station_id e.1.station_id
            && scope_to_state state db.stations e)
          db.schedules))

  -- The delayed schedules of a station and a state.
  abbrev pub delayed_rows : Timetable User → Option ℕ → Option Text → List (ℕ × TrainSchedule)
  delayed_rows db station_id state =
      select
        (λ e.
          is_delayed e && has_id station_id e.1.station_id && scope_to_state state db.stations e)
        db.schedules

  -- `delayed_schedules`
  unfoldable pub delayed_schedules :
      Timetable User → Option ℕ → Option Text → ℤ → ℤ → List (ℕ × TrainSchedule)
  delayed_schedules db station_id state limit offset =
      schedule_page limit offset (order_by is_later (delayed_rows db station_id state))

  -- `delayed_schedules_count`: what the cache has, or the count, which is then written.
  unfoldable pub delayed_schedules_count :
      Timetable User → Option ℕ → Option Text → Option ℕ → ℕ × Option ℕ
  delayed_schedules_count db station_id state cached = elim cached [
    | some n ↦ (n, some n)
    | none ↦ let count = length (delayed_rows db station_id state) in (count, some count)
  ]
