-- ===== src/Schedules.antt =====
-- app/services/schedule_service.py and app/models/train_schedule.py: the timetable, what the requests
-- change in it, and what they tell the caches, the routes and the clients.
pub mod Actions
pub mod Delay
pub mod Cached
pub mod RoundTrip
pub mod Upcoming
pub mod Lists
mod Tests
use metroflow_ai_backend.Common.{ℕ, Bool, Option, none, some, List, [], ◌∷◌, Text, codes, ℤ, pos}
use metroflow_ai_backend.Common.Dict.{Dict}
use metroflow_ai_backend.Trains.Tracking.{Time}
use metroflow_ai_backend.Notifications.Inbox.{Inbox}

pub data DayType : Type 0 where
  weekday weekend holiday : DayType

unfoldable pub DayType-discrete : Discrete DayType
DayType-discrete = hlevel

pub data ScheduleStatus : Type 0 where
  on_time delayed cancelled completed : ScheduleStatus

unfoldable pub ScheduleStatus-discrete : Discrete ScheduleStatus
ScheduleStatus-discrete = hlevel

-- A row of `train_schedules`, but for its id. Times are to the second.
pub record TrainSchedule : Type 0 where
  pub train_id : ℕ
  pub station_id : ℕ
  pub arrival_time : Time
  pub departure_time : Time
  pub platform_number : ℤ
  pub station_sequence : Option ℤ
  pub day_type : DayType
  pub is_peak_hour : Bool
  pub frequency_minutes : ℤ
  pub status : ScheduleStatus
  pub delay_minutes : ℤ
  pub actual_arrival_time : Option Time
  pub actual_departure_time : Option Time

-- TrainScheduleCreate
pub record TrainScheduleCreate : Type 0 where
  pub train_id : ℕ
  pub station_id : ℕ
  pub arrival_time : Time
  pub departure_time : Time
  pub platform_number : ℤ
  pub station_sequence : Option ℤ
  pub day_type : DayType
  pub is_peak_hour : Bool
  pub frequency_minutes : ℤ

-- TrainScheduleUpdate: the fields that the request sets, each to a value or, where the column may be
-- null, to none.
pub record TrainScheduleUpdate : Type 0 where
  pub arrival_time : Option Time
  pub departure_time : Option Time
  pub platform_number : Option ℤ
  pub station_sequence : Option (Option ℤ)
  pub day_type : Option DayType
  pub is_peak_hour : Option Bool
  pub frequency_minutes : Option ℤ
  pub status : Option ScheduleStatus

-- FrequencyAdjustment
pub record FrequencyAdjustment : Type 0 where
  pub frequency_minutes : ℤ
  pub is_peak_hour : Option Bool

-- The keys of the pages that `_invalidate_schedule_caches` deletes, with the default limit.
pub data CacheKey : Type 0 where
  list_page : Option ℕ → Option ℕ → CacheKey
  peak_page delayed_page : Option ℕ → CacheKey

-- The data of a SCHEDULE_UPDATE and of a DELAY_ALERT.
pub data ScheduleNotice : Type 0 where
  schedule_update : ℕ → Option Text → Option Text → TrainSchedule → ScheduleNotice
  delay_alert : ℕ → Option Text → Option Text → TrainSchedule → ScheduleNotice

-- What the code reads of a station.
pub record StopPlace : Type 0 where
  pub station_name : Text
  pub city : Text

-- The tables, the next id, and what was done besides: the deletions of cache keys, the number of calls
-- of `invalidate_route_cache`, the calls of `manager.notify`.
pub record Timetable (User : Type 0) : Type 0 where
  pub schedules : Dict ℕ TrainSchedule
  pub next_id : ℕ
  pub train_numbers : Dict ℕ Text
  pub stations : Dict ℕ StopPlace
  pub inbox : Inbox User
  pub deleted_keys : List CacheKey
  pub route_invalidations : ℕ
  pub notices : List ScheduleNotice

-- How a request fails: with 404, or with an exception of `datetime.replace`.
pub data Failure : Type 0 where
  not_found value_error : Failure

abbrev pub delay_notification_threshold_minutes : ℕ
delay_notification_threshold_minutes = 5
