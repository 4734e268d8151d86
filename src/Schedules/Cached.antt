-- ===== src/Schedules/Cached.antt =====
-- The lists of schedules in the cache: `_serialize_schedule`, what `json.dumps(…, default=str)` and
-- `json.loads` make of a row, and `_hydrate_schedule`.
use metroflow_ai_backend.Common.{
  ℕ, ◌+◌, ◌-◌, ◌*◌, ◌/◌, ◌%◌, Bool, true, false, ◌&&◌, Option, none, some, List, [], ◌∷◌, map, leb,
  ltb, if◌then◌else◌, ◌==◌, Text, codes, ℤ, pos,
}
use metroflow_ai_backend.Common.Dict.{Dict}
use metroflow_ai_backend.Trains.Tracking.{Time}
use metroflow_ai_backend.Schedules.{
  DayType, weekday, weekend, holiday, ScheduleStatus, on_time, delayed, cancelled, completed,
  TrainSchedule,
}

-- `_SCHEDULE_FIELDS`
pub data Field : Type 0 where
  id train_id station_id arrival_time departure_time platform_number station_sequence day_type :
      Field
  is_peak_hour frequency_minutes status delay_minutes actual_arrival_time : Field
  actual_departure_time : Field

unfoldable pub Field-discrete : Discrete Field
Field-discrete = hlevel

-- The values that the attributes of a row have.
pub data Value : Type 0 where
  null : Value
  integer : ℤ → Value
  boolean : Bool → Value
  text : Text → Value
  clock : Time → Value
  day : DayType → Value
  schedule_status : ScheduleStatus → Value

abbrev pub day_type_value : DayType → Text
day_type_value weekday = codes "weekday"
day_type_value weekend = codes "weekend"
day_type_value holiday = codes "holiday"

abbrev pub status_value : ScheduleStatus → Text
status_value on_time = codes "on_time"
status_value delayed = codes "delayed"
status_value cancelled = codes "cancelled"
status_value completed = codes "completed"

abbrev pub two_digits : ℕ → Text → Text
two_digits n rest = (b'0' + n / 10) ∷ (b'0' + n % 10) ∷ rest

-- `t.isoformat()`, of a time without microseconds.
abbrev pub isoformat : Time → Text
isoformat t = two_digits t.hour (b':' ∷ two_digits t.minute (b':' ∷ two_digits t.second []))

abbrev pub is_digit : ℕ → Bool
is_digit c = leb b'0' c && leb c b'9'

abbrev pub number_of : ℕ → ℕ → ℕ
number_of c d = (c - b'0') * 10 + (d - b'0')

-- `time.fromisoformat` of a text of this form; another text is refused here.
abbrev pub fromisoformat : Text → Option Time
fromisoformat (a ∷ b ∷ c ∷ d ∷ e ∷ f ∷ g ∷ h ∷ []) =
    let t : Time = record {
      hour = number_of a b;
      minute = number_of d e;
      second = number_of g h;
    } in
    if is_digit a
      && is_digit b
      && is_digit d
      && is_digit e
      && is_digit g
      && is_digit h
      && c == b':'
      && f == b':'
      && ltb t.hour 24
      && ltb t.minute 60
      && ltb t.second 60
    then some t
    else none
fromisoformat _ = none

abbrev pub time_or_null : Option Time → Value
time_or_null none = null
time_or_null (some t) = clock t

-- `_serialize_schedule`
abbrev pub serialize_schedule : ℕ → TrainSchedule → Dict Field Value
serialize_schedule key s =
    (id, integer (pos key))
    ∷ (train_id, integer (pos s.train_id))
    ∷ (station_id, integer (pos s.station_id))
    ∷ (arrival_time, clock s.arrival_time)
    ∷ (departure_time, clock s.departure_time)
    ∷ (platform_number, integer s.platform_number)
    ∷ (station_sequence, (elim s.station_sequence [ none ↦ null | some n ↦ integer n ]))
    ∷ (day_type, day s.day_type)
    ∷ (is_peak_hour, boolean s.is_peak_hour)
    ∷ (frequency_minutes, integer s.frequency_minutes)
    ∷ (status, schedule_status s.status)
    ∷ (delay_minutes, integer s.delay_minutes)
    ∷ (actual_arrival_time, time_or_null s.actual_arrival_time)
    ∷ (actual_departure_time, time_or_null s.actual_departure_time)
    ∷ []

-- What `json.loads` gives back of a value that `json.dumps(…, default=str)` was given: an enum that is
-- a `str` is written as its text, and `str` of a time is its ISO format.
abbrev pub through_json : Value → Value
through_json null = null
through_json (integer n) = integer n
through_json (boolean b) = boolean b
through_json (text t) = text t
through_json (clock t) = text (isoformat t)
through_json (day d) = text (day_type_value d)
through_json (schedule_status s) = text (status_value s)

-- The keys that `_hydrate_schedule` parses.
abbrev pub is_time_field : Field → Bool
is_time_field field = elim field [
  | arrival_time ↦ true
  | departure_time ↦ true
  | actual_arrival_time ↦ true
  | actual_departure_time ↦ true
  | _ ↦ false
]

-- `if data.get(key): data[key] = time.fromisoformat(data[key])`, with an exception as `none`.
abbrev pub parsed : Field → Value → Option Value
parsed field value =
    if is_time_field field
    then (elim value [
      | text t ↦ elim t [
        | [] ↦ some (text [])
        | c ∷ s ↦ elim (fromisoformat (c ∷ s)) [ none ↦ none | some time ↦ some (clock time) ]
      ]
      | null ↦ some null
      | _ ↦ none
    ])
    else some value

-- `_hydrate_schedule`: the attributes of the new `TrainSchedule`.
unfoldable pub hydrate_schedule : Dict Field Value → Option (Dict Field Value)
hydrate_schedule [] = some []
hydrate_schedule ((field, value) ∷ rest) =
    let others = hydrate_schedule rest in
    elim (parsed field value) [
      | none ↦ none
      | some v ↦ elim others [ none ↦ none | some attributes ↦ some ((field, v) ∷ attributes) ]
    ]

-- `[_hydrate_schedule(row) for row in cached]`
unfoldable pub hydrate_all : List (Dict Field Value) → Option (List (Dict Field Value))
unfolding hydrate_schedule
hydrate_all [] = some []
hydrate_all (row ∷ rows) =
    let others = hydrate_all rows in
    elim (hydrate_schedule row) [
      | none ↦ none
      | some s ↦ elim others [ none ↦ none | some all ↦ some (s ∷ all) ]
    ]

-- A row after the cache: an enum has become its text, which Python holds equal to it.
abbrev pub plain : Value → Value
plain (day d) = text (day_type_value d)
plain (schedule_status s) = text (status_value s)
plain v = v

abbrev pub dumped : Dict Field Value → Dict Field Value
dumped = map (λ e. (e.0, through_json e.1))

-- `_cached_schedule_list`, given what the cache has and what the query gives: the rows, and what is
-- written.
unfoldable pub cached_schedule_list :
    Option (List (Dict Field Value))
    → List (Dict Field Value)
    → Option (List (Dict Field Value)) × Option (List (Dict Field Value))
unfolding hydrate_all
cached_schedule_list none rows = (some rows, some (map dumped rows))
cached_schedule_list (some cached) rows = (hydrate_all cached, none)
