-- ===== src/Schedules/Actions.antt =====
-- The requests of app/services/schedule_service.py that change the timetable.
use metroflow_ai_backend.Common.{
  ℕ, ◌+◌, ◌*◌, ◌/◌, ◌%◌, zero, suc, Bool, true, ◌&&◌, ◌||◌, Option, none, some, [], ◌∷◌, ◌++◌, ◌⊎◌,
  inl, inr, ltb, leb, if◌then◌else◌, Text, codes, decimal, ℤ, pos, negsuc, ℕ_discrete,
}
use metroflow_ai_backend.Common.Dict.{lookup, insert}
use metroflow_ai_backend.Trains.Tracking.{Time, seconds_since_midnight}
use metroflow_ai_backend.Notifications.Inbox.{system}
use metroflow_ai_backend.Notifications.Inbox.Actions.{create_notification}
use metroflow_ai_backend.Schedules.{
  TrainSchedule, TrainScheduleCreate, TrainScheduleUpdate, FrequencyAdjustment, on_time, delayed,
  list_page, peak_page, delayed_page, schedule_update, delay_alert, StopPlace, Timetable, Failure,
  not_found, value_error, delay_notification_threshold_minutes,
}

-- The windows of PEAK_WINDOWS, by their hours, and a test of `start <= t <= end`.
abbrev pub in_window : ℕ → ℕ → Time → Bool
in_window start end t =
    leb (start * 3600) (seconds_since_midnight t) && leb (seconds_since_midnight t) (end * 3600)

-- `_is_peak`
abbrev pub is_peak : Time → Bool
is_peak t = in_window 8 11 t || in_window 17 20 t

abbrev pub station_name_of : Option StopPlace → Option Text
station_name_of none = none
station_name_of (some s) = some s.station_name

abbrev pub set_to {ℓ} : {A : Type ℓ} → Option A → A → A
set_to none old = old
set_to (some new) old = new

-- `setattr` of each field of `payload.model_dump(exclude_unset=True)`
abbrev pub updated : TrainScheduleUpdate → TrainSchedule → TrainSchedule
updated p s = record s {
  arrival_time = set_to p.arrival_time s.arrival_time;
  departure_time = set_to p.departure_time s.departure_time;
  platform_number = set_to p.platform_number s.platform_number;
  station_sequence = set_to p.station_sequence s.station_sequence;
  day_type = set_to p.day_type s.day_type;
  is_peak_hour = set_to p.is_peak_hour s.is_peak_hour;
  frequency_minutes = set_to p.frequency_minutes s.frequency_minutes;
  status = set_to p.status s.status;
}

-- `base.replace(minute=…, hour=…).time()`, with the `ValueError` of an hour past 23.
abbrev pub shifted : Time → ℕ → Option Time
shifted t minutes =
    let hour = t.hour + (t.minute + minutes) / 60 in
    if ltb hour 24
    then some (record { hour = hour; minute = (t.minute + minutes) % 60; second = t.second })
    else none

-- The minutes of a delay that is more than zero.
abbrev pub positive : ℤ → Option ℕ
positive (pos zero) = none
positive (pos (suc n)) = some (suc n)
positive (negsuc n) = none

module _ {User : Type 0} (dec : Discrete User) where
  -- `_invalidate_schedule_caches`
  abbrev pub invalidate_schedule_caches : TrainSchedule → Timetable User → Timetable User
  invalidate_schedule_caches s db = record db {
    deleted_keys =
        db.deleted_keys
        ++ list_page none none
          ∷ list_page none (some s.train_id)
          ∷ list_page (some s.station_id) none
          ∷ peak_page none
          ∷ peak_page (some s.station_id)
          ∷ delayed_page none
          ∷ delayed_page (some s.station_id)
          ∷ [];
  }

  abbrev pub invalidate_route_cache : Timetable User → Timetable User
  invalidate_route_cache db = record db { route_invalidations = db.route_invalidations + 1 }

  -- `_broadcast_schedule_update`
  abbrev pub broadcast_schedule_update : ℕ → TrainSchedule → Timetable User → Timetable User
  broadcast_schedule_update id s db = record db {
    notices =
        db.notices
        ++ schedule_update id (lookup ℕ_discrete s.train_id db.train_numbers)
            (station_name_of (lookup ℕ_discrete s.station_id db.stations)) s
          ∷ [];
  }

  abbrev pub with_schedule : ℕ → TrainSchedule → Timetable User → Timetable User
  with_schedule id s db = record db { schedules = insert ℕ_discrete id s db.schedules }

  -- `create_schedule`: the id, and the tables.
  unfoldable pub create_schedule : TrainScheduleCreate → Timetable User → ℕ × Timetable User
  create_schedule p db =
      let id = db.next_id in
      let s : TrainSchedule = record {
        train_id = p.train_id;
        station_id = p.station_id;
        arrival_time = p.arrival_time;
        departure_time = p.departure_time;
        platform_number = p.platform_number;
        station_sequence = p.station_sequence;
        day_type = p.day_type;
        is_peak_hour = if p.is_peak_hour then true else is_peak p.arrival_time;
        frequency_minutes = p.frequency_minutes;
        status = on_time;
        delay_minutes = pos 0;
        actual_arrival_time = none;
        actual_departure_time = none;
      } in
      let added : Timetable User = record db {
        schedules = db.schedules ++ (id, s) ∷ [];
        next_id = id + 1;
      } in
      (
        id,
        broadcast_schedule_update id s
            (invalidate_route_cache (invalidate_schedule_caches s added)),
      )

  unfoldable pub update_schedule :
      ℕ → TrainScheduleUpdate → Timetable User → (Failure ⊎ TrainSchedule) × Timetable User
  update_schedule id p db = elim (lookup ℕ_discrete id db.schedules) [
    | none ↦ (inl not_found, db)
    | some old ↦
        let s = updated p old in
        (
          inr s,
          broadcast_schedule_update id s
              (invalidate_route_cache (invalidate_schedule_caches s (with_schedule id s db))),
        )
  ]

  unfoldable pub adjust_frequency :
      ℕ → FrequencyAdjustment → Timetable User → (Failure ⊎ TrainSchedule) × Timetable User
  adjust_frequency id p db = elim (lookup ℕ_discrete id db.schedules) [
    | none ↦ (inl not_found, db)
    | some old ↦
        let s : TrainSchedule = record old {
          frequency_minutes = p.frequency_minutes;
          is_peak_hour = set_to p.is_peak_hour old.is_peak_hour;
        } in
        (inr s, invalidate_schedule_caches s (with_schedule id s db))
  ]

  abbrev pub train_label : ℕ → Option Text → Text
  train_label id none = codes "Train #" ++ decimal id
  train_label id (some number) = number

  abbrev pub stop_label : ℕ → Option StopPlace → Text
  stop_label id none = codes "Station #" ++ decimal id
  stop_label id (some s) = s.station_name

  abbrev pub stop_city : Option StopPlace → Option Text
  stop_city none = none
  stop_city (some s) = some s.city

  -- The notification of a delay of so many minutes, from the threshold on.
  abbrev pub notify_delay : ℕ → ℕ → TrainSchedule → Timetable User → Timetable User
  notify_delay now minutes s db =
      let train = train_label s.train_id (lookup ℕ_discrete s.train_id db.train_numbers) in
      let station = lookup ℕ_discrete s.station_id db.stations in
      if leb delay_notification_threshold_minutes minutes
      then record db {
        inbox =
            (create_notification dec now system (codes "Delay - " ++ train)
              (train
                ++ codes " is running "
                ++ decimal minutes
                ++ codes " min late at "
                ++ stop_label s.station_id station
                ++ codes ".")
              none none (stop_city station) db.inbox).1;
      }
      else db

  -- What `handle_delay` does after its commit.
  abbrev pub announce_delay : ℕ → ℕ → ℕ → TrainSchedule → Timetable User → Timetable User
  announce_delay now id minutes s db =
      let stored = invalidate_schedule_caches s (with_schedule id s db) in
      notify_delay now minutes s (record stored {
        notices =
            stored.notices
            ++ delay_alert id (lookup ℕ_discrete s.train_id db.train_numbers)
                (station_name_of (lookup ℕ_discrete s.station_id db.stations)) s
              ∷ [];
      })

  -- A delay of at least a minute, with the new time, if it could be made.
  abbrev pub store_delay :
      ℕ
      → ℕ
      → ℕ
      → TrainSchedule
      → Option Time
      → Timetable User
      → (Failure ⊎ TrainSchedule) × Timetable User
  store_delay now id minutes old none db = (inl value_error, db)
  store_delay now id minutes old (some arrival) db =
      let s : TrainSchedule = record old {
        delay_minutes = pos minutes;
        status = delayed;
        actual_arrival_time = some arrival;
      } in
      (inr s, announce_delay now id minutes s db)

  -- `handle_delay`. Where the new time cannot be made, nothing is committed.
  unfoldable pub handle_delay :
      ℕ → ℕ → ℤ → Timetable User → (Failure ⊎ TrainSchedule) × Timetable User
  handle_delay now id delay db = elim (lookup ℕ_discrete id db.schedules) [
    | none ↦ (inl not_found, db)
    | some old ↦ elim (positive delay) [
      | none ↦
          let s : TrainSchedule = record old { delay_minutes = delay; status = on_time } in
          (inr s, announce_delay now id 0 s db)
      | some minutes ↦ store_delay now id minutes old (shifted old.arrival_time minutes) db
    ]
  ]
