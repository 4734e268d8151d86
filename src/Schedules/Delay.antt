-- ===== src/Schedules/Delay.antt =====
-- What `handle_delay` makes of a delay: the new time, or the exception past midnight.
use metroflow_ai_backend.Common.{
  ℕ, suc, ◌+◌, ◌*◌, ◌/◌, ◌%◌, ◌<◌, ◌≤◌, ◌≡◌, refl, Bool, Option, none, some, inl, inr, ltb,
  if◌then◌else◌, Bool-cases, pos, arith, ℕ_discrete,
}
use metroflow_ai_backend.Common.Dict.{lookup, lookup-insert}
use metroflow_ai_backend.Trains.Tracking.{Time}
use metroflow_ai_backend.Schedules.{TrainSchedule, delayed, Timetable, value_error}
use metroflow_ai_backend.Schedules.Actions.{shifted, store_delay, announce_delay, handle_delay}

pub record IsTime (t : Time) : Type 0 where
  pub hours : t.hour < 24
  pub minutes : t.minute < 60
  pub seconds : t.second < 60

abbrev pub minutes_of : Time → ℕ
minutes_of t = t.hour * 60 + t.minute

-- The time so many minutes after midnight.
abbrev pub time_at : ℕ → ℕ → Time
time_at minutes second = record { hour = minutes / 60; minute = minutes % 60; second = second }

abbrev pub minutes_of_day : ℕ
minutes_of_day = 24 * 60

shifted_within :
    (t : Time) (minutes : ℕ)
    → t.hour + (t.minute + minutes) / 60 < 24
    → t.hour + (t.minute + minutes) / 60 ≡ (minutes_of t + minutes) / 60
    → (t.minute + minutes) % 60 ≡ (minutes_of t + minutes) % 60
    → shifted t minutes ≡ some (time_at (minutes_of t + minutes) t.second)
shifted_within t minutes lt hour minute = ground (arith, lt, hour, minute)

shifted_past :
    (t : Time) (minutes : ℕ) → 24 ≤ t.hour + (t.minute + minutes) / 60 → shifted t minutes ≡ none
shifted_past t minutes le = ground (arith, le)

shifted_lem :
    (t : Time) (minutes : ℕ)
    → IsTime t
    → shifted t minutes ≡ (
        if ltb (minutes_of t + minutes) minutes_of_day
        then some (time_at (minutes_of t + minutes) t.second)
        else none)
shifted_lem t minutes h = elim (Bool-cases (ltb (minutes_of t + minutes) minutes_of_day)) [
  | inl b ↦
      rw b (shifted_within t minutes (ground (arith, b, h.minutes)) (omega arith) (omega arith))
  | inr b ↦ rw b (shifted_past t minutes (ground (arith, b, h.minutes)))
]

-- The row of a delay.
abbrev pub late : ℕ → TrainSchedule → TrainSchedule
late minutes s = record s {
  delay_minutes = pos minutes;
  status = delayed;
  actual_arrival_time = some (time_at (minutes_of s.arrival_time + minutes) s.arrival_time.second);
}

module _ {User : Type 0} (dec : Discrete User) where
  announced_lem :
      (now id minutes : ℕ) (db : Timetable User) (s : TrainSchedule)
      → lookup ℕ_discrete id (announce_delay dec now id minutes s db).schedules ≡ some s
  announced_lem now id minutes db s = ground (arith, lookup-insert ℕ_discrete id id s db.schedules)

  stored_lem :
      (now id minutes : ℕ) (db : Timetable User) (s : TrainSchedule) (arrival : Option Time)
      → lookup ℕ_discrete id db.schedules ≡ some s
      → let within : Bool = ltb (minutes_of s.arrival_time + minutes) minutes_of_day in
        arrival ≡ (
          if within
          then some (time_at (minutes_of s.arrival_time + minutes) s.arrival_time.second)
          else none)
        → ((store_delay dec now id minutes s arrival db).0
            ≡ (if within then inr (late minutes s) else inl value_error))
          × (lookup ℕ_discrete id (store_delay dec now id minutes s arrival db).1.schedules
              ≡ some (if within then late minutes s else s))
  stored_lem now id minutes db s arrival found e =
      elim (Bool-cases (ltb (minutes_of s.arrival_time + minutes) minutes_of_day)) [
        | inl b ↦ rw (e, b) (refl, announced_lem now id minutes db (late minutes s))
        | inr b ↦ rw (e, b) (refl, found)
      ]

  -- A delay of at least a minute sets the actual arrival to so many minutes after the arrival, if that
  -- is before midnight; a delay past midnight is answered by an exception, and the row stays as it
  -- was.
  pub handle_delay_lem :
      (now id n : ℕ) (db : Timetable User) (s : TrainSchedule)
      → lookup ℕ_discrete id db.schedules ≡ some s
      → IsTime s.arrival_time
      → let within : Bool = ltb (minutes_of s.arrival_time + suc n) minutes_of_day in
        ((handle_delay dec now id (pos (suc n)) db).0
          ≡ (if within then inr (late (suc n) s) else inl value_error))
        × (lookup ℕ_discrete id (handle_delay dec now id (pos (suc n)) db).1.schedules
            ≡ some (if within then late (suc n) s else s))
  unfolding handle_delay
  handle_delay_lem now id n db s found h =
      rw (handle_delay, found)
        (stored_lem now id (suc n) db s _ found (shifted_lem s.arrival_time (suc n) h))
