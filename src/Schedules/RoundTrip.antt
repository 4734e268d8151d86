-- ===== src/Schedules/RoundTrip.antt =====
-- What a list of schedules is after the cache.
use metroflow_ai_backend.Common.{
  ℕ, ◌+◌, ◌/◌, ◌%◌, ◌<◌, ◌≡◌, refl, true, ◌&&◌, Option, none, some, List, [], ◌∷◌, map, All, arith,
  ℤ,
}
use metroflow_ai_backend.Common.Dict.{Dict}
use metroflow_ai_backend.Trains.Tracking.{Time}
use metroflow_ai_backend.Schedules.{TrainSchedule}
use metroflow_ai_backend.Schedules.Delay.{IsTime}
use metroflow_ai_backend.Schedules.Cached.{
  Field, id, train_id, station_id, arrival_time, departure_time, platform_number, station_sequence,
  day_type, is_peak_hour, frequency_minutes, status, delay_minutes, actual_arrival_time,
  actual_departure_time, Value, null, integer, isoformat, fromisoformat, serialize_schedule,
  through_json, plain, dumped, hydrate_schedule, hydrate_all, cached_schedule_list, is_digit,
  number_of, is_time_field, parsed, clock, time_or_null,
}

-- Two digits of a number below a hundred are read back.
digits_read :
    (n : ℕ)
    → n < 100
    → ((is_digit (b'0' + n / 10) && is_digit (b'0' + n % 10)) ≡ true)
      × (number_of (b'0' + n / 10) (b'0' + n % 10) ≡ n)
digits_read n h = (ground (arith, h), omega (arith, h))

fromisoformat-isoformat : (t : Time) → IsTime t → fromisoformat (isoformat t) ≡ some t
fromisoformat-isoformat t h = ground (
  arith,
  digits_read t.hour (omega (arith, h.hours)),
  digits_read t.minute (omega (arith, h.minutes)),
  digits_read t.second (omega (arith, h.seconds)),
  h.hours,
  h.minutes,
  h.seconds,
)

-- The times of a schedule are times of day.
pub record AreTimes (s : TrainSchedule) : Type 0 where
  pub arrival : IsTime s.arrival_time
  pub departure : IsTime s.departure_time
  pub actual_arrival : (t : Time) → s.actual_arrival_time ≡ some t → IsTime t
  pub actual_departure : (t : Time) → s.actual_departure_time ≡ some t → IsTime t

abbrev pub plain_row : Dict Field Value → Dict Field Value
plain_row = map (λ e. (e.0, plain e.1))

clock_read :
    (t : Time) (field : Field)
    → is_time_field field ≡ true
    → IsTime t
    → parsed field (through_json (clock t)) ≡ some (clock t)
clock_read t field e h = ground (arith, e, fromisoformat-isoformat t h)

optional_read :
    (o : Option Time) (field : Field)
    → is_time_field field ≡ true
    → ((t : Time) → o ≡ some t → IsTime t)
    → parsed field (through_json (time_or_null o)) ≡ some (time_or_null o)
optional_read none field e h = ground (arith, e)
optional_read (some t) field e h = clock_read t field e (h t refl)

hydrate-cons :
    (field : Field) (v w : Value) (rest attributes : Dict Field Value)
    → parsed field v ≡ some w
    → hydrate_schedule rest ≡ some attributes
    → hydrate_schedule ((field, v) ∷ rest) ≡ some ((field, w) ∷ attributes)
unfolding hydrate_schedule
hydrate-cons field v w rest attributes p q = rw (hydrate_schedule, p, q) refl

hydrate_nil : hydrate_schedule [] ≡ some []
unfolding hydrate_schedule
hydrate_nil = refl

sequence_read :
    (o : Option ℤ)
    → parsed station_sequence (through_json (elim o [ none ↦ null | some n ↦ integer n ]))
      ≡ some (plain (elim o [ none ↦ null | some n ↦ integer n ]))
sequence_read none = refl
sequence_read (some n) = refl

time_plain : (o : Option Time) → plain (time_or_null o) ≡ time_or_null o
time_plain none = refl
time_plain (some t) = refl

hydrate-dumped :
    (key : ℕ) (s : TrainSchedule)
    → AreTimes s
    → hydrate_schedule (dumped (serialize_schedule key s))
      ≡ some (plain_row (serialize_schedule key s))
hydrate-dumped key s h =
    rw (time_plain s.actual_arrival_time, time_plain s.actual_departure_time)
      (hydrate-cons id _ _ _ _ refl (
        hydrate-cons train_id _ _ _ _ refl (
          hydrate-cons station_id _ _ _ _ refl (
            hydrate-cons arrival_time _ _ _ _
              (clock_read s.arrival_time arrival_time refl h.arrival)
              (hydrate-cons departure_time _ _ _ _
                (clock_read s.departure_time departure_time refl h.departure)
                (hydrate-cons platform_number _ _ _ _ refl (
                  hydrate-cons station_sequence _ _ _ _ (sequence_read s.station_sequence) (
                    hydrate-cons day_type _ _ _ _ refl (
                      hydrate-cons is_peak_hour _ _ _ _ refl (
                        hydrate-cons frequency_minutes _ _ _ _ refl (
                          hydrate-cons status _ _ _ _ refl (
                            hydrate-cons delay_minutes _ _ _ _ refl (
                              hydrate-cons actual_arrival_time _ _ _ _
                                (optional_read s.actual_arrival_time actual_arrival_time refl
                                  h.actual_arrival)
                                (hydrate-cons actual_departure_time _ _ _ _
                                  (optional_read s.actual_departure_time actual_departure_time refl
                                    h.actual_departure)
                                  hydrate_nil))))))))))))))

abbrev pub serialized : ℕ × TrainSchedule → Dict Field Value
serialized e = serialize_schedule e.0 e.1

hydrate_all-dumped :
    (rows : List (ℕ × TrainSchedule))
    → All (λ e. AreTimes e.1) rows
    → hydrate_all (map dumped (map serialized rows)) ≡ some (map plain_row (map serialized rows))
unfolding hydrate_all
hydrate_all-dumped [] h = refl
hydrate_all-dumped (e ∷ rows) h =
    rw (hydrate_all, hydrate-dumped e.0 e.1 h.0, hydrate_all-dumped rows h.1) refl

-- The list that a miss writes to the cache is read back by a hit, whatever the query would give by
-- then: every attribute has its value, an enum the text that it is equal to. The times of the rows are
-- times of day, to the second.
pub cached_schedule_list_twice :
    (rows later : List (ℕ × TrainSchedule))
    → All (λ e. AreTimes e.1) rows
    → (written : List (Dict Field Value)) × ((cached_schedule_list none (map serialized rows)).1
        ≡ some written)
      × ((cached_schedule_list (some written) (map serialized later)).0
          ≡ some (map plain_row (map serialized rows)))
unfolding cached_schedule_list
cached_schedule_list_twice rows later h =
    (map dumped (map serialized rows), refl, hydrate_all-dumped rows h)
