-- ===== src/Schedules/Upcoming.antt =====
-- `get_upcoming_schedules`: the departures that are next, one for each train, and the stop after each.
use metroflow_ai_backend.Common.{
  ℕ, zero, suc, ◌*◌, ◌≤◌, ◌≡◌, ◌<◌, ◌⊎◌, refl, ap, Bool, true, false, ◌&&◌, Option, none, some,
  List, [], ◌∷◌, leb, ltb, if◌then◌else◌, ◌==◌, length, take, select, inl, inr, Bool-cases, arith,
  clamp, order_by, ℤ, pos, negsuc, ite, ℕ_discrete,
}
use metroflow_ai_backend.Trains.Tracking.{Time, seconds_since_midnight, contains}
use metroflow_ai_backend.Trains.Tracking.Routes.{AreDistinct}
use metroflow_ai_backend.Schedules.{
  TrainSchedule, ScheduleStatus, ScheduleStatus-discrete, DayType, DayType-discrete,
}

abbrev pub default_schedule_list_limit : ℕ
default_schedule_list_limit = 200

abbrev pub max_schedule_list_limit : ℕ
max_schedule_list_limit = 1000

-- The loop of `_dedupe_by_train`, with the trains that it has seen and the room that is left.
abbrev pub dedupe_from : List ℕ → ℕ → List (ℕ × TrainSchedule) → List (ℕ × TrainSchedule)
dedupe_from seen room [] = []
dedupe_from seen zero (row ∷ rows) = []
dedupe_from seen (suc room) (row ∷ rows) =
    let skipped = dedupe_from seen (suc room) rows in
    let taken = dedupe_from (row.1.train_id ∷ seen) room rows in
    if contains row.1.train_id seen then skipped else row ∷ taken

-- `_dedupe_by_train`; the cap is at least one.
unfoldable pub dedupe_by_train : List (ℕ × TrainSchedule) → ℕ → List (ℕ × TrainSchedule)
dedupe_by_train rows cap = dedupe_from [] cap rows

-- `departure_time >= now_t`
abbrev pub departs_after : Time → ℕ × TrainSchedule → Bool
departs_after now e = leb (seconds_since_midnight now) (seconds_since_midnight e.1.departure_time)

-- `ORDER BY departure_time`
abbrev pub departs_first : ℕ × TrainSchedule → ℕ × TrainSchedule → Bool
departs_first e f =
    ltb (seconds_since_midnight e.1.departure_time) (seconds_since_midnight f.1.departure_time)

-- The base query's filters of the day and the status; the rows are those of the cities already.
abbrev pub is_on_day : DayType → Option ScheduleStatus → ℕ × TrainSchedule → Bool
is_on_day today status e = ite (DayType-discrete e.1.day_type today) true false && (elim status [
  | none ↦ true
  | some s ↦ ite (ScheduleStatus-discrete e.1.status s) true false
])

-- The departures from now on, or, where there is none, those of the whole day.
unfoldable pub upcoming :
    Time → DayType → Option ScheduleStatus → ℤ → List (ℕ × TrainSchedule) → List (ℕ × TrainSchedule)
unfolding dedupe_by_train
upcoming now today status limit rows =
    let cap = clamp (some limit) 20 max_schedule_list_limit in
    let base = select (is_on_day today status) rows in
    let next =
      dedupe_by_train (take (cap * 50) (order_by departs_first (select (departs_after now) base)))
        cap in
    elim next [
      | [] ↦ dedupe_by_train (take (cap * 50) (order_by departs_first base)) cap
      | row ∷ rest ↦ row ∷ rest
    ]

abbrev pub ltz : ℤ → ℤ → Bool
ltz (pos m) (pos n) = ltb m n
ltz (pos m) (negsuc n) = false
ltz (negsuc m) (pos n) = true
ltz (negsuc m) (negsuc n) = ltb n m

-- `candidate.station_sequence is not None and candidate.station_sequence > s.station_sequence`
abbrev pub comes_after : ℤ → ℕ × TrainSchedule → Bool
comes_after sequence e = elim e.1.station_sequence [ none ↦ false | some n ↦ ltz sequence n ]

abbrev pub first_after : ℤ → List (ℕ × TrainSchedule) → Option (ℕ × TrainSchedule)
first_after sequence [] = none
first_after sequence (e ∷ rows) =
    if comes_after sequence e then some e else first_after sequence rows

-- `siblings[idx + 1:]`, where `idx` is the place of an id.
abbrev pub rows_after : ℕ → List (ℕ × TrainSchedule) → Option (List (ℕ × TrainSchedule))
rows_after id [] = none
rows_after id (e ∷ rows) = if e.0 == id then some rows else rows_after id rows

-- The next stop of a row among the rows of its train, in the order of their sequence.
unfoldable pub next_stop : ℕ × TrainSchedule → List (ℕ × TrainSchedule) → Option (ℕ × TrainSchedule)
next_stop s siblings = elim (rows_after s.0 siblings) [
  | none ↦ none
  | some later ↦ elim s.1.station_sequence [ none ↦ none | some n ↦ first_after n later ]
]

abbrev pub trains_of : List (ℕ × TrainSchedule) → List ℕ
trains_of [] = []
trains_of (e ∷ rows) = e.1.train_id ∷ trains_of rows

sees_self : (x : ℕ) (seen : List ℕ) → contains x (x ∷ seen) ≡ true
sees_self x seen = ground arith

sees_on : (x y : ℕ) (seen : List ℕ) → contains x seen ≡ true → contains x (y ∷ seen) ≡ true
sees_on x y seen h = ground (arith, h)

-- No train of the rows is among some.
absent_after :
    (x : ℕ) (seen : List ℕ) (room : ℕ) (rows : List (ℕ × TrainSchedule))
    → contains x seen ≡ true
    → contains x (trains_of (dedupe_from seen room rows)) ≡ false
absent_after x seen room [] h = refl
absent_after x seen zero (row ∷ rows) h = refl
absent_after x seen (suc room) (row ∷ rows) h = elim (Bool-cases (contains row.1.train_id seen)) [
  | inl b ↦ rw b (absent_after x seen (suc room) rows h)
  | inr b ↦ ground (
    arith,
    b,
    h,
    absent_after x (row.1.train_id ∷ seen) room rows (sees_on x row.1.train_id seen h),
    ap (λ y. contains y seen) {x = x} {y = row.1.train_id},
  )
]

dedupe_from-AreDistinct :
    (seen : List ℕ) (room : ℕ) (rows : List (ℕ × TrainSchedule))
    → AreDistinct (trains_of (dedupe_from seen room rows))
dedupe_from-AreDistinct seen room [] = tt
dedupe_from-AreDistinct seen zero (row ∷ rows) = tt
dedupe_from-AreDistinct seen (suc room) (row ∷ rows) =
    elim (Bool-cases (contains row.1.train_id seen)) [
      | inl b ↦ rw b (dedupe_from-AreDistinct seen (suc room) rows)
      | inr b ↦ rw b (
        absent_after row.1.train_id (row.1.train_id ∷ seen) room rows
            (sees_self row.1.train_id seen),
        dedupe_from-AreDistinct (row.1.train_id ∷ seen) room rows,
      )
    ]

length-dedupe_from-le :
    (seen : List ℕ) (room : ℕ) (rows : List (ℕ × TrainSchedule))
    → length (dedupe_from seen room rows) ≤ room
length-dedupe_from-le seen room [] = omega arith
length-dedupe_from-le seen zero (row ∷ rows) = omega arith
length-dedupe_from-le seen (suc room) (row ∷ rows) = ground (
  arith,
  length-dedupe_from-le seen (suc room) rows,
  length-dedupe_from-le (row.1.train_id ∷ seen) room rows,
)

-- Each train of a list is the train of one of the rows that are kept, unless the room is used up.
dedupe_from_keeps :
    (seen : List ℕ) (room x : ℕ) (rows : List (ℕ × TrainSchedule))
    → contains x (trains_of rows) ≡ true
    → contains x seen ≡ false
    → length (dedupe_from seen room rows) < room
    → contains x (trains_of (dedupe_from seen room rows)) ≡ true
dedupe_from_keeps seen room x [] h new lt = h
dedupe_from_keeps seen zero x (row ∷ rows) h new lt = absurd (omega (arith, lt))
dedupe_from_keeps seen (suc room) x (row ∷ rows) h new lt =
    elim (Bool-cases (contains row.1.train_id seen)) [
      | inl b ↦
          rw b (dedupe_from_keeps seen (suc room) x rows (not_head h b new) new (kept_lt lt b))
      | inr b ↦ rw b (elim (ℕ_discrete row.1.train_id x) [
        | yes e ↦ ground (arith, e)
        | no ne ↦ ground (
          arith,
          ne,
          dedupe_from_keeps (row.1.train_id ∷ seen) room x rows (ground (arith, h, ne))
              (ground (arith, new, ne)) (taken_lt lt b),
        )
      ])
    ]
  where
    not_head :
        contains x (row.1.train_id ∷ trains_of rows) ≡ true
        → contains row.1.train_id seen ≡ true
        → contains x seen ≡ false
        → contains x (trains_of rows) ≡ true
    not_head h b new = elim (ℕ_discrete row.1.train_id x) [
      | yes e ↦ absurd (ground (arith, b, new, ap (λ y. contains y seen) e))
      | no ne ↦ ground (arith, h, ne)
    ]

    kept_lt :
        length (dedupe_from seen (suc room) (row ∷ rows)) < suc room
        → contains row.1.train_id seen ≡ true
        → length (dedupe_from seen (suc room) rows) < suc room
    kept_lt lt b = ground (arith, lt, b)

    taken_lt :
        length (dedupe_from seen (suc room) (row ∷ rows)) < suc room
        → contains row.1.train_id seen ≡ false
        → length (dedupe_from (row.1.train_id ∷ seen) room rows) < room
    taken_lt lt b = ground (arith, lt, b)

-- `_dedupe_by_train` gives no train twice, at most the cap of rows, and a row of every train if there
-- are fewer.
pub dedupe_by_train_lem :
    (rows : List (ℕ × TrainSchedule)) (cap x : ℕ)
    → contains x (trains_of rows) ≡ true
    → AreDistinct (trains_of (dedupe_by_train rows cap))
      × (length (dedupe_by_train rows cap) ≤ cap)
      × ((contains x (trains_of (dedupe_by_train rows cap)) ≡ true)
          ⊎ (length (dedupe_by_train rows cap) ≡ cap))
unfolding dedupe_by_train
dedupe_by_train_lem rows cap x h = (
  dedupe_from-AreDistinct [] cap rows,
  length-dedupe_from-le [] cap rows,
  elim (Bool-cases (ltb (length (dedupe_from [] cap rows)) cap)) [
    | inl b ↦ inl (dedupe_from_keeps [] cap x rows h refl (ground (arith, b)))
    | inr b ↦ inr (ground (arith, b, length-dedupe_from-le [] cap rows))
  ],
)
