-- ===== src/Trains/Simulator/Running.antt =====
-- How a train moves along its route, tick by tick.
use metroflow_ai_backend.Common.{
  ℕ, zero, suc, ◌+◌, ◌-◌, ◌≤◌, ◌<◌, ◌≡◌, ◌≢◌, ◌⊎◌, inl, inr, refl, sym, ap, ◌∙◌, Bool, true, false,
  ◌&&◌, ◌||◌, some, List, [], ◌∷◌, ◌++◌, ltb, if◌then◌else◌, ◌==◌, length, ℕ_discrete, Bool-cases,
  arith,
}
use metroflow_ai_backend.Common.Dict.{lookup, insert, lookup-insert_self}
use metroflow_ai_backend.Trains.Tracking.{
  Direction, forth, back, segment_index_for, segment_at, advance, contains,
}
use metroflow_ai_backend.Trains.Tracking.Routes.{AreDistinct}
use metroflow_ai_backend.Trains.Simulator.{
  Motor, at_station, in_transit, TrainLocation, Motion, Line, TrainUpdate, Tick, station_at,
  index_of, arrive, motion_of, report, move, track_location, placed_motion, track_train,
}

-- A train runs along its route if the station ahead is on the route.
abbrev pub is_ahead : ℕ → Motion → Bool
is_ahead n m =
    ltb m.index n && (elim m.direction [ forth ↦ ltb (m.index + 1) n | back ↦ ltb 0 m.index ])

-- The station ahead.
abbrev pub next_index : Motion → ℕ
next_index m = elim m.direction [ forth ↦ m.index + 1 | back ↦ m.index - 1 ]

pub station_at_found :
    (i : ℕ) (route : List ℕ) → i < length route → (s : ℕ) × (station_at i route ≡ some s)
station_at_found i [] h = absurd (omega (arith, h))
station_at_found zero (s ∷ route) h = (s, refl)
station_at_found (suc i) (s ∷ route) h = station_at_found i route (omega (arith, h))

station_at_absent :
    (i s x : ℕ) (route : List ℕ) → station_at i route ≡ some s → contains x route ≡ false → s ≢ x
station_at_absent i s x [] e h = λ q. ground (arith, e)
station_at_absent zero s x (y ∷ route) e h = λ q. ground (arith, e, h, q)
station_at_absent (suc i) s x (y ∷ route) e h = elim (ℕ_discrete y x) [
  | yes q ↦ absurd (ground (arith, q, h))
  | no ne ↦ station_at_absent i s x route e (ground (arith, ne, h))
]

index_of-station_at :
    (i s : ℕ) (route : List ℕ)
    → AreDistinct route
    → station_at i route ≡ some s
    → index_of s route ≡ some i
index_of-station_at i s [] h e = absurd (ground (arith, e))
index_of-station_at zero s (y ∷ route) h e = ground (arith, e)
index_of-station_at (suc i) s (y ∷ route) h e =
    let differs : y ≢ s = λ q. station_at_absent i s y route e h.0 (sym q) in
    ground (arith, differs, index_of-station_at i s route h.1 e)

Direction-cases : (d : Direction) → (d ≡ forth) ⊎ (d ≡ back)
Direction-cases forth = inl refl
Direction-cases back = inr refl

arrive_ahead : (n : ℕ) (m : Motion) → 2 ≤ n → is_ahead n m ≡ true → is_ahead n (arrive n m) ≡ true
arrive_ahead n m two h = elim (Direction-cases m.direction) [
  | inl d ↦ ground (arith, d, two, h)
  | inr d ↦ ground (arith, d, two, h)
]

-- The motion at the station ahead, where the train turns if the route ends there.
abbrev pub IsNext : ℕ → Motion → Motion → Type 0
IsNext n m after =
    (after.index ≡ next_index m)
    × (after.direction ≡ (
        if next_index m == n - 1 then back else if next_index m == 0 then forth else m.direction))

arrive-IsNext : (n : ℕ) (m : Motion) → 2 ≤ n → is_ahead n m ≡ true → IsNext n m (arrive n m)
arrive-IsNext n m two h = elim (Direction-cases m.direction) [
  | inl d ↦ (ground (arith, d, two, h), ground (arith, d, two, h))
  | inr d ↦ (ground (arith, d, two, h), ground (arith, d, two, h))
]

advance_ahead :
    (n : ℕ) (m : Motion)
    → is_ahead n m ≡ true
    → (advance n m.direction m.index ≡ next_index m) × (next_index m < n) × (m.index < n)
advance_ahead n m h = elim (Direction-cases m.direction) [
  | inl d ↦ (ground (arith, d, h), ground (arith, d, h), ground (arith, h))
  | inr d ↦ (ground (arith, d, h), ground (arith, d, h), ground (arith, h))
]

module _ {Ratio Speed : Type 0} (motor : Motor Ratio Speed) where
  -- A train that runs along its route: its row and its motion agree, and there is a station ahead.
  pub record IsRunning (line : Line) (m : Motion) (t : Tick Ratio) : Type 0 where
    pub moves : lookup ℕ_discrete line.train_id t.motions ≡ some m
    pub loc : TrainLocation Ratio
    pub placed : lookup ℕ_discrete line.train_id t.locations ≡ some loc
    pub at : station_at m.index line.route ≡ some loc.station_id
    pub ahead : is_ahead (length line.route) m ≡ true

  -- The last update is of a train's place and the station ahead.
  abbrev pub IsReported : Line → Motion → Tick Ratio → Tick Ratio → Type 0
  IsReported line m before after =
      (u : TrainUpdate Ratio) × (after.updates ≡ before.updates ++ u ∷ [])
      × (u.train ≡ line.train_id)
      × (station_at m.index line.route ≡ some u.from_station_id)
      × (station_at (next_index m) line.route ≡ some u.to_station_id)
      × (u.heading ≡ m.direction)

  -- Every delay of the line has a speed.
  abbrev pub HasSpeeds : Line → Type 0
  HasSpeeds line = (s : ℕ) → (v : Speed) × (motor.speed_factor_for (line.delay_at s) ≡ some v)

  report_lem :
      (line : Line) (m : Motion) (progress : Ratio) (t : Tick Ratio)
      → HasSpeeds line
      → lookup ℕ_discrete line.train_id t.motions ≡ some m
      → is_ahead (length line.route) m ≡ true
      → IsRunning line m (report motor line m progress t)
        × IsReported line m t (report motor line m progress t)
        × ((report motor line m progress t).has_failed ≡ t.has_failed)
  report_lem line m progress t speeds moves ahead =
      let (next, next_lt, here_lt) = advance_ahead (length line.route) m ahead in
      let (from, from_at) = station_at_found m.index line.route here_lt in
      let (to, to_at) = station_at_found (next_index m) line.route next_lt in
      let (v, speed) = speeds from in
      let there : station_at (advance (length line.route) m.direction m.index) line.route
          ≡ some to =
        ap (λ i. station_at i line.route) next ∙ to_at in
      let row : TrainLocation Ratio = record {
        station_id = from;
        next_station_id = some to;
        progress_ratio = progress;
        status = if motor.is_at_rest progress && (from == to) then at_station else in_transit;
      } in
      rw (report, from_at, there, speed)
        (
          record {
            moves = moves;
            loc = row;
            placed = lookup-insert_self ℕ_discrete line.train_id row t.locations;
            at = from_at;
            ahead = ahead;
          },
          (_, refl, refl, refl, to_at, refl),
          refl,
        )

  move_lem :
      (line : Line) (m : Motion) (progress : Ratio) (t : Tick Ratio)
      → HasSpeeds line
      → 2 ≤ length line.route
      → lookup ℕ_discrete line.train_id t.motions ≡ some m
      → is_ahead (length line.route) m ≡ true
      → (after : Motion) × ((after ≡ m) ⊎ IsNext (length line.route) m after)
        × IsRunning line after (move motor line m progress t)
        × IsReported line after t (move motor line m progress t)
        × ((move motor line m progress t).has_failed ≡ t.has_failed)
  move_lem line m progress t speeds two moves ahead = elim (Bool-cases (motor.is_over progress)) [
    | inl b ↦
        let next = arrive (length line.route) m in
        let turned : Tick Ratio = record t {
          motions = insert ℕ_discrete line.train_id next t.motions;
        } in
        let (runs, reported, goes) =
          report_lem line next motor.at_rest turned speeds
            (lookup-insert_self ℕ_discrete line.train_id next t.motions)
            (arrive_ahead (length line.route) m two ahead) in
        rw b (next, inr (arrive-IsNext (length line.route) m two ahead), runs, reported, goes)
    | inr b ↦
        let (runs, reported, goes) = report_lem line m progress t speeds moves ahead in
        rw b (m, inl refl, runs, reported, goes)
  ]

  -- A tick of a train that runs along its route, with the speed of the delay at its station.
  track_train-move :
      (tick_seconds : ℕ) (line : Line) (m : Motion) (t : Tick Ratio) (v : Speed)
      → AreDistinct line.route
      → 2 ≤ length line.route
      → 0 < length line.segments
      → (h : IsRunning line m t) → motor.speed_factor_for (line.delay_at h.loc.station_id) ≡ some v
      → track_train motor tick_seconds line t
        ≡ move motor line m
            (motor.forward h.loc.progress_ratio tick_seconds
              (segment_at
                (segment_index_for m.index m.direction (length line.segments))
                line.segments)
              v)
            (record t { motions = insert ℕ_discrete line.train_id m t.motions })
  unfolding track_train
  track_train-move tick_seconds line m t v distinct two segments h speed =
      let goes : (ltb (length line.route) 2 || (length line.segments == 0)) ≡ false =
        ground (arith, two, segments) in
      let known : motion_of line.train_id t.motions ≡ m = ground (arith, h.moves) in
      let place = index_of-station_at m.index h.loc.station_id line.route distinct h.at in
      let stays : placed_motion motor line h.loc m ≡ m = rw (placed_motion, place) refl in
      let same = ap (placed_motion motor line h.loc) known ∙ stays in
      let entered : track_train motor tick_seconds line t
          ≡ track_location motor tick_seconds line
              (placed_motion motor line h.loc (motion_of line.train_id t.motions)) h.loc t =
        rw (goes, h.placed) refl in
      entered
      ∙ ap (λ k. track_location motor tick_seconds line k h.loc t) same
      ∙ rw (track_location, h.at, speed) refl

  -- A train that runs along its route goes on so after a tick: it is at its station, or at the one
  -- next to it in its direction, where it turns if the route ends there, and the tick reports its place and the station ahead,
  -- and does not fail. The route has no station twice, and every delay has a speed.
  pub track_train-IsRunning :
      (tick_seconds : ℕ) (line : Line) (m : Motion) (t : Tick Ratio)
      → HasSpeeds line
      → AreDistinct line.route
      → 2 ≤ length line.route
      → 0 < length line.segments
      → IsRunning line m t
      → (after : Motion) × ((after ≡ m) ⊎ IsNext (length line.route) m after)
        × IsRunning line after (track_train motor tick_seconds line t)
        × IsReported line after t (track_train motor tick_seconds line t)
        × ((track_train motor tick_seconds line t).has_failed ≡ t.has_failed)
  track_train-IsRunning tick_seconds line m t speeds distinct two segments h =
      let (v, speed) = speeds h.loc.station_id in
      rw (track_train-move tick_seconds line m t v distinct two segments h speed) (
        move_lem line m _ _ speeds two (lookup-insert_self ℕ_discrete line.train_id m t.motions)
          h.ahead)
