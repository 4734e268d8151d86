-- ===== src/Trains/Simulator/Tests.antt =====
-- Ticks at concrete inputs.
use metroflow_ai_backend.Common.{
  ℕ, ◌+◌, ◌-◌, ◌*◌, ◌/◌, ◌≡◌, ◌⊎◌, refl, false, none, some, [], ◌∷◌, leb, ◌==◌, if◌then◌else◌,
  ℕ_discrete, pos, negsuc, arith,
}
use metroflow_ai_backend.Common.Dict.{lookup, insert}
use metroflow_ai_backend.Trains.Tracking.{forth, back}
use metroflow_ai_backend.Trains.Simulator.{
  Motor, TrainLocation, in_transit, Motion, Line, Tick, track_train, track_tick,
}
use metroflow_ai_backend.Trains.Simulator.Running
use metroflow_ai_backend.Trains.Simulator.Running.{IsRunning, IsReported}

program : Unit {0}
unfolding lookup insert ℕ_discrete track_train track_tick
program = tt

-- Hundredths; a speed below zero is taken as none.
abbrev motor : Motor ℕ ℕ
motor = record {
  at_rest = 0;
  speed_factor_for = λ delay. elim delay [
    | pos n ↦ some (1000 / (10 + n))
    | negsuc n ↦ if n == 9 then none else some (1000 / (9 - n))
  ];
  forward = λ ratio tick segment speed. ratio + tick * speed / segment;
  is_over = λ ratio. leb 100 ratio;
  is_at_rest = λ ratio. ratio == 0;
  eta_seconds_for = λ ratio segment speed. pos ((100 - ratio) * segment / speed);
}

abbrev line : Line
line = record {
  train_id = 4;
  route = 11 ∷ 12 ∷ 13 ∷ [];
  segments = 60 ∷ 120 ∷ [];
  delay_at = λ station. pos 0;
}

abbrev second : Motion
second = record { index = 1; direction = forth }

abbrev location : TrainLocation ℕ
location = record {
  station_id = 12;
  next_station_id = some 13;
  progress_ratio = 75;
  status = in_transit;
}

abbrev before : Tick ℕ
before = record {
  motions = (4, second) ∷ [];
  locations = (4, location) ∷ [];
  updates = [];
  has_failed = false;
}

before-IsRunning : IsRunning motor line second before
unfolding program
before-IsRunning = record { moves = refl; loc = location; placed = refl; at = refl; ahead = refl }

turned :
    lookup ℕ_discrete 4 (track_train motor 60 line before).motions
    ≡ some (record { index = 2; direction = back })
unfolding program
turned = refl

-- A delay of ten minutes early stops the tick of all trains.
early :
    (track_tick motor 60
      (record line { delay_at = λ station. negsuc 9 } ∷ [])
      before.motions
      before.locations).2
    ≡ []
unfolding program
early = refl

track_train-IsRunning_example :
    (after : Motion) × ((after ≡ second) ⊎ Running.IsNext 3 second after)
    × IsRunning motor line after (track_train motor 60 line before)
    × IsReported motor line after before (track_train motor 60 line before)
    × ((track_train motor 60 line before).has_failed ≡ false)
unfolding program
track_train-IsRunning_example =
    Running.track_train-IsRunning motor 60 line second before (λ s. (100, refl))
      (refl, (refl, (refl, tt))) (omega arith) (omega arith) before-IsRunning
