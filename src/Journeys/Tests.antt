-- ===== src/Journeys/Tests.antt =====
-- Runs of the journey requests at concrete inputs.
use metroflow_ai_backend.Common.{ℕ, ◌+◌, ◌≡◌, refl, [], ◌∷◌, arith, ℕ_discrete}
use metroflow_ai_backend.Common.Dict.{lookup, insert}
use metroflow_ai_backend.Journeys.Crowd.{Station, count_at, apply_live_state_delta}
use metroflow_ai_backend.Journeys.Journey.{
  Db, ok, Failure, failure, already_active, stage_crowd_delta, commit_check_in, check_in,
  stage_arrival, check_out, opened, closed,
}
use metroflow_ai_backend.Journeys.Journey.Counts
use metroflow_ai_backend.Journeys.Journey.Requests
use metroflow_ai_backend.Journeys.Journey.History
use metroflow_ai_backend.Journeys.Journey.Races

program : Unit {0}
unfolding lookup insert apply_live_state_delta stage_crowd_delta commit_check_in check_in
    stage_arrival check_out ℕ_discrete
program = tt

abbrev fare_of : Station → Station → ℕ
fare_of source destination = 10

abbrev quiet : Db ℕ ℕ
quiet = record {
  stations = (1, record { id = 1; capacity = 100 }) ∷ (2, record { id = 2; capacity = 10 }) ∷ [];
  journeys = [];
  states = [];
  logs = [];
  next_id = 1;
}

filed : Requests.AreFiled ℕ_discrete fare_of quiet
unfolding program
filed id station e = ground (arith, e)

quiet-IsConsistent : Requests.IsConsistent ℕ_discrete fare_of quiet
unfolding program
quiet-IsConsistent = record {
  filed = filed;
  single = λ user. omega arith;
  counted = λ station. omega arith;
  apart = tt;
}

-- User 5 checks in at station 1.
abbrev busy : Db ℕ ℕ
busy = (check_in ℕ_discrete fare_of 50 5 1 2 quiet quiet).1

-- A second check-in that read the tables before the first one is refused by the index.
second_refused : (check_in ℕ_discrete fare_of 51 5 2 1 quiet busy) ≡ (failure already_active, busy)
unfolding program
second_refused = refl

visited : Requests.Reach ℕ_discrete fare_of quiet busy
unfolding program
visited = Requests.next Requests.here (Requests.checks_in 50 5 1 2 quiet filed refl)

busy-IsConsistent : Requests.IsConsistent ℕ_discrete fare_of busy
busy-IsConsistent = History.Reach-IsConsistent ℕ_discrete fare_of quiet-IsConsistent visited

Reach-IsConsistent_example : Requests.IsConsistent ℕ_discrete fare_of busy
Reach-IsConsistent_example =
    History.Reach-IsConsistent ℕ_discrete fare_of quiet-IsConsistent visited

check_out_moves_example :
    let j = opened ℕ_discrete fare_of 1 5 1 2 50 in
    let (result, db') = check_out ℕ_discrete fare_of 70 5 1 busy in
    (result ≡ ok (closed ℕ_discrete fare_of 70 10 j))
    × (count_at 1 db'.states + 1 ≡ count_at 1 busy.states + 0)
    × (Counts.active_from ℕ_discrete fare_of 1 db'.journeys + 1
        ≡ Counts.active_from ℕ_discrete fare_of 1 busy.journeys)
unfolding program
check_out_moves_example =
    History.check_out_moves ℕ_discrete fare_of 70 5 1 1 (opened ℕ_discrete fare_of 1 5 1 2 50)
      (record { id = 1; capacity = 100 }) (record { id = 2; capacity = 10 }) busy busy-IsConsistent
      refl refl refl refl refl

second_check_in_fails_example :
    (r : Failure) × (check_in ℕ_discrete fare_of 51 5 2 1 quiet busy ≡ (failure r, busy))
unfolding program
second_check_in_fails_example =
    Races.second_check_in_fails ℕ_discrete fare_of 50 51 5 1 2 2 1
      (opened ℕ_discrete fare_of 1 5 1 2 50) quiet quiet quiet refl
