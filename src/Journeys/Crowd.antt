-- ===== src/Journeys/Crowd.antt =====
-- app/enums/crowd_level.py and the live state of app/services/crowd_service.py. A ratio of two
-- counts is compared with a bound by cross multiplication: for counts below 2^49 the quotient of
-- two floating-point numbers is below 0.15, 0.35 or 0.6 exactly if the fraction is.
pub mod Level
use metroflow_ai_backend.Common.{
  ℕ, ◌+◌, ◌-◌, ◌*◌, Bool, Option, none, some, List, [], ◌∷◌, ltb, leb, if◌then◌else◌, ◌==◌,
  ℕ_discrete,
}
use metroflow_ai_backend.Common.Dict.{Dict, lookup, insert}

pub data CrowdLevel : Type 0 where
  low moderate high critical : CrowdLevel

-- `CrowdLevel.from_ratio(count / capacity if capacity else 0)`
abbrev pub level_of : ℕ → ℕ → CrowdLevel
level_of count capacity =
    if capacity == 0
    then low
    else if ltb (100 * count) (15 * capacity)
    then low
    else if ltb (100 * count) (35 * capacity)
    then moderate
    else if ltb (10 * count) (6 * capacity)
    then high
    else critical

pub record Station : Type 0 where
  pub id : ℕ
  pub capacity : ℕ

-- A row of `station_crowd_state`.
pub record StationCrowdState : Type 0 where
  pub current_count : ℕ
  pub crowd_level : CrowdLevel

-- The table, by station.
abbrev pub CrowdStates : Type 0
CrowdStates = Dict ℕ StationCrowdState

-- A row of `crowd_logs`.
pub record CrowdLog : Type 0 where
  pub station_id : ℕ
  pub log_count : ℕ
  pub log_level : CrowdLevel

-- A change of a count: up or down.
pub data Delta : Type 0 where
  plus minus : ℕ → Delta

-- `max(0, count + delta)`
abbrev pub clamped : ℕ → Delta → ℕ
clamped count (plus n) = count + n
clamped count (minus n) = count - n

-- The count of a station; a station without a row counts as empty.
abbrev pub count_at : ℕ → CrowdStates → ℕ
count_at station states = elim (lookup ℕ_discrete station states) [
  | none ↦ 0
  | some row ↦ row.current_count
]

-- `apply_live_state_delta`: the new count and level, and the table. A missing row is inserted first.
unfoldable pub apply_live_state_delta : Station → Delta → CrowdStates → ℕ × CrowdLevel × CrowdStates
apply_live_state_delta station delta states =
    let new_count = clamped (count_at station.id states) delta in
    let level = level_of new_count station.capacity in
    (
      new_count,
      level,
      insert ℕ_discrete station.id (record { current_count = new_count; crowd_level = level })
          states,
    )

-- `upsert_live_state`
unfoldable pub upsert_live_state : ℕ → ℕ → CrowdLevel → CrowdStates → CrowdStates
upsert_live_state station count level states =
    insert ℕ_discrete station (record { current_count = count; crowd_level = level }) states
