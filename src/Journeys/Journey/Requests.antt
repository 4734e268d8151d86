-- ===== src/Journeys/Journey/Requests.antt =====
-- What the two requests keep, in any order and on any stale reads.
use metroflow_ai_backend.Common.{
  ℕ, ◌≤◌, ◌≡◌, ◌≢◌, true, some, All, List, [], ◌∷◌, ◌++◌, ◌==◌, arith, is_some, Option-cases,
  Bool-cases, inl, inr, ℕ_discrete,
}
use metroflow_ai_backend.Common.Dict.{lookup}
use metroflow_ai_backend.Journeys.Crowd.{Station, plus, count_at}
use metroflow_ai_backend.Journeys.Journey.{
  Journey, Db, has_active_status, active_journey_for_user, stage_crowd_delta, stage_arrival,
  journey_by_id, close_by_id, commit_check_in, check_in, check_out, opened,
}
use metroflow_ai_backend.Journeys.Journey.Counts.{
  active_of, active_from, active_of-append_one, active_from-append_one, active_journey_none,
  active_of-close-le, active_from-close, count_at-stage_crowd_delta, count_at-stage_arrival,
}

module _ {User Fare : Type 0} (dec : Discrete User) (fare_of : Station → Station → Fare) where
  -- The stations are filed under their ids.
  abbrev pub AreFiled : Db User Fare → Type 0
  AreFiled db =
      (id : ℕ) (station : Station)
      → lookup ℕ_discrete id db.stations ≡ some station
      → station.id ≡ id

  abbrev pub HasApart : Journey User Fare → Type 0
  HasApart j = j.source_station_id ≢ j.destination_station_id

  pub record IsConsistent (db : Db User Fare) : Type 0 where
    pub filed : AreFiled db
    -- Every user has at most one active journey.
    pub single : (user : User) → active_of dec fare_of user db.journeys ≤ 1
    -- Everyone who is under way from a station was counted there.
    pub counted :
        (station : ℕ) → active_from dec fare_of station db.journeys ≤ count_at station db.states
    -- The ends of a journey differ.
    pub apart : All HasApart db.journeys

  -- A request of a user: a check-in on any earlier state of the tables, or a check-out.
  pub data Step (db db' : Db User Fare) : Type 0 where
    checks_in :
        (now : ℕ) (user : User) (source destination : ℕ) (read : Db User Fare)
        → AreFiled read
        → db' ≡ (check_in dec fare_of now user source destination read db).1
        → Step db db'
    checks_out :
        (now : ℕ) (user : User) (id : ℕ)
        → db' ≡ (check_out dec fare_of now user id db).1
        → Step db db'

  pub data Reach (db : Db User Fare) : Db User Fare → Type 0 where
    here : Reach db db
    next : {db' db'' : Db User Fare} → Reach db db' → Step db' db'' → Reach db db''

  apart-append_one :
      (j : Journey User Fare) (js : List (Journey User Fare))
      → HasApart j
      → All HasApart js
      → All HasApart (js ++ j ∷ [])
  apart-append_one j [] ne h = (ne, tt)
  apart-append_one j (k ∷ js) ne h = (h.0, apart-append_one j js ne h.1)

  apart-close :
      (id now : ℕ) (fare : Fare) (js : List (Journey User Fare))
      → All HasApart js
      → All HasApart (close_by_id dec fare_of id now fare js)
  apart-close id now fare [] h = tt
  apart-close id now fare (j ∷ js) h = elim (Bool-cases (j.id == id)) [
    | inl found ↦ rw found h
    | inr other ↦ rw other (h.0, apart-close id now fare js h.1)
  ]

  pub apart-journey_by_id :
      (id : ℕ) (j : Journey User Fare) (js : List (Journey User Fare))
      → journey_by_id dec fare_of id js ≡ some j
      → All HasApart js
      → HasApart j
  apart-journey_by_id id j [] e h = cc (e)
  apart-journey_by_id id j (k ∷ js) e h = elim (Bool-cases (k.id == id)) [
    | inl found ↦ λ same. h.0 (cc (rw found at e, same))
    | inr other ↦ apart-journey_by_id id j js (rw other at e) h.1
  ]

  pub commit_check_in-IsConsistent :
      (now : ℕ) (user : User) (source destination : Station) (db : Db User Fare)
      → source.id ≢ destination.id
      → IsConsistent db
      → IsConsistent (commit_check_in dec fare_of now user source destination db).1
  unfolding commit_check_in stage_crowd_delta
  commit_check_in-IsConsistent now user source destination db ne h =
      elim (Bool-cases (is_some (active_journey_for_user dec fare_of user db.journeys))) [
        | inl taken ↦ rw (taken, commit_check_in) h
        | inr free ↦
            let j : Journey User Fare =
              opened dec fare_of db.next_id user source.id destination.id now in
            rw (free, commit_check_in)
              (record {
                filed = h.filed;
                single = λ other. ground (
                  arith,
                  h.single other,
                  active_journey_none dec fare_of user db.journeys free,
                  active_of-append_one dec fare_of other j db.journeys,
                );
                counted = λ station. ground (
                  arith,
                  h.counted station,
                  active_from-append_one dec fare_of station j db.journeys,
                  count_at-stage_crowd_delta dec fare_of station source (plus 1) db,
                );
                apart = apart-append_one j db.journeys ne h.apart;
              })
      ]

  pub check_in-IsConsistent :
      (now : ℕ) (user : User) (source_id destination_id : ℕ) (read db : Db User Fare)
      → AreFiled read
      → IsConsistent db
      → IsConsistent (check_in dec fare_of now user source_id destination_id read db).1
  unfolding check_in
  check_in-IsConsistent now user source_id destination_id read db filed h =
      elim (Option-cases (lookup ℕ_discrete source_id read.stations)) [
        | inl missing ↦ rw (missing, check_in) h
        | inr (source, from) ↦
            elim (Option-cases (lookup ℕ_discrete destination_id read.stations)) [
              | inl missing ↦ rw (from, check_in, missing) h
              | inr (destination, to) ↦ elim (Bool-cases (source_id == destination_id)) [
                | inl same ↦ rw (from, check_in, to, same) h
                | inr differ ↦
                    let ne : source.id ≢ destination.id = ground (
                      arith,
                      differ,
                      filed source_id source from,
                      filed destination_id destination to,
                    ) in
                    elim (Bool-cases
                      (is_some (active_journey_for_user dec fare_of user read.journeys))) [
                        | inl taken ↦ rw (from, check_in, to, differ, taken) h
                        | inr free ↦
                            rw (from, check_in, to, differ, free)
                              (commit_check_in-IsConsistent now user source destination db ne h)
                      ]
              ]
            ]
      ]

  -- What a check-out changes when nothing stops it.
  pub arrived-IsConsistent :
      (now id : ℕ) (fare : Fare) (j : Journey User Fare) (source destination : Station)
      (db : Db User Fare)
      → journey_by_id dec fare_of id db.journeys ≡ some j
      → has_active_status dec fare_of j ≡ true
      → lookup ℕ_discrete j.source_station_id db.stations ≡ some source
      → lookup ℕ_discrete j.destination_station_id db.stations ≡ some destination
      → IsConsistent db
      → IsConsistent (record (stage_arrival dec fare_of source destination db) {
        journeys = close_by_id dec fare_of id now fare db.journeys;
      })
  unfolding stage_arrival stage_crowd_delta
  arrived-IsConsistent now id fare j source destination db found active from to h =
      let ne : source.id ≢ destination.id = ground (
        arith,
        apart-journey_by_id id j db.journeys found h.apart,
        h.filed j.source_station_id source from,
        h.filed j.destination_station_id destination to,
      ) in
      record {
        filed = ground (arith, h.filed);
        single = λ user.
            omega
              (arith, h.single user, active_of-close-le dec fare_of user id now fare db.journeys);
        counted = λ station. ground (
          arith,
          h.counted station,
          h.filed j.source_station_id source from,
          active_from-close dec fare_of station id now fare j db.journeys found active,
          count_at-stage_arrival dec fare_of station source destination db ne,
        );
        apart = apart-close id now fare db.journeys h.apart;
      }
