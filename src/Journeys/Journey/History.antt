-- ===== src/Journeys/Journey/History.antt =====
-- Histories of requests, and what a check-out does to the counts.
use metroflow_ai_backend.Common.{
  ℕ, ◌+◌, ◌≡◌, ◌≢◌, refl, Bool, true, false, some, ◌==◌, ite, arith, Option-cases, Bool-cases, inl,
  inr, ℕ_discrete,
}
use metroflow_ai_backend.Common.Dict.{lookup}
use metroflow_ai_backend.Journeys.Crowd.{Station, count_at}
use metroflow_ai_backend.Journeys.Journey.{
  Journey, Db, ok, has_active_status, journey_by_id, check_out, closed,
}
use metroflow_ai_backend.Journeys.Journey.Counts.{
  one_if, active_from, active_from-close, count_at-stage_arrival,
}
use metroflow_ai_backend.Journeys.Journey.Requests.{
  IsConsistent, Step, checks_in, checks_out, Reach, here, next, check_in-IsConsistent,
  arrived-IsConsistent, apart-journey_by_id,
}

module _ {User Fare : Type 0} (dec : Discrete User) (fare_of : Station → Station → Fare) where
  -- The journey is the user's own.
  abbrev pub is_own : User → Journey User Fare → Bool
  is_own user j = ite (dec j.user_id user) true false

  check_out-IsConsistent :
      (now : ℕ) (user : User) (id : ℕ) (db : Db User Fare)
      → IsConsistent dec fare_of db
      → IsConsistent dec fare_of (check_out dec fare_of now user id db).1
  unfolding check_out
  check_out-IsConsistent now user id db h =
      elim (Option-cases (journey_by_id dec fare_of id db.journeys)) [
        | inl missing ↦ rw (missing, check_out) h
        | inr (j, found) ↦ elim (Bool-cases (is_own user j)) [
          | inr foreign ↦ rw (found, check_out, foreign) h
          | inl own ↦ elim (Bool-cases (has_active_status dec fare_of j)) [
            | inr over ↦ rw (found, check_out, own, over) h
            | inl active ↦ elim (Option-cases (lookup ℕ_discrete j.source_station_id db.stations)) [
              | inl gone ↦ rw (found, check_out, own, active, gone) h
              | inr (source, from) ↦
                  elim (Option-cases (lookup ℕ_discrete j.destination_station_id db.stations)) [
                    | inl gone ↦ rw (found, check_out, own, active, from, gone) h
                    | inr (destination, to) ↦
                        rw (found, check_out, own, active, from, to)
                          (arrived-IsConsistent dec fare_of now id (fare_of source destination) j
                            source destination db found active from to h)
                  ]
            ]
          ]
        ]
      ]

  Step-IsConsistent :
      (db db' : Db User Fare)
      → Step dec fare_of db db'
      → IsConsistent dec fare_of db
      → IsConsistent dec fare_of db'
  Step-IsConsistent db db' (checks_in now user source destination read filed e) h =
      rw e (check_in-IsConsistent dec fare_of now user source destination read db filed h)
  Step-IsConsistent db db' (checks_out now user id e) h =
      rw e (check_out-IsConsistent now user id db h)

  -- After any sequence of check-ins and check-outs by any users, where each check-in may have read
  -- any earlier state of the tables, every user has at most one active journey, the two ends of every
  -- journey differ, and the count of a station is at least the number of active journeys from it.
  pub Reach-IsConsistent :
      {db db' : Db User Fare}
      → IsConsistent dec fare_of db
      → Reach dec fare_of db db'
      → IsConsistent dec fare_of db'
  Reach-IsConsistent h here = h
  Reach-IsConsistent h (next {db'} {db''} r s) =
      Step-IsConsistent db' db'' s (Reach-IsConsistent h r)

  -- A check-out of a user's own active journey between known stations, on valid tables, succeeds.
  -- It moves one person from the source's count to the destination's, where the source's was not
  -- zero, so that nothing is lost where counts are kept from being negative.
  pub check_out_moves :
      (now : ℕ) (user : User) (id at : ℕ) (j : Journey User Fare) (source destination : Station)
      (db : Db User Fare)
      → IsConsistent dec fare_of db
      → journey_by_id dec fare_of id db.journeys ≡ some j
      → is_own user j ≡ true
      → has_active_status dec fare_of j ≡ true
      → lookup ℕ_discrete j.source_station_id db.stations ≡ some source
      → lookup ℕ_discrete j.destination_station_id db.stations ≡ some destination
      → let (result, db') = check_out dec fare_of now user id db in
        (result ≡ ok (closed dec fare_of now (fare_of source destination) j))
        × (count_at at db'.states + one_if dec fare_of (j.source_station_id == at)
            ≡ count_at at db.states + one_if dec fare_of (j.destination_station_id == at))
        × (active_from dec fare_of at db'.journeys + one_if dec fare_of (j.source_station_id == at)
            ≡ active_from dec fare_of at db.journeys)
  unfolding check_out
  check_out_moves now user id at j source destination db h found own active from to =
      let fare = fare_of source destination in
      let here_from = h.filed j.source_station_id source from in
      let here_to = h.filed j.destination_station_id destination to in
      let ne : source.id ≢ destination.id = ground (
        arith,
        apart-journey_by_id dec fare_of id j db.journeys found h.apart,
        here_from,
        here_to,
      ) in
      let left = active_from-close dec fare_of at id now fare j db.journeys found active in
      rw (found, check_out, own, active, from, to)
        (
          refl,
          ground (
            arith,
            here_from,
            here_to,
            h.counted at,
            left,
            count_at-stage_arrival dec fare_of at source destination db ne,
          ),
          left,
        )
