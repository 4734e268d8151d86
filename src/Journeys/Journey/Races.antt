-- ===== src/Journeys/Journey/Races.antt =====
-- Check-ins of one user that run at the same time.
use metroflow_ai_backend.Common.{
  ℕ, ◌≡◌, ◌∙◌, ◌⊎◌, refl, true, List, [], ◌∷◌, ◌++◌, arith, is_some, Option-cases, Bool-cases, inl,
  inr, ℕ_discrete, ◌==◌,
}
use metroflow_ai_backend.Common.Dict.{lookup}
use metroflow_ai_backend.Journeys.Crowd.{Station}
use metroflow_ai_backend.Journeys.Journey.{
  Journey, Db, ok, Failure, failure, already_active, stations_same, station_not_found,
  is_active_for, active_journey_for_user, commit_check_in, check_in, opened,
}

module _ {User Fare : Type 0} (dec : Discrete User) (fare_of : Station → Station → Fare) where
  taken-append_one :
      (user : User) (j : Journey User Fare) (js : List (Journey User Fare))
      → is_active_for dec fare_of user j ≡ true
      → is_some (active_journey_for_user dec fare_of user (js ++ j ∷ [])) ≡ true
  taken-append_one user j [] h = ground (arith, h)
  taken-append_one user j (k ∷ js) h = ground (arith, taken-append_one user j js h)

  -- A check-in fails before its commit, or comes to it.
  check_in-cases :
      (now : ℕ) (user : User) (source_id destination_id : ℕ) (read db : Db User Fare)
      → ((r : Failure) × (check_in dec fare_of now user source_id destination_id read db
            ≡ (failure r, db)))
        ⊎ ((source : Station) × (destination : Station) × (check_in dec fare_of now user source_id
                destination_id read db
              ≡ commit_check_in dec fare_of now user source destination db))
  unfolding check_in
  check_in-cases now user source_id destination_id read db =
      elim (Option-cases (lookup ℕ_discrete source_id read.stations)) [
        | inl missing ↦ inl (station_not_found, rw (missing, check_in) refl)
        | inr (source, from) ↦
            elim (Option-cases (lookup ℕ_discrete destination_id read.stations)) [
              | inl missing ↦ inl (station_not_found, rw (from, check_in, missing) refl)
              | inr (destination, to) ↦ elim (Bool-cases (source_id == destination_id)) [
                | inl same ↦ inl (stations_same, rw (from, check_in, to, same) refl)
                | inr differ ↦
                    elim (Bool-cases
                      (is_some (active_journey_for_user dec fare_of user read.journeys))) [
                        | inl taken ↦
                            inl (already_active, rw (from, check_in, to, differ, taken) refl)
                        | inr free ↦
                            inr (source, destination, rw (from, check_in, to, differ, free) refl)
                      ]
              ]
            ]
      ]

  commit_takes :
      (now : ℕ) (user : User) (source destination : Station) (db : Db User Fare)
      → is_some (
          active_journey_for_user dec fare_of user
            (commit_check_in dec fare_of now user source destination db).1.journeys)
        ≡ true
  unfolding commit_check_in
  commit_takes now user source destination db = ground (
    arith,
    taken-append_one user (opened dec fare_of db.next_id user source.id destination.id now)
        db.journeys,
  )

  -- After a check-in that succeeds the user has an active journey.
  check_in_takes :
      (now : ℕ) (user : User) (source destination : ℕ) (j : Journey User Fare)
      (read db : Db User Fare)
      → (check_in dec fare_of now user source destination read db).0 ≡ ok j
      → is_some (
          active_journey_for_user dec fare_of user
            (check_in dec fare_of now user source destination read db).1.journeys)
        ≡ true
  check_in_takes now user source destination j read db h =
      elim (check_in-cases now user source destination read db) [
        | inl (r, failed) ↦ cc (h, failed)
        | inr (from, to, commits) ↦ rw commits (commit_takes now user from to db)
      ]

  commit_refused :
      (now : ℕ) (user : User) (source destination : Station) (db : Db User Fare)
      → is_some (active_journey_for_user dec fare_of user db.journeys) ≡ true
      → commit_check_in dec fare_of now user source destination db ≡ (failure already_active, db)
  unfolding commit_check_in
  commit_refused now user source destination db taken = rw (taken, commit_check_in) refl

  refused :
      (now : ℕ) (user : User) (source destination : ℕ) (read db : Db User Fare)
      → is_some (active_journey_for_user dec fare_of user db.journeys) ≡ true
      → (r : Failure) × (check_in dec fare_of now user source destination read db ≡ (failure r, db))
  refused now user source destination read db taken =
      elim (check_in-cases now user source destination read db) [
        | inl failed ↦ failed
        | inr (from, to, commits) ↦
            (already_active, commits ∙ commit_refused now user from to db taken)
      ]

  -- Two check-ins of one user of which the second commits right after the first never both
  -- succeed, whatever the second one read: if the first succeeds, the second fails and changes
  -- nothing.
  pub second_check_in_fails :
      (now later : ℕ) (user : User) (source destination source' destination' : ℕ)
      (j : Journey User Fare) (read read' db : Db User Fare)
      → (check_in dec fare_of now user source destination read db).0 ≡ ok j
      → let db' = (check_in dec fare_of now user source destination read db).1 in
        (r : Failure) × (check_in dec fare_of later user source' destination' read' db'
          ≡ (failure r, db'))
  second_check_in_fails now later user source destination source' destination' j read read' db h =
      refused later user source' destination' read'
        (check_in dec fare_of now user source destination read db).1
        (check_in_takes now user source destination j read db h)
