-- ===== src/Trains/Tracking/Routes.antt =====
-- The routes that are made of the schedules.
use mathlib.Core.Path.{subst}
use metroflow_ai_backend.Common.{
  sym, ◌∙◌, if_pos, if_neg, ℕ, ◌-◌, ◌≡◌, refl, true, false, List, [], ◌∷◌, ◌++◌, if◌then◌else◌, ite,
  arith, length, length-append, Bool-cases, inl, inr, ℕ_discrete,
}
use metroflow_ai_backend.Common.Dict.{Dict, insert, lookup-insert}
use metroflow_ai_backend.Trains.Tracking.{Time, Stop, Route, contains, route_of, add_stops, gaps}

-- No station stands twice.
abbrev pub AreDistinct : List ℕ → Type 0
AreDistinct [] = Unit
AreDistinct (x ∷ xs) = (contains x xs ≡ false) × AreDistinct xs

-- A route visits a station once, and has an arrival time for each.
pub record IsRoute (r : Route) : Type 0 where
  pub distinct : AreDistinct r.0
  pub timed : length r.1 ≡ length r.0

contains-append_one :
    (x y : ℕ) (xs : List ℕ)
    → contains x (xs ++ y ∷ []) ≡ (if contains x xs then true else ite (ℕ_discrete y x) true false)
contains-append_one x y [] = ground arith
contains-append_one x y (z ∷ xs) = ground (arith, contains-append_one x y xs)

append_one-AreDistinct :
    (x : ℕ) (xs : List ℕ) → contains x xs ≡ false → AreDistinct xs → AreDistinct (xs ++ x ∷ [])
append_one-AreDistinct x [] new h = (refl, tt)
append_one-AreDistinct x (y ∷ xs) new h = (
  ground (arith, new, h.0, contains-append_one y x xs),
  append_one-AreDistinct x xs (ground (arith, new)) h.1,
)

length-gaps : (times : List Time) → length (gaps times) ≡ length times - 1
length-gaps [] = refl
length-gaps (t ∷ []) = omega arith
length-gaps (t ∷ u ∷ times) = omega (arith, length-gaps (u ∷ times))

-- The route and the times of a train after one of its stops.
abbrev extended : Stop → Route → Route
extended s (route, times) =
    if contains s.station_id route
    then (route, times)
    else (route ++ s.station_id ∷ [], times ++ s.arrival_time ∷ [])

extended-IsRoute : (s : Stop) (r : Route) → IsRoute r → IsRoute (extended s r)
extended-IsRoute s (route, times) h = elim (Bool-cases (contains s.station_id route)) [
  | inl old ↦ rw old h
  | inr new ↦ rw new (record {
    distinct = append_one-AreDistinct s.station_id route new h.distinct;
    timed = omega (
      arith,
      h.timed,
      length-append route (s.station_id ∷ []),
      length-append times (s.arrival_time ∷ []),
    );
  })
]

route_of-insert :
    (train t : ℕ) (r : Route) (routes : Dict ℕ Route)
    → route_of t (insert ℕ_discrete train r routes) ≡ ite (ℕ_discrete train t) r (route_of t routes)
route_of-insert train t r routes = ground (arith, lookup-insert ℕ_discrete train t r routes)

-- Whatever the rows of the schedules and their order, every train's route visits a station at most
-- once, and has one segment less than it has stations, if it has any: if this holds of the routes so
-- far, it holds after the rows are added.
pub add_stops-IsRoute :
    (stops : List Stop) (routes : Dict ℕ Route) (train : ℕ)
    → ((t : ℕ) → IsRoute (route_of t routes))
    → let (route, times) = route_of train (add_stops stops routes) in
      AreDistinct route × (length times ≡ length route) × (length (gaps times) ≡ length route - 1)
unfolding add_stops
add_stops-IsRoute [] routes train h = (
  (h train).distinct,
  (h train).timed,
  omega (arith, (h train).timed, length-gaps (route_of train routes).1),
)
add_stops-IsRoute (s ∷ stops) routes train h =
    let r = extended s (route_of s.train_id routes) in
    add_stops-IsRoute stops (insert ℕ_discrete s.train_id r routes) train (λ t.
      elim (ℕ_discrete s.train_id t) [
        | yes same ↦
            subst IsRoute
              (sym (
                route_of-insert s.train_id t r routes
                ∙ if_pos (ℕ_discrete s.train_id t) same r (route_of t routes)))
              (extended-IsRoute s (route_of s.train_id routes) (h s.train_id))
        | no other ↦
            subst IsRoute
              (sym (
                route_of-insert s.train_id t r routes
                ∙ if_neg (ℕ_discrete s.train_id t) other r (route_of t routes)))
              (h t)
      ])
