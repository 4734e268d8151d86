-- ===== src/Trains/Tracking/Eta.antt =====
-- Every station of a route is reached within the rounds of the loop.
use metroflow_ai_backend.Common.{
  ℕ, zero, suc, ◌+◌, ◌-◌, ◌*◌, ◌≤◌, ◌<◌, ◌≡◌, ◌≢◌, refl, true, ◌||◌, not, List, leb, ltb,
  if◌then◌else◌, ◌==◌, arith, is_some, length, Bool-cases, inl, inr,
}
use metroflow_ai_backend.Trains.Tracking.{
  Time, seconds_since_midnight, segment_gap_seconds, min_segment_seconds, day_seconds, Direction,
  forth, back, turn, advance, walk, walk_eta_seconds, segment_at, segment_index_for,
}

-- The gap between two arrivals, the second of them a time of day, is thirty seconds at least and a
-- day at most.
pub segment_gap_seconds-bounds :
    (start end : Time)
    → seconds_since_midnight end < day_seconds
    → (min_segment_seconds ≤ segment_gap_seconds start end)
      × (segment_gap_seconds start end ≤ day_seconds)
segment_gap_seconds-bounds start end h = (ground arith, ground arith)

-- The moves to a station from another one, once the direction is settled.
abbrev moves : ℕ → ℕ → ℕ → Direction → ℕ
moves n target pos forth = if ltb pos target then target - pos else (n - 1 - pos) + (n - 1 - target)
moves n target pos back = if ltb target pos then pos - target else pos + target

module _ {Duration : Type 0} (plus_segment : Duration → ℕ → Duration) where
  moves_fewer :
      (n target pos : ℕ) (direction : Direction)
      → pos < n
      → target < n
      → pos ≢ target
      → let d = turn n pos direction in
        let pos' = advance n d pos in
        (pos' < n)
        × ((if pos' == target then 0 else moves n target pos' (turn n pos' d)) + 1
            ≤ moves n target pos d)
  moves_fewer n target pos forth a b ne = ground arith
  moves_fewer n target pos back a b ne = ground arith

  walk_arrives :
      (rounds n target pos : ℕ) (segments : List ℕ) (total : Duration) (direction : Direction)
      → pos < n
      → target < n
      → pos ≢ target
      → moves n target pos (turn n pos direction) ≤ rounds
      → is_some (walk plus_segment rounds n segments target total pos direction) ≡ true
  unfolding walk
  walk_arrives zero n target pos segments total direction a b ne le = ground arith
  walk_arrives (suc rounds) n target pos segments total direction a b ne le =
      let d = turn n pos direction in
      let pos' = advance n d pos in
      let (inside, fewer) = moves_fewer n target pos direction a b ne in
      elim (Bool-cases (pos' == target)) [
        | inl there ↦ rw (there, walk) refl
        | inr away ↦
            let further =
              plus_segment total
                (segment_at (segment_index_for pos d (length segments)) segments) in
            rw (away, walk)
              (walk_arrives rounds n target pos' segments further d inside b (ground (arith, away))
                (ground (arith, away, fewer, le)))
      ]

  moves_few :
      (n target pos : ℕ) (d : Direction) → pos < n → target < n → moves n target pos d ≤ 2 * n
  moves_few n target pos forth a b = ground arith
  moves_few n target pos back a b = ground arith

  advance-lt : (n pos : ℕ) (d : Direction) → 1 ≤ n → advance n d pos < n
  advance-lt n pos forth h = ground arith
  advance-lt n pos back h = ground arith

  -- The walk finds an estimate exactly if the route has a station, the schedule has a segment and the
  -- target is a station of the route: the loop never gives up on a target that it could reach.
  pub walk_eta_seconds_arrives :
      (route segments : List ℕ) (from_index target : ℕ) (direction : Direction)
      (remaining : Duration)
      → is_some (walk_eta_seconds plus_segment route segments from_index direction remaining target)
        ≡ not (length route == 0 || length segments == 0 || leb (length route) target)
  unfolding walk_eta_seconds
  walk_eta_seconds_arrives route segments from_index target direction remaining =
      let n = length route in
      let pos = advance n direction from_index in
      elim (Bool-cases (n == 0 || length segments == 0 || leb n target)) [
        | inl no_way ↦ rw (no_way, walk_eta_seconds) refl
        | inr on_route ↦
            let inside : target < n = ground (arith, on_route) in
            let within : pos < n = advance-lt n from_index direction (omega arith) in
            elim (Bool-cases (pos == target)) [
              | inl there ↦ rw (on_route, walk_eta_seconds, there) refl
              | inr away ↦
                  rw (on_route, walk_eta_seconds, away)
                    (walk_arrives (2 * n) n target pos segments remaining direction within inside
                      (ground (arith, away))
                      (moves_few n target pos (turn n pos direction) within inside))
            ]
      ]
