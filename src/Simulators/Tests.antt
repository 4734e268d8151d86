-- ===== src/Simulators/Tests.antt =====
-- Runs of the replay at concrete inputs.
use metroflow_ai_backend.Common.{
  ℕ, zero, suc, ◌≡◌, ◌++◌, refl, some, List, [], ◌∷◌, map, arith, ℕ_discrete,
}
use metroflow_ai_backend.Common.Dict.{lookup, insert}
use metroflow_ai_backend.Simulators.Replay.{
  FlowRow, Replay, load_runs, load_chunks, refill_station_buffer, next_row, buffer_of, cursor_of,
  current_count_from_row,
}
use metroflow_ai_backend.Simulators.Replay.Load.{AreOf}
use metroflow_ai_backend.Simulators.Replay.Chunks.{rows_in}
use metroflow_ai_backend.Simulators.Replay.Whole
use metroflow_ai_backend.Simulators.Replay.Rounds.{replay, after_rounds}

program : Unit {0}
unfolding lookup insert load_runs load_chunks refill_station_buffer next_row current_count_from_row
    ℕ_discrete
program = tt

abbrev row : ℕ → ℕ → ℕ → FlowRow ℕ
row code entries exits = record { station_id = code; date = 1; entries = entries; exits = exits }

abbrev started : List (FlowRow ℕ) → Replay ℕ
started file = record {
  file = file;
  index = [];
  rows_by_station = [];
  cursor = [];
  occupancy_by_station = [];
  last_row_date_by_station = [];
}

-- Two rows of station 8, then three of station 9.
abbrev flow_file : List (FlowRow ℕ)
flow_file = row 8 1 0 ∷ row 8 2 0 ∷ row 9 3 0 ∷ row 9 4 9 ∷ row 9 5 0 ∷ []

abbrev loaded : Replay ℕ
loaded = load_chunks ℕ_discrete 0 (flow_file ∷ []) (started flow_file)

-- The buffer of a run that is shorter than a buffer has rows of the station after it.
buffer_overrun : buffer_of ℕ_discrete 8 loaded ≡ flow_file
unfolding program
buffer_overrun = refl

cursor_of_8 : cursor_of ℕ_discrete 8 loaded ≡ 2
unfolding program
cursor_of_8 = refl

empties : (current_count_from_row ℕ_discrete 9 (row 9 4 9) loaded).0 ≡ 0
unfolding program
empties = refl

abbrev copies : ℕ → FlowRow ℕ → List (FlowRow ℕ)
copies zero r = []
copies (suc n) r = r ∷ copies n r

copies-AreOf : (n : ℕ) → AreOf ℕ_discrete 9 (copies n (row 9 3 0))
copies-AreOf zero = tt
copies-AreOf (suc n) = (refl, copies-AreOf n)

-- One row of station 8, then 65 of station 9, of which the last one is in a chunk with a row of
-- station 7.
abbrev chunks : List (List (FlowRow ℕ))
chunks = (row 8 1 0 ∷ copies 64 (row 9 3 0)) ∷ (row 9 5 0 ∷ row 7 6 0 ∷ []) ∷ []

replay-load_chunks_example :
    replay ℕ_discrete 65 9
      (after_rounds ℕ_discrete 2 65 9 (load_chunks ℕ_discrete 0 chunks (started (rows_in chunks))))
    ≡ map some (copies 64 (row 9 3 0) ++ row 9 5 0 ∷ [])
unfolding program
replay-load_chunks_example =
    Whole.replay-load_chunks ℕ_discrete 9 2 [] ((row 9 5 0 ∷ row 7 6 0 ∷ []) ∷ []) (row 8 1 0 ∷ [])
      (copies 64 (row 9 3 0)) [] (row 9 5 0 ∷ []) (row 7 6 0 ∷ []) (started (rows_in chunks)) tt
      (λ e. ground (arith, e), tt) (copies-AreOf 64) (omega arith) refl (refl, tt)
      (λ e. ground (arith, e), tt) (record { unindexed = refl; unbuffered = refl; unread = refl })
      refl
