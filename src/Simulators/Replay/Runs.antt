-- ===== src/Simulators/Replay/Runs.antt =====
-- The runs of a chunk, followed at one station: which rows start one.
use mathlib.Core.Path.{subst}
use metroflow_ai_backend.Common.{
  ℕ, suc, ◌≤◌, ◌≡◌, ◌≢◌, refl, sym, ap, ◌∙◌, Bool, true, false, Option, none, some, List, [], ◌∷◌,
  ite, arith,
}
use metroflow_ai_backend.Simulators.Replay.{
  FlowRow, Replay, Run, load_runs, same_station, runs_from,
}
use metroflow_ai_backend.Simulators.Replay.Load.{
  rows_of, HasNone, IsNew, loaded, loaded-Same, other-IsNew,
}

module _ {Code : Type 0} (dec : Discrete Code) (code : Code) where
  -- Whether the last row was the station's.
  abbrev pub is_last : Option Code → Bool
  is_last none = false
  is_last (some c) = ite (dec c code) true false

  -- The rows of the station that go on with a run that has been counted.
  abbrev pub counted : Option Code → List (FlowRow Code) → ℕ
  counted none rows = 0
  counted (some c) rows = ite (dec c code) (same_station dec code rows) 0

  pub same_station-le :
      (rows : List (FlowRow Code)) → same_station dec code rows ≤ rows_of dec code rows
  same_station-le [] = omega arith
  same_station-le (row ∷ rows) = ground (arith, same_station-le rows)

  -- The loop over the runs from a row on, if the row starts a run.
  abbrev pub run_at : ℕ → FlowRow Code → List (FlowRow Code) → Run dec
  run_at offset row rows = record {
    code = row.station_id;
    start = offset;
    rest = row ∷ rows;
    run_length = same_station dec row.station_id (row ∷ rows);
  }

  -- The state after the rows from a row on, with the run that starts at the row or without it.
  abbrev pub going_on : ℕ → FlowRow Code → List (FlowRow Code) → Replay Code → Replay Code
  going_on offset row rows r =
      load_runs dec (runs_from dec (some row.station_id) (suc offset) rows) r

  abbrev pub starting : ℕ → FlowRow Code → List (FlowRow Code) → Replay Code → Replay Code
  starting offset row rows r = going_on offset row rows (loaded dec code (run_at offset row rows) r)

  pub run_goes_on :
      (c : Code) (offset : ℕ) (row : FlowRow Code) (rows : List (FlowRow Code)) (r : Replay Code)
      → c ≡ row.station_id
      → load_runs dec (runs_from dec (some c) offset (row ∷ rows)) r ≡ going_on offset row rows r
  run_goes_on c offset row rows r e =
      let same : runs_from dec (some c) offset (row ∷ rows)
          ≡ runs_from dec (some row.station_id) (suc offset) rows =
        ground (arith, e) in
      ap (λ runs. load_runs dec runs r) same

  run_starts :
      (c : Code) (offset : ℕ) (row : FlowRow Code) (rows : List (FlowRow Code)) (r : Replay Code)
      → c ≢ row.station_id
      → load_runs dec (runs_from dec (some c) offset (row ∷ rows)) r ≡ starting offset row rows r
  unfolding load_runs loaded
  run_starts c offset row rows r ne =
      let new : runs_from dec (some c) offset (row ∷ rows)
          ≡ run_at offset row rows ∷ runs_from dec (some row.station_id) (suc offset) rows =
        ground (arith, ne) in
      ap (λ runs. load_runs dec runs r) new

  -- A property of the state holds after a row, whether its run starts there or goes on.
  pub either_way :
      (last : Option Code) (offset : ℕ) (row : FlowRow Code) (rows : List (FlowRow Code))
      (r : Replay Code) (P : Replay Code → Type 0)
      → P (going_on offset row rows r)
      → P (starting offset row rows r)
      → P (load_runs dec (runs_from dec last offset (row ∷ rows)) r)
  unfolding load_runs loaded
  either_way none offset row rows r P on new = new
  either_way (some c) offset row rows r P on new = elim (dec c row.station_id) [
    | yes e ↦ subst P (sym (run_goes_on c offset row rows r e)) on
    | no ne ↦ subst P (sym (run_starts c offset row rows r ne)) new
  ]

  -- A row of the station after another one of it goes on with the run.
  pub after_own :
      (last : Option Code) (offset : ℕ) (row : FlowRow Code) (rows : List (FlowRow Code))
      (r : Replay Code)
      → is_last last ≡ true
      → row.station_id ≡ code
      → load_runs dec (runs_from dec last offset (row ∷ rows)) r ≡ going_on offset row rows r
  after_own none offset row rows r last own = absurd (ground (arith, last))
  after_own (some c) offset row rows r last own = elim (dec c code) [
    | yes e ↦ run_goes_on c offset row rows r (e ∙ sym own)
    | no ne ↦ absurd (ground (arith, ne, last))
  ]

  -- A row of the station after one of another, or at the start of a chunk, starts a run.
  pub after_other :
      (last : Option Code) (offset : ℕ) (row : FlowRow Code) (rows : List (FlowRow Code))
      (r : Replay Code)
      → is_last last ≡ false
      → row.station_id ≡ code
      → load_runs dec (runs_from dec last offset (row ∷ rows)) r ≡ starting offset row rows r
  unfolding load_runs loaded
  after_other none offset row rows r last own = refl
  after_other (some c) offset row rows r last own = elim (dec c row.station_id) [
    | yes e ↦ absurd (ground (arith, e ∙ own, last))
    | no ne ↦ run_starts c offset row rows r ne
  ]

  -- The run of the station that starts at a row.
  pub own_run :
      (offset : ℕ) (row : FlowRow Code) (rows : List (FlowRow Code))
      → row.station_id ≡ code
      → run_at offset row rows ≡ record {
        code = code;
        start = offset;
        rest = row ∷ rows;
        run_length = suc (same_station dec code rows);
      }
  own_run offset row rows e =
      λ i. record { code = e i; start = offset; rest = row ∷ rows; run_length = counts i }
    where
      counts : same_station dec row.station_id (row ∷ rows) ≡ suc (same_station dec code rows)
      counts = ap (λ c. same_station dec c (row ∷ rows)) e ∙ ground (arith, e)

  -- Rows of other stations leave the station as it was.
  pub without-IsNew :
      (rows : List (FlowRow Code)) (last : Option Code) (offset : ℕ) (r : Replay Code)
      → HasNone dec code rows
      → IsNew dec code r
      → IsNew dec code (load_runs dec (runs_from dec last offset rows) r)
  unfolding load_runs
  without-IsNew [] last offset r others h = h
  without-IsNew (row ∷ rows) last offset r others h =
      let next = loaded dec code (run_at offset row rows) r in
      either_way last offset row rows r (IsNew dec code)
        (without-IsNew rows (some row.station_id) (suc offset) r others.1 h)
        (without-IsNew rows (some row.station_id) (suc offset) next others.1 (
          other-IsNew dec code r next (loaded-Same dec code (run_at offset row rows) r others.0) h))
