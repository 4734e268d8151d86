-- ===== src/Simulators/Replay.antt =====
-- app/simulator/csv_replay_simulator.py: the rows of passenger_flow.csv.gz, replayed for each station
-- from a buffer of a few rows that is filled again from the file, and the counts made of them.
-- Entries and exits are whole numbers, below the size where floating-point numbers lose one.
pub mod Cycle
pub mod Load
pub mod Runs
pub mod Chunks
pub mod Whole
pub mod Rounds
use metroflow_ai_backend.Common.{
  ℕ, zero, suc, ◌+◌, ◌-◌, min, Bool, true, false, ◌&&◌, not, Option, none, some, List, [], ◌∷◌,
  ◌++◌, leb, ltb, if◌then◌else◌, ◌==◌, ite, length, take, drop, ℕ_discrete,
}
use metroflow_ai_backend.Common.Dict.{Dict, lookup, insert}

-- A row of the file: the code of its station, its day, the people that enter and leave.
pub record FlowRow (Code : Type 0) : Type 0 where
  pub station_id : Code
  pub date : ℕ
  pub entries : ℕ
  pub exits : ℕ

-- `_STATION_INDEX`: where the rows of a station start, and how many there are.
pub record StationIndex : Type 0 where
  pub start : ℕ
  pub count : ℕ

-- The module's state, and the rows of the file.
pub record Replay (Code : Type 0) : Type 0 where
  pub file : List (FlowRow Code)
  pub index : Dict Code StationIndex
  pub rows_by_station : Dict Code (List (FlowRow Code))
  pub cursor : Dict Code ℕ
  pub occupancy_by_station : Dict Code ℕ
  pub last_row_date_by_station : Dict Code ℕ

-- `_STATION_BUFFER_ROWS`
abbrev pub station_buffer_rows : ℕ
station_buffer_rows = 64

abbrev pub or_zero : Option ℕ → ℕ
or_zero none = 0
or_zero (some n) = n

module _ {Code : Type 0} (dec : Discrete Code) where
  abbrev pub cursor_of : Code → Replay Code → ℕ
  cursor_of code r = or_zero (lookup dec code r.cursor)

  abbrev pub buffer_of : Code → Replay Code → List (FlowRow Code)
  buffer_of code r = elim (lookup dec code r.rows_by_station) [ none ↦ [] | some rows ↦ rows ]

  -- A run of rows of one station in a chunk: the rows of the chunk from its start on, and its length.
  pub record Run : Type 0 where
    pub code : Code
    pub start : ℕ
    pub rest : List (FlowRow Code)
    pub run_length : ℕ

  -- What the loop of `_load_csv_once` does to the buffer and the cursor of a run's station.
  abbrev pub buffer_run : Run → Replay Code → Replay Code
  buffer_run run r =
      let buf = buffer_of run.code r in
      let room = station_buffer_rows - length buf in
      if ltb (length buf) station_buffer_rows
      then record r {
        rows_by_station = insert dec run.code (buf ++ take room run.rest) r.rows_by_station;
        cursor = insert dec run.code (cursor_of run.code r + min room run.run_length) r.cursor;
      }
      else r

  abbrev pub index_run : Run → Replay Code → Replay Code
  index_run run r = elim (lookup dec run.code r.index) [
    | none ↦ record r {
      index = insert dec run.code (record { start = run.start; count = run.run_length }) r.index;
      rows_by_station = insert dec run.code (buffer_of run.code r) r.rows_by_station;
      cursor = insert dec run.code (cursor_of run.code r) r.cursor;
    }
    | some info ↦ record r {
      index = insert dec run.code (record info { count = info.count + run.run_length }) r.index;
    }
  ]

  -- The loop over the runs of a chunk.
  unfoldable pub load_runs : List Run → Replay Code → Replay Code
  load_runs [] r = r
  load_runs (run ∷ runs) r = load_runs runs (buffer_run run (index_run run r))

  -- How many rows of a list are of one station, from its head on.
  abbrev pub same_station : Code → List (FlowRow Code) → ℕ
  same_station code [] = 0
  same_station code (row ∷ rows) =
      let rest = same_station code rows in ite (dec row.station_id code) (suc rest) 0

  -- The runs of a chunk that starts at an offset of the file: a new one where the station changes.
  abbrev pub runs_from : Option Code → ℕ → List (FlowRow Code) → List Run
  runs_from last offset [] = []
  runs_from last offset (row ∷ rows) =
      let rest = runs_from (some row.station_id) (suc offset) rows in
      let run : Run = record {
        code = row.station_id;
        start = offset;
        rest = row ∷ rows;
        run_length = same_station row.station_id (row ∷ rows);
      } in
      elim last [ none ↦ run ∷ rest | some code ↦ ite (dec code row.station_id) rest (run ∷ rest) ]

  -- `_load_csv_once`, of the chunks that pandas reads.
  unfoldable pub load_chunks : ℕ → List (List (FlowRow Code)) → Replay Code → Replay Code
  unfolding load_runs
  load_chunks offset [] r = r
  load_chunks offset (chunk ∷ chunks) r =
      load_chunks (offset + length chunk) chunks (load_runs (runs_from none offset chunk) r)

  -- `_refill_station_buffer`
  unfoldable pub refill_station_buffer : Code → Replay Code → Bool × Replay Code
  refill_station_buffer code r = elim (lookup dec code r.index) [
    | none ↦ (false, r)
    | some info ↦
        if info.count == 0
        then (false, r)
        else let at = cursor_of code r in
          let cursor = if leb info.count at then 0 else at in
          let window =
            take (min station_buffer_rows (info.count - cursor))
              (drop (info.start + cursor) r.file) in
          (
            true,
            record r {
              rows_by_station = insert dec code (buffer_of code r ++ window) r.rows_by_station;
              cursor = insert dec code (cursor + length window) r.cursor;
            },
          )
  ]

  abbrev pub pop_row :
      Code → List (FlowRow Code) → Replay Code → Option (FlowRow Code) × Replay Code
  pop_row code [] r = (none, r)
  pop_row code (row ∷ rows) r =
      (some row, record r { rows_by_station = insert dec code rows r.rows_by_station })

  -- `_next_row`
  unfoldable pub next_row : Code → Replay Code → Option (FlowRow Code) × Replay Code
  unfolding refill_station_buffer
  next_row code r = elim (lookup dec code r.rows_by_station) [
    | none ↦ (none, r)
    | some [] ↦
        let filled = (refill_station_buffer code r).1 in pop_row code (buffer_of code filled) filled
    | some (row ∷ rows) ↦ pop_row code (row ∷ rows) r
  ]

  -- `_current_count_from_row`
  unfoldable pub current_count_from_row : Code → FlowRow Code → Replay Code → ℕ × Replay Code
  current_count_from_row code row r =
      let same_day : Bool = elim (lookup dec code r.last_row_date_by_station) [
        | none ↦ false
        | some date ↦ date == row.date
      ] in
      let before = if same_day then or_zero (lookup dec code r.occupancy_by_station) else 0 in
      let occupancy = before + row.entries - row.exits in
      (
        occupancy,
        record r {
          occupancy_by_station = insert dec code occupancy r.occupancy_by_station;
          last_row_date_by_station = insert dec code row.date r.last_row_date_by_station;
        },
      )
