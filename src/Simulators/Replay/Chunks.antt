-- ===== src/Simulators/Replay/Chunks.antt =====
-- The load of all chunks, followed at one station.
use mathlib.Core.Path.{subst}
use metroflow_ai_backend.Common.{
  ℕ, suc, ◌+◌, ◌-◌, ◌≤◌, ◌≡◌, ◌≢◌, refl, sym, false, Option, none, some, List, [], ◌∷◌, ◌++◌, All,
  if◌then◌else◌, Bool-cases, inl, inr, length, length-append, take, arith,
}
use metroflow_ai_backend.Simulators.Replay.{
  FlowRow, Replay, station_buffer_rows, load_runs, same_station, runs_from, load_chunks,
}
use metroflow_ai_backend.Simulators.Replay.Load.{
  rows_of, AreOf, HasNone, IsNew, IsLoaded, loaded, loaded-Same, other-IsNew, other-IsLoaded,
  first-IsLoaded, later-IsLoaded,
}
use metroflow_ai_backend.Simulators.Replay.Runs.{
  is_last, counted, same_station-le, run_at, either_way, after_own, after_other, own_run,
  without-IsNew,
}

module _ {Code : Type 0} where
  -- The rows of the chunks, which are those of the file.
  abbrev pub rows_in : List (List (FlowRow Code)) → List (FlowRow Code)
  rows_in [] = []
  rows_in (chunk ∷ chunks) = chunk ++ rows_in chunks

module _ {Code : Type 0} (dec : Discrete Code) (code : Code) where
  counted_after :
      (last : Option Code) (row : FlowRow Code) (rows : List (FlowRow Code))
      → row.station_id ≡ code
      → counted dec code last (row ∷ rows)
        ≡ (if is_last dec code last then suc (same_station dec code rows) else 0)
  counted_after none row rows own = refl
  counted_after (some c) row rows own = ground (arith, own)

  counted_other :
      (last : Option Code) (row : FlowRow Code) (rows : List (FlowRow Code))
      → row.station_id ≢ code
      → counted dec code last (row ∷ rows) ≡ 0
  counted_other none row rows ne = refl
  counted_other (some c) row rows ne = ground (arith, ne)

  counted_on :
      (row : FlowRow Code) (rows : List (FlowRow Code))
      → row.station_id ≡ code
      → counted dec code (some row.station_id) rows ≡ same_station dec code rows
  counted_on row rows own = ground (arith, own)

  recount :
      {start n n' : ℕ} {buffer : List (FlowRow Code)} {r : Replay Code}
      → n ≡ n'
      → IsLoaded dec code start n buffer r
      → IsLoaded dec code start n' buffer r
  recount {start} {buffer = buffer} {r = r} e h =
      subst (λ k. IsLoaded dec code start k buffer r) e h

  moved :
      {start start' n : ℕ} {buffer : List (FlowRow Code)} {r : Replay Code}
      → start ≡ start'
      → IsLoaded dec code start n buffer r
      → IsLoaded dec code start' n buffer r
  moved {n = n} {buffer = buffer} {r = r} e h = subst (λ k. IsLoaded dec code k n buffer r) e h

  -- Whatever a chunk has, a station with a full buffer is counted on.
  more-IsLoaded :
      (rows : List (FlowRow Code)) (last : Option Code) (offset start count : ℕ)
      (buffer : List (FlowRow Code)) (r : Replay Code)
      → IsLoaded dec code start count buffer r
      → IsLoaded dec code start
          (count + (rows_of dec code rows - counted dec code last rows))
          buffer
          (load_runs dec (runs_from dec last offset rows) r)
  unfolding load_runs
  more-IsLoaded [] last offset start count buffer r h = recount (omega arith) h
  more-IsLoaded (row ∷ rows) last offset start count buffer r h = elim (dec row.station_id code) [
    | no ne ↦
        let next = loaded dec code (run_at dec code offset row rows) r in
        let same : count + (rows_of dec code rows - counted dec code (some row.station_id) rows)
            ≡ count + (rows_of dec code (row ∷ rows) - counted dec code last (row ∷ rows)) =
          ground (arith, ne, counted_other last row rows ne) in
        recount same (
          either_way dec code last offset row rows r
            (IsLoaded dec code start
              (count + (rows_of dec code rows - counted dec code (some row.station_id) rows))
              buffer)
            (more-IsLoaded rows (some row.station_id) (suc offset) start count buffer r h)
            (more-IsLoaded rows (some row.station_id) (suc offset) start count buffer next (
              other-IsLoaded dec code start count buffer r next
                (loaded-Same dec code (run_at dec code offset row rows) r ne) h)))
    | yes own ↦ elim (Bool-cases (is_last dec code last)) [
      | inl goes_on ↦
          let same : count + (rows_of dec code rows - counted dec code (some row.station_id) rows)
              ≡ count + (rows_of dec code (row ∷ rows) - counted dec code last (row ∷ rows)) =
            ground
              (arith, own, goes_on, counted_after last row rows own, counted_on row rows own) in
          rw (after_own dec code last offset row rows r goes_on own) (
            recount same
              (more-IsLoaded rows (some row.station_id) (suc offset) start count buffer r h))
      | inr new ↦
          let size = suc (same_station dec code rows) in
          let next = loaded dec code (run_at dec code offset row rows) r in
          let same : count
                + size
                + (rows_of dec code rows - counted dec code (some row.station_id) rows)
              ≡ count + (rows_of dec code (row ∷ rows) - counted dec code last (row ∷ rows)) =
            ground (
              arith,
              own,
              new,
              counted_after last row rows own,
              counted_on row rows own,
              same_station-le dec code rows,
            ) in
          let grown : IsLoaded dec code start (count + size) buffer next =
            subst (λ run. IsLoaded dec code start (count + size) buffer (loaded dec code run r))
              (sym (own_run dec code offset row rows own))
              (later-IsLoaded dec code start count offset size (row ∷ rows) buffer r h) in
          rw (after_other dec code last offset row rows r new own) (
            recount same (
              more-IsLoaded rows (some row.station_id) (suc offset) start (count + size) buffer next
                grown))
    ]
  ]

  same_station-append :
      (own rest : List (FlowRow Code))
      → AreOf dec code own
      → length own ≤ same_station dec code (own ++ rest)
  same_station-append [] rest h = omega arith
  same_station-append (row ∷ own) rest h = ground (arith, h.0, same_station-append own rest h.1)

  -- The chunk in which the station's rows begin, with as many as a buffer has at least.
  begins-IsLoaded :
      (before first rest : List (FlowRow Code)) (last : Option Code) (offset : ℕ) (r : Replay Code)
      → HasNone dec code before
      → AreOf dec code first
      → station_buffer_rows ≤ length first
      → is_last dec code last ≡ false
      → IsNew dec code r
      → IsLoaded dec code
          (offset + length before)
          (rows_of dec code (first ++ rest))
          (take station_buffer_rows (first ++ rest))
          (load_runs dec (runs_from dec last offset (before ++ (first ++ rest))) r)
  unfolding load_runs
  begins-IsLoaded [] [] rest last offset r others own long new h = absurd (omega (arith, long))
  begins-IsLoaded [] (row ∷ first) rest last offset r others own long new h =
      let rows = first ++ rest in
      let size = suc (same_station dec code rows) in
      let next = loaded dec code (run_at dec code offset row rows) r in
      let many : station_buffer_rows ≤ size =
        omega (arith, long, same_station-append first rest own.1) in
      let there : station_buffer_rows ≤ length (row ∷ rows) =
        omega (arith, long, length-append first rest) in
      let buffer = take station_buffer_rows (row ∷ rows) in
      let begun : IsLoaded dec code offset size buffer next =
        subst (λ run. IsLoaded dec code offset size buffer (loaded dec code run r))
          (sym (own_run dec code offset row rows own.0))
          (first-IsLoaded dec code offset size (row ∷ rows) r h many there) in
      let counts : size + (rows_of dec code rows - counted dec code (some row.station_id) rows)
          ≡ rows_of dec code (row ∷ rows) =
        ground (arith, own.0, counted_on row rows own.0, same_station-le dec code rows) in
      let place : offset ≡ offset + 0 = omega arith in
      rw (after_other dec code last offset row rows r new own.0) (
        moved place (
          recount counts
            (more-IsLoaded rows (some row.station_id) (suc offset) offset size buffer next begun)))
  begins-IsLoaded (row ∷ before) first rest last offset r others own long new h =
      let rows = before ++ (first ++ rest) in
      let next = loaded dec code (run_at dec code offset row rows) r in
      let not_own : is_last dec code (some row.station_id) ≡ false = ground (arith, others.0) in
      let place : suc offset + length before ≡ offset + length (row ∷ before) = omega arith in
      either_way dec code last offset row rows r
        (IsLoaded dec code (offset + length (row ∷ before)) (rows_of dec code (first ++ rest))
          (take station_buffer_rows (first ++ rest)))
        (moved place (
          begins-IsLoaded before first rest (some row.station_id) (suc offset) r others.1 own long
            not_own h))
        (moved place (
          begins-IsLoaded before first rest (some row.station_id) (suc offset) next others.1 own
            long not_own
            (other-IsNew dec code r next
              (loaded-Same dec code (run_at dec code offset row rows) r others.0) h)))

  pub rows_of-append :
      (xs ys : List (FlowRow Code))
      → rows_of dec code (xs ++ ys) ≡ rows_of dec code xs + rows_of dec code ys
  rows_of-append [] ys = omega arith
  rows_of-append (row ∷ xs) ys = ground (arith, rows_of-append xs ys)

  later-chunks :
      (chunks : List (List (FlowRow Code))) (offset start count : ℕ) (buffer : List (FlowRow Code))
      (r : Replay Code)
      → IsLoaded dec code start count buffer r
      → IsLoaded dec code start
          (count + rows_of dec code (rows_in chunks))
          buffer
          (load_chunks dec offset chunks r)
  unfolding load_chunks
  later-chunks [] offset start count buffer r h = recount (omega arith) h
  later-chunks (chunk ∷ chunks) offset start count buffer r h =
      recount (omega (arith, rows_of-append chunk (rows_in chunks))) (
        later-chunks chunks (offset + length chunk) start (count + (rows_of dec code chunk - 0))
          buffer (load_runs dec (runs_from dec none offset chunk) r)
          (more-IsLoaded chunk none offset start count buffer r h))

  pub load_chunks-IsLoaded :
      (earlier later : List (List (FlowRow Code))) (before first rest : List (FlowRow Code))
      (offset : ℕ) (r : Replay Code)
      → All (HasNone dec code) earlier
      → HasNone dec code before
      → AreOf dec code first
      → station_buffer_rows ≤ length first
      → IsNew dec code r
      → IsLoaded dec code
          (offset + length (rows_in earlier ++ before))
          (rows_of dec code (first ++ (rest ++ rows_in later)))
          (take station_buffer_rows (first ++ rest))
          (load_chunks dec offset (earlier ++ (before ++ (first ++ rest)) ∷ later) r)
  unfolding load_chunks
  load_chunks-IsLoaded [] later before first rest offset r others none_before own long h =
      recount
        (ground (
          arith,
          rows_of-append first rest,
          rows_of-append first (rest ++ rows_in later),
          rows_of-append rest (rows_in later),
        ))
        (later-chunks later (offset + length (before ++ (first ++ rest))) (offset + length before)
          (rows_of dec code (first ++ rest)) (take station_buffer_rows (first ++ rest))
          (load_runs dec (runs_from dec none offset (before ++ (first ++ rest))) r)
          (begins-IsLoaded before first rest none offset r none_before own long refl h))
  load_chunks-IsLoaded (chunk ∷ earlier) later before first rest offset r others none_before own
        long h =
      let next = load_runs dec (runs_from dec none offset chunk) r in
      moved
        (ground (
          arith,
          length-append chunk (rows_in earlier ++ before),
          length-append (chunk ++ rows_in earlier) before,
          length-append chunk (rows_in earlier),
          length-append (rows_in earlier) before,
        ))
        (load_chunks-IsLoaded earlier later before first rest (offset + length chunk) next others.1
          none_before own long (without-IsNew dec code chunk none offset r others.0 h))
