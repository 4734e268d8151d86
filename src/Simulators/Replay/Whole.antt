-- ===== src/Simulators/Replay/Whole.antt =====
-- From the load of the file to the rounds of a station.
use mathlib.Core.List.{append_assoc}
use mathlib.Core.Path.{subst}
use metroflow_ai_backend.Common.{
  ℕ, zero, suc, ◌+◌, ◌≤◌, ◌≡◌, refl, sym, ap, ◌∙◌, none, some, Option-cases, Bool-cases, inl, inr,
  List, [], ◌∷◌, ◌++◌, All, map, length, length-append, take, drop, ltb, arith,
}
use metroflow_ai_backend.Common.Dict.{lookup}
use metroflow_ai_backend.Simulators.Replay.{
  FlowRow, Replay, station_buffer_rows, cursor_of, buffer_of, Run, index_run, buffer_run, load_runs,
  runs_from, load_chunks,
}
use metroflow_ai_backend.Simulators.Replay.Cycle.{IsAt}
use metroflow_ai_backend.Simulators.Replay.Rounds.{replay, after_rounds, replay-after_rounds}
use metroflow_ai_backend.Simulators.Replay.Load.{rows_of, AreOf, HasNone, IsNew, IsLoaded}
use metroflow_ai_backend.Simulators.Replay.Chunks.{rows_in, rows_of-append, load_chunks-IsLoaded}

module _ {A : Type 0} where
  drop-append : (xs ys : List A) → drop (length xs) (xs ++ ys) ≡ ys
  drop-append [] ys = refl
  drop-append (x ∷ xs) ys = drop-append xs ys

  take-append : (n : ℕ) (xs ys : List A) → n ≤ length xs → take n (xs ++ ys) ≡ take n xs
  take-append zero xs ys h = refl
  take-append (suc n) [] ys h = absurd (omega (arith, h))
  take-append (suc n) (x ∷ xs) ys h = ap (λ zs. x ∷ zs) (take-append n xs ys (omega (arith, h)))

  take-length : (xs ys : List A) → take (length xs) (xs ++ ys) ≡ xs
  take-length [] ys = refl
  take-length (x ∷ xs) ys = ap (λ zs. x ∷ zs) (take-length xs ys)

module _ {Code : Type 0} (dec : Discrete Code) where
  index_run-file : (run : Run dec) (r : Replay Code) → (index_run dec run r).file ≡ r.file
  index_run-file run r = elim (Option-cases (lookup dec run.code r.index)) [
    | inl missing ↦ rw (index_run, missing) refl
    | inr (info, found) ↦ rw (index_run, found) refl
  ]

  buffer_run-file : (run : Run dec) (r : Replay Code) → (buffer_run dec run r).file ≡ r.file
  buffer_run-file run r =
      elim (Bool-cases (ltb (length (buffer_of dec run.code r)) station_buffer_rows)) [
        | inl room ↦ rw (buffer_run, room) refl
        | inr full ↦ rw (buffer_run, full) refl
      ]

  load_runs-file : (runs : List (Run dec)) (r : Replay Code) → (load_runs dec runs r).file ≡ r.file
  unfolding load_runs
  load_runs-file [] r = refl
  load_runs-file (run ∷ runs) r =
      load_runs-file runs (buffer_run dec run (index_run dec run r))
      ∙ buffer_run-file run (index_run dec run r)
      ∙ index_run-file run r

  load_chunks-file :
      (offset : ℕ) (chunks : List (List (FlowRow Code))) (r : Replay Code)
      → (load_chunks dec offset chunks r).file ≡ r.file
  unfolding load_chunks
  load_chunks-file offset [] r = refl
  load_chunks-file offset (chunk ∷ chunks) r =
      load_chunks-file (offset + length chunk) chunks
        (load_runs dec (runs_from dec none offset chunk) r)
      ∙ load_runs-file (runs_from dec none offset chunk) r

module _ {Code : Type 0} (dec : Discrete Code) (code : Code) where
  rows_of-AreOf : (xs : List (FlowRow Code)) → AreOf dec code xs → rows_of dec code xs ≡ length xs
  rows_of-AreOf [] h = refl
  rows_of-AreOf (row ∷ xs) h = ground (arith, h.0, rows_of-AreOf xs h.1)

  rows_of-HasNone : (xs : List (FlowRow Code)) → HasNone dec code xs → rows_of dec code xs ≡ 0
  rows_of-HasNone [] h = refl
  rows_of-HasNone (row ∷ xs) h = ground (arith, h.0, rows_of-HasNone xs h.1)

  -- The rows of the file, around those of the station.
  rows_in-around :
      (earlier later : List (List (FlowRow Code)))
      (before first rest second after : List (FlowRow Code))
      → rest ++ rows_in later ≡ second ++ after
      → rows_in (earlier ++ (before ++ (first ++ rest)) ∷ later)
        ≡ (rows_in earlier ++ before) ++ ((first ++ second) ++ after)
  rows_in-around [] later before first rest second after e =
      append_assoc before (first ++ rest) (rows_in later)
      ∙ ap (λ xs. before ++ xs)
          (append_assoc first rest (rows_in later)
            ∙ ap (λ xs. first ++ xs) e
            ∙ sym (append_assoc first second after))
  rows_in-around (chunk ∷ earlier) later before first rest second after e =
      ap (λ xs. chunk ++ xs) (rows_in-around earlier later before first rest second after e)
      ∙ sym (append_assoc chunk (rows_in earlier ++ before) ((first ++ second) ++ after))
      ∙ ap (λ xs. xs ++ ((first ++ second) ++ after))
          (sym (append_assoc chunk (rows_in earlier) before))

  -- A full buffer of the rows that stand together is a place of the rounds.
  IsLoaded-IsAt :
      (place own after : List (FlowRow Code)) (buffer : List (FlowRow Code)) (r : Replay Code)
      → r.file ≡ place ++ (own ++ after)
      → station_buffer_rows ≤ length own
      → buffer ≡ take station_buffer_rows own
      → IsLoaded dec code (length place) (length own) buffer r
      → IsAt dec code (length place) (length own) 0 r
  IsLoaded-IsAt place own after buffer r file long same h =
      let start_0 : length place + 0 ≡ length place = omega arith in
      let there : drop (length place) r.file ≡ own ++ after =
        ap (drop (length place)) file ∙ drop-append place (own ++ after) in
      record {
        indexed = h.indexed;
        some_rows = omega (arith, long);
        in_file =
            omega
              (arith, ap length file, length-append place (own ++ after), length-append own after);
        cursor = station_buffer_rows;
        at = rw (cursor_of, h.read) refl;
        le = omega arith;
        cursor_le = long;
        buffered =
            h.buffered
            ∙ ap some (
                same
                ∙ sym (take-append station_buffer_rows own after long)
                ∙ ap (take station_buffer_rows) (sym there)
                ∙ ap (λ s. take station_buffer_rows (drop s r.file)) (sym start_0));
      }

  load_chunks-IsAt :
      (earlier later : List (List (FlowRow Code)))
      (before first rest second after : List (FlowRow Code)) (r : Replay Code)
      → All (HasNone dec code) earlier
      → HasNone dec code before
      → AreOf dec code (first ++ second)
      → AreOf dec code first
      → station_buffer_rows ≤ length first
      → rest ++ rows_in later ≡ second ++ after
      → HasNone dec code after
      → IsNew dec code r
      → r.file ≡ rows_in (earlier ++ (before ++ (first ++ rest)) ∷ later)
      → IsAt dec code
          (length (rows_in earlier ++ before))
          (length (first ++ second))
          0
          (load_chunks dec 0 (earlier ++ (before ++ (first ++ rest)) ∷ later) r)
  load_chunks-IsAt earlier later before first rest second after r others none_before own own_first
        long e none_after new file =
      let chunks = earlier ++ (before ++ (first ++ rest)) ∷ later in
      let state = load_chunks dec 0 chunks r in
      let place = rows_in earlier ++ before in
      let counts : rows_of dec code (first ++ (rest ++ rows_in later)) ≡ length (first ++ second) =
        ap (λ xs. rows_of dec code (first ++ xs)) e
        ∙ ap (rows_of dec code) (sym (append_assoc first second after))
        ∙ omega (
          arith,
          rows_of-append dec code (first ++ second) after,
          rows_of-AreOf (first ++ second) own,
          rows_of-HasNone after none_after,
        ) in
      let begun : IsLoaded dec code (0 + length place)
          (rows_of dec code (first ++ (rest ++ rows_in later)))
          (take station_buffer_rows (first ++ rest)) state =
        load_chunks-IsLoaded dec code earlier later before first rest 0 r others none_before
          own_first long new in
      let from_0 : 0 + length place ≡ length place = omega arith in
      let known : IsLoaded dec code (length place) (length (first ++ second))
          (take station_buffer_rows (first ++ rest)) state =
        subst
          (λ s.
            IsLoaded dec code s (length (first ++ second))
              (take station_buffer_rows (first ++ rest)) state)
          from_0
          (subst
            (λ n.
              IsLoaded dec code (0 + length place) n (take station_buffer_rows (first ++ rest))
                state)
            counts begun) in
      IsLoaded-IsAt place (first ++ second) after (take station_buffer_rows (first ++ rest)) state
        (load_chunks-file dec 0 chunks r
          ∙ file
          ∙ rows_in-around earlier later before first rest second after e)
        (omega (arith, long, length-append first second))
        (take-append station_buffer_rows first rest long
          ∙ sym (take-append station_buffer_rows first second long))
        known

  replay_own :
      (k n : ℕ) (place own after : List (FlowRow Code)) (r : Replay Code)
      → 1 ≤ n
      → length own ≡ n
      → r.file ≡ place ++ (own ++ after)
      → IsAt dec code (length place) n 0 r
      → replay dec n code (after_rounds dec k n code r) ≡ map some own
  replay_own k zero place own after r pos size file h = absurd (omega (arith, pos))
  replay_own k (suc m) place own after r pos size file h =
      replay-after_rounds dec k m code (length place) 0 r h (ground arith)
      ∙ ap (λ xs. map some (take (suc m) (drop (length place) xs))) file
      ∙ ap (λ xs. map some (take (suc m) xs)) (drop-append place (own ++ after))
      ∙ ap (λ n. map some (take n (own ++ after))) (sym size)
      ∙ ap (map some) (take-length own after)

  AreOf-append :
      (xs ys : List (FlowRow Code))
      → AreOf dec code xs
      → AreOf dec code ys
      → AreOf dec code (xs ++ ys)
  AreOf-append [] ys h g = g
  AreOf-append (row ∷ xs) ys h g = (h.0, AreOf-append xs ys h.1 g)

  -- From the load of the file to the replay of a station, whose rows stand together in the file,
  -- in one chunk or more, and of which at least 64 stand in the chunk where they begin, and of
  -- which nothing is known before the load: in every round, as many calls as the station has rows
  -- return exactly its rows, in the order of the file.
  pub replay-load_chunks :
      (k : ℕ) (earlier later : List (List (FlowRow Code)))
      (before first rest second after : List (FlowRow Code)) (r : Replay Code)
      → All (HasNone dec code) earlier
      → HasNone dec code before
      → AreOf dec code first
      → station_buffer_rows ≤ length first
      → rest ++ rows_in later ≡ second ++ after
      → AreOf dec code second
      → HasNone dec code after
      → IsNew dec code r
      → r.file ≡ rows_in (earlier ++ (before ++ (first ++ rest)) ∷ later)
      → let n = length (first ++ second) in
        let loaded = load_chunks dec 0 (earlier ++ (before ++ (first ++ rest)) ∷ later) r in
        replay dec n code (after_rounds dec k n code loaded) ≡ map some (first ++ second)
  replay-load_chunks k earlier later before first rest second after r others none_before own_first
        long e own_second none_after new file =
      let chunks = earlier ++ (before ++ (first ++ rest)) ∷ later in
      replay_own k (length (first ++ second)) (rows_in earlier ++ before) (first ++ second) after
        (load_chunks dec 0 chunks r) (omega (arith, long, length-append first second)) refl
        (load_chunks-file dec 0 chunks r
          ∙ file
          ∙ rows_in-around earlier later before first rest second after e)
        (load_chunks-IsAt earlier later before first rest second after r others none_before
          (AreOf-append first second own_first own_second) own_first long e none_after new file)
