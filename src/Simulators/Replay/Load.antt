-- ===== src/Simulators/Replay/Load.antt =====
-- What the load of the file leaves for a station whose rows stand together.
use metroflow_ai_backend.Common.{
  ℕ, zero, suc, ◌+◌, ◌-◌, min, ◌≤◌, ◌≡◌, ◌≢◌, refl, ap, ◌∙◌, false, none, some, List, [], ◌∷◌, All,
  ite, ltb, Option-cases, Bool-cases, inl, inr, length, take, arith,
}
use metroflow_ai_backend.Common.Dict.{Dict, lookup, insert, lookup-insert, lookup-insert_self}
use metroflow_ai_backend.Simulators.Replay.{
  FlowRow, Replay, station_buffer_rows, cursor_of, buffer_of, Run, index_run, buffer_run,
}

module _ {Code : Type 0} (dec : Discrete Code) (code : Code) where
  -- The number of the station's rows.
  abbrev pub rows_of : List (FlowRow Code) → ℕ
  rows_of [] = 0
  rows_of (row ∷ rows) = let rest = rows_of rows in ite (dec row.station_id code) (suc rest) rest

  abbrev pub AreOf : List (FlowRow Code) → Type 0
  AreOf = All (λ row. row.station_id ≡ code)

  abbrev pub HasNone : List (FlowRow Code) → Type 0
  HasNone = All (λ row. row.station_id ≢ code)

  -- Nothing is known of the station.
  pub record IsNew (r : Replay Code) : Type 0 where
    pub unindexed : lookup dec code r.index ≡ none
    pub unbuffered : lookup dec code r.rows_by_station ≡ none
    pub unread : lookup dec code r.cursor ≡ none

  -- The station is indexed, with a buffer that is full.
  pub record IsLoaded (start count : ℕ) (buffer : List (FlowRow Code)) (r : Replay Code)
      : Type 0 where
    pub indexed : lookup dec code r.index ≡ some (record { start = start; count = count })
    pub buffered : lookup dec code r.rows_by_station ≡ some buffer
    pub read : lookup dec code r.cursor ≡ some station_buffer_rows
    pub full : length buffer ≡ station_buffer_rows

  unfoldable pub loaded : Run dec → Replay Code → Replay Code
  loaded run r = buffer_run dec run (index_run dec run r)

  -- The two states agree on the station, and have one file.
  pub record Same (r r' : Replay Code) : Type 0 where
    index : lookup dec code r'.index ≡ lookup dec code r.index
    rows : lookup dec code r'.rows_by_station ≡ lookup dec code r.rows_by_station
    cursor : lookup dec code r'.cursor ≡ lookup dec code r.cursor

  Same-trans : {r r' r'' : Replay Code} → Same r r' → Same r' r'' → Same r r''
  Same-trans h g = record {
    index = g.index ∙ h.index;
    rows = g.rows ∙ h.rows;
    cursor = g.cursor ∙ h.cursor;
  }

  other_key :
      {V : Type 0} (k : Code) (v : V) (d : Dict Code V)
      → k ≢ code
      → lookup dec code (insert dec k v d) ≡ lookup dec code d
  other_key k v d ne = ground (arith, ne, lookup-insert dec k code v d)

  index_run-Same :
      (run : Run dec) (r : Replay Code) → run.code ≢ code → Same r (index_run dec run r)
  index_run-Same run r ne = elim (Option-cases (lookup dec run.code r.index)) [
    | inl missing ↦
        rw (index_run, missing)
          (record {
            index = other_key run.code _ r.index ne;
            rows = other_key run.code _ r.rows_by_station ne;
            cursor = other_key run.code _ r.cursor ne;
          })
    | inr (info, found) ↦
        rw (index_run, found)
          (record { index = other_key run.code _ r.index ne; rows = refl; cursor = refl })
  ]

  buffer_run-Same :
      (run : Run dec) (r : Replay Code) → run.code ≢ code → Same r (buffer_run dec run r)
  buffer_run-Same run r ne =
      elim (Bool-cases (ltb (length (buffer_of dec run.code r)) station_buffer_rows)) [
        | inl room ↦
            rw (buffer_run, room)
              (record {
                index = refl;
                rows = other_key run.code _ r.rows_by_station ne;
                cursor = other_key run.code _ r.cursor ne;
              })
        | inr full ↦ rw (buffer_run, full) (record { index = refl; rows = refl; cursor = refl })
      ]

  pub loaded-Same : (run : Run dec) (r : Replay Code) → run.code ≢ code → Same r (loaded run r)
  unfolding loaded
  loaded-Same run r ne =
      Same-trans (index_run-Same run r ne) (buffer_run-Same run (index_run dec run r) ne)

  pub other-IsNew : (r r' : Replay Code) → Same r r' → IsNew r → IsNew r'
  other-IsNew r r' s h = record {
    unindexed = s.index ∙ h.unindexed;
    unbuffered = s.rows ∙ h.unbuffered;
    unread = s.cursor ∙ h.unread;
  }

  pub other-IsLoaded :
      (start count : ℕ) (buffer : List (FlowRow Code)) (r r' : Replay Code)
      → Same r r'
      → IsLoaded start count buffer r
      → IsLoaded start count buffer r'
  other-IsLoaded start count buffer r r' s h = record {
    indexed = s.index ∙ h.indexed;
    buffered = s.rows ∙ h.buffered;
    read = s.cursor ∙ h.read;
    full = h.full;
  }

  pub take_full : (n : ℕ) (xs : List (FlowRow Code)) → n ≤ length xs → length (take n xs) ≡ n
  take_full zero xs h = refl
  take_full (suc n) [] h = absurd (omega (arith, h))
  take_full (suc n) (x ∷ xs) h = omega (arith, take_full n xs (omega (arith, h)))

  -- The station is indexed, with a buffer that is empty.
  record IsIndexed (start count : ℕ) (r : Replay Code) : Type 0 where
    indexed : lookup dec code r.index ≡ some (record { start = start; count = count })
    buffered : lookup dec code r.rows_by_station ≡ some []
    read : lookup dec code r.cursor ≡ some 0

  index_run-IsIndexed :
      (start n : ℕ) (rest : List (FlowRow Code)) (r : Replay Code)
      → IsNew r
      → IsIndexed start n
          (index_run dec (record { code = code; start = start; rest = rest; run_length = n }) r)
  index_run-IsIndexed start n rest r h =
      let none_yet : buffer_of dec code r ≡ [] = rw (buffer_of, h.unbuffered) refl in
      let at_none : cursor_of dec code r ≡ 0 = rw (cursor_of, h.unread) refl in
      rw (index_run, h.unindexed)
        (record {
          indexed = lookup-insert_self dec code (record { start = start; count = n }) r.index;
          buffered =
              lookup-insert_self dec code (buffer_of dec code r) r.rows_by_station
              ∙ ap some none_yet;
          read = lookup-insert_self dec code (cursor_of dec code r) r.cursor ∙ ap some at_none;
        })

  buffer_run-IsLoaded :
      (start n : ℕ) (rest : List (FlowRow Code)) (r : Replay Code)
      → IsIndexed start n r
      → station_buffer_rows ≤ n
      → station_buffer_rows ≤ length rest
      → IsLoaded start n
          (take station_buffer_rows rest)
          (buffer_run dec (record { code = code; start = start; rest = rest; run_length = n }) r)
  buffer_run-IsLoaded start n rest r h long there =
      let empty : buffer_of dec code r ≡ [] = rw (buffer_of, h.buffered) refl in
      let at_none : cursor_of dec code r ≡ 0 = rw (cursor_of, h.read) refl in
      let enough : 0 + min (station_buffer_rows - 0) n ≡ station_buffer_rows =
        ground (arith, long) in
      rw (buffer_run, empty, at_none)
        (record {
          indexed = h.indexed;
          buffered = lookup-insert_self dec code (take station_buffer_rows rest) r.rows_by_station;
          read =
              lookup-insert_self dec code (0 + min (station_buffer_rows - 0) n) r.cursor
              ∙ ap some enough;
          full = take_full station_buffer_rows rest there;
        })

  -- The first run of the station, of at least as many rows as a buffer has.
  pub first-IsLoaded :
      (start n : ℕ) (rest : List (FlowRow Code)) (r : Replay Code)
      → IsNew r
      → station_buffer_rows ≤ n
      → station_buffer_rows ≤ length rest
      → IsLoaded start n
          (take station_buffer_rows rest)
          (loaded (record { code = code; start = start; rest = rest; run_length = n }) r)
  unfolding loaded
  first-IsLoaded start n rest r h long there =
      buffer_run-IsLoaded start n rest _ (index_run-IsIndexed start n rest r h) long there

  -- A later run of the station.
  pub later-IsLoaded :
      (start count at n : ℕ) (rest buffer : List (FlowRow Code)) (r : Replay Code)
      → IsLoaded start count buffer r
      → IsLoaded start
          (count + n)
          buffer
          (loaded (record { code = code; start = at; rest = rest; run_length = n }) r)
  unfolding loaded
  later-IsLoaded start count at n rest buffer r h =
      let buffered : buffer_of dec code r ≡ buffer = rw (buffer_of, h.buffered) refl in
      let full : ltb (length buffer) station_buffer_rows ≡ false = ground (arith, h.full) in
      rw (buffer_run, index_run, h.indexed, buffered, full)
        (record {
          indexed =
              lookup-insert_self dec code (record { start = start; count = count + n }) r.index;
          buffered = h.buffered;
          read = h.read;
          full = h.full;
        })
