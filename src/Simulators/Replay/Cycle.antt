-- ===== src/Simulators/Replay/Cycle.antt =====
-- The rows that a station replays: all its rows of the file in their order, again and again.
use metroflow_ai_backend.Common.{
  has_head, ℕ, zero, suc, ◌+◌, ◌-◌, min, ◌≤◌, ◌<◌, ◌≡◌, refl, sym, ap, ◌∙◌, false, Option, none,
  some, List, [], ◌∷◌, leb, if◌then◌else◌, ◌==◌, inl, inr, Bool-cases, length, take, drop, arith,
}
use metroflow_ai_backend.Common.Dict.{lookup, insert, lookup-insert, lookup-insert_self}
use metroflow_ai_backend.Simulators.Replay.{
  FlowRow, Replay, station_buffer_rows, cursor_of, buffer_of, refill_station_buffer, pop_row,
  next_row,
}

module _ {A : Type 0} where
  -- The row at a place of the file.
  abbrev pub row_at : ℕ → List A → Option A
  row_at n [] = none
  row_at zero (x ∷ xs) = some x
  row_at (suc n) (x ∷ xs) = row_at n xs

  -- The first row of a window, and the window that is left.
  pub window_pop :
      (n k : ℕ) (xs : List A) (x : A) (ys : List A)
      → take k (drop n xs) ≡ x ∷ ys
      → (row_at n xs ≡ some x) × (ys ≡ take (k - 1) (drop (suc n) xs))
  window_pop zero zero xs x ys e = absurd (ground (arith, e))
  window_pop zero (suc k) [] x ys e = absurd (ground (arith, e))
  window_pop zero (suc k) (z ∷ zs) x ys e = ground (arith, e)
  window_pop (suc n) zero xs x ys e = absurd (ground (arith, e))
  window_pop (suc n) (suc k) [] x ys e = absurd (ground (arith, e))
  window_pop (suc n) (suc k) (z ∷ zs) x ys e = window_pop n (suc k) zs x ys e

  pub length-window : (n k : ℕ) (xs : List A) → n + k ≤ length xs → length (take k (drop n xs)) ≡ k
  length-window n zero xs h = refl
  length-window zero (suc k) [] h = absurd (omega (arith, h))
  length-window zero (suc k) (z ∷ zs) h = omega (arith, length-window zero k zs (omega (arith, h)))
  length-window (suc n) (suc k) [] h = absurd (omega (arith, h))
  length-window (suc n) (suc k) (z ∷ zs) h = length-window n (suc k) zs (omega (arith, h))

-- The place after a place: the first again after the last.
abbrev pub wrap : ℕ → ℕ → ℕ
wrap count p = if leb count p then 0 else p

module _ {Code : Type 0} (dec : Discrete Code) where
  -- The station is at a place among its rows: the buffer has those from there to the cursor.
  pub record IsAt (code : Code) (start count p : ℕ) (r : Replay Code) : Type 0 where
    pub indexed : lookup dec code r.index ≡ some (record { start = start; count = count })
    pub some_rows : 0 < count
    pub in_file : start + count ≤ length r.file
    pub cursor : ℕ
    pub at : cursor_of dec code r ≡ cursor
    pub le : p ≤ cursor
    pub cursor_le : cursor ≤ count
    pub buffered :
        lookup dec code r.rows_by_station ≡ some (take (cursor - p) (drop (start + p) r.file))

  pop_row-IsAt :
      (code : Code) (start count p : ℕ) (r : Replay Code) (h : IsAt code start count p r)
      (x : FlowRow Code) (ys : List (FlowRow Code))
      → p < h.cursor
      → take (h.cursor - p) (drop (start + p) r.file) ≡ x ∷ ys
      → IsAt code start count (suc p) (pop_row dec code (x ∷ ys) r).1
  pop_row-IsAt code start count p r h x ys lt e =
      let shorter : h.cursor - p - 1 ≡ h.cursor - suc p = omega arith in
      let further : suc (start + p) ≡ start + suc p = omega arith in
      record {
        indexed = h.indexed;
        some_rows = h.some_rows;
        in_file = h.in_file;
        cursor = h.cursor;
        at = h.at;
        le = omega (arith, lt);
        cursor_le = h.cursor_le;
        buffered =
            ground (arith, lookup-insert dec code code ys r.rows_by_station)
            ∙ ap some (
                (window_pop (start + p) (h.cursor - p) r.file x ys e).1
                ∙ (λ i. take (shorter i) (drop (further i) r.file)));
      }

  -- The rows that the file has from a place on, up to the size of a buffer.
  abbrev window : ℕ → ℕ → ℕ → List (FlowRow Code) → List (FlowRow Code)
  window start count place file =
      take (min station_buffer_rows (count - place)) (drop (start + place) file)

  abbrev refilled : Code → ℕ → ℕ → ℕ → Replay Code → Replay Code
  refilled code start count place r = record r {
    rows_by_station = insert dec code (window start count place r.file) r.rows_by_station;
    cursor = insert dec code (place + length (window start count place r.file)) r.cursor;
  }

  buffer_used_up :
      (code : Code) (start count p : ℕ) (r : Replay Code) (h : IsAt code start count p r)
      → p ≡ h.cursor
      → lookup dec code r.rows_by_station ≡ some []
  buffer_used_up code start count p r h e =
      h.buffered ∙ ap (λ k. some (take k (drop (start + p) r.file))) {y = 0} (omega (arith, e))

  refill_lem :
      (code : Code) (start count place : ℕ) (r : Replay Code)
      → lookup dec code r.index ≡ some (record { start = start; count = count })
      → 0 < count
      → lookup dec code r.rows_by_station ≡ some []
      → cursor_of dec code r ≡ place
      → (refill_station_buffer dec code r).1 ≡ refilled code start count (wrap count place) r
  unfolding refill_station_buffer
  refill_lem code start count place r indexed pos empty at =
      let not_zero : (count == 0) ≡ false = ground (arith, pos) in
      let drained : buffer_of dec code r ≡ [] = rw (buffer_of, empty) refl in
      rw (refill_station_buffer, indexed, at, not_zero, drained) refl

  pub wrap_lt : (count p : ℕ) → 0 < count → wrap count p < count
  wrap_lt count p h = ground (arith, h)

  -- A buffer that is used up is filled from the place after it.
  refilled-IsAt :
      (code : Code) (start count place : ℕ) (r : Replay Code)
      → lookup dec code r.index ≡ some (record { start = start; count = count })
      → place < count
      → start + count ≤ length r.file
      → (g : IsAt code start count place (refilled code start count place r)) × (place < g.cursor)
  refilled-IsAt code start count place r indexed lt fits =
      let size = min station_buffer_rows (count - place) in
      let filled : length (window start count place r.file) ≡ size =
        length-window (start + place) size r.file (ground (arith, fits, lt)) in
      let new = place + length (window start count place r.file) in
      let bounds : (new ≤ count) × (place < new) =
        (ground (arith, filled, lt), ground (arith, filled, lt)) in
      (
        record {
          indexed = indexed;
          some_rows = omega (arith, lt);
          in_file = fits;
          cursor = new;
          at = ground (arith, lookup-insert dec code code new r.cursor);
          le = omega (arith, bounds.1);
          cursor_le = bounds.0;
          buffered =
              lookup-insert_self dec code (window start count place r.file) r.rows_by_station
              ∙ ap (λ k. some (take k (drop (start + place) r.file))) {x = size} {y = new - place}
                  (omega (arith, filled));
        },
        bounds.1,
      )

  -- What is popped of a buffer that is not used up.
  popped :
      (code : Code) (start count p : ℕ) (r : Replay Code) (h : IsAt code start count p r)
      → p < h.cursor
      → ((pop_row dec code (buffer_of dec code r) r).0 ≡ row_at (start + p) r.file)
        × IsAt code start count (suc p) (pop_row dec code (buffer_of dec code r) r).1
        × ((pop_row dec code (buffer_of dec code r) r).1.file ≡ r.file)
  popped code start count p r h lt =
      let fits : start + p + (h.cursor - p) ≤ length r.file =
        omega (arith, h.in_file, h.cursor_le, lt) in
      let size = length-window (start + p) (h.cursor - p) r.file fits in
      let (x, ys, e) =
        has_head (take (h.cursor - p) (drop (start + p) r.file)) (omega (arith, size, lt)) in
      let buffer : buffer_of dec code r ≡ x ∷ ys = rw (buffer_of, h.buffered) e in
      rw buffer (
        sym (window_pop (start + p) (h.cursor - p) r.file x ys e).0,
        pop_row-IsAt code start count p r h x ys lt e,
        refl,
      )

  next_row_buffered :
      (code : Code) (start count p : ℕ) (r : Replay Code) (h : IsAt code start count p r)
      → p < h.cursor
      → next_row dec code r ≡ pop_row dec code (buffer_of dec code r) r
  unfolding next_row
  next_row_buffered code start count p r h lt =
      let fits : start + p + (h.cursor - p) ≤ length r.file =
        omega (arith, h.in_file, h.cursor_le, lt) in
      let size = length-window (start + p) (h.cursor - p) r.file fits in
      let (x, ys, e) =
        has_head (take (h.cursor - p) (drop (start + p) r.file)) (omega (arith, size, lt)) in
      let found : lookup dec code r.rows_by_station ≡ some (x ∷ ys) = h.buffered ∙ ap some e in
      rw (next_row, buffer_of, found) refl

  -- The next row of a station that is at a place is the row of that place, or the first of the
  -- station's rows after the last one, and the station is at the place after it.
  pub next_row-IsAt :
      (code : Code) (start count p : ℕ) (r : Replay Code)
      → IsAt code start count p r
      → ((next_row dec code r).0 ≡ row_at (start + wrap count p) r.file)
        × IsAt code start count (suc (wrap count p)) (next_row dec code r).1
        × ((next_row dec code r).1.file ≡ r.file)
  unfolding next_row
  next_row-IsAt code start count p r h = elim (Bool-cases (leb h.cursor p)) [
    | inl b ↦
        let end : p ≡ h.cursor = ground (arith, b, h.le) in
        let used = buffer_used_up code start count p r h end in
        let lt = wrap_lt count p h.some_rows in
        let (g, room) = refilled-IsAt code start count (wrap count p) r h.indexed lt h.in_file in
        rw
          (
            next_row,
            used,
            refill_lem code start count p r h.indexed h.some_rows used (h.at ∙ sym end),
          )
          (popped code start count (wrap count p) (refilled code start count (wrap count p) r) g
            room)
    | inr b ↦
        let lt : p < h.cursor = ground (arith, b) in
        let same : wrap count p ≡ p = ground (arith, lt, h.cursor_le) in
        rw (next_row_buffered code start count p r h lt, same) (popped code start count p r h lt)
  ]
